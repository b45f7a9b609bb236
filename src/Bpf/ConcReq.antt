-- ===== src/Bpf/ConcReq.antt =====
-- autoscaler/conc_req_monitoring/bpf/conc_req_monitoring.c: the kprobe that counts the connections of
-- a network namespace and asks the daemon to scale. The proofs are in the modules below.
pub mod Monitor
pub mod Refinement
pub mod Frame
pub mod Trace
pub mod Netns
pub mod Debounce
pub mod First
pub mod Safety
pub mod Race
use swarm_autoscaler.Base.{
  ℕ, ◌+◌, ◌-◌, Bool, ◌||◌, not, Option, none, some, List, [], ◌∷◌, ◌++◌, ltb, leb, ◌==◌,
  if◌then◌else◌, or_keep, u32,
}
use swarm_autoscaler.Bpf.Maps.{BpfMaps, any, noexist}
use swarm_autoscaler.Bpf.Kernel.{Memory, Offsets, core_read}

-- the states of a TCP socket that the program names
abbrev pub tcp_established : ℕ
tcp_established = 1

abbrev pub tcp_close : ℕ
tcp_close = 7

abbrev pub tcp_close_wait : ℕ
tcp_close_wait = 8

abbrev pub tcp_last_ack : ℕ
tcp_last_ack = 9

-- `struct data_t`
pub record Data : Type 0 where
  pub netns : ℕ
  pub message : List ℕ

abbrev pub lower_message : List ℕ
lower_message = b'L' ∷ b'o' ∷ b'w' ∷ b'e' ∷ b'r' ∷ 0 ∷ []

abbrev pub upper_message : List ℕ
upper_message = b'U' ∷ b'p' ∷ b'p' ∷ b'e' ∷ b'r' ∷ 0 ∷ []

-- The maps of the program, and the records given to `bpf_perf_event_output`, in order.
pub record Maps (B : BpfMaps) : Type 0 where
  pub conn_count : B.Map
  pub constants : B.Map
  pub buffer : B.Map
  pub scaling : B.Map
  pub valid_netns : B.Map
  pub events : List Data

pub record Limits : Type 0 where
  pub lower : ℕ
  pub upper : ℕ
  pub buffer_length : ℕ

-- One firing of the kprobe: `ctx`, what `bpf_get_current_task` returns, and the memory then.
pub record Call : Type 0 where
  pub ctx : ℕ
  pub task : ℕ
  pub mem : Memory

unfoldable pub get_netns_from_task : Offsets → Memory → ℕ → ℕ
unfolding core_read
get_netns_from_task o mem task =
    let ns = core_read mem (task + o.task_nsproxy) 8 in
    let net = core_read mem (ns + o.nsproxy_net_ns) 8 in
    if not (ns == 0)
    then (if not (net == 0) then core_read mem (net + o.net_ns_inum) 4 else 0)
    else 0

-- What happens to `*count`, if it is stored to, and `new_value`. The third test of the source is the
-- constant TCP_LAST_ACK and not a comparison.
unfoldable pub bump : ℕ → ℕ → Option ℕ × ℕ
bump state count =
    if state == tcp_established
    then (some (u32 (count + 1)), u32 (count + 1))
    else (if state == tcp_close || (state == tcp_close_wait || not (tcp_last_ack == 0))
        then (if ltb 0 count then (some (count - 1), count - 1) else (none, 0))
        else (none, 0))

unfoldable pub breaches : Limits → ℕ → Bool
breaches l value = leb value l.lower || leb l.upper value

next_buffer : Limits → ℕ → ℕ → ℕ
unfolding breaches
next_buffer l value b = if breaches l value then u32 (b + 1) else 0

scaling_on : Option ℕ → Bool
scaling_on none = Bool.false
scaling_on (some v) = v == 1

unfoldable pub event : Limits → ℕ → ℕ → Data
event l netns value = record {
  netns = netns;
  message = if leb value l.lower then lower_message else upper_message;
}

module _ (B : BpfMaps) where
  -- All three constants, or the early return.
  unfoldable pub limits : B.Map → Option Limits
  limits constants = elim (B.lookup constants 0) [
    | none ↦ none
    | some lo ↦ elim (B.lookup constants 1) [
      | none ↦ none
      | some hi ↦ elim (B.lookup constants 2) [
        | none ↦ none
        | some len ↦ some (record { lower = lo; upper = hi; buffer_length = len })
      ]
    ]
  ]

  store : B.Map → ℕ → Option ℕ → B.Map
  store m k none = m
  store m k (some v) = B.write m k v

  -- `*count` is the entry of the map, or `zero32` on the stack where the lookup found none.
  unfoldable pub count_connection : B.Map → ℕ → ℕ → B.Map × ℕ
  unfolding bump store
  count_connection m netns state = elim (B.lookup m netns) [
    | some count ↦ (store m netns (bump state count).0, (bump state count).1)
    | none ↦ (or_keep m (B.update m netns 0 noexist), (bump state 0).1)
  ]

  -- `*buffer`, counted up or cleared and written back; the map and the value.
  pub track_buffer : B.Map → ℕ → Limits → ℕ → B.Map × ℕ
  unfolding next_buffer
  track_buffer m netns l value = elim (B.lookup m netns) [
    | some b ↦
        let m' = B.write m netns (next_buffer l value b) in
        (or_keep m' (B.update m' netns (next_buffer l value b) any), next_buffer l value b)
    | none ↦
        let m' = or_keep m (B.update m netns 0 noexist) in
        (or_keep m' (B.update m' netns (next_buffer l value 0) any), next_buffer l value 0)
  ]

  -- the block under `if (*buffer == *bufferLength)`
  trigger : Maps B → Limits → ℕ → ℕ → Maps B
  unfolding event
  trigger s l netns value = record s {
    scaling = or_keep s.scaling (B.update s.scaling netns 1 any);
    events = s.events ++ event l netns value ∷ [];
    buffer = or_keep s.buffer (B.update s.buffer netns 0 any);
  }

  -- from the lookup in `buffer_map` to the end
  debounce : Maps B → Limits → ℕ → ℕ → Maps B
  unfolding track_buffer trigger
  debounce s l netns value =
      let (m, b) = track_buffer s.buffer netns l value in
      let s' = record s { buffer = m } in
      if b == l.buffer_length then trigger s' l netns value else s'

  -- from the lookup in `conn_count_map` to the end
  unfoldable pub observe : Maps B → Limits → ℕ → ℕ → Maps B
  unfolding count_connection debounce scaling_on
  observe s l netns state =
      let (m, value) = count_connection s.conn_count netns state in
      let s' = record s { conn_count = m } in
      if scaling_on (B.lookup s.scaling netns) then s' else debounce s' l netns value

  unfoldable pub kprobe_tcp_recvmsg : Offsets → Maps B → Call → Maps B
  kprobe_tcp_recvmsg o s c =
      let netns = get_netns_from_task o c.mem c.task in
      let sk = core_read c.mem (c.ctx + o.regs_di) 8 in
      let state = core_read c.mem (sk + o.sock_state) 1 in
      if sk == 0 then s else elim (B.lookup s.valid_netns netns) [
        | none ↦ s
        | some _ ↦ elim (limits s.constants) [ none ↦ s | some l ↦ observe s l netns state ]
      ]
