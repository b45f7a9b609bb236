-- ===== src/Bpf/ConcReq/Race.antt =====
-- The kprobe of bpf/conc_req_monitoring.c on several CPUs at once, one access to a shared entry at a
-- time. All firings are in one namespace that is registered and has its three entries; an update of an
-- entry writes it in place. The proofs are in the modules below.
pub mod Bound
pub mod Twice
pub mod Alone
use swarm_autoscaler.Base.{
  ℕ, zero, suc, ◌+◌, ◌-◌, ◌<◌, ◌≡◌, Bool, true, false, Option, none, some, List, [], ◌∷◌, ◌++◌, ltb,
  leb, ◌==◌, if◌then◌else◌, u32,
}
use swarm_autoscaler.Base.Family.{set_at}
use swarm_autoscaler.Bpf.ConcReq.{Data, Limits, tcp_established, breaches, event}

-- The entries of the namespace in `conn_count_map`, `buffer_map` and `scaling_map`, and the records that
-- were sent for it.
pub record Shared : Type 0 where
  pub count : ℕ
  pub buffer : ℕ
  pub scaling : ℕ
  pub events : List Data

-- Where a CPU stands, with the values that it has read; `value` is `new_value`.
pub data Pc : Type 0 where
  idle : Pc
  -- before the first access to `*count`
  entered : (state : ℕ) → Pc
  -- between the load and the store of `(*count)++` and of `(*count)--`
  incrementing : (loaded : ℕ) → Pc
  decrementing : (loaded : ℕ) → Pc
  -- `*count > 0` held
  guarded : Pc
  -- before `new_value = *count`
  rereading : Pc
  -- before the test of `*scaling`
  checking : (value : ℕ) → Pc
  -- before the test of the limits
  deciding : (value : ℕ) → Pc
  -- between the load and the store of `(*buffer)++`
  buffering : (value loaded : ℕ) → Pc
  -- before the load and the store of `bpf_map_update_elem(&buffer_map, …, buffer, …)`
  copying : (value : ℕ) → Pc
  writing : (value loaded : ℕ) → Pc
  -- before the test of `*buffer == *bufferLength`
  comparing : (value : ℕ) → Pc
  -- before the update of `scaling_map`, the output, and the last update of `buffer_map`
  raising : (value : ℕ) → Pc
  sending : (value : ℕ) → Pc
  clearing : Pc

-- The next access of a CPU that is not idle.
unfoldable pub turn : ℕ → Limits → Shared → Pc → Shared × Pc
unfolding breaches event
turn netns l s idle = (s, idle)
turn netns l s (entered state) =
    if state == tcp_established
    then (s, incrementing s.count)
    else (if ltb 0 s.count then (s, guarded) else (s, checking 0))
turn netns l s (incrementing loaded) = (record s { count = u32 (loaded + 1) }, rereading)
turn netns l s guarded = (s, decrementing s.count)
turn netns l s (decrementing loaded) = (record s { count = u32 (loaded + 4294967295) }, rereading)
turn netns l s rereading = (s, checking s.count)
turn netns l s (checking value) = if s.scaling == 1 then (s, idle) else (s, deciding value)
turn netns l s (deciding value) =
    if breaches l value
    then (s, buffering value s.buffer)
    else (record s { buffer = 0 }, copying value)
turn netns l s (buffering value loaded) = (record s { buffer = u32 (loaded + 1) }, copying value)
turn netns l s (copying value) = (s, writing value s.buffer)
turn netns l s (writing value loaded) = (record s { buffer = loaded }, comparing value)
turn netns l s (comparing value) =
    if s.buffer == l.buffer_length then (s, raising value) else (s, idle)
turn netns l s (raising value) = (record s { scaling = 1 }, sending value)
turn netns l s (sending value) =
    (record s { events = s.events ++ event l netns value ∷ [] }, clearing)
turn netns l s clearing = (record s { buffer = 0 }, idle)

pub record System : Type 0 where
  pub mem : Shared
  pub pc : ℕ → Pc

-- One of `n` CPUs enters the kprobe with a socket in some state, or makes its next access.
pub data Step (netns : ℕ) (l : Limits) (n : ℕ) (s : System) : System → Type 0 where
  enter :
      (i state : ℕ)
      → i < n
      → s.pc i ≡ idle
      → Step netns l n s (record { mem = s.mem; pc = set_at s.pc i (entered state) })
  move :
      (i : ℕ)
      → i < n
      → Step netns l n s (record {
        mem = (turn netns l s.mem (s.pc i)).0;
        pc = set_at s.pc i (turn netns l s.mem (s.pc i)).1;
      })

pub data Reach (netns : ℕ) (l : Limits) (n : ℕ) (s : System) : System → Type 0 where
  start : Reach netns l n s s
  later : {t u : System} → Reach netns l n s t → Step netns l n t u → Reach netns l n s u
