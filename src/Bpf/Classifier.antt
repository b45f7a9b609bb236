-- ===== src/Bpf/Classifier.antt =====
-- autoscaler/bpf_port_listen/bpf/tc-port-monitor.c: the classifier on the interface, which reports
-- packets to the ports that the daemon listens on.
pub mod Headers
use swarm_autoscaler.Base.{
  ℕ, zero, suc, ◌+◌, ◌*◌, ◌/◌, ◌%◌, ◌≡◌, not, Option, none, some, List, [], ◌∷◌, ◌++◌, ltb, ◌==◌,
  if◌then◌else◌, length, get_elem?,
}
use swarm_autoscaler.Bpf.Maps.{BpfMaps}

-- `struct __sk_buff`: the bytes from `data` to `data_end`
abbrev pub Packet : Type 0
Packet = List ℕ

abbrev pub eth_size : ℕ
eth_size = 14

abbrev pub ip_size : ℕ
ip_size = 20

abbrev pub tcp_size : ℕ
tcp_size = 20

abbrev pub eth_p_ip : ℕ
eth_p_ip = 0x0800

abbrev pub ipproto_tcp : ℕ
ipproto_tcp = 6

abbrev pub tc_act_ok : ℕ
tc_act_ok = 0

-- `__constant_htons` and `__builtin_bswap16`
abbrev pub bswap16 : ℕ → ℕ
bswap16 x = x % 256 * 256 + x / 256 % 256

-- A fault is a read past the end of the packet.
infixl 5 ◌>>=◌
abbrev pub ◌>>=◌ {ℓ κ} : {A : Type ℓ} {B : Type κ} → Option A → (A → Option B) → Option B
none >>= f = none
some a >>= f = f a

-- A 16-bit field, in the byte order of the machine.
abbrev pub load16 : Packet → ℕ → Option ℕ
load16 p i = do a ← get_elem? p i; b ← get_elem? p (i + 1); some (a + 256 * b)

module _ (B : BpfMaps) where
  -- from the lookup of the port on: the values given to `bpf_perf_event_output`, and the verdict
  report : B.Map → ℕ → List ℕ × ℕ
  report ports port = elim (B.lookup ports port) [
    | none ↦ ([], tc_act_ok)
    | some _ ↦ (port ∷ [], tc_act_ok)
  ]

  -- from the check of the TCP header on
  from_tcp : B.Map → Packet → Option (List ℕ × ℕ)
  unfolding report
  from_tcp ports p =
      if ltb (length p) (eth_size + ip_size + tcp_size)
      then some ([], tc_act_ok)
      else (load16 p (eth_size + ip_size + 2) >>= λ dest. some (report ports (bswap16 dest)))

  -- from the check of the IP header on
  from_ip : B.Map → Packet → Option (List ℕ × ℕ)
  unfolding from_tcp
  from_ip ports p =
      if ltb (length p) (eth_size + ip_size)
      then some ([], tc_act_ok)
      else (get_elem? p (eth_size + 9) >>= λ protocol.
          if not (protocol == ipproto_tcp) then some ([], tc_act_ok) else from_tcp ports p)

  -- `none` is a fault.
  unfoldable pub port_classifier : B.Map → Packet → Option (List ℕ × ℕ)
  unfolding from_ip
  port_classifier ports p =
      if ltb (length p) eth_size
      then some ([], tc_act_ok)
      else (load16 p 12 >>= λ proto.
          if not (proto == bswap16 eth_p_ip) then some ([], tc_act_ok) else from_ip ports p)
