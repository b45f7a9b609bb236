-- ===== src/Daemon/ConcReq/Decoding.antt =====
-- What the daemon reads from a sample of the kprobe: conc_req_monitoring.go against
-- bpf/conc_req_monitoring.c.
use swarm_autoscaler.Base.{
  ℕ, ◌+◌, ◌*◌, ◌%◌, ◌/◌, ◌≡◌, refl, ◌<◌, ◌^◌, Bool, false, Option, some, List, [], ◌∷◌, ◌++◌, arith,
  if◌then◌else◌, leb, le_bytes, inl, inr, Bool-cases,
}
use swarm_autoscaler.Bpf.ConcReq
use swarm_autoscaler.Bpf.ConcReq.{Data, event, lower_message, upper_message}
use swarm_autoscaler.Daemon.ConcReq.{NamespaceContext, direction_of, dispatch}

-- The bytes of a `struct data_t`: the number, the message and two bytes of padding.
abbrev pub sample_of : Data → List ℕ
sample_of d = le_bytes 4 d.netns ++ d.message ++ 0 ∷ 0 ∷ []

pub little_endian :
    (n : ℕ)
    → n < 2 ^ 32
    → n % 256
        + 256 * (n / 256 % 256)
        + 65536 * (n / 256 / 256 % 256)
        + 16777216 * (n / 256 / 256 / 256 % 256)
      ≡ n
little_endian n h = omega arith

-- A message of the kprobe reaches the monitor of its namespace, if that is still running, as the
-- direction that the kprobe meant: under where the value was at most the lower limit, over otherwise.
pub dispatch-event :
    (l : ConcReq.Limits) (n value : ℕ) (contexts : ℕ → Option NamespaceContext)
    (cancelled : ℕ → Bool) (c : NamespaceContext)
    → n < 2 ^ 32
    → contexts n ≡ some c
    → cancelled c.ctx ≡ false
    → (dispatch contexts cancelled 0 (sample_of (event l n value))
        ≡ some (c.signal, (event l n value).message))
      × (direction_of (event l n value).message ≡ (if leb value l.lower then "under" else "over"))
unfolding dispatch event direction_of
dispatch-event l n value contexts cancelled c h e k = elim (Bool-cases (leb value l.lower)) [
  | inl low ↦ rw (low, little_endian n h, e, k) (refl, refl)
  | inr high ↦ rw (high, little_endian n h, e, k) (refl, refl)
]
