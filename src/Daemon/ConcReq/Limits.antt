-- ===== src/Daemon/ConcReq/Limits.antt =====
-- The limits that `InitBPFListener` of conc_req_monitoring.go stores for the kprobe.
use swarm_autoscaler.Base.{
  ℕ, ◌≡◌, ◌<◌, ◌^◌, true, negsuc, to_uint32, some, arith, inl, inr, Option-cases,
}
use swarm_autoscaler.Bpf.Maps.{BpfMaps, any}
use swarm_autoscaler.Bpf.ConcReq.{Maps, lower_message, limits}
use swarm_autoscaler.Bpf.ConcReq
use swarm_autoscaler.Bpf.ConcReq.Monitor.{is_outside, message}
use swarm_autoscaler.Daemon.ConcReq.{ConcReqResource, done, init_constants}

abbrev pub stored : ConcReqResource → ConcReq.Limits
stored r = record {
  lower = to_uint32 r.lower_limit;
  upper = to_uint32 r.upper_limit;
  buffer_length = to_uint32 r.buffer_length;
}

-- If the three updates succeed, the kprobe finds the three limits, each modulo 2^32.
pub limits-init_constants :
    (B : BpfMaps) (m n : B.Map) (r : ConcReqResource)
    → init_constants B m r ≡ done n
    → limits B n ≡ some (stored r)
unfolding init_constants limits
limits-init_constants B m n r e = elim (Option-cases (B.update m 0 (to_uint32 r.lower_limit) any)) [
  | inl f ↦ absurd (ground arith)
  | inr (m1, e1) ↦ elim (Option-cases (B.update m1 1 (to_uint32 r.upper_limit) any)) [
    | inl f ↦ absurd (ground arith)
    | inr (m2, e2) ↦ elim (Option-cases (B.update m2 2 (to_uint32 r.buffer_length) any)) [
      | inl f ↦ absurd (ground arith)
      | inr (m3, e3) ↦ ground (
        arith,
        B.lookup-update m 0 (to_uint32 r.lower_limit) any m1 0 e1,
        B.lookup-update m1 1 (to_uint32 r.upper_limit) any m2 0 e2,
        B.lookup-update m1 1 (to_uint32 r.upper_limit) any m2 1 e2,
        B.lookup-update m2 2 (to_uint32 r.buffer_length) any m3 0 e3,
        B.lookup-update m2 2 (to_uint32 r.buffer_length) any m3 1 e3,
        B.lookup-update m2 2 (to_uint32 r.buffer_length) any m3 2 e3,
      )
    ]
  ]
]

-- With the lower limit left at its default, -1, every number of connections is out of the limits, on
-- the lower side, whatever the upper limit is.
upper_only_always_lower :
    (r : ConcReqResource) (value : ℕ)
    → r.lower_limit ≡ negsuc 0
    → value < 2 ^ 32
    → (is_outside (stored r) value ≡ true) × (message (stored r) value ≡ lower_message)
upper_only_always_lower r value h b = rw h (ground arith, ground arith)
