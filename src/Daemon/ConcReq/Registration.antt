-- ===== src/Daemon/ConcReq/Registration.antt =====
-- `addNamespace`, `removeNamespace` and the reset of the scaling flag in conc_req_monitoring.go, against
-- the state that the kprobe needs.
use swarm_autoscaler.Base.{ℕ, ◌≡◌, true, false, none, some, arith, inl, inr, Option-cases}
use swarm_autoscaler.Bpf.Maps.{BpfMaps, any}
use swarm_autoscaler.Bpf.ConcReq.{Limits, limits}
use swarm_autoscaler.Bpf.ConcReq.Monitor.{Monitor}
use swarm_autoscaler.Bpf.ConcReq.Refinement.{Tracks}
use swarm_autoscaler.Bpf.ConcReq.Trace.{IsReady}
use swarm_autoscaler.Daemon.ConcReq.{
  Listener, NamespaceContext, done, add_namespace_to_scaling_map, add_namespace, remove_namespace,
}

module _ (B : BpfMaps) where
  -- Registering a namespace makes the kprobe count it from 0, under the limits that are stored, and
  -- routes its messages to the new monitor; the entries of the buffer map stay.
  pub add_namespace-IsReady :
      (d e : Listener B) (n : ℕ) (c : NamespaceContext) (l : Limits)
      → limits B d.kernel.constants ≡ some l
      → add_namespace B d n c ≡ done e
      → IsReady B e.kernel n l
        × (B.lookup e.kernel.conn_count n ≡ some 0)
        × (e.kernel.buffer ≡ d.kernel.buffer)
        × (e.contexts n ≡ some c)
  unfolding add_namespace
  add_namespace-IsReady d e n c l h k = elim (Option-cases (B.update d.kernel.conn_count n 0 any)) [
    | inl f ↦ absurd (ground arith)
    | inr (counts, e1) ↦ elim (Option-cases (B.update d.kernel.valid_netns n 1 any)) [
      | inl f ↦ absurd (ground arith)
      | inr (valid, e2) ↦
          let count = B.lookup-update d.kernel.conn_count n 0 any counts n e1 in
          let mark = B.lookup-update d.kernel.valid_netns n 1 any valid n e2 in
          (
            record { mark = 1; valid = ground (arith, mark); limited = ground arith },
            ground (arith, count),
            ground arith,
            ground arith,
          )
    ]
  ]

  -- Resetting the flag of a namespace that is tracked arms its monitor again, with the count and the
  -- buffer as they were.
  pub reset-Tracks :
      (d : Listener B) (n : ℕ) (m : Monitor)
      → Tracks B d.kernel n m
      → Tracks B (add_namespace_to_scaling_map B d n).kernel n (record m { scaling = 0 })
  unfolding add_namespace_to_scaling_map
  reset-Tracks d n m t =
      let (scaling, e) = B.update_present d.kernel.scaling n 0 m.scaling t.at_scaling in
      ground (arith, e, B.lookup-update d.kernel.scaling n 0 any scaling n e)

  -- Removing a namespace whose three entries are there takes them all out, with its context, and no
  -- error is returned.
  pub remove_namespace_tracked :
      (d : Listener B) (n c b v : ℕ)
      → B.lookup d.kernel.conn_count n ≡ some c
      → B.lookup d.kernel.buffer n ≡ some b
      → B.lookup d.kernel.valid_netns n ≡ some v
      → ((remove_namespace B d n).1 ≡ false)
        × (B.lookup (remove_namespace B d n).0.kernel.conn_count n ≡ none)
        × (B.lookup (remove_namespace B d n).0.kernel.buffer n ≡ none)
        × (B.lookup (remove_namespace B d n).0.kernel.valid_netns n ≡ none)
        × ((remove_namespace B d n).0.contexts n ≡ none)
  unfolding remove_namespace
  remove_namespace_tracked d n c b v hc hb hv =
      let (counts, e1) = B.delete_present d.kernel.conn_count n c hc in
      let (buffer, e2) = B.delete_present d.kernel.buffer n b hb in
      let (valid, e3) = B.delete_present d.kernel.valid_netns n v hv in
      ground (
        arith,
        B.lookup-delete d.kernel.conn_count n counts n e1,
        B.lookup-delete d.kernel.buffer n buffer n e2,
        B.lookup-delete d.kernel.valid_netns n valid n e3,
      )

  -- Removing a namespace in which the kprobe has not reached the buffer map fails half way: an error is
  -- returned, and the namespace stays registered with the kprobe and with the daemon.
  remove_namespace_unbuffered :
      (d : Listener B) (n : ℕ)
      → B.lookup d.kernel.buffer n ≡ none
      → ((remove_namespace B d n).1 ≡ true)
        × ((remove_namespace B d n).0.kernel.valid_netns ≡ d.kernel.valid_netns)
        × ((remove_namespace B d n).0.contexts ≡ d.contexts)
  unfolding remove_namespace
  remove_namespace_unbuffered d n h = ground (arith, B.delete_absent d.kernel.buffer n h)
