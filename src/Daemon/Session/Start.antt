-- ===== src/Daemon/Session/Start.antt =====
-- The start of `Monitor` in conc_req_monitoring.go, and the kprobe of conc_req_monitoring.c after it.
use Prim.Native.String.{String}
use swarm_autoscaler.Base.{
  ℕ, ◌≡◌, true, none, some, List, ◌∷◌, arith, inl, inr, Option-cases, or_keep,
}
use swarm_autoscaler.Bpf.Maps.{BpfMaps, any, noexist}
use swarm_autoscaler.Bpf.Kernel.{Offsets}
use swarm_autoscaler.Bpf.ConcReq.{Maps, Limits, Call, limits}
use swarm_autoscaler.Bpf.ConcReq.First.{IsFresh, fresh_probes-Holds}
use swarm_autoscaler.Bpf.ConcReq.Trace.{Holds, probes, states_at, is_seen}
use swarm_autoscaler.Daemon.ConcReq.{
  Listener, NamespaceContext, done, add_namespace, add_namespace_to_scaling_map,
}
use swarm_autoscaler.Daemon.ConcReq.Registration.{add_namespace-IsReady}
use swarm_autoscaler.Daemon.Session.{start_monitor}

-- The namespace has no entry in the buffer map, and the two maps have room for it.
pub record HasRoom (B : BpfMaps) (s : Maps B) (n : ℕ) : Type 0 where
  pub no_buffer : B.lookup s.buffer n ≡ none
  pub grown : B.Map
  pub buffer_room : B.update s.buffer n 0 noexist ≡ some grown
  pub flagged : B.Map
  pub scaling_room : B.update s.scaling n 0 any ≡ some flagged

module _ (B : BpfMaps) where
  add_namespace-scaling :
      (d e : Listener B) (n : ℕ) (c : NamespaceContext)
      → add_namespace B d n c ≡ done e
      → e.kernel.scaling ≡ or_keep d.kernel.scaling (B.update d.kernel.scaling n 0 any)
  unfolding add_namespace add_namespace_to_scaling_map
  add_namespace-scaling d e n c k = elim (Option-cases (B.update d.kernel.conn_count n 0 any)) [
    | inl f ↦ absurd (ground arith)
    | inr (counts, e1) ↦ elim (Option-cases (B.update d.kernel.valid_netns n 1 any)) [
      | inl f ↦ absurd (ground arith)
      | inr (valid, e2) ↦ ground arith
    ]
  ]

  -- From the start of a monitor that succeeds, under stored limits, with room in the maps and no old entry
  -- for the buffer, the kprobe implements the monitor of the namespace with no connections and an empty
  -- buffer, from the first firing in the namespace on and over any others; its messages go to the new
  -- monitor.
  pub start_monitor-Holds :
      (o : Offsets) (d e : Listener B) (id : String) (n : ℕ) (ctx : NamespaceContext) (l : Limits)
      (c : Call) (cs : List Call)
      → limits B d.kernel.constants ≡ some l
      → HasRoom B d.kernel n
      → start_monitor B d (some id) (some n) ctx ≡ done e
      → is_seen o n c ≡ true
      → Holds B o n l e.kernel
          (probes B o e.kernel (c ∷ cs))
          (record { count = 0; buffer = 0; scaling = 0 })
          (states_at o n (c ∷ cs))
        × (e.contexts n ≡ some ctx)
  unfolding start_monitor
  start_monitor-Holds o d e id n ctx l c cs h room k seen =
      let (ready, count, same, context) = add_namespace-IsReady B d e n ctx l h k in
      let flag = add_namespace-scaling d e n ctx k in
      let fresh : IsFresh B e.kernel n 0 0 = record {
        at_count = count;
        at_scaling = ground (
          arith,
          flag,
          room.scaling_room,
          B.lookup-update d.kernel.scaling n 0 any room.flagged n room.scaling_room,
        );
        no_buffer = rw same room.no_buffer;
        down = λ f. absurd (omega (arith, f));
        grown = room.grown;
        room = rw same room.buffer_room;
      } in
      (fresh_probes-Holds B o n l e.kernel c cs 0 0 ready fresh seen, context)
