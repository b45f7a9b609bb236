-- ===== src/Bpf/ConcReq/First.antt =====
-- The first firing of the kprobe of conc_req_monitoring.c in a namespace that the daemon has registered:
-- its entry in `buffer_map` is not there yet.
use mathlib.Core.List.{append-nil}
use swarm_autoscaler.Base.{ℕ, ◌≡◌, ◌≢◌, true, none, some, List, [], ◌∷◌, ◌++◌, arith, to_list}
use swarm_autoscaler.Bpf.Maps.{BpfMaps, noexist}
use swarm_autoscaler.Bpf.Kernel.{Offsets}
use swarm_autoscaler.Bpf.ConcReq.{
  Maps, Limits, Call, breaches, next_buffer, track_buffer, scaling_on, trigger, event, debounce,
  observe, kprobe_tcp_recvmsg,
}
use swarm_autoscaler.Bpf.ConcReq.Frame.{messages_of, messages_of-append}
use swarm_autoscaler.Bpf.ConcReq.Monitor.{Monitor, next_count, step, pressure, run}
use swarm_autoscaler.Bpf.ConcReq.Refinement.{Tracks, lookup-count_connection, lookup-or_keep-update}
use swarm_autoscaler.Bpf.ConcReq.Trace.{
  IsReady, Holds, Holds-trans, probes, probes-Holds, states_at, states_at-cons, is_seen, state_of,
  kprobe_seen, observe-IsReady,
}

-- What the registration leaves: the count, no buffer but room for one, the flag down.
pub record IsFresh (B : BpfMaps) (s : Maps B) (n count scaling : ℕ) : Type 0 where
  pub at_count : B.lookup s.conn_count n ≡ some count
  pub at_scaling : B.lookup s.scaling n ≡ some scaling
  pub no_buffer : B.lookup s.buffer n ≡ none
  pub down : scaling ≢ 1
  pub grown : B.Map
  pub room : B.update s.buffer n 0 noexist ≡ some grown

module _ (B : BpfMaps) where
  lookup-track_buffer_new :
      (m grown : B.Map) (n value : ℕ) (l : Limits)
      → B.lookup m n ≡ none
      → B.update m n 0 noexist ≡ some grown
      → (B.lookup (track_buffer B m n l value).0 n ≡ some (next_buffer l value 0))
        × ((track_buffer B m n l value).1 ≡ next_buffer l value 0)
  unfolding track_buffer
  lookup-track_buffer_new m grown n value l h room = ground (
    arith,
    B.lookup-update m n 0 noexist grown n room,
    lookup-or_keep-update B grown n (next_buffer l value 0) 0 n,
  )

  observe-first :
      (s : Maps B) (n state count scaling : ℕ) (l : Limits)
      → IsFresh B s n count scaling
      → Tracks B
          (observe B s l n state)
          n
          (step l (record { count = count; buffer = 0; scaling = scaling }) state).0
        × (messages_of n (observe B s l n state).events
            ≡ messages_of n s.events
              ++ to_list (step l (record { count = count; buffer = 0; scaling = scaling }) state).1)
  unfolding observe debounce trigger step pressure next_buffer scaling_on breaches messages_of event
  observe-first s n state count scaling l f =
      let value = next_count state count in
      ground (
        arith,
        lookup-count_connection B s.conn_count n count state n,
        lookup-track_buffer_new s.buffer f.grown n value l,
        lookup-or_keep-update B s.scaling n 1 scaling n,
        lookup-or_keep-update B (track_buffer B s.buffer n l value).0 n 0 (next_buffer l value 0) n,
        messages_of-append n s.events (event l n value ∷ []),
        append-nil (messages_of n s.events),
      )

module _ (B : BpfMaps) (o : Offsets) (n : ℕ) (l : Limits) where
  first-Holds :
      (s : Maps B) (c : Call) (count scaling : ℕ)
      → IsReady B s n l
      → IsFresh B s n count scaling
      → is_seen o n c ≡ true
      → Holds B o n l s
          (kprobe_tcp_recvmsg B o s c)
          (record { count = count; buffer = 0; scaling = scaling })
          (states_at o n (c ∷ []))
  unfolding states_at run
  first-Holds s c count scaling r f e =
      let next = observe-first B s n (state_of o c) count scaling l f in
      rw (e, kprobe_seen B o n l s c r e)
        (record {
          ready = observe-IsReady B o n l s n (state_of o c) r;
          tracked = next.0;
          sent = rw append-nil next.1;
        })

  -- From the first firing in a namespace that was registered afresh, the kprobe implements the monitor
  -- that starts with the registered count and an empty buffer, over any further firings anywhere.
  pub fresh_probes-Holds :
      (s : Maps B) (c : Call) (cs : List Call) (count scaling : ℕ)
      → IsReady B s n l
      → IsFresh B s n count scaling
      → is_seen o n c ≡ true
      → Holds B o n l s
          (probes B o s (c ∷ cs))
          (record { count = count; buffer = 0; scaling = scaling })
          (states_at o n (c ∷ cs))
  unfolding probes
  fresh_probes-Holds s c cs count scaling r f e =
      let m : Monitor = record { count = count; buffer = 0; scaling = scaling } in
      let first = first-Holds s c count scaling r f e in
      let rest = probes-Holds B o n l (kprobe_tcp_recvmsg B o s c) cs _ first.ready first.tracked in
      rw (states_at-cons B o n l c cs) (
        Holds-trans B o n l s (kprobe_tcp_recvmsg B o s c) _ m (states_at o n (c ∷ []))
          (states_at o n cs) first rest)
