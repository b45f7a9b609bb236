-- ===== src/Bpf/ConcReq/Safety.antt =====
-- What the kprobe of conc_req_monitoring.c guarantees over any sequence of firings.
use mathlib.Core.List.{append-nil}
use swarm_autoscaler.Base.{
  ℕ, ◌+◌, ◌^◌, ◌≤◌, ◌<◌, ◌≡◌, ◌≢◌, refl, ◌∙◌, none, some, List, [], ◌∷◌, ◌++◌, arith, ◌⊎◌, ap,
  length, length-append, inl, inr, Option-cases,
}
use swarm_autoscaler.Bpf.Maps.{BpfMaps, noexist}
use swarm_autoscaler.Bpf.Kernel.{Offsets}
use swarm_autoscaler.Bpf.ConcReq.{
  Maps, Limits, Call, tcp_established, bump, limits, count_connection, kprobe_tcp_recvmsg,
}
use swarm_autoscaler.Bpf.ConcReq.Monitor.{Monitor, message, run}
use swarm_autoscaler.Bpf.ConcReq.Debounce.{
  run_once, run_quiet, run_fires, run_below, AllOutside, counted,
}
use swarm_autoscaler.Bpf.ConcReq.Refinement.{Tracks}
use swarm_autoscaler.Bpf.ConcReq.Frame.{messages_of}
use swarm_autoscaler.Bpf.ConcReq.Trace.{IsReady, probes, probes-Holds, states_at, netns_of, sock_of}

module _ (B : BpfMaps) (o : Offsets) where
  -- A firing without a socket, in a namespace that is not registered, or before all three limits are
  -- stored, leaves every map as it was and sends nothing.
  pub kprobe_rejects :
      (s : Maps B) (c : Call)
      → (sock_of o c ≡ 0)
        ⊎ ((B.lookup s.valid_netns (netns_of o c) ≡ none) ⊎ (limits B s.constants ≡ none))
      → kprobe_tcp_recvmsg B o s c ≡ s
  unfolding kprobe_tcp_recvmsg
  kprobe_rejects s c h = ground arith

module _ (B : BpfMaps) (o : Offsets) (n : ℕ) (l : Limits) where
  -- Between two resets by the daemon, the firings send at most one message for a namespace that is
  -- registered, whatever happens in the others.
  pub probes_once :
      (s : Maps B) (cs : List Call) (m : Monitor)
      → IsReady B s n l
      → Tracks B s n m
      → length (messages_of n (probes B o s cs).events) ≤ length (messages_of n s.events) + 1
  probes_once s cs m r h =
      let end = probes-Holds B o n l s cs m r h in
      rw (end.sent, length-append (messages_of n s.events) (run l m (states_at o n cs)).1)
        (omega (arith, run_once l m (states_at o n cs)))

  -- While the flag is down, fewer firings in a registered namespace than its buffer lacks send nothing
  -- for it.
  probes_quiet :
      (s : Maps B) (cs : List Call) (m : Monitor)
      → IsReady B s n l
      → Tracks B s n m
      → m.scaling ≢ 1
      → l.buffer_length < 2 ^ 32
      → m.buffer + length (states_at o n cs) < l.buffer_length
      → messages_of n (probes B o s cs).events ≡ messages_of n s.events
  probes_quiet s cs m r h off fits few = rw (
    (probes-Holds B o n l s cs m r h).sent,
    (run_quiet l m (states_at o n cs) off fits few).0,
    append-nil,
  )

  -- As many firings in the namespace as its buffer lacks, each of which finds the number of
  -- connections out of the limits, send one message, which says the side of the last; the flag in
  -- `scaling_map` is then set and the buffer is empty.
  pub probes_fire :
      (s : Maps B) (cs : List Call) (m : Monitor) (x : ℕ) (xs : List ℕ)
      → IsReady B s n l
      → Tracks B s n m
      → states_at o n cs ≡ x ∷ xs
      → m.scaling ≢ 1
      → l.buffer_length < 2 ^ 32
      → m.buffer + length (x ∷ xs) ≡ l.buffer_length
      → AllOutside l m.count (x ∷ xs)
      → (messages_of n (probes B o s cs).events
          ≡ messages_of n s.events ++ message l (counted l m.count (x ∷ xs)) ∷ [])
        × (B.lookup (probes B o s cs).scaling n ≡ some 1)
        × (B.lookup (probes B o s cs).buffer n ≡ some 0)
  probes_fire s cs m x xs r h e off fits exact out =
      let end = rw e at (probes-Holds B o n l s cs m r h) in
      let fires = run_fires l m x xs off fits exact out in
      (
        end.sent ∙ ap (λ t. messages_of n s.events ++ t) fires.0,
        end.tracked.at_scaling ∙ ap some fires.2,
        end.tracked.at_buffer ∙ ap some fires.1,
      )

  -- The buffer of a namespace stays below the buffer length.
  probes_below :
      (s : Maps B) (cs : List Call) (m : Monitor)
      → IsReady B s n l
      → Tracks B s n m
      → m.buffer < l.buffer_length
      → (b : ℕ) × (B.lookup (probes B o s cs).buffer n ≡ some b) × (b < l.buffer_length)
  probes_below s cs m r h below = (
    _,
    (probes-Holds B o n l s cs m r h).tracked.at_buffer,
    run_below l m (states_at o n cs) below,
  )

-- Where the count of a namespace is not in its map, the first connection is reported and not kept.
count_connection_unregistered :
    (B : BpfMaps) (m : B.Map) (n : ℕ)
    → B.lookup m n ≡ none
    → ((count_connection B m n tcp_established).1 ≡ 1)
      × ((B.lookup (count_connection B m n tcp_established).0 n ≡ none)
          ⊎ (B.lookup (count_connection B m n tcp_established).0 n ≡ some 0))
unfolding count_connection bump
count_connection_unregistered B m n h = elim (Option-cases (B.update m n 0 noexist)) [
  | inl e ↦ rw (h, e, count_connection) (refl, inl h)
  | inr (t, e) ↦
      rw (h, e, count_connection) (refl, inr (B.lookup-update m n 0 noexist t n e ∙ ground arith))
]
