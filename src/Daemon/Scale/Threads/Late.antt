-- ===== src/Daemon/Scale/Threads/Late.antt =====
-- A request "over" of scale.go that comes while the timer of the keep-alive operation does its work.
use Prim.Native.String.{String}
use mathlib.Core.Path.{subst}
use swarm_autoscaler.Base.{
  ℕ, ◌+◌, ◌<◌, ◌≡◌, ◌∙◌, refl, ap, true, false, none, some, arith, ◌==◌, inl, inr, Bool-cases,
  Option-cases,
}
use swarm_autoscaler.Base.Family.{set_at}
use swarm_autoscaler.Bpf.Maps.{BpfMaps}
use swarm_autoscaler.Daemon.Server.{Network}
use swarm_autoscaler.Daemon.Scale.Client.{Docker, Service}
use swarm_autoscaler.Daemon.Scale.{
  Manager, returns, set_waiting, u64, update_service_constraints, set_replicas, replicas_of,
  keep_alive_elapsed,
}
use swarm_autoscaler.Daemon.Scale.Outcomes.{Shows}
use swarm_autoscaler.Daemon.Scale.ZeroScale.{elapsed-Watched}
use swarm_autoscaler.Daemon.Scale.Threads.{
  Request, expired, ended, decide, request_turn, Goroutines, move_request, Step, ask, go_on, fire,
  tick, Reach, start, later,
}
use swarm_autoscaler.Daemon.Scale.Threads.Traces.{
  set_at-same, run_request, run_request-turns, run_request-Reach, run_timer, run_timer-Reach,
  run_timer-turns, inspected_over, unpinned, look_found, ask_turn,
}
use swarm_autoscaler.Daemon.Scale.Threads.Channels.{onward_fields, timer_fields}
use swarm_autoscaler.Daemon.Scale.Threads.Alone.{turns, turns-turn, sending_stays}
use swarm_autoscaler.Daemon.Scale.Threads.Timers.{
  timer_turns, EndsTimer, timer_turns-keep_alive_elapsed,
}

module _ (D : Docker) (B : BpfMaps) where
  -- A request before its send into a channel whose goroutine is gone.
  pub record IsStuck (s : Goroutines D B) (i : ℕ) (id : String) (c n : ℕ) : Type 0 where
    pub at_send : s.request i ≡ Request.sending id c n
    pub nobody : s.mem.waiting c ≡ none
    pub was_issued : c < s.mem.next_channel

  -- No access of a request makes a goroutine wait at an old channel.
  request_quiet :
      (m : Manager D B) (p : Request) (c : ℕ)
      → m.waiting c ≡ none
      → c < m.next_channel
      → ((request_turn D B m p).0.waiting c ≡ none) × (c < (request_turn D B m p).0.next_channel)
  unfolding request_turn
  request_quiet m Request.idle c e h = (e, h)
  request_quiet m (Request.asked id direction) c e h = (e, h)
  request_quiet m (Request.unpinning id service n) c e h = ground (
    arith,
    e,
    h,
    onward_fields D B m (update_service_constraints D m.world id service false)
        (Request.looking id n) (Request.answered true) Request.crashed,
  )
  request_quiet m (Request.looking id n) c e h = elim (Option-cases (m.keep_alive_ops id)) [
    | inl f ↦ rw (f, request_turn) (e, h)
    | inr (d, f) ↦ rw (f, request_turn) (e, h)
  ]
  request_quiet m (Request.sending id d n) c e h = elim (Option-cases (m.waiting d)) [
    | inl f ↦ rw (f, request_turn) (e, h)
    | inr (j, f) ↦ rw (f, request_turn) (ground (arith, e), h)
  ]
  request_quiet m (Request.deleting id n) c e h = (e, h)
  request_quiet m (Request.pinning id service n) c e h = ground (
    arith,
    e,
    h,
    onward_fields D B m (update_service_constraints D m.world id service true)
        (Request.scaling id n) (Request.answered true) Request.crashed,
  )
  request_quiet m (Request.scaling id n) c e h = elim (Option-cases (D.inspect m.world id)) [
    | inl f ↦ rw (f, request_turn) (e, h)
    | inr (t, f) ↦ rw (f, request_turn) (e, h)
  ]
  request_quiet m (Request.updating id service n) c e h = ground (
    arith,
    e,
    h,
    onward_fields D B m (set_replicas D m.world id service n) (Request.answered false)
        (Request.answered true) Request.crashed,
  )
  request_quiet m (Request.testing id) c e h = elim (Option-cases (m.keep_alive_ops id)) [
    | inl f ↦ rw (f, request_turn) (e, h)
    | inr (d, f) ↦ rw (f, request_turn) (e, h)
  ]
  request_quiet m (Request.starting id) c e h = ground (arith, e, h)
  request_quiet m (Request.answered failed) c e h = (e, h)
  request_quiet m Request.crashed c e h = (e, h)

  send_waits :
      (m : Manager D B) (id : String) (c n : ℕ)
      → m.waiting c ≡ none
      → (request_turn D B m (Request.sending id c n)).1 ≡ Request.sending id c n
  unfolding request_turn
  send_waits m id c n e = rw (e, request_turn) refl

  moved-IsStuck :
      (s : Goroutines D B) (i j : ℕ) (id : String) (c n : ℕ)
      → IsStuck s i id c n
      → IsStuck (move_request D B j s) i id c n
  moved-IsStuck s i j id c n k =
      let (quiet, issued) = request_quiet s.mem (s.request j) c k.nobody k.was_issued in
      record {
        at_send = elim (Bool-cases (j == i)) [
          | inl e ↦
              let same : s.request j ≡ Request.sending id c n =
                ap s.request (ground (arith, e)) ∙ k.at_send in
              rw (e, same) (send_waits s.mem id c n k.nobody)
          | inr e ↦ rw e k.at_send
        ];
        nobody = quiet;
        was_issued = issued;
      }

  -- A request "over" for a service whose operation has a channel comes to the send into it, with Docker
  -- and the operations as they were.
  over_waits :
      (m : Manager D B) (id : String) (service : Service) (current c : ℕ)
      → m.node_info.autoscaler_manager ≡ true
      → replicas_of (D.inspect m.world id) ≡ some (service, current)
      → service.spec.labels "autoscaler.handlerNode" ≡ none
      → m.keep_alive_ops id ≡ some c
      → m.waiting c ≡ none
      → turns D B 3 (m, Request.asked id "over") ≡ (m, Request.sending id c (u64 (current + 1)))
  unfolding decide turns
  over_waits m id service current c a e l f w =
      let n = u64 (current + 1) in
      turns-turn D B 2 m (Request.asked id "over") (m, decide id "over" service current)
        (ask_turn D B m id "over"
          ∙ ap (λ r. (m, r)) (inspected_over D B m id "over" service current a e))
      ∙ elim (Bool-cases (current == 1)) [
        | inl g ↦
            rw
              (
                g,
                turns-turn D B 1 m (Request.unpinning id service n) (m, Request.looking id n)
                    (unpinned D B m id service n l),
              )
              (turns-turn D B 0 m (Request.looking id n) (m, Request.sending id c n)
                (look_found D B m id c n f))
        | inr g ↦
            rw
              (
                g,
                turns-turn D B 1 m (Request.looking id n) (m, Request.sending id c n)
                    (look_found D B m id c n f),
              )
              (sending_stays D B 1 m id c n w)
      ]

module _ (D : Docker) (B : BpfMaps) (net : Network) where
  Step-IsStuck :
      (s t : Goroutines D B) (i : ℕ) (id : String) (c n : ℕ)
      → Step D B net s t
      → IsStuck D B s i id c n
      → IsStuck D B t i id c n
  Step-IsStuck s t i id c n (ask j jd direction e) k = record {
    at_send = ground (arith, e, k.at_send);
    nobody = k.nobody;
    was_issued = k.was_issued;
  }
  Step-IsStuck s t i id c n (go_on j) k = moved-IsStuck D B s i j id c n k
  Step-IsStuck s t i id c n (fire d jd e) k = record {
    at_send = k.at_send;
    nobody = ground (arith, k.nobody);
    was_issued = k.was_issued;
  }
  Step-IsStuck s t i id c n (tick d) k =
      let (ops, waiting, next) = timer_fields D B net s.mem (s.timer d) in
      record {
        at_send = k.at_send;
        nobody = rw waiting k.nobody;
        was_issued = rw next k.was_issued;
      }

  pub Reach-IsStuck :
      (s t : Goroutines D B) (i : ℕ) (id : String) (c n : ℕ)
      → Reach D B net s t
      → IsStuck D B s i id c n
      → IsStuck D B t i id c n
  Reach-IsStuck s t i id c n start k = k
  Reach-IsStuck s t i id c n (later {t = u} r e) k =
      Step-IsStuck u t i id c n e (Reach-IsStuck s u i id c n r k)

  -- When the timer of a keep-alive operation fires, a request "over" for its service can come too late:
  -- there is a run to the state that the goroutine leaves when nothing disturbs it, with the service at
  -- zero replicas, in which the request stands at its send into the channel of the operation, and it
  -- stands there in every later state. This is so on the manager, for a service in replicated mode that
  -- pins no handler node, a timer that goes through without an error, and a channel that was given out.
  pub late_over_stuck :
      (s : Goroutines D B) (m' : Manager D B) (i c current : ℕ) (id : String) (service : Service)
      → s.mem.waiting c ≡ some id
      → s.mem.keep_alive_ops id ≡ some c
      → c < s.mem.next_channel
      → s.request i ≡ Request.idle
      → s.mem.node_info.autoscaler_manager ≡ true
      → replicas_of (D.inspect s.mem.world id) ≡ some (service, current)
      → service.spec.labels "autoscaler.handlerNode" ≡ none
      → keep_alive_elapsed D B net s.mem c ≡ returns m' false
      → (t : Goroutines D B) × Reach D B net s t
        × (t.mem ≡ m')
        × Shows (D.inspect t.mem.world id) 0
        × ((u : Goroutines D B)
            → Reach D B net t u
            → u.request i ≡ Request.sending id c (u64 (current + 1)))
  late_over_stuck s m' i c current id service w f h idle a e l goes =
      let m1 : Manager D B = record s.mem { waiting = set_waiting s.mem.waiting c none } in
      let s1 : Goroutines D B = record {
        mem = m1;
        request = s.request;
        timer = set_at s.timer c (expired id);
      } in
      let s2 : Goroutines D B = record s1 {
        request = set_at s.request i (Request.asked id "over");
      } in
      let s3 = run_request D B 3 i s2 in
      let t = run_timer D B net 7 c s3 in
      let r2 : Reach D B net s s2 = later (later start (fire c id w)) (ask i id "over" idle) in
      let r3 = run_request-Reach D B net 3 i s s2 r2 in
      let (mem3, at3, timer3) = run_request-turns D B 3 i s2 in
      let waits = over_waits D B m1 id service current c a e l f (ground arith) in
      let at_send : turns D B 3 (s2.mem, s2.request i)
          ≡ (m1, Request.sending id c (u64 (current + 1))) =
        rw (set_at-same s.request i (Request.asked id "over")) waits in
      let stuck : IsStuck D B s3 i id c (u64 (current + 1)) = record {
        at_send = at3 ∙ ap (λ x. x.1) at_send;
        nobody = rw (mem3, at_send) (ground arith);
        was_issued = rw (mem3, at_send) h;
      } in
      let done : timer_turns D B net 7 (m1, expired id) ≡ (m', ended false) =
        subst (λ o. EndsTimer D B net o (timer_turns D B net 7 (m1, expired id))) goes
          (timer_turns-keep_alive_elapsed D B net 7 s.mem c id (omega arith) w) in
      let memT : t.mem ≡ m' =
        run_timer-turns D B net 7 c s3
        ∙ rw (mem3, at_send, timer3, set_at-same s.timer c (expired id), done) refl in
      let shows : Shows (D.inspect m'.world id) 0 =
        (elapsed-Watched D B net s.mem m' id c w f goes).1.scaled in
      (
        t,
        run_timer-Reach D B net 7 c s s3 r3,
        memT,
        rw memT shows,
        λ u r.
            (Reach-IsStuck t u i id c _ r (
              Reach-IsStuck s3 t i id c _ (run_timer-Reach D B net 7 c s3 s3 start) stuck)).at_send,
      )
