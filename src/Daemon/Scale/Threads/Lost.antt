-- ===== src/Daemon/Scale/Threads/Lost.antt =====
-- Two requests "over" of scale.go for one service that both inspect it before either updates it.
use Prim.Native.String.{String}
use mathlib.Core.Path.{subst}
use swarm_autoscaler.Base.{ℕ, ◌+◌, ◌≡◌, ◌≢◌, ◌∙◌, refl, sym, ap, true, false, none, some, arith}
use swarm_autoscaler.Base.Family.{set_at}
use swarm_autoscaler.Bpf.Maps.{BpfMaps}
use swarm_autoscaler.Daemon.Server.{Network}
use swarm_autoscaler.Daemon.Scale.Client.{Docker, Service}
use swarm_autoscaler.Daemon.Scale.{u64, replicas_of}
use swarm_autoscaler.Daemon.Scale.Outcomes.{Shows}
use swarm_autoscaler.Daemon.Scale.Progress.{Accepts, IsAttended, scale_over_succeeds}
use swarm_autoscaler.Daemon.Scale.Threads.{
  Request, decide, request_turn, Goroutines, move_request, Reach, start, later, ask, go_on,
}
use swarm_autoscaler.Daemon.Scale.Threads.Alone.{Ends, turns, Ends-over}
use swarm_autoscaler.Daemon.Scale.Threads.Traces.{
  set_at-same, set_at-other, run_request, run_request-turns, run_request-other, run_request-Reach,
  inspected_over, ask_turn,
}

module _ (D : Docker) (B : BpfMaps) (net : Network) where
  -- A request "over" that has inspected the service, perhaps long ago, goes through by itself.
  over_runs :
      (s : Goroutines D B) (i : ℕ) (id : String) (service shown : Service) (current replicas : ℕ)
      → s.request i ≡ decide id "over" service current
      → replicas_of (D.inspect s.mem.world id) ≡ some (shown, replicas)
      → service.spec.labels "autoscaler.handlerNode" ≡ none
      → Accepts D s.mem.world id
      → IsAttended D B s.mem id
      → let t = run_request D B 6 i s in
        (t.request i ≡ Request.answered false)
        × Shows (D.inspect t.mem.world id) (u64 (current + 1))
        × (t.mem.keep_alive_ops id ≡ none)
  over_runs s i id service shown current replicas at e l accepts attended =
      let (m', result, shows, gone) =
        scale_over_succeeds D B s.mem id service shown current replicas e l accepts attended in
      let ends : turns D B 6 (s.mem, s.request i) ≡ (m', Request.answered false) = rw at (
        subst (λ o. Ends D B o (turns D B 6 (s.mem, decide id "over" service current))) result
          (Ends-over D B 0 s.mem id service current)) in
      let (mem, request, _) = run_request-turns D B 6 i s in
      (rw (request, ends) refl, rw (mem, ends) shows, rw (mem, ends) gone)

  -- A request "over" that begins and inspects the service.
  over_inspects :
      (o s : Goroutines D B) (i current : ℕ) (id : String) (service : Service)
      → Reach D B net o s
      → s.request i ≡ Request.idle
      → s.mem.node_info.autoscaler_manager ≡ true
      → replicas_of (D.inspect s.mem.world id) ≡ some (service, current)
      → (t : Goroutines D B) × Reach D B net o t
        × (t.mem ≡ s.mem)
        × (t.request i ≡ decide id "over" service current)
        × ((k : ℕ) → i ≢ k → t.request k ≡ s.request k)
  over_inspects o s i current id service r idle a e =
      let s1 : Goroutines D B = record s {
        request = set_at s.request i (Request.asked id "over");
      } in
      let r1 : Reach D B net o s1 = later r (ask i id "over" idle) in
      let turn : request_turn D B s.mem (s1.request i) ≡ (s.mem, decide id "over" service current) =
        rw (set_at-same s.request i (Request.asked id "over")) (
          ask_turn D B s.mem id "over"
          ∙ ap (λ p. (s.mem, p)) (inspected_over D B s.mem id "over" service current a e)) in
      (
        move_request D B i s1,
        later r1 (go_on i),
        ap (λ x. x.0) turn,
        set_at-same s1.request i (request_turn D B s.mem (s1.request i)).1 ∙ ap (λ x. x.1) turn,
        λ k h.
            set_at-other s1.request i k (request_turn D B s.mem (s1.request i)).1 h
            ∙ set_at-other s.request i k (Request.asked id "over") h,
      )

  -- Two requests "over" that find a service with `current` replicas can both answer without an error and
  -- leave it with one replica more, as a 64-bit number, in place of two: on the manager, for a service in
  -- replicated mode that pins no handler node, whose keep-alive operation, if there is one, is attended,
  -- and a Docker that takes every update with the version it shows.
  pub lost_increment :
      (s : Goroutines D B) (i j current : ℕ) (id : String) (service : Service)
      → i ≢ j
      → s.request i ≡ Request.idle
      → s.request j ≡ Request.idle
      → s.mem.node_info.autoscaler_manager ≡ true
      → replicas_of (D.inspect s.mem.world id) ≡ some (service, current)
      → service.spec.labels "autoscaler.handlerNode" ≡ none
      → IsAttended D B s.mem id
      → ((w : D.World) → Accepts D w id)
      → (t : Goroutines D B) × Reach D B net s t
        × (t.request i ≡ Request.answered false)
        × (t.request j ≡ Request.answered false)
        × Shows (D.inspect t.mem.world id) (u64 (current + 1))
  lost_increment s i j current id service h idle_i idle_j a e l attended accepts =
      let (s1, r1, mem1, at1, kept1) = over_inspects s s i current id service start idle_i a e in
      let (s2, r2, mem2, at2, kept2) =
        over_inspects s s1 j current id service r1 (kept1 j h ∙ idle_j) (rw mem1 a) (rw mem1 e) in
      let (one, shows, gone) =
        over_runs s2 i id service service current current (kept2 i (λ q. h (sym q)) ∙ at1)
          (rw (mem2, mem1) e) l (accepts s2.mem.world) (rw (mem2, mem1) attended) in
      let s3 = run_request D B 6 i s2 in
      let (shown, found) = shows in
      let (two, finally, _) =
        over_runs s3 j id service shown current (u64 (current + 1))
          (run_request-other D B 6 i j s2 h ∙ at2) found l (accepts s3.mem.world)
          (λ c q. absurd (ground (arith, q, gone))) in
      (
        run_request D B 6 j s3,
        run_request-Reach D B net 6 j s s3 (run_request-Reach D B net 6 i s s2 r2),
        run_request-other D B 6 j i s3 (λ q. h (sym q)) ∙ one,
        two,
        finally,
      )
