-- ===== src/Daemon/Scale/Threads/Traces.antt =====
-- Runs of scale.go in which one goroutine makes several accesses in a row.
use Prim.Native.String.{String}
use swarm_autoscaler.Base.{ℕ, zero, suc, ◌≡◌, ◌≢◌, ◌∙◌, refl, true, none, some, arith}
use swarm_autoscaler.Base.Family.{set_at}
use swarm_autoscaler.Bpf.Maps.{BpfMaps}
use swarm_autoscaler.Daemon.Server.{Network}
use swarm_autoscaler.Daemon.Scale.Client.{Docker, Service}
use swarm_autoscaler.Daemon.Scale.{Manager, update_service_constraints, replicas_of}
use swarm_autoscaler.Daemon.Scale.Threads.{
  Request, decide, onward, inspected, request_turn, timer_turn, Goroutines, move_request,
  move_timer, Reach, later, go_on, tick,
}
use swarm_autoscaler.Daemon.Scale.Threads.Alone.{turns}
use swarm_autoscaler.Daemon.Scale.Threads.Timers.{timer_turns}

pub set_at-same {ℓ} : {A : Type ℓ} (f : ℕ → A) (i : ℕ) (a : A) → set_at f i a i ≡ a
set_at-same f i a = ground arith

pub set_at-other {ℓ} : {A : Type ℓ} (f : ℕ → A) (i j : ℕ) (a : A) → i ≢ j → set_at f i a j ≡ f j
set_at-other f i j a h = ground (arith, h)

module _ (D : Docker) (B : BpfMaps) where
  -- The accesses of one request, one after another.
  unfoldable pub run_request : ℕ → ℕ → Goroutines D B → Goroutines D B
  run_request zero i s = s
  run_request (suc k) i s = run_request k i (move_request D B i s)

  pub run_request-turns :
      (k i : ℕ) (s : Goroutines D B)
      → ((run_request k i s).mem ≡ (turns D B k (s.mem, s.request i)).0)
        × ((run_request k i s).request i ≡ (turns D B k (s.mem, s.request i)).1)
        × ((run_request k i s).timer ≡ s.timer)
  unfolding run_request turns
  run_request-turns zero i s = (refl, refl, refl)
  run_request-turns (suc k) i s =
      let next = move_request D B i s in
      rw (set_at-same s.request i (request_turn D B s.mem (s.request i)).1) at
        (run_request-turns k i next)

  pub inspected_over :
      (m : Manager D B) (id direction : String) (service : Service) (current : ℕ)
      → m.node_info.autoscaler_manager ≡ true
      → replicas_of (D.inspect m.world id) ≡ some (service, current)
      → inspected D B m id direction ≡ decide id direction service current
  unfolding inspected
  inspected_over m id direction service current a e = simp (a, e) refl

  pub unpinned :
      (m : Manager D B) (id : String) (service : Service) (n : ℕ)
      → service.spec.labels "autoscaler.handlerNode" ≡ none
      → request_turn D B m (Request.unpinning id service n) ≡ (m, Request.looking id n)
  unfolding request_turn onward update_service_constraints
  unpinned m id service n l = rw (l, update_service_constraints) refl

  pub look_found :
      (m : Manager D B) (id : String) (c n : ℕ)
      → m.keep_alive_ops id ≡ some c
      → request_turn D B m (Request.looking id n) ≡ (m, Request.sending id c n)
  unfolding request_turn
  look_found m id c n f = rw (f, request_turn) refl

  pub ask_turn :
      (m : Manager D B) (id direction : String)
      → request_turn D B m (Request.asked id direction) ≡ (m, inspected D B m id direction)
  unfolding request_turn
  ask_turn m id direction = refl

  pub run_request-other :
      (k i j : ℕ) (s : Goroutines D B) → i ≢ j → (run_request k i s).request j ≡ s.request j
  unfolding run_request
  run_request-other zero i j s h = refl
  run_request-other (suc k) i j s h =
      run_request-other k i j (move_request D B i s) h
      ∙ set_at-other s.request i j (request_turn D B s.mem (s.request i)).1 h

module _ (D : Docker) (B : BpfMaps) (net : Network) where
  pub run_request-Reach :
      (k i : ℕ) (o s : Goroutines D B) → Reach D B net o s → Reach D B net o (run_request D B k i s)
  unfolding run_request
  run_request-Reach zero i o s r = r
  run_request-Reach (suc k) i o s r = run_request-Reach k i o _ (later r (go_on i))

  unfoldable pub run_timer : ℕ → ℕ → Goroutines D B → Goroutines D B
  run_timer zero c s = s
  run_timer (suc k) c s = run_timer k c (move_timer D B net c s)

  pub run_timer-Reach :
      (k c : ℕ) (o s : Goroutines D B) → Reach D B net o s → Reach D B net o (run_timer k c s)
  unfolding run_timer
  run_timer-Reach zero c o s r = r
  run_timer-Reach (suc k) c o s r = run_timer-Reach k c o _ (later r (tick c))

  pub run_timer-turns :
      (k c : ℕ) (s : Goroutines D B)
      → (run_timer k c s).mem ≡ (timer_turns D B net k (s.mem, s.timer c)).0
  unfolding run_timer timer_turns
  run_timer-turns zero c s = refl
  run_timer-turns (suc k) c s =
      rw (set_at-same s.timer c (timer_turn D B net s.mem (s.timer c)).1) at
        (run_timer-turns k c (move_timer D B net c s))
