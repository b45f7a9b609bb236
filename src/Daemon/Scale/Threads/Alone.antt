-- ===== src/Daemon/Scale/Threads/Alone.antt =====
-- A request of scale.go that no other goroutine disturbs: its accesses one after another are the call as a
-- whole.
use Prim.Native.String.{String}
use text.Mathlib.Text.{◌==◌ as str_eq}
use swarm_autoscaler.Base.{
  ℕ, zero, suc, ◌+◌, ◌-◌, ◌≤◌, ◌≡◌, ◌∙◌, refl, ap, Bool, true, false, none, arith, ◌==◌, ltb, inl,
  inr, Bool-cases, Option-cases,
}
use swarm_autoscaler.Bpf.Maps.{BpfMaps}
use swarm_autoscaler.Daemon.Scale.Client.{Docker, Service, Spec, Mode, global, replicated}
use swarm_autoscaler.Daemon.Scale.{
  Manager, Outcome, returns, blocks, panics, ◌>>=◌, set_op, set_waiting, u64, update_spec,
  update_service_constraints, set_replicas, scale_to, after, cancel_keep_alive, pin_if, scale_over,
  scale_down, start_keep_alive, scale_under, in_direction, change_service_replicas, replicas_of,
}
use swarm_autoscaler.Daemon.Scale.Threads.{
  Request, asked, looking, scaling, testing, answered, onward, decide, inspected, request_turn,
}

-- No update of Docker waits.
abbrev pub IsUnblocked {ℓ} : {A : Type ℓ} → Outcome A → Type 0
IsUnblocked (returns a failed) = Unit {0}
IsUnblocked (blocks a) = ⊥
IsUnblocked panics = Unit {0}

module _ (D : Docker) where
  update_spec-IsUnblocked :
      (w : D.World) (id : String) (service : Service) (spec : Spec)
      → IsUnblocked (update_spec D w id service spec)
  unfolding update_spec
  update_spec-IsUnblocked w id service spec =
      elim (Option-cases (D.update w id service.version spec)) [
        | inl e ↦ rw (e, update_spec) tt
        | inr (w', e) ↦ rw (e, update_spec) tt
      ]

  pub update_service_constraints-IsUnblocked :
      (w : D.World) (id : String) (service : Service) (add : Bool)
      → IsUnblocked (update_service_constraints D w id service add)
  unfolding update_service_constraints
  update_service_constraints-IsUnblocked w id service add =
      elim (Option-cases (service.spec.labels "autoscaler.handlerNode")) [
        | inl e ↦ rw (e, update_service_constraints) tt
        | inr (host, e) ↦ elim (Option-cases service.spec.placement) [
          | inl f ↦ rw (e, f, update_service_constraints) tt
          | inr (old, f) ↦
              rw (e, f, update_service_constraints) (update_spec-IsUnblocked w id service _)
        ]
      ]

  set_replicas_mode :
      (w : D.World) (id : String) (service : Service) (n : ℕ) (mode : Mode)
      → service.spec.mode ≡ mode
      → IsUnblocked (set_replicas D w id service n)
  unfolding set_replicas
  set_replicas_mode w id service n global e = rw (e, set_replicas) tt
  set_replicas_mode w id service n (replicated old) e =
      rw (e, set_replicas) (update_spec-IsUnblocked w id service _)

  pub set_replicas-IsUnblocked :
      (w : D.World) (id : String) (service : Service) (n : ℕ)
      → IsUnblocked (set_replicas D w id service n)
  set_replicas-IsUnblocked w id service n = set_replicas_mode w id service n service.spec.mode refl

module _ (D : Docker) (B : BpfMaps) where
  unfoldable pub turns : ℕ → Manager D B × Request → Manager D B × Request
  turns zero x = x
  turns (suc k) x = turns k (request_turn D B x.0 x.1)

  -- Where a request stands that ended as the call as a whole does.
  abbrev pub Ends : Outcome (Manager D B) → Manager D B × Request → Type 0
  Ends (returns m failed) x = x ≡ (m, answered failed)
  Ends (blocks m) x = (id : String) × (c : ℕ) × (n : ℕ) × (x ≡ (m, Request.sending id c n))
  Ends panics x = x.1 ≡ Request.crashed

  answered_stays :
      (k : ℕ) (m : Manager D B) (failed : Bool)
      → turns k (m, answered failed) ≡ (m, answered failed)
  unfolding turns request_turn
  answered_stays zero m failed = refl
  answered_stays (suc k) m failed = answered_stays k m failed

  crashed_stays : (k : ℕ) (m : Manager D B) → turns k (m, Request.crashed) ≡ (m, Request.crashed)
  unfolding turns request_turn
  crashed_stays zero m = refl
  crashed_stays (suc k) m = crashed_stays k m

  pub sending_stays :
      (k : ℕ) (m : Manager D B) (id : String) (c n : ℕ)
      → m.waiting c ≡ none
      → turns k (m, Request.sending id c n) ≡ (m, Request.sending id c n)
  unfolding turns request_turn
  sending_stays zero m id c n e = refl
  sending_stays (suc k) m id c n e = rw (e, request_turn) (sending_stays k m id c n e)

  pub turns-turn :
      (k : ℕ) (m : Manager D B) (p : Request) (z : Manager D B × Request)
      → request_turn D B m p ≡ z
      → turns (suc k) (m, p) ≡ turns k z
  unfolding turns
  turns-turn k m p z e = ap (turns k) e

  -- An update of Docker and what follows.
  Ends-after :
      (k : ℕ) (m : Manager D B) (r : Outcome D.World) (f : Manager D B → Outcome (Manager D B))
      (next : Request)
      → IsUnblocked r
      → ((w : D.World) → Ends (f (record m { world = w })) (turns k (record m { world = w }, next)))
      → Ends (after D B m r >>= f) (turns k (onward D B m r next (answered true) Request.crashed))
  unfolding after onward
  Ends-after k m (returns w false) f next u h = h w
  Ends-after k m (returns w true) f next u h = answered_stays k (record m { world = w }) true
  Ends-after k m (blocks w) f next u h = absurd u
  Ends-after k m panics f next u h = ap (λ x. x.1) (crashed_stays k m)

  Ends-updated :
      (k : ℕ) (m : Manager D B) (r : Outcome D.World)
      → IsUnblocked r
      → Ends
          (after D B m r)
          (turns k (onward D B m r (answered false) (answered true) Request.crashed))
  unfolding after onward
  Ends-updated k m (returns w false) u = answered_stays k (record m { world = w }) false
  Ends-updated k m (returns w true) u = answered_stays k (record m { world = w }) true
  Ends-updated k m (blocks w) u = absurd u
  Ends-updated k m panics u = ap (λ x. x.1) (crashed_stays k m)

  Ends-scaling :
      (k : ℕ) (m : Manager D B) (id : String) (n : ℕ)
      → Ends (after D B m (scale_to D m.world id n)) (turns (suc (suc k)) (m, scaling id n))
  unfolding request_turn scale_to after
  Ends-scaling k m id n = elim (Option-cases (D.inspect m.world id)) [
    | inl e ↦
        rw
          (
            e,
            scale_to,
            turns-turn (suc k) m (scaling id n) (m, answered true) (rw (e, request_turn) refl),
          )
          (answered_stays (suc k) m true)
    | inr (s, e) ↦
        rw
          (
            e,
            scale_to,
            turns-turn (suc k) m (scaling id n) (m, Request.updating id s n)
                (rw (e, request_turn) refl),
            turns-turn k m (Request.updating id s n)
                (onward D B m (set_replicas D m.world id s n) (answered false) (answered true)
                  Request.crashed)
                refl,
          )
          (Ends-updated k m (set_replicas D m.world id s n)
            (set_replicas-IsUnblocked D m.world id s n))
  ]

  Ends-looking :
      (k : ℕ) (m : Manager D B) (id : String) (n : ℕ)
      → Ends
          (cancel_keep_alive D B m id >>= λ m2. after D B m2 (scale_to D m2.world id n))
          (turns (suc (suc (suc (suc (suc k))))) (m, looking id n))
  unfolding cancel_keep_alive request_turn
  Ends-looking k m id n = elim (Option-cases (m.keep_alive_ops id)) [
    | inl e ↦
        rw
          (
            e,
            cancel_keep_alive,
            turns-turn (suc (suc (suc (suc k)))) m (looking id n) (m, scaling id n)
                (rw (e, request_turn) refl),
          )
          (Ends-scaling (suc (suc k)) m id n)
    | inr (c, e) ↦
        let found =
          turns-turn (suc (suc (suc (suc k)))) m (looking id n) (m, Request.sending id c n)
            (rw (e, request_turn) refl) in
        elim (Option-cases (m.waiting c)) [
          | inl f ↦
              rw (e, f, cancel_keep_alive)
                (id, c, n, found ∙ sending_stays (suc (suc (suc (suc k)))) m id c n f)
          | inr (j, f) ↦
              let m1 : Manager D B = record m { waiting = set_waiting m.waiting c none } in
              let m2 : Manager D B = record m1 {
                keep_alive_ops = set_op m.keep_alive_ops id none;
              } in
              rw
                (
                  e,
                  f,
                  cancel_keep_alive,
                  found,
                  turns-turn (suc (suc (suc k))) m (Request.sending id c n)
                      (m1, Request.deleting id n) (rw (f, request_turn) refl),
                  turns-turn (suc (suc k)) m1 (Request.deleting id n) (m2, scaling id n) refl,
                )
                (Ends-scaling k m2 id n)
        ]
  ]

  pub Ends-over :
      (k : ℕ) (m : Manager D B) (id : String) (service : Service) (current : ℕ)
      → Ends
          (scale_over D B m id service current)
          (turns (suc (suc (suc (suc (suc (suc k)))))) (m, decide id "over" service current))
  unfolding scale_over pin_if decide request_turn
  Ends-over k m id service current = elim (Bool-cases (current == 1)) [
    | inl e ↦
        let n = u64 (current + 1) in
        let next : Manager D B → Outcome (Manager D B) =
          λ m1. cancel_keep_alive D B m1 id >>= λ m2. after D B m2 (scale_to D m2.world id n) in
        rw
          (
            e,
            turns-turn (suc (suc (suc (suc (suc k))))) m (Request.unpinning id service n)
                (onward D B m (update_service_constraints D m.world id service false) (looking id n)
                  (answered true) Request.crashed)
                refl,
          )
          (Ends-after (suc (suc (suc (suc (suc k))))) m
            (update_service_constraints D m.world id service false) next (looking id n)
            (update_service_constraints-IsUnblocked D m.world id service false)
            (λ w. Ends-looking k (record m { world = w }) id n))
    | inr e ↦ rw e (Ends-looking (suc k) m id (u64 (current + 1)))
  ]

  Ends-pinned :
      (k : ℕ) (m : Manager D B) (id : String) (service : Service) (n : ℕ)
      → Ends
          (pin_if D B m true id service true >>= λ m1. after D B m1 (scale_to D m1.world id n))
          (turns (suc (suc (suc k))) (m, Request.pinning id service n))
  unfolding pin_if request_turn
  Ends-pinned k m id service n =
      rw
        (turns-turn (suc (suc k)) m (Request.pinning id service n)
          (onward D B m (update_service_constraints D m.world id service true) (scaling id n)
            (answered true) Request.crashed)
          refl)
        (Ends-after (suc (suc k)) m (update_service_constraints D m.world id service true)
          (λ m1. after D B m1 (scale_to D m1.world id n)) (scaling id n)
          (update_service_constraints-IsUnblocked D m.world id service true)
          (λ w. Ends-scaling k (record m { world = w }) id n))

  Ends-testing :
      (k : ℕ) (m : Manager D B) (id : String)
      → Ends (returns (start_keep_alive D B m id) false) (turns (suc (suc k)) (m, testing id))
  unfolding start_keep_alive request_turn
  Ends-testing k m id = elim (Option-cases (m.keep_alive_ops id)) [
    | inl e ↦
        rw
          (
            e,
            start_keep_alive,
            turns-turn (suc k) m (testing id) (m, Request.starting id) (rw (e, request_turn) refl),
            turns-turn k m (Request.starting id) _ refl,
          )
          (answered_stays k _ false)
    | inr (c, e) ↦
        rw
          (
            e,
            start_keep_alive,
            turns-turn (suc k) m (testing id) (m, answered false) (rw (e, request_turn) refl),
          )
          (answered_stays (suc k) m false)
  ]

  Ends-under :
      (k : ℕ) (m : Manager D B) (id : String) (service : Service) (current : ℕ)
      → Ends
          (scale_under D B m id service current)
          (turns (suc (suc (suc k))) (m, decide id "under" service current))
  unfolding scale_under scale_down decide pin_if
  Ends-under k m id service current = elim (Bool-cases (ltb 1 current)) [
    | inl e ↦ elim (Bool-cases (current - 1 == 1)) [
      | inl f ↦ rw (e, f) (Ends-pinned k m id service (current - 1))
      | inr f ↦ rw (e, f) (Ends-scaling (suc k) m id (current - 1))
    ]
    | inr e ↦ rw e (Ends-testing (suc k) m id)
  ]

  Ends-direction :
      (k : ℕ) (m : Manager D B) (id direction : String) (service : Service) (current : ℕ)
      → Ends
          (in_direction D B m id direction service current)
          (turns (suc (suc (suc (suc (suc (suc k)))))) (m, decide id direction service current))
  unfolding in_direction decide
  Ends-direction k m id direction service current = elim (Bool-cases (str_eq direction "over")) [
    | inl e ↦ rw e (Ends-over k m id service current)
    | inr e ↦ elim (Bool-cases (str_eq direction "under")) [
      | inl f ↦ rw (e, f) (Ends-under (suc (suc (suc k))) m id service current)
      | inr f ↦ rw (e, f) (answered_stays (suc (suc (suc (suc (suc (suc k)))))) m true)
    ]
  ]

  Ends-inspected :
      (k : ℕ) (m : Manager D B) (id direction : String)
      → Ends
          (change_service_replicas D B m id direction)
          (turns (suc (suc (suc (suc (suc (suc k)))))) (m, inspected D B m id direction))
  unfolding change_service_replicas inspected
  Ends-inspected k m id direction = elim (Bool-cases m.node_info.autoscaler_manager) [
    | inr e ↦ simp e (answered_stays (suc (suc (suc (suc (suc (suc k)))))) m true)
    | inl e ↦ elim (Option-cases (replicas_of (D.inspect m.world id))) [
      | inl f ↦ simp (e, f) (answered_stays (suc (suc (suc (suc (suc (suc k)))))) m true)
      | inr ((service, current), f) ↦ simp (e, f) (Ends-direction k m id direction service current)
    ]
  ]

  -- Without other goroutines in between, the accesses of a request amount to the call as a whole: after
  -- seven of them it has answered with the state and the error of the call, it waits at a send in the
  -- state of a call that blocks, or it has panicked with it.
  pub turns-change_service_replicas :
      (k : ℕ) (m : Manager D B) (id direction : String)
      → 7 ≤ k
      → Ends (change_service_replicas D B m id direction) (turns k (m, asked id direction))
  unfolding request_turn
  turns-change_service_replicas k m id direction enough =
      let split : k ≡ suc (suc (suc (suc (suc (suc (suc (k - 7))))))) = omega arith in
      rw
        (
          split,
          turns-turn (suc (suc (suc (suc (suc (suc (k - 7))))))) m (asked id direction)
              (m, inspected D B m id direction) refl,
        )
        (Ends-inspected (k - 7) m id direction)
