-- ===== src/Daemon/Scale/Isolation.antt =====
-- Requests and timers of scale.go touch one service each.
use Prim.Native.String.{String}
use text.Mathlib.Text.{◌==◌ as str_eq}
use swarm_autoscaler.Base.{
  ℕ, ◌+◌, ◌-◌, ◌≡◌, ◌∙◌, refl, ap, Bool, true, false, inl, inr, Bool-cases, Option-cases, ◌==◌, ltb,
}
use swarm_autoscaler.Bpf.Maps.{BpfMaps}
use swarm_autoscaler.Daemon.Scale.Client.{Docker, Service, Spec, Mode, global, replicated}
use swarm_autoscaler.Daemon.Scale.{
  Manager, Outcome, returns, blocks, panics, ◌>>=◌, update_spec, update_service_constraints,
  set_replicas, scale_to, after, cancel_keep_alive, pin_if, scale_over, scale_down, scale_under,
  start_keep_alive, in_direction, change_service_replicas, replicas_of, u64,
}
use swarm_autoscaler.Daemon.Scale.Outcomes.{Gives, Gives-bind, Gives-returns}

module _ (D : Docker) (id j : String) (apart : str_eq id j ≡ false) where
  -- Docker shows the other service as before.
  Spares : D.World → D.World → Bool → Type 0
  Spares w w' failed = D.inspect w' j ≡ D.inspect w j

  Gives-update_spec :
      (w : D.World) (service : Service) (spec : Spec)
      → Gives (Spares w) (update_spec D w id service spec)
  unfolding update_spec Spares
  Gives-update_spec w service spec = elim (Option-cases (D.update w id service.version spec)) [
    | inl e ↦ rw (e, update_spec) refl
    | inr (w', e) ↦
        rw (e, update_spec) (D.inspect-update_other w id service.version spec w' j e apart)
  ]

  Gives-set_replicas :
      (w : D.World) (service : Service) (n : ℕ) (mode : Mode)
      → service.spec.mode ≡ mode
      → Gives (Spares w) (set_replicas D w id service n)
  unfolding set_replicas
  Gives-set_replicas w service n global e = rw (e, set_replicas) tt
  Gives-set_replicas w service n (replicated old) e =
      rw (e, set_replicas) (Gives-update_spec w service _)

  Gives-scale_to : (w : D.World) (n : ℕ) → Gives (Spares w) (scale_to D w id n)
  unfolding scale_to Spares
  Gives-scale_to w n = elim (Option-cases (D.inspect w id)) [
    | inl e ↦ rw (e, scale_to) refl
    | inr (s, e) ↦ rw (e, scale_to) (Gives-set_replicas w s n s.spec.mode refl)
  ]

  Gives-update_service_constraints :
      (w : D.World) (service : Service) (add : Bool)
      → Gives (Spares w) (update_service_constraints D w id service add)
  unfolding update_service_constraints Spares
  Gives-update_service_constraints w service add =
      elim (Option-cases (service.spec.labels "autoscaler.handlerNode")) [
        | inl e ↦ rw (e, update_service_constraints) refl
        | inr (host, e) ↦ elim (Option-cases service.spec.placement) [
          | inl f ↦ rw (e, f, update_service_constraints) tt
          | inr (c, f) ↦ rw (e, f, update_service_constraints) (Gives-update_spec w service _)
        ]
      ]

  module _ (B : BpfMaps) where
    Spared : D.World → Manager D B → Bool → Type 0
    Spared w m failed = D.inspect m.world j ≡ D.inspect w j

    Gives-after :
        (w : D.World) (m : Manager D B) (r : Outcome D.World)
        → D.inspect m.world j ≡ D.inspect w j
        → Gives (Spares m.world) r
        → Gives (Spared w) (after D B m r)
    unfolding after Spares Spared
    Gives-after w m (returns w' failed) e h = h ∙ e
    Gives-after w m (blocks w') e h = h ∙ e
    Gives-after w m panics e h = tt

    Gives-pin_if :
        (m : Manager D B) (test : Bool) (service : Service) (add : Bool)
        → Gives (Spared m.world) (pin_if D B m test id service add)
    unfolding pin_if after Spared
    Gives-pin_if m true service add =
        Gives-after m.world m _ refl (Gives-update_service_constraints m.world service add)
    Gives-pin_if m false service add = refl

    Gives-cancel_keep_alive :
        (w : D.World) (m : Manager D B)
        → D.inspect m.world j ≡ D.inspect w j
        → Gives (Spared w) (cancel_keep_alive D B m id)
    unfolding cancel_keep_alive Spared
    Gives-cancel_keep_alive w m e = elim (Option-cases (m.keep_alive_ops id)) [
      | inl f ↦ rw (f, cancel_keep_alive) e
      | inr (c, f) ↦ elim (Option-cases (m.waiting c)) [
        | inl g ↦ rw (f, g, cancel_keep_alive) e
        | inr (i, g) ↦ rw (f, g, cancel_keep_alive) e
      ]
    ]

    Gives-then_scale :
        (w : D.World) (m : Manager D B) (n : ℕ)
        → D.inspect m.world j ≡ D.inspect w j
        → Gives (Spared w) (after D B m (scale_to D m.world id n))
    Gives-then_scale w m n e = Gives-after w m _ e (Gives-scale_to m.world n)

    Gives-scale_over :
        (m : Manager D B) (service : Service) (current : ℕ)
        → Gives (Spared m.world) (scale_over D B m id service current)
    unfolding scale_over Spared
    Gives-scale_over m service current =
        let rise : Manager D B → Outcome (Manager D B) =
          λ m2. after D B m2 (scale_to D m2.world id (u64 (current + 1))) in
        Gives-bind (Spared m.world) (Spared m.world) (pin_if D B m (current == 1) id service false)
          (λ m1. cancel_keep_alive D B m1 id >>= rise) (Gives-pin_if m _ service false) (λ _ e. e)
          (λ m1 e.
            Gives-bind (Spared m.world) (Spared m.world) (cancel_keep_alive D B m1 id) rise
              (Gives-cancel_keep_alive m.world m1 e) (λ _ f. f)
              (λ m2 f. Gives-then_scale m.world m2 _ f))

    Gives-scale_down :
        (m : Manager D B) (service : Service) (current : ℕ)
        → Gives (Spared m.world) (scale_down D B m id service current)
    unfolding scale_down Spared
    Gives-scale_down m service current =
        Gives-bind (Spared m.world) (Spared m.world)
          (pin_if D B m (current - 1 == 1) id service true)
          (λ m1. after D B m1 (scale_to D m1.world id (current - 1)))
          (Gives-pin_if m _ service true) (λ _ e. e) (λ m1 e. Gives-then_scale m.world m1 _ e)

    start_keep_alive_world : (m : Manager D B) → (start_keep_alive D B m id).world ≡ m.world
    unfolding start_keep_alive
    start_keep_alive_world m = elim (Option-cases (m.keep_alive_ops id)) [
      | inl e ↦ rw (e, start_keep_alive) refl
      | inr (c, e) ↦ rw (e, start_keep_alive) refl
    ]

    Gives-scale_under :
        (m : Manager D B) (service : Service) (current : ℕ)
        → Gives (Spared m.world) (scale_under D B m id service current)
    unfolding scale_under Spared
    Gives-scale_under m service current = elim (Bool-cases (ltb 1 current)) [
      | inl e ↦ rw e (Gives-scale_down m service current)
      | inr e ↦ rw e (ap (λ w. D.inspect w j) (start_keep_alive_world m))
    ]

    Gives-in_direction :
        (m : Manager D B) (direction : String) (service : Service) (current : ℕ)
        → Gives (Spared m.world) (in_direction D B m id direction service current)
    unfolding in_direction Spared
    Gives-in_direction m direction service current = elim (Bool-cases (str_eq direction "over")) [
      | inl e ↦ rw e (Gives-scale_over m service current)
      | inr e ↦ elim (Bool-cases (str_eq direction "under")) [
        | inl f ↦ rw (e, f) (Gives-scale_under m service current)
        | inr f ↦ rw (e, f) refl
      ]
    ]

    requested :
        (m : Manager D B) (direction : String)
        → Gives (Spared m.world) (change_service_replicas D B m id direction)
    unfolding change_service_replicas Spared
    requested m direction = elim (Bool-cases m.node_info.autoscaler_manager) [
      | inr e ↦ rw (e, change_service_replicas) refl
      | inl e ↦ elim (Option-cases (replicas_of (D.inspect m.world id))) [
        | inl f ↦ rw (e, f, change_service_replicas) refl
        | inr ((service, current), f) ↦
            rw (e, f, change_service_replicas) (Gives-in_direction m direction service current)
      ]
    ]

-- A request to change the replicas of one service, whatever its direction and whether it fails or
-- not, leaves what Docker shows of every other service.
pub change_service_replicas_isolates :
    (D : Docker) (B : BpfMaps) (m m' : Manager D B) (id j direction : String) (failed : Bool)
    → str_eq id j ≡ false
    → change_service_replicas D B m id direction ≡ returns m' failed
    → D.inspect m'.world j ≡ D.inspect m.world j
unfolding Spared
change_service_replicas_isolates D B m m' id j direction failed apart h =
    Gives-returns (Spared D id j apart B m.world) _ m' failed h
      (requested D id j apart B m direction)
