-- ===== src/Daemon/Scale/Specs.antt =====
-- What the updates of scale.go leave of the specification of a service.
use Prim.Native.String
use Prim.Native.String.{String}
use mathlib.Core.Path.{subst}
use swarm_autoscaler.Base.{
  ℕ, ◌≡◌, ◌∙◌, ap, Bool, Option, none, some, List, [], ◌∷◌, ltb, if◌then◌else◌, inl, inr,
  Option-cases,
}
use swarm_autoscaler.Daemon.Scale.Client.{Docker, Service, Spec, replicated}
use swarm_autoscaler.Daemon.Scale.{update_spec, update_service_constraints, set_replicas, scale_to}
use swarm_autoscaler.Daemon.Scale.Outcomes.{Gives, OnSuccess}

-- The constraints of a service on `host`: one replica or none are bound to the host, more are free.
abbrev pub constraints_on : String → ℕ → Option (List String)
constraints_on host n = if ltb n 2 then some (String.◌++◌ "node.hostname==" host ∷ []) else none

module _ (D : Docker) where
  abbrev pub HasSpec : String → Spec → D.World → Type 0
  HasSpec id spec w = (s : Service) × (D.inspect w id ≡ some s) × (s.spec ≡ spec)

  -- A service in replicated mode that pins `host`, with the constraints that its replicas call for.
  pub record IsPinned (w : D.World) (id host : String) (spec : Spec) (n : ℕ) : Type 0 where
    pub shown : HasSpec id spec w
    pub mode : spec.mode ≡ replicated (some n)
    pub handler : spec.labels "autoscaler.handlerNode" ≡ some host
    pub placed : spec.placement ≡ some (constraints_on host n)

  Gives-update_spec :
      (w : D.World) (id : String) (service : Service) (spec : Spec)
      → Gives (OnSuccess (HasSpec id spec)) (update_spec D w id service spec)
  unfolding update_spec
  Gives-update_spec w id service spec = elim (Option-cases (D.update w id service.version spec)) [
    | inl e ↦ rw (e, update_spec) tt
    | inr (w', e) ↦ rw (e, update_spec) (D.inspect-update w id service.version spec w' e)
  ]

  abbrev pub placed_by : Bool → String → Spec → Spec
  placed_by add host spec = record spec {
    placement = some (if add then some (String.◌++◌ "node.hostname==" host ∷ []) else none);
  }

  pub Gives-update_service_constraints :
      (w : D.World) (id host : String) (service : Service) (old : Option (List String)) (add : Bool)
      → service.spec.labels "autoscaler.handlerNode" ≡ some host
      → service.spec.placement ≡ some old
      → Gives
          (OnSuccess (HasSpec id (placed_by add host service.spec)))
          (update_service_constraints D w id service add)
  unfolding update_service_constraints
  Gives-update_service_constraints w id host service old add e f =
      rw (e, f, update_service_constraints)
        (Gives-update_spec w id service (placed_by add host service.spec))

  pub Gives-scale_to :
      (w : D.World) (id : String) (n : ℕ) (spec : Spec) (k : Option ℕ)
      → HasSpec id spec w
      → spec.mode ≡ replicated k
      → Gives
          (OnSuccess (HasSpec id (record spec { mode = replicated (some n) })))
          (scale_to D w id n)
  unfolding scale_to set_replicas
  Gives-scale_to w id n spec k (s, found, same) e =
      let in_mode : s.spec.mode ≡ replicated k = ap (λ t. t.mode) same ∙ e in
      rw (found, scale_to)
        (rw (in_mode, set_replicas)
          (subst
            (λ t.
              Gives (OnSuccess (HasSpec id (record t { mode = replicated (some n) })))
                (update_spec D w id s (record s.spec { mode = replicated (some n) })))
            same (Gives-update_spec w id s (record s.spec { mode = replicated (some n) }))))
