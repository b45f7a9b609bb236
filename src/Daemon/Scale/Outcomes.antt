-- ===== src/Daemon/Scale/Outcomes.antt =====
-- Postconditions of the outcomes of scale.go, and what Docker shows after its updates.
use Prim.Native.String.{String}
use mathlib.Core.Path.{subst}
use swarm_autoscaler.Base.{
  ℕ, ◌≡◌, refl, ap, Bool, true, false, Option, some, inl, inr, Option-cases,
}
use swarm_autoscaler.Daemon.Scale.Client.{Docker, Service, Spec, Mode, global, replicated}
use swarm_autoscaler.Daemon.Scale.{
  Outcome, returns, blocks, panics, ◌>>=◌, replicas_of, update_spec, set_replicas, scale_to,
}

-- What holds of the state that an outcome leaves; one that blocks counts as failed, and after a panic
-- there is no state.
abbrev pub Gives {ℓ} : {A : Type ℓ} → (A → Bool → Type 0) → Outcome A → Type 0
Gives P (returns a failed) = P a failed
Gives P (blocks a) = P a true
Gives P panics = Unit {0}

-- A postcondition of the runs that do not fail.
abbrev pub OnSuccess {ℓ} : {A : Type ℓ} → (A → Type 0) → A → Bool → Type 0
OnSuccess P a true = Unit {0}
OnSuccess P a false = P a

pub Gives-bind :
    {A : Type 0}
    → (P Q : A → Bool → Type 0) (r : Outcome A) (f : A → Outcome A) → Gives P r
    → ((a : A) → P a true → Q a true)
    → ((a : A) → P a false → Gives Q (f a))
    → Gives Q (r >>= f)
Gives-bind P Q (returns a true) f h k l = k a h
Gives-bind P Q (returns a false) f h k l = l a h
Gives-bind P Q (blocks a) f h k l = k a h
Gives-bind P Q panics f h k l = tt

pub OnSuccess-bind :
    {A : Type 0}
    → (P Q : A → Type 0) (r : Outcome A) (f : A → Outcome A) → Gives (OnSuccess P) r
    → ((a : A) → P a → Gives (OnSuccess Q) (f a))
    → Gives (OnSuccess Q) (r >>= f)
OnSuccess-bind P Q (returns a true) f h k = tt
OnSuccess-bind P Q (returns a false) f h k = k a h
OnSuccess-bind P Q (blocks a) f h k = tt
OnSuccess-bind P Q panics f h k = tt

pub OnSuccess-map :
    {A : Type 0}
    → (P Q : A → Type 0) (r : Outcome A) → Gives (OnSuccess P) r
    → ((a : A) → P a → Q a)
    → Gives (OnSuccess Q) r
OnSuccess-map P Q (returns a true) h k = tt
OnSuccess-map P Q (returns a false) h k = k a h
OnSuccess-map P Q (blocks a) h k = tt
OnSuccess-map P Q panics h k = tt

pub Gives-returns :
    {A : Type 0}
    → (P : A → Bool → Type 0) (r : Outcome A) (a : A) (failed : Bool) → r ≡ returns a failed
    → Gives P r
    → P a failed
Gives-returns P r a failed e h = subst (Gives P) e h

-- A service that shows `n` replicas.
abbrev pub Shows : Option Service → ℕ → Type 0
Shows found n = (s : Service) × (replicas_of found ≡ some (s, n))

module _ (D : Docker) where
  -- What scaling leaves: the number of replicas, or Docker as it was.
  abbrev pub Scaled : D.World → String → ℕ → D.World → Bool → Type 0
  Scaled w id n w' true = w' ≡ w
  Scaled w id n w' false = Shows (D.inspect w' id) n

  replicas_of-replicated :
      (s : Service) (n : ℕ) → s.spec.mode ≡ replicated (some n) → replicas_of (some s) ≡ some (s, n)
  unfolding replicas_of
  replicas_of-replicated s n e = simp (e, replicas_of)

  Gives-update_mode :
      (w : D.World) (id : String) (service : Service) (n : ℕ)
      → Gives
          (Scaled w id n)
          (update_spec D w id service (record service.spec { mode = replicated (some n) }))
  unfolding update_spec
  Gives-update_mode w id service n =
      let spec : Spec = record service.spec { mode = replicated (some n) } in
      elim (Option-cases (D.update w id service.version spec)) [
        | inl e ↦ rw (e, update_spec) refl
        | inr (w', e) ↦
            let (s, found, shown) = D.inspect-update w id service.version spec w' e in
            rw (e, update_spec) (s, rw found (replicas_of-replicated s n (ap (λ t. t.mode) shown)))
      ]

  Gives-set_replicas :
      (w : D.World) (id : String) (service : Service) (n : ℕ) (mode : Mode)
      → service.spec.mode ≡ mode
      → Gives (Scaled w id n) (set_replicas D w id service n)
  unfolding set_replicas
  Gives-set_replicas w id service n global e = rw (e, set_replicas) tt
  Gives-set_replicas w id service n (replicated old) e =
      rw (e, set_replicas) (Gives-update_mode w id service n)

  pub Gives-scale_to :
      (w : D.World) (id : String) (n : ℕ) → Gives (Scaled w id n) (scale_to D w id n)
  unfolding scale_to
  Gives-scale_to w id n = elim (Option-cases (D.inspect w id)) [
    | inl e ↦ rw (e, scale_to) refl
    | inr (s, e) ↦ rw (e, scale_to) (Gives-set_replicas w id s n s.spec.mode refl)
  ]
