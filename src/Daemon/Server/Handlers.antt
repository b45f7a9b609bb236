-- ===== src/Daemon/Server/Handlers.antt =====
-- When the handlers of server.go call, and what they answer.
use text.Mathlib.TextEquality.{eq_iff}
use swarm_autoscaler.Base.{
  ℕ, ◌≡◌, ◌≢◌, Bool, false, Option, none, some, List, arith, ◌⊎◌, inl, inr, Option-cases,
}
use swarm_autoscaler.Daemon.Server.{Request, handle}

module _ {ℓ κ} {S : Type ℓ} {A : Type κ} (decode : List ℕ → Option A)
    (call : S → A → S × Bool) where
  -- A handler answers 200 only to a POST whose body it could decode and whose call succeeded, and has
  -- then made just that call.
  handle_accepts :
      (s : S) (r : Request)
      → (handle decode call s r).1 ≡ 200
      → (a : A) × (r.method ≡ "POST")
        × (decode r.body ≡ some a)
        × (call s a ≡ ((handle decode call s r).0, false))
  unfolding handle
  handle_accepts s r h = elim (Option-cases (decode r.body)) [
    | inl e ↦ absurd (ground (arith, eq_iff r.method "POST"))
    | inr (a, e) ↦
        (a, ground (arith, eq_iff r.method "POST"), e, ground (arith, eq_iff r.method "POST"))
  ]

  -- A request that is no POST, or that cannot be decoded, changes nothing.
  handle_refuses :
      (s : S) (r : Request)
      → (r.method ≢ "POST") ⊎ (decode r.body ≡ none)
      → ((handle decode call s r).0 ≡ s)
        × (((handle decode call s r).1 ≡ 405) ⊎ ((handle decode call s r).1 ≡ 400))
  unfolding handle
  handle_refuses s r h = ground (arith, eq_iff r.method "POST")
