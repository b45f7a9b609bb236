-- ===== src/Base/Family.antt =====
-- Values indexed by a number, such as the state of each CPU: the change of one, and sums over the first.
use swarm_autoscaler.Base.{
  ℕ, zero, suc, ◌+◌, ◌≤◌, ◌<◌, ◌≡◌, refl, arith, ◌==◌, if◌then◌else◌, inl, inr, Bool-cases, ltb,
}

abbrev pub set_at {ℓ} : {A : Type ℓ} → (ℕ → A) → ℕ → A → ℕ → A
set_at f i a j = if i == j then a else f j

module _ {ℓ} {A : Type ℓ} (weight : A → ℕ) where
  unfoldable pub sum : ℕ → (ℕ → A) → ℕ
  sum zero f = 0
  sum (suc n) f = weight (f n) + sum n f

  sum_beyond : (n : ℕ) (f : ℕ → A) (i : ℕ) (a : A) → n ≤ i → sum n (set_at f i a) ≡ sum n f
  unfolding sum
  sum_beyond zero f i a h = refl
  sum_beyond (suc n) f i a h = ground (arith, sum_beyond n f i a)

  -- What changes in the sum is the weight of the value that changes.
  pub sum-set_at :
      (n : ℕ) (f : ℕ → A) (i : ℕ) (a : A)
      → i < n
      → sum n (set_at f i a) + weight (f i) ≡ sum n f + weight a
  unfolding sum
  sum-set_at zero f i a h = absurd (omega arith)
  sum-set_at (suc n) f i a h = elim (Bool-cases (ltb i n)) [
    | inl inside ↦ ground (arith, sum-set_at n f i a)
    | inr last ↦ ground (arith, sum_beyond n f i a)
  ]

  pub sum_small : ((a : A) → weight a ≤ 1) → (n : ℕ) (f : ℕ → A) → sum n f ≤ n
  unfolding sum
  sum_small small zero f = omega arith
  sum_small small (suc n) f = omega (arith, small (f n), sum_small small n f)
