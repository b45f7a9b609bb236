-- ===== src/Daemon/Float.antt =====
-- What the daemon does with float64: an interface, with IEEE 754 left to the machine.
use swarm_autoscaler.Base.{ℤ, pos, negsuc, ltb_ℤ, ◌<◌, ◌^◌, ◌≡◌, Bool, not}

-- `of_int` is the conversion from int64.
pub record Float (F : Type 0) : Type 0 where
  pub of_int : ℤ → F
  pub lt : F → F → Bool
  pub le : F → F → Bool
  pub div : F → F → F
  pub mul : F → F → F

-- The integers that a float64 holds exactly.
abbrev pub IsExact : ℤ → Type 0
IsExact (pos n) = n < 2 ^ 53
IsExact (negsuc n) = n < 2 ^ 53

-- IEEE 754: such integers compare as they do before the conversion.
pub record Laws {F : Type 0} (fl : Float F) : Type 0 where
  pub lt-of_int : (a b : ℤ) → IsExact a → IsExact b → fl.lt (fl.of_int a) (fl.of_int b) ≡ ltb_ℤ a b
  pub le-of_int :
      (a b : ℤ) → IsExact a → IsExact b → fl.le (fl.of_int a) (fl.of_int b) ≡ not (ltb_ℤ b a)
