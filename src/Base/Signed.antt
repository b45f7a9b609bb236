-- ===== src/Base/Signed.antt =====
-- Integers over the native numbers, for Go's int64.
use Prim.Native.Nat.{ℕ, zero, suc, ◌+◌, ◌-◌, ◌*◌, ◌/◌, ◌%◌, compare, Ordering}
use mathlib.Core.Bool.{Bool, true, false}

-- `negsuc n` is -(n + 1).
pub data ℤ : Type 0 where
  pos : ℕ → ℤ
  negsuc : ℕ → ℤ

-- Go's conversion `uint32(x)`.
abbrev pub to_uint32 : ℤ → ℕ
to_uint32 (pos n) = n % 4294967296
to_uint32 (negsuc n) = 4294967295 - n % 4294967296

-- The value of a 64-bit word, read as Go's int64, and its word.
abbrev pub int64_of : ℕ → ℤ
int64_of w = elim (compare w 9223372036854775808) [
  | Ordering.lt ↦ pos w
  | _ ↦ negsuc (18446744073709551615 - w)
]

abbrev pub word_of : ℤ → ℕ
word_of (pos n) = n % 18446744073709551616
word_of (negsuc n) = 18446744073709551615 - n % 18446744073709551616

-- Go's `a - b` and `a * k` on int64
abbrev pub int64_sub : ℤ → ℤ → ℤ
int64_sub a b = int64_of ((word_of a + (18446744073709551616 - word_of b)) % 18446744073709551616)

abbrev pub int64_mul : ℤ → ℕ → ℤ
int64_mul a k = int64_of (word_of a * k % 18446744073709551616)

abbrev pub ltb_ℤ : ℤ → ℤ → Bool
ltb_ℤ (pos a) (pos b) = elim (compare a b) [ Ordering.lt ↦ true | _ ↦ false ]
ltb_ℤ (pos a) (negsuc b) = false
ltb_ℤ (negsuc a) (pos b) = true
ltb_ℤ (negsuc a) (negsuc b) = elim (compare b a) [ Ordering.lt ↦ true | _ ↦ false ]

-- Go's division by a positive number rounds towards 0.
abbrev pub div_pos : ℤ → ℕ → ℤ
div_pos (pos n) k = pos (n / k)
div_pos (negsuc n) k = elim ((n + 1) / k) as (λ q. ℤ) [ zero ↦ pos 0 | suc q ↦ negsuc q ]
