-- ===== src/Daemon/Cgroup/Numbers.antt =====
-- Decimal numbers in the files that autoscaler/cgroup_monitoring/cgroup_monitoring.go reads.
use native.Mathlib.Nat.{add-mul, mul_assoc, pow-succ'}
use swarm_autoscaler.Base.{
  ℕ, suc, ◌+◌, ◌-◌, ◌*◌, ◌^◌, ◌<◌, ◌≡◌, ◌∙◌, refl, ap, pos, true, false, some, List, [], ◌∷◌, ◌++◌,
  arith, length,
}
use swarm_autoscaler.Daemon.Cgroup.{
  is_space, is_digit, scan_digits, parse_digits, in_range, parse_int, drop_spaces, drop_end_spaces,
  trim_space,
}

abbrev pub AllDigits : List ℕ → Type 0
AllDigits [] = Unit {0}
AllDigits (b ∷ bs) = (is_digit b ≡ true) × AllDigits bs

-- The number that decimal digits stand for, by their places.
unfoldable pub value_of : List ℕ → ℕ
value_of [] = 0
value_of (b ∷ bs) = (b - b'0') * 10 ^ length bs + value_of bs

place : (n d p q : ℕ) → q ≡ 10 * p → (n * 10 + d) * p ≡ n * q + d * p
place n d p q e = rw (add-mul, mul_assoc, e) refl

scan_digits-value_of :
    (n : ℕ) (bs : List ℕ)
    → AllDigits bs
    → scan_digits n bs ≡ some (n * 10 ^ length bs + value_of bs)
unfolding scan_digits value_of
scan_digits-value_of n [] h = ap some (omega arith)
scan_digits-value_of n (b ∷ bs) h = rw h.0 (
    scan_digits-value_of (n * 10 + (b - b'0')) bs h.1
    ∙ ap some (
        omega (
          arith,
          place n (b - b'0') (10 ^ length bs) (10 ^ suc (length bs)) (pow-succ' 10 (length bs)),
        )))

-- Digits that stay within the range of int64 are read as the number that they stand for.
pub parse_int-value_of :
    (b : ℕ) (bs : List ℕ)
    → AllDigits (b ∷ bs)
    → value_of (b ∷ bs) < 2 ^ 63
    → parse_int (b ∷ bs) ≡ some (pos (value_of (b ∷ bs)))
unfolding parse_int parse_digits in_range
parse_int-value_of b bs h small = ground (arith, scan_digits-value_of 0 (b ∷ bs) h, small)

digit_no_space : (b : ℕ) → is_digit b ≡ true → is_space b ≡ false
digit_no_space b h = ground arith

drop_end_digits : (bs : List ℕ) → AllDigits bs → drop_end_spaces (bs ++ 10 ∷ []) ≡ bs
unfolding drop_end_spaces
drop_end_digits [] h = refl
drop_end_digits (b ∷ bs) h = ground (arith, drop_end_digits bs h.1, digit_no_space b h.0)

-- A line of digits loses its end.
pub trim_space-digits :
    (b : ℕ) (bs : List ℕ) → AllDigits (b ∷ bs) → trim_space (b ∷ bs ++ 10 ∷ []) ≡ b ∷ bs
unfolding trim_space drop_spaces
trim_space-digits b bs h = ground (arith, drop_end_digits (b ∷ bs) h, digit_no_space b h.0)
