-- ===== src/Kernel/Layout/Bounds.antt =====
-- Where the fields of a struct lie, for every struct that Kernel/Layout.antt can describe: inside it,
-- aligned, and apart from one another.
use native.Mathlib.Nat.{mul-mod_left}
use Prim.Native.String.{String}
use text.Mathlib.TextEquality.{eq_iff}
use swarm_autoscaler.Base.{
  ℕ, ◌+◌, ◌-◌, ◌*◌, ◌/◌, ◌%◌, ◌≤◌, ◌<◌, ◌≡◌, ◌≢◌, ◌⊎◌, inl, inr, Option, none, some, true, false,
  arith, Bool-cases,
}
use swarm_autoscaler.Kernel.Layout.{
  CType, Field, Fields, int8, int16, int32, int64, array, struct, union, ◌of◌, bits, pad, end, ◌⨾◌,
  round_up, align_of, align_fields, place_bits, start_of, size_of, width_of, end_of, is_named,
  find_field, member, whole,
}

-- A bit-field stands in a unit that has a size.
abbrev pub HasUnit : Field → Type 0
HasUnit (name of t) = Unit {0}
HasUnit (bits name s w) = 0 < s
HasUnit (pad s w) = 0 < s

abbrev pub HaveUnits : Fields → Type 0
HaveUnits end = Unit {0}
HaveUnits (f ⨾ fs) = HasUnit f × HaveUnits fs

round_up-ge : (p a : ℕ) → 0 < a → p ≤ round_up p a
unfolding round_up
round_up-ge p a h = grind (arith)

mutual
  unfolding align_of

  align_of_pos : (t : CType) → 0 < align_of t
  align_of_pos int8 = omega arith
  align_of_pos int16 = omega arith
  align_of_pos int32 = omega arith
  align_of_pos int64 = omega arith
  align_of_pos (array n t) = align_of_pos t
  align_of_pos (struct fs) = align_fields_pos fs
  align_of_pos (union fs) = align_fields_pos fs

  align_fields_pos : (fs : Fields) → 0 < align_fields fs
  align_fields_pos end = omega arith
  align_fields_pos (f ⨾ fs) = omega (arith, align_fields_pos fs)

start_of-ge : (f : Field) (pos : ℕ) → HasUnit f → pos ≤ start_of f pos
unfolding start_of place_bits
start_of-ge (name of t) pos h = round_up-ge pos (8 * align_of t) (omega (arith, align_of_pos t))
start_of-ge (bits name s w) pos h = ground (arith, round_up-ge pos (8 * s))
start_of-ge (pad s w) pos h = ground (arith, round_up-ge pos (8 * s))

end_of-ge : (fs : Fields) (pos : ℕ) → HaveUnits fs → pos ≤ end_of fs pos
unfolding end_of
end_of-ge end pos h = omega arith
end_of-ge (f ⨾ fs) pos h =
    omega (arith, start_of-ge f pos h.0, end_of-ge fs (start_of f pos + width_of f) h.1)

-- A field lies behind the bits before it and ahead of those after it.
pub find_field_bounds :
    (n : String) (fs : Fields) (pos start : ℕ) (f : Field)
    → HaveUnits fs
    → find_field n fs pos ≡ some (start, f)
    → (pos ≤ start) × (start + width_of f ≤ end_of fs pos)
unfolding find_field end_of
find_field_bounds n end pos start f h e = cc
find_field_bounds n (g ⨾ fs) pos start f h e = ground (
  arith,
  start_of-ge g pos h.0,
  end_of-ge fs (start_of g pos + width_of g) h.1,
  find_field_bounds n fs (start_of g pos + width_of g) start f h.1,
)

is_named_once : (n m : String) (f : Field) → n ≢ m → is_named n f ≡ true → is_named m f ≡ false
unfolding is_named
is_named_once n m (name of t) ne h = ground (arith, eq_iff n name, eq_iff m name)
is_named_once n m (bits name s w) ne h = ground (arith, eq_iff n name, eq_iff m name)
is_named_once n m (pad s w) ne h = cc

-- Two fields of different names share no bit: one ends before the other starts.
pub find_field_disjoint :
    (n m : String) (fs : Fields) (pos a b : ℕ) (f g : Field)
    → HaveUnits fs
    → n ≢ m
    → find_field n fs pos ≡ some (a, f)
    → find_field m fs pos ≡ some (b, g)
    → (a + width_of f ≤ b) ⊎ (b + width_of g ≤ a)
unfolding find_field
find_field_disjoint n m end pos a b f g h ne e k = cc
find_field_disjoint n m (x ⨾ fs) pos a b f g h ne e k =
    let after = start_of x pos + width_of x in
    ground (
      arith,
      is_named_once n m x ne,
      find_field_bounds n fs after a f h.1,
      find_field_bounds m fs after b g h.1,
      find_field_disjoint n m fs after a b f g h.1 ne,
    )

find_field-start_of :
    (n : String) (fs : Fields) (pos start : ℕ) (f : Field)
    → find_field n fs pos ≡ some (start, f)
    → (p : ℕ) × (start ≡ start_of f p)
unfolding find_field
find_field-start_of n end pos start f e = absurd (cc)
find_field-start_of n (g ⨾ fs) pos start f e = elim (Bool-cases (is_named n g)) [
  | inl hit ↦ (pos, ground arith)
  | inr miss ↦ find_field-start_of n fs (start_of g pos + width_of g) start f (ground arith)
]

whole_inversion :
    (r : Option (ℕ × Field)) (offset : ℕ) (t : CType)
    → whole r ≡ some (offset, t)
    → (name : String) × (start : ℕ) × (r ≡ some (start, name of t)) × (offset ≡ start / 8)
whole_inversion none offset t e = absurd (cc)
whole_inversion (some (start, name of u)) offset t e = (name, start, ground arith, ground arith)
whole_inversion (some (start, bits name s w)) offset t e = absurd (cc)
whole_inversion (some (start, pad s w)) offset t e = absurd (cc)

eighth :
    (q a start offset : ℕ)
    → start ≡ q * (8 * a)
    → offset ≡ start / 8
    → (offset ≡ q * a) × (start ≡ 8 * offset)
eighth q a start offset h k = (omega arith, omega arith)

-- A member of a struct lies within its size, at a multiple of its alignment.
pub member_bounds :
    (n : String) (fs : Fields) (offset : ℕ) (t : CType)
    → HaveUnits fs
    → member n (struct fs) ≡ some (offset, t)
    → (offset + size_of t ≤ size_of (struct fs)) × (offset % align_of t ≡ 0)
unfolding member start_of size_of
member_bounds n fs offset t h e =
    let (name, start, found, at) = whole_inversion (find_field n fs 0) offset t e in
    let (p, placed) = find_field-start_of n fs 0 start (name of t) found in
    let q = (p + (8 * align_of t - 1)) / (8 * align_of t) in
    let bytes = eighth q (align_of t) start offset placed at in
    (
      omega (
        arith,
        bytes,
        find_field_bounds n fs 0 start (name of t) h found,
        round_up-ge (end_of fs 0) (8 * align_fields fs) (omega (arith, align_fields_pos fs)),
      ),
      rw bytes.0 (mul-mod_left q (align_of t)),
    )
