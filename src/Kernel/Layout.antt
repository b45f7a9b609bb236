-- ===== src/Kernel/Layout.antt =====
-- C types and their layout: sizes, alignments, offsets and bit-fields by the x86-64 ABI, which is what
-- the offsets of autoscaler/conc_req_monitoring/bpf/vmlinux.h mean.
pub mod Bounds
use Prim.Native.Nat.{max}
use Prim.Native.String.{String}
use text.Mathlib.Text.{◌==◌ as str_eq}
use mathlib.Core.Bool.{Bool}
use swarm_autoscaler.Base.{
  ℕ, suc, ◌+◌, ◌-◌, ◌*◌, ◌/◌, ◌%◌, Option, none, some, List, [], ◌∷◌, ltb, if◌then◌else◌,
}

infix 60 ◌of◌
infixr 55 ◌⨾◌
mutual
  pub data CType : Type 0 where
    int8 int16 int32 int64 : CType
    array : ℕ → CType → CType
    struct : Fields → CType
    union : Fields → CType

  -- `bits n s w` is a bit-field of width `w` in a unit of `s` bytes; `pad` is one without a name.
  pub data Field : Type 0 where
    ◌of◌ : String → CType → Field
    bits : String → ℕ → ℕ → Field
    pad : ℕ → ℕ → Field

  pub data Fields : Type 0 where
    end : Fields
    ◌⨾◌ : Field → Fields → Fields

abbrev pub ptr : CType
ptr = int64

-- the least multiple of `a` that is not below `p`
unfoldable pub round_up : ℕ → ℕ → ℕ
round_up p a = (p + (a - 1)) / a * a

unfoldable mutual
  pub align_of : CType → ℕ
  align_of int8 = 1
  align_of int16 = 2
  align_of int32 = 4
  align_of int64 = 8
  align_of (array n t) = align_of t
  align_of (struct fs) = align_fields fs
  align_of (union fs) = align_fields fs

  pub align_field : Field → ℕ
  align_field (name of t) = align_of t
  align_field (bits name s w) = s
  align_field (pad s w) = 1

  pub align_fields : Fields → ℕ
  align_fields end = 1
  align_fields (f ⨾ fs) = max (align_field f) (align_fields fs)

-- The bit at which a bit-field of width `w` starts: it may not cross a boundary of its unit.
unfoldable pub place_bits : ℕ → ℕ → ℕ → ℕ
unfolding round_up
place_bits pos s w = if ltb (8 * s) (pos % (8 * s) + w) then round_up pos (8 * s) else pos

-- The bit at which a field starts, from the first free bit.
unfoldable pub start_of : Field → ℕ → ℕ
unfolding round_up place_bits align_of
start_of (name of t) pos = round_up pos (8 * align_of t)
start_of (bits name s w) pos = place_bits pos s w
start_of (pad s w) pos = place_bits pos s w

-- Sizes in bytes, widths and ends in bits.
unfoldable mutual
  unfolding start_of round_up align_of

  pub size_of : CType → ℕ
  size_of int8 = 1
  size_of int16 = 2
  size_of int32 = 4
  size_of int64 = 8
  size_of (array n t) = n * size_of t
  size_of (struct fs) = round_up (end_of fs 0) (8 * align_fields fs) / 8
  size_of (union fs) = round_up (widest fs) (8 * align_fields fs) / 8

  pub width_of : Field → ℕ
  width_of (name of t) = 8 * size_of t
  width_of (bits name s w) = w
  width_of (pad s w) = w

  pub end_of : Fields → ℕ → ℕ
  end_of end pos = pos
  end_of (f ⨾ fs) pos = end_of fs (start_of f pos + width_of f)

  pub widest : Fields → ℕ
  widest end = 0
  widest (f ⨾ fs) = max (width_of f) (widest fs)

unfoldable pub is_named : String → Field → Bool
is_named n (m of t) = str_eq n m
is_named n (bits m s w) = str_eq n m
is_named n (pad s w) = Bool.false

-- The first field of the name, with the bit at which it starts.
unfoldable pub find_field : String → Fields → ℕ → Option (ℕ × Field)
unfolding is_named start_of width_of
find_field n end pos = none
find_field n (f ⨾ fs) pos =
    let rest = find_field n fs (start_of f pos + width_of f) in
    if is_named n f then some (start_of f pos, f) else rest

abbrev whole : Option (ℕ × Field) → Option (ℕ × CType)
whole (some (start, name of t)) = some (start / 8, t)
whole _ = none

-- The offset in bytes of a member that is no bit-field, and its type.
unfoldable pub member : String → CType → Option (ℕ × CType)
unfolding find_field
member n (struct fs) = whole (find_field n fs 0)
member n t = none
