-- ===== src/Daemon/Cgroup/Usage.antt =====
-- What a tick of the monitors of autoscaler/cgroup_monitoring/cgroup_monitoring.go makes of the files that
-- the kernel writes.
use Prim.Native.String.{String}
use swarm_autoscaler.Base.{
  ℕ, ◌*◌, ◌/◌, ◌^◌, ◌<◌, ◌≡◌, ◌∙◌, refl, ap, ℤ, pos, ltb_ℤ, Bool, true, false, Option, some, List,
  [], ◌∷◌, ◌++◌, arith, ◌==◌, if◌then◌else◌, inl, inr, Bool-cases,
}
use swarm_autoscaler.Daemon.Float.{Float, Laws, IsExact}
use swarm_autoscaler.Daemon.Server.{SwarmNodeInfo}
use swarm_autoscaler.Daemon.Cgroup.{
  is_space, trim_space, parse_int, read_memory_usage, split_on, not_empty, fields, has_prefix,
  usage_key, usage_line, find_usage, read_cpu_usage, determine_scaling_direction, act_on,
  memory_tick,
}
use swarm_autoscaler.Daemon.Cgroup.Numbers.{
  AllDigits, value_of, parse_int-value_of, trim_space-digits,
}

-- No byte of the text ends a piece.
abbrev Unbroken : (ℕ → Bool) → List ℕ → Type 0
Unbroken is_end [] = Unit {0}
Unbroken is_end (b ∷ bs) = (is_end b ≡ false) × Unbroken is_end bs

split_on-cons :
    (is_end : ℕ → Bool) (bs : List ℕ)
    → (piece : List ℕ) × (pieces : List (List ℕ)) × (split_on is_end bs ≡ piece ∷ pieces)
unfolding split_on
split_on-cons is_end [] = ([], [], refl)
split_on-cons is_end (b ∷ bs) =
    let (piece, pieces, e) = split_on-cons is_end bs in
    elim (Bool-cases (is_end b)) [
      | inl f ↦ ([], piece ∷ pieces, rw (e, f) refl)
      | inr f ↦ (b ∷ piece, pieces, rw (e, f) refl)
    ]

split_on-Unbroken :
    (is_end : ℕ → Bool) (bs : List ℕ) → Unbroken is_end bs → split_on is_end bs ≡ bs ∷ []
unfolding split_on
split_on-Unbroken is_end [] h = refl
split_on-Unbroken is_end (b ∷ bs) h = rw (split_on-Unbroken is_end bs h.1, h.0) refl

split_on-first :
    (is_end : ℕ → Bool) (bs : List ℕ) (e : ℕ) (rest : List ℕ)
    → Unbroken is_end bs
    → is_end e ≡ true
    → split_on is_end (bs ++ e ∷ rest) ≡ bs ∷ split_on is_end rest
unfolding split_on
split_on-first is_end [] e rest h k =
    let (piece, pieces, q) = split_on-cons is_end rest in rw (q, k) refl
split_on-first is_end (b ∷ bs) e rest h k = rw (split_on-first is_end bs e rest h.1 k, h.0) refl

digits_unspaced : (bs : List ℕ) → AllDigits bs → Unbroken is_space bs
digits_unspaced [] h = tt
digits_unspaced (b ∷ bs) h = (ground arith, digits_unspaced bs h.1)

digits_on_line : (bs : List ℕ) → AllDigits bs → Unbroken (λ b. b == 10) bs
digits_on_line [] h = tt
digits_on_line (b ∷ bs) h = (ground arith, digits_on_line bs h.1)

fields_two :
    (k b : ℕ) (ks bs : List ℕ)
    → Unbroken is_space (k ∷ ks)
    → Unbroken is_space (b ∷ bs)
    → fields (k ∷ ks ++ b' ' ∷ b ∷ bs) ≡ (k ∷ ks) ∷ (b ∷ bs) ∷ []
unfolding fields not_empty
fields_two k b ks bs h g = ap not_empty (
    split_on-first is_space (k ∷ ks) b' ' (b ∷ bs) h refl
    ∙ ap (λ t. (k ∷ ks) ∷ t) (split_on-Unbroken is_space (b ∷ bs) g))

usage_line_two :
    (line key value : List ℕ)
    → has_prefix line usage_key ≡ true
    → fields line ≡ key ∷ value ∷ []
    → usage_line line ≡ some (parse_int value)
unfolding usage_line
usage_line_two line key value e f = rw (e, f, usage_line) refl

usage_key_unspaced : Unbroken is_space usage_key
usage_key_unspaced = ground arith

usage_line-digits :
    (b : ℕ) (bs : List ℕ)
    → AllDigits (b ∷ bs)
    → usage_line (usage_key ++ b' ' ∷ b ∷ bs) ≡ some (parse_int (b ∷ bs))
unfolding has_prefix
usage_line-digits b bs h =
    usage_line_two (usage_key ++ b' ' ∷ b ∷ bs) usage_key (b ∷ bs) refl
      (fields_two b'u' b _ bs usage_key_unspaced (digits_unspaced (b ∷ bs) h))

find_usage_first :
    (line : List ℕ) (lines : List (List ℕ)) (r : Option ℤ)
    → usage_line line ≡ some r
    → find_usage (line ∷ lines) ≡ r
unfolding find_usage
find_usage_first line lines r e = rw (e, find_usage) refl

usage_on_line : (bs : List ℕ) → AllDigits bs → Unbroken (λ b. b == 10) (usage_key ++ b' ' ∷ bs)
usage_on_line bs h = ground (arith, digits_on_line bs h)

-- Whatever follows in cpu.stat, a first line of the key and of digits that stand for less than 2^63 is
-- read as the number that they stand for.
pub read_cpu_usage-value_of :
    (b : ℕ) (bs rest : List ℕ)
    → AllDigits (b ∷ bs)
    → value_of (b ∷ bs) < 2 ^ 63
    → read_cpu_usage (some (usage_key ++ (b' ' ∷ b ∷ bs) ++ 10 ∷ rest))
      ≡ some (pos (value_of (b ∷ bs)))
unfolding read_cpu_usage
read_cpu_usage-value_of b bs rest h small =
    ap find_usage (
      split_on-first (λ b. b == 10) (usage_key ++ b' ' ∷ b ∷ bs) 10 rest (usage_on_line (b ∷ bs) h)
        refl)
    ∙ find_usage_first (usage_key ++ b' ' ∷ b ∷ bs) (split_on (λ b. b == 10) rest) _
        (usage_line-digits b bs h)
    ∙ parse_int-value_of b bs h small

read_memory_usage-some :
    (content digits : List ℕ) (v : ℕ)
    → trim_space content ≡ digits
    → parse_int digits ≡ some (pos v)
    → read_memory_usage (some content) ≡ some (pos (v / (1024 * 1024)))
unfolding read_memory_usage
read_memory_usage-some content digits v e f = rw (e, f, read_memory_usage) refl

pub memory_tick-some :
    {F : Type 0} (fl : Float F) (lower upper usage : ℤ) (info : SwarmNodeInfo)
    (service_id : Option String) (content : Option (List ℕ))
    → read_memory_usage content ≡ some usage
    → memory_tick fl lower upper info service_id content
      ≡ act_on fl info service_id
          (determine_scaling_direction fl (fl.of_int usage) (fl.of_int lower) (fl.of_int upper))
unfolding memory_tick
memory_tick-some fl lower upper usage info service_id content e = rw (e, memory_tick) refl

pub direction_of_integers :
    {F : Type 0} (fl : Float F) (a lower upper : ℤ)
    → Laws fl
    → IsExact a
    → IsExact lower
    → IsExact upper
    → determine_scaling_direction fl (fl.of_int a) (fl.of_int lower) (fl.of_int upper)
      ≡ (if ltb_ℤ upper a then "over" else (if ltb_ℤ a lower then "under" else ""))
unfolding determine_scaling_direction
direction_of_integers fl a lower upper laws x y z =
    rw (laws.lt-of_int upper a z x, laws.lt-of_int a lower x y) refl

-- With limits that a float64 holds, a tick compares the number in memory.current, if it is less than
-- 2^63, in whole MB with them as integers: "over" above the upper, "under" below the lower, and nothing
-- otherwise.
memory_tick-value_of :
    {F : Type 0} (fl : Float F) (lower upper : ℤ) (info : SwarmNodeInfo)
    (service_id : Option String) (b : ℕ) (bs : List ℕ)
    → Laws fl
    → AllDigits (b ∷ bs)
    → value_of (b ∷ bs) < 2 ^ 63
    → IsExact lower
    → IsExact upper
    → memory_tick fl lower upper info service_id (some (b ∷ bs ++ 10 ∷ []))
      ≡ act_on fl info service_id (
          if ltb_ℤ upper (pos (value_of (b ∷ bs) / (1024 * 1024)))
          then "over"
          else (if ltb_ℤ (pos (value_of (b ∷ bs) / (1024 * 1024))) lower then "under" else ""))
memory_tick-value_of fl lower upper info service_id b bs laws h small exact_lower exact_upper =
    let mb = value_of (b ∷ bs) / (1024 * 1024) in
    memory_tick-some fl lower upper (pos mb) info service_id (some (b ∷ bs ++ 10 ∷ [])) (
      read_memory_usage-some (b ∷ bs ++ 10 ∷ []) (b ∷ bs) (value_of (b ∷ bs))
        (trim_space-digits b bs h) (parse_int-value_of b bs h small))
    ∙ ap (act_on fl info service_id)
        (direction_of_integers fl (pos mb) lower upper laws (omega arith) exact_lower exact_upper)
