-- ===== src/Daemon/Cgroup.antt =====
-- autoscaler/cgroup_monitoring/cgroup_monitoring.go: usage files of a container's cgroup, and one tick of
-- the two monitors. A file is its bytes, `none` where it cannot be read; spaces are those of ASCII. The
-- proofs are in the modules below.
pub mod Numbers
pub mod Usage
pub mod Loop
use Prim.Native.String.{String}
use text.Mathlib.Text.{◌==◌ as str_eq}
use swarm_autoscaler.Base.{
  ℕ, zero, suc, ◌+◌, ◌-◌, ◌*◌, ℤ, pos, negsuc, int64_sub, div_pos, Bool, true, false, not, ◌||◌,
  ◌&&◌, Option, none, some, List, [], ◌∷◌, ◌==◌, ltb, leb, if◌then◌else◌,
}
use swarm_autoscaler.Daemon.Float.{Float}
use swarm_autoscaler.Daemon.Server.{SwarmNodeInfo, Message, scale_request, get_manager_node}
use swarm_autoscaler.Daemon.Monitor.{Turn, scales, sends, stops}

abbrev pub is_space : ℕ → Bool
is_space b = b == b' ' || (leb 9 b && leb b 13)

abbrev pub is_digit : ℕ → Bool
is_digit b = leb b'0' b && leb b b'9'

-- `strings.TrimSpace`
unfoldable pub drop_spaces : List ℕ → List ℕ
drop_spaces [] = []
drop_spaces (b ∷ bs) = let rest = drop_spaces bs in if is_space b then rest else b ∷ bs

unfoldable pub drop_end_spaces : List ℕ → List ℕ
drop_end_spaces [] = []
drop_end_spaces (b ∷ bs) = elim (drop_end_spaces bs) [
  | [] ↦ (if is_space b then [] else b ∷ [])
  | c ∷ cs ↦ b ∷ c ∷ cs
]

unfoldable pub trim_space : List ℕ → List ℕ
unfolding drop_spaces drop_end_spaces
trim_space bs = drop_end_spaces (drop_spaces bs)

-- `strconv.ParseInt(s, 10, 64)`: digits after an optional sign, within the range of int64.
unfoldable pub scan_digits : ℕ → List ℕ → Option ℕ
scan_digits n [] = some n
scan_digits n (b ∷ bs) =
    let rest = scan_digits (n * 10 + (b - b'0')) bs in if is_digit b then rest else none

parse_digits : List ℕ → Option ℕ
unfolding scan_digits
parse_digits [] = none
parse_digits (b ∷ bs) = scan_digits 0 (b ∷ bs)

in_range : Bool → Option ℕ → Option ℤ
in_range negative none = none
in_range false (some n) = if ltb n 9223372036854775808 then some (pos n) else none
in_range true (some zero) = some (pos 0)
in_range true (some (suc n)) = if ltb n 9223372036854775808 then some (negsuc n) else none

unfoldable pub parse_int : List ℕ → Option ℤ
unfolding parse_digits in_range
parse_int [] = none
parse_int (b ∷ bs) =
    if b == b'-'
    then in_range true (parse_digits bs)
    else (if b == b'+'
        then in_range false (parse_digits bs)
        else in_range false (parse_digits (b ∷ bs)))

-- The content of memory.current, in MB.
unfoldable pub read_memory_usage : Option (List ℕ) → Option ℤ
unfolding trim_space parse_int
read_memory_usage none = none
read_memory_usage (some content) = elim (parse_int (trim_space content)) [
  | none ↦ none
  | some bytes ↦ some (div_pos bytes (1024 * 1024))
]

-- The pieces of a text between separators: all of them, as `strings.Split`, or those that are not empty,
-- as `strings.Fields`.
unfoldable pub split_on : (ℕ → Bool) → List ℕ → List (List ℕ)
split_on is_end [] = [] ∷ []
split_on is_end (b ∷ bs) = elim (split_on is_end bs) [
  | [] ↦ (b ∷ []) ∷ []
  | piece ∷ pieces ↦ if is_end b then [] ∷ piece ∷ pieces else (b ∷ piece) ∷ pieces
]

unfoldable pub not_empty : List (List ℕ) → List (List ℕ)
not_empty [] = []
not_empty ([] ∷ pieces) = not_empty pieces
not_empty ((b ∷ bs) ∷ pieces) = (b ∷ bs) ∷ not_empty pieces

unfoldable pub fields : List ℕ → List (List ℕ)
unfolding split_on not_empty
fields bs = not_empty (split_on is_space bs)

unfoldable pub has_prefix : List ℕ → List ℕ → Bool
has_prefix bs [] = true
has_prefix [] (p ∷ ps) = false
has_prefix (b ∷ bs) (p ∷ ps) = b == p && has_prefix bs ps

abbrev pub usage_key : List ℕ
usage_key = b'u' ∷ b's' ∷ b'a' ∷ b'g' ∷ b'e' ∷ b'_' ∷ b'u' ∷ b's' ∷ b'e' ∷ b'c' ∷ []

-- One line of cpu.stat: `none` goes on with the next line, `some` is the result of the function.
unfoldable pub usage_line : List ℕ → Option (Option ℤ)
unfolding has_prefix fields parse_int
usage_line line =
    if has_prefix line usage_key
    then elim (fields line) [
      | [] ↦ none
      | key ∷ values ↦ elim values [
        | [] ↦ none
        | value ∷ more ↦ elim more [ [] ↦ some (parse_int value) | _ ∷ _ ↦ none ]
      ]
    ]
    else none

unfoldable pub find_usage : List (List ℕ) → Option ℤ
unfolding usage_line
find_usage [] = none
find_usage (line ∷ lines) = elim (usage_line line) [
  | none ↦ find_usage lines
  | some result ↦ result
]

-- The content of cpu.stat, in microseconds.
unfoldable pub read_cpu_usage : Option (List ℕ) → Option ℤ
unfolding find_usage split_on
read_cpu_usage none = none
read_cpu_usage (some content) = find_usage (split_on (λ b. b == 10) content)

module _ {F : Type 0} (fl : Float F) where
  -- The empty text is no action.
  unfoldable pub determine_scaling_direction : F → F → F → String
  determine_scaling_direction current lower upper =
      if fl.lt upper current then "over" else (if fl.lt current lower then "under" else "")

  -- `service_id` is `FindServiceIDFromContainer`; `none` is an error. Both monitors end in the same way.
  act : SwarmNodeInfo → Option String → String → Turn
  act info service_id direction =
      if info.autoscaler_manager
      then scales direction
      else elim (get_manager_node info.other_nodes) [
        | none ↦ stops
        | some manager ↦ elim service_id [
          | none ↦ stops
          | some id ↦ sends (scale_request manager.ip id direction)
        ]
      ]

  -- What a tick makes a monitor do: nothing, or the turn.
  unfoldable pub act_on : SwarmNodeInfo → Option String → String → Option Turn
  unfolding act
  act_on info service_id direction =
      if str_eq direction "" then none else some (act info service_id direction)

  unfoldable pub memory_tick : ℤ → ℤ → SwarmNodeInfo → Option String → Option (List ℕ) → Option Turn
  unfolding act_on determine_scaling_direction read_memory_usage
  memory_tick lower upper info service_id content = elim (read_memory_usage content) [
    | none ↦ none
    | some usage ↦
        act_on info service_id
          (determine_scaling_direction (fl.of_int usage) (fl.of_int lower) (fl.of_int upper))
  ]

  -- `seconds` is the collection period. The usage that the next tick starts from, and the turn.
  unfoldable pub cpu_tick :
      F → F → F → SwarmNodeInfo → Option String → ℤ → Option (List ℕ) → ℤ × Option Turn
  unfolding act_on determine_scaling_direction read_cpu_usage
  cpu_tick seconds lower upper info service_id last content = elim (read_cpu_usage content) [
    | none ↦ (last, none)
    | some usage ↦
        let utilization =
          fl.mul
            (fl.div (fl.div (fl.of_int (int64_sub usage last)) seconds) (fl.of_int (pos 1000000)))
            (fl.of_int (pos 100)) in
        (usage, act_on info service_id (determine_scaling_direction utilization lower upper))
  ]
