-- ===== src/Bpf/Table.antt =====
-- A hash map with room for `room` entries, to run the programs on: a value of the interface `BpfMaps`.
use swarm_autoscaler.Base.{
  ℕ, ◌≡◌, Option, none, some, List, [], ◌∷◌, arith, ◌==◌, ltb, if◌then◌else◌, length, inl, inr,
  Option-cases,
}
use swarm_autoscaler.Bpf.Maps.{BpfMaps, UpdateFlag, any, noexist}

abbrev pub Entries : Type 0
Entries = List (ℕ × ℕ)

abbrev pub find : Entries → ℕ → Option ℕ
find [] k = none
find ((j, v) ∷ m) k = if j == k then some v else find m k

-- The entry of `k` with the value `v`, where there is one.
abbrev pub replace : Entries → ℕ → ℕ → Entries
replace [] k v = []
replace ((j, w) ∷ m) k v = let rest = replace m k v in if j == k then (j, v) ∷ m else (j, w) ∷ rest

abbrev pub remove : Entries → ℕ → Entries
remove [] k = []
remove ((j, w) ∷ m) k = let rest = remove m k in if j == k then rest else (j, w) ∷ rest

abbrev pub insert : ℕ → Entries → ℕ → ℕ → Option ℕ → UpdateFlag → Option Entries
insert room m k v none f = if ltb (length m) room then some ((k, v) ∷ m) else none
insert room m k v (some w) any = some (replace m k v)
insert room m k v (some w) noexist = none

abbrev pub take_out : Entries → ℕ → Option ℕ → Option Entries
take_out m k none = none
take_out m k (some w) = some (remove m k)

pub find-replace :
    (m : Entries) (k v w j : ℕ)
    → find m k ≡ some w
    → find (replace m k v) j ≡ (if k == j then some v else find m j)
find-replace [] k v w j h = ground arith
find-replace ((i, u) ∷ m) k v w j h = ground (arith, find-replace m k v w j)

pub find-remove :
    (m : Entries) (k j : ℕ) → find (remove m k) j ≡ (if k == j then none else find m j)
find-remove [] k j = ground arith
find-remove ((i, u) ∷ m) k j = ground (arith, find-remove m k j)

pub find-insert :
    (room : ℕ) (m : Entries) (k v : ℕ) (f : UpdateFlag) (n : Entries) (j : ℕ)
    → insert room m k v (find m k) f ≡ some n
    → find n j ≡ (if k == j then some v else find m j)
find-insert room m k v f n j h = elim (Option-cases (find m k)) [
  | inl e ↦ ground (arith, e)
  | inr (w, e) ↦ ground (arith, e, find-replace m k v w j e)
]

pub insert_noexist :
    (room : ℕ) (m : Entries) (k v : ℕ) (n : Entries)
    → insert room m k v (find m k) noexist ≡ some n
    → find m k ≡ none
insert_noexist room m k v n h = ground arith

pub insert_present :
    (room : ℕ) (m : Entries) (k v w : ℕ)
    → find m k ≡ some w
    → (n : Entries) × (insert room m k v (find m k) any ≡ some n)
insert_present room m k v w h = (replace m k v, rw h)

pub find-take_out :
    (m : Entries) (k : ℕ) (n : Entries) (j : ℕ)
    → take_out m k (find m k) ≡ some n
    → find n j ≡ (if k == j then none else find m j)
find-take_out m k n j h = ground (arith, find-remove m k j)

pub take_out_absent : (m : Entries) (k : ℕ) → find m k ≡ none → take_out m k (find m k) ≡ none
take_out_absent m k h = rw h

pub take_out_present :
    (m : Entries) (k w : ℕ) → find m k ≡ some w → (n : Entries) × (take_out m k (find m k) ≡ some n)
take_out_present m k w h = (remove m k, rw h)

abbrev pub table : ℕ → BpfMaps
table room = record {
  Map = Entries;
  lookup = find;
  update = λ m k v f. insert room m k v (find m k) f;
  delete = λ m k. take_out m k (find m k);
  write = replace;
  lookup-update = λ m k v f n j. find-insert room m k v f n j;
  update_noexist = insert_noexist room;
  update_present = insert_present room;
  lookup-write = find-replace;
  lookup-delete = find-take_out;
  delete_absent = take_out_absent;
  delete_present = take_out_present;
}
