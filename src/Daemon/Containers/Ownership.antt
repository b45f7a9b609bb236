-- ===== src/Daemon/Containers/Ownership.antt =====
-- Which containers a node owns: autoscaler/scale/scale.go.
use Prim.Native.String.{String}
use text.Mathlib.Text.{◌==◌ as str_eq}
use text.Mathlib.TextEquality.{eq_iff}
use swarm_autoscaler.Base.{
  ◌≡◌, refl, Bool, true, false, Option, none, some, List, [], ◌∷◌, arith, ◌↔◌, inl, inr, Bool-cases,
  ◌&&◌, ◌||◌,
}
use swarm_autoscaler.Daemon.Scale.Client.{Docker}
use swarm_autoscaler.Daemon.Containers.{check_owned_container, owned_of, get_running_containers}

abbrev pub is_in : String → List String → Bool
is_in c [] = false
is_in c (x ∷ xs) = str_eq x c || is_in c xs

module _ (D : Docker) where
  -- A container with a handler node is owned by that node and by no other.
  one_owner :
      (w : D.World) (host container node : String) (labels : String → Option String)
      → D.container_labels w container ≡ some labels
      → labels "autoscaler.handlerNode" ≡ some node
      → (check_owned_container D w (some host) container ≡ some true) ↔ (host ≡ node)
  unfolding check_owned_container
  one_owner w host container node labels e f = ground (arith, eq_iff node host)

  is_owned : D.World → Option String → String → Bool
  is_owned w hostname c = elim (check_owned_container D w hostname c) [
    | none ↦ false
    | some owned ↦ owned
  ]

  owned_of-is_in :
      (w : D.World) (hostname : Option String) (ids : List String) (c : String)
      → is_in c (owned_of D w hostname ids) ≡ (is_in c ids && is_owned w hostname c)
  unfolding owned_of is_owned
  owned_of-is_in w hostname [] c = refl
  owned_of-is_in w hostname (x ∷ xs) c = elim (Bool-cases (str_eq x c)) [
    | inl e ↦ rw (← (eq_iff x c).0 e) (ground (arith, owned_of-is_in w hostname xs x, eq_iff x x))
    | inr e ↦ ground (arith, owned_of-is_in w hostname xs c)
  ]

  pub get_running_containers-is_in :
      (w : D.World) (hostname : Option String) (ids taken : List String) (c : String)
      → D.container_list w ≡ some ids
      → get_running_containers D w hostname ≡ some taken
      → (is_in c taken ≡ true)
        ↔ ((is_in c ids ≡ true) × (check_owned_container D w hostname c ≡ some true))
  unfolding get_running_containers is_owned
  get_running_containers-is_in w hostname ids taken c e f =
      ground (arith, owned_of-is_in w hostname ids c)
