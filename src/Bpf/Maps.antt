-- ===== src/Bpf/Maps.antt =====
-- The kernel's BPF hash maps from u32 to u32, which the programs reach by `bpf_map_*_elem` and the
-- daemon by cilium/ebpf: code that is not in the repository, so an interface.
use swarm_autoscaler.Base.{ℕ, ◌≡◌, Option, none, some, ◌==◌, if◌then◌else◌}

-- BPF_ANY and BPF_NOEXIST
pub data UpdateFlag : Type 0 where
  any noexist : UpdateFlag

-- `none` is an error code; the map is then what it was. `write m k v` stores `v` through the pointer
-- that a lookup of `k` returned.
pub record BpfMaps : Type 1 where
  pub Map : Type 0
  pub lookup : Map → ℕ → Option ℕ
  pub update : Map → ℕ → ℕ → UpdateFlag → Option Map
  pub delete : Map → ℕ → Option Map
  pub write : Map → ℕ → ℕ → Map
  pub lookup-update :
      (m : Map) (k v : ℕ) (f : UpdateFlag) (n : Map) (j : ℕ)
      → update m k v f ≡ some n
      → lookup n j ≡ (if k == j then some v else lookup m j)
  pub update_noexist :
      (m : Map) (k v : ℕ) (n : Map) → update m k v noexist ≡ some n → lookup m k ≡ none
  -- an update of an entry that is there needs no room
  pub update_present :
      (m : Map) (k v w : ℕ) → lookup m k ≡ some w → (n : Map) × (update m k v any ≡ some n)
  pub lookup-write :
      (m : Map) (k v w : ℕ) (j : ℕ)
      → lookup m k ≡ some w
      → lookup (write m k v) j ≡ (if k == j then some v else lookup m j)
  pub lookup-delete :
      (m : Map) (k : ℕ) (n : Map) (j : ℕ)
      → delete m k ≡ some n
      → lookup n j ≡ (if k == j then none else lookup m j)
  -- ENOENT
  pub delete_absent : (m : Map) (k : ℕ) → lookup m k ≡ none → delete m k ≡ none
  pub delete_present : (m : Map) (k w : ℕ) → lookup m k ≡ some w → (n : Map) × (delete m k ≡ some n)
