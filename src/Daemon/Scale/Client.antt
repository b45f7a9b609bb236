-- ===== src/Daemon/Scale/Client.antt =====
-- What scale.go uses of the Docker client (github.com/docker/docker/client): code that is not in the
-- repository, so an interface.
use Prim.Native.String.{String}
use text.Mathlib.Text.{◌==◌ as str_eq}
use mathlib.Core.Bool.{Bool}
use swarm_autoscaler.Base.{ℕ, ◌≡◌, Option, some, List}

pub data Mode : Type 0 where
  global : Mode
  replicated : Option ℕ → Mode

-- The parts of `swarm.ServiceSpec` that the daemon reads and writes. `placement` is the pointer to the
-- placement, with its slice of constraints, which may be nil too.
pub record Spec : Type 0 where
  pub labels : String → Option String
  pub mode : Mode
  pub placement : Option (Option (List String))

-- `ports` are the published ports of the endpoint.
pub record Service : Type 0 where
  pub version : ℕ
  pub spec : Spec
  pub ports : List ℕ

-- `inspect` is `ServiceInspectWithRaw`, `update` is `ServiceUpdate`; `none` is an error, and Docker is
-- then as it was. `container_labels` are the labels that `ContainerInspect` shows, `container_list` is
-- `ContainerList`.
pub record Docker : Type 1 where
  pub World : Type 0
  pub inspect : World → String → Option Service
  pub update : World → String → ℕ → Spec → Option World
  pub container_labels : World → String → Option (String → Option String)
  pub container_list : World → Option (List String)
  -- an update that succeeds is what the next inspection shows
  pub inspect-update :
      (w : World) (id : String) (version : ℕ) (spec : Spec) (w' : World)
      → update w id version spec ≡ some w'
      → (s : Service) × (inspect w' id ≡ some s) × (s.spec ≡ spec)
  -- and it shows in no other service
  pub inspect-update_other :
      (w : World) (id : String) (version : ℕ) (spec : Spec) (w' : World) (j : String)
      → update w id version spec ≡ some w'
      → str_eq id j ≡ Bool.false
      → inspect w' j ≡ inspect w j
