-- ===== src/Daemon/Config.antt =====
-- autoscaler/autoscaler/autoscaler.go: the configuration, the choice of what is monitored, and the nodes
-- of the swarm. The YAML decoder, the file, the host name and the parser of durations are parameters. The
-- proofs are in the modules below.
pub mod Selection
pub mod Nodes
use Prim.Native.String.{String}
use text.Mathlib.Text.{◌==◌ as str_eq}
use swarm_autoscaler.Base.{
  ℕ, ℤ, pos, negsuc, int64_mul, ltb_ℤ, Bool, true, false, not, ◌&&◌, ◌||◌, Option, none, some, List,
  [], ◌∷◌, ◌++◌, if◌then◌else◌,
}
use swarm_autoscaler.Daemon.Float.{Float}
use swarm_autoscaler.Daemon.Server.{SwarmNode, SwarmNodeInfo}
use swarm_autoscaler.Daemon.ConcReq.{ConcReqResource}

-- The maps from names to addresses are lists of pairs, in the order in which a loop meets them.
pub record Config (F : Type 0) : Type 0 where
  pub lower_cpu : F
  pub upper_cpu : F
  pub lower_mb : ℤ
  pub upper_mb : ℤ
  pub lower_gb : ℤ
  pub upper_gb : ℤ
  pub lower_conc_req : ℤ
  pub upper_conc_req : ℤ
  pub req_buffer_length : ℤ
  pub collection_period : String
  pub keep_alive : String
  pub iface : String
  pub managers : List (String × String)
  pub workers : List (String × String)
  pub logging : String → Bool

pub record CpuResource (F : Type 0) : Type 0 where
  pub lower_util : F
  pub upper_util : F

pub record MemoryResource : Type 0 where
  pub lower_limit : ℤ
  pub upper_limit : ℤ

pub data Resource (F : Type 0) : Type 0 where
  cpu : CpuResource F → Resource F
  memory : MemoryResource → Resource F
  conc_req : ConcReqResource → Resource F

-- `exits` is `os.Exit(1)`; `nothing` is the interface value nil.
pub data Choice (F : Type 0) : Type 0 where
  exits : Choice F
  nothing : Choice F
  chosen : Resource F → Choice F

-- `x >= 0` and `x > 0`
abbrev pub is_set : ℤ → Bool
is_set x = not (ltb_ℤ x (pos 0))

abbrev pub is_positive : ℤ → Bool
is_positive x = ltb_ℤ (pos 0) x

module _ {F : Type 0} (fl : Float F) where
  unfoldable pub default_config : Config F
  default_config = record {
    lower_cpu = fl.of_int (negsuc 0);
    upper_cpu = fl.of_int (negsuc 0);
    lower_mb = negsuc 0;
    upper_mb = negsuc 0;
    lower_gb = negsuc 0;
    upper_gb = negsuc 0;
    lower_conc_req = negsuc 0;
    upper_conc_req = negsuc 0;
    req_buffer_length = pos 5;
    collection_period = "10s";
    keep_alive = "5s";
    iface = "eth0";
    managers = [];
    workers = [];
    logging = λ key. false;
  }

  -- `file` is what `os.ReadFile` gives, `unmarshal` is `yaml.Unmarshal` into a value.
  unfoldable pub load_config :
      Option (List ℕ) → (List ℕ → Config F → Option (Config F)) → Option (Config F)
  unfolding default_config
  load_config none unmarshal = none
  load_config (some file) unmarshal = unmarshal file default_config

  abbrev pub memory_enabled : Config F → Bool
  memory_enabled c =
      is_set c.lower_mb || (is_set c.upper_mb || (is_set c.lower_gb || is_set c.upper_gb))

  abbrev pub cpu_enabled : Config F → Bool
  cpu_enabled c = fl.le (fl.of_int (pos 0)) c.lower_cpu || fl.le (fl.of_int (pos 0)) c.upper_cpu

  abbrev pub conc_req_enabled : Config F → Bool
  conc_req_enabled c = is_set c.lower_conc_req || is_set c.upper_conc_req

  -- A limit in GB goes before one in MB.
  unfoldable pub in_mb : ℤ → ℤ → ℤ
  in_mb gb mb = if is_positive gb then int64_mul gb 1024 else mb

  memory_of : Config F → MemoryResource
  unfolding in_mb
  memory_of c = record {
    lower_limit = in_mb c.lower_gb c.lower_mb;
    upper_limit = in_mb c.upper_gb c.upper_mb;
  }

  unfoldable pub choose_resource : Config F → Choice F
  unfolding memory_of
  choose_resource c =
      if (cpu_enabled c && memory_enabled c)
        || ((memory_enabled c && conc_req_enabled c) || (cpu_enabled c && conc_req_enabled c))
      then exits
      else (if cpu_enabled c
          then chosen (cpu (record { lower_util = c.lower_cpu; upper_util = c.upper_cpu }))
          else (if memory_enabled c
              then chosen (memory (memory_of c))
              else (if conc_req_enabled c
                  then chosen (
                      conc_req (record {
                        lower_limit = c.lower_conc_req;
                        upper_limit = c.upper_conc_req;
                        buffer_length = c.req_buffer_length;
                      }))
                  else nothing)))

  abbrev pub has_name : String → List (String × String) → Bool
  has_name hostname [] = false
  has_name hostname ((name, ip) ∷ nodes) = str_eq name hostname || has_name hostname nodes

  -- the loop over the managers
  unfoldable pub managers_but : String → List (String × String) → List SwarmNode
  managers_but hostname [] = []
  managers_but hostname ((name, ip) ∷ nodes) =
      let rest = managers_but hostname nodes in
      if not (str_eq name hostname)
      then record { hostname = name; ip = ip; manager = true } ∷ rest
      else rest

  -- the loop over the workers
  unfoldable pub all_workers : List (String × String) → List SwarmNode
  all_workers [] = []
  all_workers ((name, ip) ∷ nodes) =
      record { hostname = name; ip = ip; manager = false } ∷ all_workers nodes

  -- `hostname` is `os.Hostname`, `parse_duration` is `time.ParseDuration`; `none` is an error, on which
  -- the program ends.
  unfoldable pub create_swarm_node_info :
      Option String → (String → Option ℕ) → Config F → Option SwarmNodeInfo
  unfolding managers_but all_workers
  create_swarm_node_info none parse_duration c = none
  create_swarm_node_info (some hostname) parse_duration c = elim (parse_duration c.keep_alive) [
    | none ↦ none
    | some keep_alive ↦ some (record {
      autoscaler_manager = has_name hostname c.managers;
      other_nodes = managers_but hostname c.managers ++ all_workers c.workers;
      keep_alive = keep_alive;
    })
  ]
