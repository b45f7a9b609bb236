-- ===== src/Daemon/Main.antt =====
-- `main` of autoscaler/autoscaler/autoscaler.go from its start to the moment at which its loops and servers
-- run, with `InitBPFListener`, `initBPFPortListener` and `initScaler`. What the program calls outside is a
-- parameter. The proofs are in the modules below.
pub mod Monitors
pub mod Listeners
pub mod Startup
use Prim.Native.String.{String}
use swarm_autoscaler.Base.{ℕ, Bool, true, false, Option, none, some, List, [], ◌∷◌, if◌then◌else◌}
use swarm_autoscaler.Bpf.Maps.{BpfMaps}
use swarm_autoscaler.Bpf.ConcReq.{Maps}
use swarm_autoscaler.Daemon.Float.{Float}
use swarm_autoscaler.Daemon.Server.{SwarmNodeInfo}
use swarm_autoscaler.Daemon.ConcReq.{
  ConcReqResource, Listener, Outcome, done, fatal, init_constants,
}
use swarm_autoscaler.Daemon.Ports.{Ports}
use swarm_autoscaler.Daemon.Scale.{Manager}
use swarm_autoscaler.Daemon.Scale.Client.{Docker}
use swarm_autoscaler.Daemon.Config.{
  Config, Resource, cpu, memory, conc_req, exits as gives_up, nothing, chosen, load_config,
  choose_resource, create_swarm_node_info,
}
use swarm_autoscaler.Daemon.Containers.{Supervisor, start_all, get_running_containers}

-- How `main` goes: `exits` is `os.Exit(1)` or `log.Fatalf`, `panics` ends the process too, and in `serves`
-- its loops and servers run.
pub data Launch {ℓ} (A : Type ℓ) : Type ℓ where
  exits : Launch A
  panics : Launch A
  serves : A → Launch A

infixl 5 ◌>>=◌
abbrev ◌>>=◌ {ℓ κ} : {A : Type ℓ} {B : Type κ} → Option A → (A → Launch B) → Launch B
none >>= f = Launch.exits
some a >>= f = f a

-- Before the first container.
abbrev pub no_monitors : Supervisor
no_monitors = record {
  monitored = λ k. none;
  cancelled = λ c. false;
  started = λ c. none;
  next_context = 0;
  start_chan = [];
  stop_chan = [];
}

module _ (D : Docker) (B : BpfMaps) (F : Type 0) where
  -- The results of what is outside; `none` and `false` are errors.
  pub record Environment : Type 0 where
    pub file : Option (List ℕ)
    pub unmarshal : List ℕ → Config F → Option (Config F)
    pub parse_duration : String → Option ℕ
    pub hostname : Option String
    -- `rlimit.RemoveMemlock`, the maps of the two programs as they are loaded, and their attachment
    pub remove_memlock : Bool
    pub conc_req_objects : Option (Maps B)
    pub attach_kprobe : Bool
    pub conc_req_reader : Bool
    pub port_objects : Option B.Map
    pub link_by_name : String → Option ℕ
    pub attach_tcx : ℕ → Bool
    pub port_reader : Bool
    -- the client of Docker
    pub new_client : Option D.World

  -- What runs then: what is monitored and how often, the listener of the kprobe, the scaler with the
  -- ports, the monitors, and whether this node has the server for requests to scale.
  pub record Running : Type 0 where
    pub resource : Option (Resource F)
    pub collection_period : ℕ
    pub kprobe : Option (Listener B)
    pub manager : Manager D B
    pub supervisor : Supervisor
    pub scale_server : Bool

module _ (D : Docker) (B : BpfMaps) {F : Type 0} (fl : Float F) where
  -- `none` is an error that is returned; `fatal` ends the process.
  unfoldable pub init_bpf_listener :
      Environment D B F → ConcReqResource → Option (Outcome (Listener B))
  init_bpf_listener e r =
      if e.remove_memlock
      then (elim e.conc_req_objects [
        | none ↦ none
        | some maps ↦
            if e.attach_kprobe
            then (if e.conc_req_reader
                then (elim (init_constants B maps.constants r) [
                  | fatal ↦ some fatal
                  | done constants ↦ some (
                      done (record {
                        kernel = record maps { constants = constants };
                        contexts = λ n. none;
                      }))
                ])
                else none)
            else none
      ])
      else none

  unfoldable pub init_bpf_port_listener : Environment D B F → String → Option (Ports B)
  init_bpf_port_listener e iface_name =
      if e.remove_memlock
      then (elim e.port_objects [
        | none ↦ none
        | some ports ↦ elim (e.link_by_name iface_name) [
          | none ↦ none
          | some index ↦
              if e.attach_tcx index
              then (if e.port_reader
                  then some (record { services = λ j. none; ports_map = ports })
                  else none)
              else none
        ]
      ])
      else none

  -- `initScaler`, then `SetPortListener` and `SetNodeInfo`.
  unfoldable pub init_scaler : D.World → Ports B → SwarmNodeInfo → Manager D B
  init_scaler world ports info = record {
    world = world;
    node_info = info;
    ports = ports;
    keep_alive_ops = λ id. none;
    waiting = λ c. none;
    next_channel = 0;
  }

  -- The choice of the resource, and the listener that requests need; `none` where `main` exits.
  unfoldable pub set_up :
      Environment D B F → Config F → Option (Option (Resource F) × Option (Listener B))
  unfolding init_bpf_listener
  set_up e config = elim (choose_resource fl config) [
    | gives_up ↦ none
    | nothing ↦ some (none, none)
    | chosen r ↦ elim r [
      | cpu c ↦ some (some (cpu c), none)
      | memory c ↦ some (some (memory c), none)
      | conc_req c ↦ elim (init_bpf_listener e c) [
        | none ↦ none
        | some result ↦ elim result [
          | fatal ↦ none
          | done listener ↦ some (some (conc_req c), some listener)
        ]
      ]
    ]
  ]

  -- The loop over the running containers; the first monitor of no resource is a call on nil.
  unfoldable pub start_monitors : Option (Resource F) → List String → Launch Supervisor
  start_monitors (some r) ids = Launch.serves (start_all no_monitors ids)
  start_monitors none [] = Launch.serves no_monitors
  start_monitors none (c ∷ cs) = Launch.panics

  -- What runs when the monitors have been started.
  unfoldable pub after_start :
      (Supervisor → Running D B F) → Launch Supervisor → Launch (Running D B F)
  after_start f exits = Launch.exits
  after_start f panics = Launch.panics
  after_start f (serves supervisor) = Launch.serves (f supervisor)

  -- From `GetScaler` on.
  unfoldable pub start_daemon :
      Environment D B F
      → Config F
      → ℕ
      → SwarmNodeInfo
      → Option (Resource F)
      → Option (Listener B)
      → Launch (Running D B F)
  unfolding init_scaler init_bpf_port_listener start_monitors after_start
  start_daemon e config period info resource kprobe = elim e.new_client [
    | none ↦ Launch.panics
    | some world ↦ do
      ports ← init_bpf_port_listener e config.iface
      ids ← get_running_containers D world e.hostname
      after_start
          (λ supervisor. record {
            resource = resource;
            collection_period = period;
            kprobe = kprobe;
            manager = init_scaler world ports info;
            supervisor = supervisor;
            scale_server = info.autoscaler_manager;
          })
          (start_monitors resource ids)
  ]

  unfoldable pub main : Environment D B F → Launch (Running D B F)
  unfolding set_up start_daemon
  main e = do
    config ← load_config fl e.file e.unmarshal
    period ← e.parse_duration config.collection_period
    info ← create_swarm_node_info fl e.hostname e.parse_duration config
    (resource, kprobe) ← set_up e config
    start_daemon e config period info resource kprobe
