-- ===== src/Daemon/Containers.antt =====
-- Containers of this node: `ScaleService`, `CheckOwnedContainer`, `GetRunningContainers` and the events in
-- autoscaler/scale/scale.go, and the monitors that autoscaler/autoscaler/autoscaler.go starts and stops.
-- The proofs are in the modules below.
pub mod Ownership
pub mod Lifecycle
pub mod Namespace
use Prim.Native.String.{String}
use text.Mathlib.Text.{◌==◌ as str_eq, find?}
use swarm_autoscaler.Base.{
  ℕ, suc, Bool, true, false, Option, none, some, List, [], ◌∷◌, ◌++◌, ◌==◌, if◌then◌else◌, ltb,
  length,
}
use swarm_autoscaler.Bpf.Maps.{BpfMaps}
use swarm_autoscaler.Daemon.Scale.{Manager, Outcome, returns, change_service_replicas}
use swarm_autoscaler.Daemon.Scale.Client.{Docker}

-- `strings.Contains`
abbrev pub contains : String → String → Bool
contains s t = elim (find? s t) [ none ↦ false | some _ ↦ true ]

module _ (D : Docker) where
  unfoldable pub find_service_id_from_container : D.World → String → Option String
  find_service_id_from_container w container = elim (D.container_labels w container) [
    | none ↦ none
    | some labels ↦ labels "com.docker.swarm.service.id"
  ]

  -- Ownership by the name of the task: the first of its service.
  unfoldable pub first_task : Option String → Bool
  first_task none = false
  first_task (some task_name) = contains task_name ".1."

  -- `hostname` is `os.Hostname`; `none` is an error.
  unfoldable pub check_owned_container : D.World → Option String → String → Option Bool
  unfolding first_task
  check_owned_container w none container = none
  check_owned_container w (some hostname) container = elim (D.container_labels w container) [
    | none ↦ none
    | some labels ↦ elim (labels "autoscaler.handlerNode") [
      | some label ↦ some (str_eq label hostname)
      | none ↦ some (first_task (labels "com.docker.swarm.task.name"))
    ]
  ]

  -- The loop of `GetRunningContainers`: an error of one container is only logged.
  unfoldable pub owned_of : D.World → Option String → List String → List String
  owned_of w hostname [] = []
  owned_of w hostname (c ∷ cs) =
      let rest = owned_of w hostname cs in
      elim (check_owned_container w hostname c) [
        | none ↦ rest
        | some owned ↦ if owned then c ∷ rest else rest
      ]

  unfoldable pub get_running_containers : D.World → Option String → Option (List String)
  unfolding owned_of
  get_running_containers w hostname = elim (D.container_list w) [
    | none ↦ none
    | some ids ↦ some (owned_of w hostname ids)
  ]

  unfoldable pub scale_service :
      (B : BpfMaps) → Manager D B → String → String → Outcome (Manager D B)
  unfolding find_service_id_from_container
  scale_service B m container direction = elim (find_service_id_from_container m.world container) [
    | none ↦ returns m true
    | some id ↦ change_service_replicas D B m id direction
  ]

-- `monitoringCtxMap`, with a context for each cancel function, the contexts that are cancelled, the
-- containers of the monitors that were started with them, and the two channels of the `EventNotifier`.
pub record Supervisor : Type 0 where
  pub monitored : String → Option ℕ
  pub cancelled : ℕ → Bool
  pub started : ℕ → Option String
  pub next_context : ℕ
  pub start_chan : List String
  pub stop_chan : List String

abbrev pub set_monitored : (String → Option ℕ) → String → Option ℕ → String → Option ℕ
set_monitored f container c j = if str_eq container j then c else f j

abbrev pub set_started : (ℕ → Option String) → ℕ → String → ℕ → Option String
set_started f c container j = if c == j then some container else f j

abbrev pub set_cancelled : (ℕ → Bool) → ℕ → ℕ → Bool
set_cancelled f c j = if c == j then true else f j

unfoldable pub start_monitoring : Supervisor → String → Supervisor
start_monitoring s container = elim (s.monitored container) [
  | some _ ↦ s
  | none ↦ record s {
    monitored = set_monitored s.monitored container (some s.next_context);
    started = set_started s.started s.next_context container;
    next_context = suc s.next_context;
  }
]

unfoldable pub stop_monitoring : Supervisor → String → Supervisor
stop_monitoring s container = elim (s.monitored container) [
  | none ↦ s
  | some c ↦ record s {
    monitored = set_monitored s.monitored container none;
    cancelled = set_cancelled s.cancelled c;
  }
]

-- The containers that run when the daemon starts.
unfoldable pub start_all : Supervisor → List String → Supervisor
unfolding start_monitoring
start_all s [] = s
start_all s (c ∷ cs) = start_all (start_monitoring s c) cs

-- A send into a channel of ten values; `none` where it is full and the send waits.
abbrev pub push : List String → String → Option (List String)
push chan container = if ltb (length chan) 10 then some (chan ++ container ∷ []) else none

push_start : Supervisor → String → Option Supervisor
push_start s container = elim (push s.start_chan container) [
  | none ↦ none
  | some chan ↦ some (record s { start_chan = chan })
]

push_stop : Supervisor → String → Option Supervisor
push_stop s container = elim (push s.stop_chan container) [
  | none ↦ none
  | some chan ↦ some (record s { stop_chan = chan })
]

-- An event in `ListenForEvents`; `owned` is the result of `CheckOwnedContainer`.
unfoldable pub on_event : Supervisor → String → String → Option Bool → Option Supervisor
unfolding push_start push_stop
on_event s action container none = some s
on_event s action container (some false) = some s
on_event s action container (some true) =
    if str_eq action "start"
    then push_start s container
    else (if str_eq action "die" then push_stop s container else some s)

-- The two cases of the loop in `main`, where their channel has a value.
unfoldable pub take_start : Supervisor → Supervisor
unfolding start_monitoring
take_start s = elim s.start_chan [
  | [] ↦ s
  | c ∷ cs ↦ start_monitoring (record s { start_chan = cs }) c
]

unfoldable pub take_stop : Supervisor → Supervisor
unfolding stop_monitoring
take_stop s = elim s.stop_chan [ [] ↦ s | c ∷ cs ↦ stop_monitoring (record s { stop_chan = cs }) c ]
