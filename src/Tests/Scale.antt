-- ===== src/Tests/Scale.antt =====
-- scale.go: a Docker of services by their identifiers, and a service with one replica on port 8080.
use Prim.Native.String.{String}
use text.Mathlib.Text.{◌==◌ as str_eq}
use text.Mathlib.TextEquality.{eq_iff}
use swarm_autoscaler.Base.{
  ℕ, suc, ◌≡◌, refl, ap, ◌∙◌, false, Option, none, some, [], ◌∷◌, arith, ◌==◌, if◌then◌else◌, inl,
  inr, Bool-cases, Option-cases,
}
use swarm_autoscaler.Bpf.Table.{table}
use swarm_autoscaler.Daemon.Server.{send_listen_request_to_all_nodes}
use swarm_autoscaler.Daemon.Ports.{listen_on_port}
use swarm_autoscaler.Daemon.Scale.{
  Manager, Outcome, returns, blocks, panics, change_service_replicas, keep_alive_elapsed,
  replicas_of, get_published_port, scale_to, update_service_constraints,
}
use swarm_autoscaler.Daemon.Scale.Client.{Docker, Service, Spec, replicated}
use swarm_autoscaler.Daemon.Scale.Outcomes.{Shows}
use swarm_autoscaler.Daemon.Scale.Isolation.{change_service_replicas_isolates}
use swarm_autoscaler.Daemon.Scale.Progress.{Accepts, IsAttended, over_succeeds}
use swarm_autoscaler.Daemon.Scale.ZeroScale.{Watched, elapsed-Watched, failed_keep_alive_blocks}
use swarm_autoscaler.Daemon.Scale.Specs.{IsPinned}
use swarm_autoscaler.Daemon.Scale.Pinning.{PinsHost, change_service_replicas-PinsHost}
use swarm_autoscaler.Daemon.Scale.Sleep.{idle_service_sleeps}
use swarm_autoscaler.Tests.Ports.{no_ports, manager_alone, answering}

abbrev pub Services : Type 0
Services = String → Option Service

abbrev changed : Services → String → Service → Spec → Services
changed w id s spec =
    λ j. if str_eq id j then some (record s { version = suc s.version; spec = spec }) else w j

abbrev set_spec : Services → String → ℕ → Service → Spec → Option Services
set_spec w id version s spec = if s.version == version then some (changed w id s spec) else none

-- Docker refuses an update of a service that it does not know or of an old version.
abbrev update : Services → String → ℕ → Spec → Option Services
update w id version spec = elim (w id) [ none ↦ none | some s ↦ set_spec w id version s spec ]

update_changes :
    (w : Services) (id : String) (version : ℕ) (spec : Spec) (w' : Services)
    → update w id version spec ≡ some w'
    → (s : Service) × (w' ≡ changed w id s spec)
update_changes w id version spec w' e = elim (Option-cases (w id)) [
  | inl f ↦ absurd (ground arith)
  | inr (s, f) ↦ elim (Bool-cases (s.version == version)) [
    | inl g ↦ (s, ground arith)
    | inr g ↦ absurd (ground arith)
  ]
]

pub update_shows :
    (w : Services) (id : String) (version : ℕ) (spec : Spec) (w' : Services)
    → update w id version spec ≡ some w'
    → (s : Service) × (w' id ≡ some s) × (s.spec ≡ spec)
update_shows w id version spec w' e =
    let (s, q) = update_changes w id version spec w' e in
    (
      record s { version = suc s.version; spec = spec },
      ap (λ f. f id) q ∙ ground (arith, eq_iff id id),
      refl,
    )

pub update_elsewhere :
    (w : Services) (id : String) (version : ℕ) (spec : Spec) (w' : Services) (j : String)
    → update w id version spec ≡ some w'
    → str_eq id j ≡ false
    → w' j ≡ w j
update_elsewhere w id version spec w' j e h =
    let (s, q) = update_changes w id version spec w' e in ap (λ f. f j) q ∙ ground arith

-- every container is the first task of the service `web`
abbrev labels_of_task : String → Option String
labels_of_task name =
    if str_eq name "com.docker.swarm.service.id"
    then some "web"
    else (if str_eq name "com.docker.swarm.task.name" then some "web.1.x7" else none)

abbrev pub docker : Docker
docker = record {
  World = Services;
  inspect = λ w id. w id;
  update = update;
  container_labels = λ w id. some labels_of_task;
  container_list = λ w. some ("c1" ∷ "c2" ∷ []);
  inspect-update = update_shows;
  inspect-update_other = update_elsewhere;
}

abbrev pub service : ℕ → Service
service n = record {
  version = 3;
  spec = record { labels = λ j. none; mode = replicated (some n); placement = some none };
  ports = 8080 ∷ [];
}

abbrev pub manager : ℕ → Manager docker (table 4)
manager n = record {
  world = λ j. if str_eq j "web" then some (service n) else none;
  node_info = manager_alone;
  ports = no_ports;
  keep_alive_ops = λ j. none;
  waiting = λ c. none;
  next_channel = 0;
}

-- The state that an outcome leaves; the tests meet no panic.
abbrev pub state_of : Outcome (Manager docker (table 4)) → Manager docker (table 4)
state_of (returns m failed) = m
state_of (blocks m) = m
state_of panics = manager 0

abbrev over : ℕ → Outcome (Manager docker (table 4))
over n = change_service_replicas docker (table 4) (manager n) "web" "over"

abbrev under : ℕ → Outcome (Manager docker (table 4))
under n = change_service_replicas docker (table 4) (manager n) "web" "under"

-- the manager that knows a second service too
abbrev pub two_services : Manager docker (table 4)
two_services = record (manager 3) {
  world = λ j. if str_eq j "web" then some (service 3) else some (service 5);
}

abbrev scaled_web : Outcome (Manager docker (table 4))
scaled_web = change_service_replicas docker (table 4) two_services "web" "over"

change_service_replicas_isolates_example :
    docker.inspect (state_of scaled_web).world "api" ≡ docker.inspect two_services.world "api"
unfolding change_service_replicas scale_to replicas_of update_service_constraints
change_service_replicas_isolates_example =
    change_service_replicas_isolates docker (table 4) two_services (state_of scaled_web) "web" "api"
      "over" false refl refl

pub docker-Accepts : (w : Services) (id : String) → Accepts docker w id
docker-Accepts w id s spec e = (changed w id s spec, rw (e, update) (ground arith))

none_waits : (n : ℕ) → IsAttended docker (table 4) (manager n) "web"
none_waits n c e = absurd (ground (arith, e))

over_succeeds_example :
    (m' : Manager docker (table 4)) × (over 3 ≡ returns m' false)
    × Shows (docker.inspect m'.world "web") 4
    × (m'.keep_alive_ops "web" ≡ none)
unfolding replicas_of
over_succeeds_example =
    over_succeeds docker (table 4) (manager 3) "web" (service 3) 3 refl refl refl
      (docker-Accepts (manager 3).world "web") (none_waits 3)

-- After the keep-alive period of the service.
abbrev pub keeping : Manager docker (table 4)
keeping = record (manager 1) {
  keep_alive_ops = λ j. if str_eq j "web" then some 0 else none;
  waiting = λ c. if c == 0 then some "web" else none;
  next_channel = 1;
}

abbrev pub kept : Outcome (Manager docker (table 4))
kept = keep_alive_elapsed docker (table 4) answering keeping 0

elapsed-Watched_example :
    (port : ℕ) × Watched docker (table 4) answering keeping "web" port (state_of kept)
unfolding keep_alive_elapsed get_published_port scale_to listen_on_port
    send_listen_request_to_all_nodes
elapsed-Watched_example =
    elapsed-Watched docker (table 4) answering keeping (state_of kept) "web" 0 refl refl refl

-- The same, with a service that publishes no port.
abbrev portless : Manager docker (table 4)
portless = record keeping {
  world = λ j. if str_eq j "web" then some (record (service 1) { ports = [] }) else none;
}

abbrev failed : Outcome (Manager docker (table 4))
failed = keep_alive_elapsed docker (table 4) answering portless 0

failed_keep_alive_blocks_example :
    change_service_replicas docker (table 4) (state_of failed) "web" "over"
    ≡ blocks (state_of failed)
unfolding keep_alive_elapsed get_published_port replicas_of
failed_keep_alive_blocks_example =
    failed_keep_alive_blocks docker (table 4) answering portless (state_of failed) "web" 0
      (record (service 1) { ports = [] }) 1 refl refl refl refl refl refl

idle_service_sleeps_example :
    (m1 : Manager docker (table 4)) × (under 1 ≡ returns m1 false)
    × (m1.world ≡ (manager 1).world)
    × (m1.keep_alive_ops "web" ≡ some 0)
    × (m2 : Manager docker (table 4)) × (keep_alive_elapsed docker (table 4) answering m1 0
        ≡ returns m2 false)
    × Watched docker (table 4) answering m1 "web" 8080 m2
unfolding replicas_of get_published_port send_listen_request_to_all_nodes
idle_service_sleeps_example =
    idle_service_sleeps docker (table 4) answering (manager 1) "web" 1 8080 (service 1) refl
      (omega arith) refl
      (record {
        shown = refl;
        published = refl;
        room = ((8080, 1) ∷ [], refl);
        answered = refl;
        accepts = docker-Accepts (manager 1).world "web";
      })

-- Two replicas of a service with a handler node.
abbrev on_vm1 : Spec
on_vm1 = record {
  labels = λ name. if str_eq name "autoscaler.handlerNode" then some "vm1" else none;
  mode = replicated (some 2);
  placement = some none;
}

abbrev with_handler : Manager docker (table 4)
with_handler = record (manager 2) {
  world = λ j. if str_eq j "web" then some (record (service 2) { spec = on_vm1 }) else none;
}

with_handler-IsPinned : IsPinned docker with_handler.world "web" "vm1" on_vm1 2
with_handler-IsPinned = record {
  shown = (record (service 2) { spec = on_vm1 }, refl, refl);
  mode = refl;
  handler = refl;
  placed = refl;
}

abbrev one_left : Outcome (Manager docker (table 4))
one_left = change_service_replicas docker (table 4) with_handler "web" "under"

change_service_replicas-PinsHost_example :
    PinsHost docker (table 4) "web" "vm1" (state_of one_left).world
unfolding change_service_replicas scale_to replicas_of update_service_constraints
change_service_replicas-PinsHost_example =
    change_service_replicas-PinsHost docker (table 4) with_handler (state_of one_left) "web" "under"
      "vm1" on_vm1 2 with_handler-IsPinned (omega arith) refl
