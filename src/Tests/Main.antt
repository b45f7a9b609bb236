-- ===== src/Tests/Main.antt =====
-- `main` on the manager node vm1, with the Docker of the tests of scale.go and a configuration for
-- requests; and with a configuration that sets nothing.
use swarm_autoscaler.Base.{ℤ, pos, ◌≡◌, refl, true, none, some, [], ◌∷◌, arith}
use swarm_autoscaler.Bpf.Table.{table}
use swarm_autoscaler.Bpf.ConcReq.{Maps}
use swarm_autoscaler.Daemon.ConcReq.{ConcReqResource, Listener, init_constants}
use swarm_autoscaler.Daemon.Config.{
  Config, conc_req, default_config, load_config, choose_resource, create_swarm_node_info,
  managers_but, all_workers,
}
use swarm_autoscaler.Daemon.Containers.{
  get_running_containers, owned_of, check_owned_container, start_all,
}
use swarm_autoscaler.Daemon.Main.{
  panics, no_monitors, Environment, Running, init_bpf_listener, init_bpf_port_listener, init_scaler,
  set_up, start_monitors, after_start, start_daemon, main,
}
use swarm_autoscaler.Daemon.Main.Startup.{Ready, main-Ready, kinds_set, serves-kinds_set}
use swarm_autoscaler.Tests.Config.{whole}
use swarm_autoscaler.Tests.Scale.{docker, manager}

abbrev no_maps : Maps (table 4)
no_maps = record {
  conn_count = [];
  constants = [];
  buffer = [];
  scaling = [];
  valid_netns = [];
  events = [];
}

abbrev unset : Config ℤ
unset = record (default_config whole) { managers = ("vm1", "10.0.0.1") ∷ [] }

abbrev requests : Config ℤ
requests = record unset { lower_conc_req = pos 1; upper_conc_req = pos 3 }

abbrev on_vm1 : Config ℤ → Environment docker (table 4) ℤ
on_vm1 config = record {
  file = some [];
  unmarshal = λ bytes defaults. some config;
  parse_duration = λ text. some 10;
  hostname = some "vm1";
  remove_memlock = true;
  conc_req_objects = some no_maps;
  attach_kprobe = true;
  conc_req_reader = true;
  port_objects = some [];
  link_by_name = λ name. some 2;
  attach_tcx = λ index. true;
  port_reader = true;
  new_client = some (manager 1).world;
}

abbrev limits_set : ConcReqResource
limits_set = record { lower_limit = pos 1; upper_limit = pos 3; buffer_length = pos 5 }

abbrev kprobe : Listener (table 4)
kprobe = record {
  kernel = record no_maps { constants = (2, 5) ∷ (1, 3) ∷ (0, 1) ∷ [] };
  contexts = λ n. none;
}

abbrev runs : Running docker (table 4) ℤ
runs = record {
  resource = some (conc_req limits_set);
  collection_period = 10;
  kprobe = some kprobe;
  manager = manager 1;
  supervisor = start_all no_monitors ("c1" ∷ "c2" ∷ []);
  scale_server = true;
}

main-Ready_example : Ready docker (table 4) whole (on_vm1 requests) runs
unfolding main load_config create_swarm_node_info managers_but all_workers set_up choose_resource
    init_bpf_listener init_constants start_daemon init_bpf_port_listener get_running_containers
    owned_of check_owned_container start_monitors after_start init_scaler default_config
main-Ready_example =
    main-Ready docker (table 4) whole (on_vm1 requests) runs (λ ports e j. ground (arith, e)) refl

serves-kinds_set_example : kinds_set docker (table 4) whole requests ≡ 1
unfolding main load_config create_swarm_node_info managers_but all_workers set_up choose_resource
    init_bpf_listener init_constants start_daemon init_bpf_port_listener get_running_containers
    owned_of check_owned_container start_monitors after_start init_scaler default_config
serves-kinds_set_example =
    serves-kinds_set docker (table 4) whole (on_vm1 requests) runs requests "c2" refl refl
      ("c1" ∷ "c2" ∷ [], refl, refl, refl)

-- Without a limit the first container makes the daemon panic.
unset_panics : main docker (table 4) whole (on_vm1 unset) ≡ panics
unfolding main load_config create_swarm_node_info managers_but all_workers set_up choose_resource
    start_daemon init_bpf_port_listener get_running_containers owned_of check_owned_container
    start_monitors after_start default_config
unset_panics = refl
