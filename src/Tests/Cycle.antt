-- ===== src/Tests/Cycle.antt =====
-- The parts together: a service with three replicas whose container is busy, and one that was scaled to
-- zero.
use text.Mathlib.Text.{◌==◌ as str_eq}
use swarm_autoscaler.Base.{
  ℕ, ◌≡◌, refl, false, none, some, List, [], ◌∷◌, ◌++◌, map, arith, ◌==◌, if◌then◌else◌, le_bytes,
}
use swarm_autoscaler.Bpf.Table.{table}
use swarm_autoscaler.Bpf.ConcReq.{Call, limits, get_netns_from_task}
use swarm_autoscaler.Bpf.ConcReq.Monitor.{Monitor, next_count}
use swarm_autoscaler.Bpf.ConcReq.Debounce.{counted}
use swarm_autoscaler.Bpf.ConcReq.Frame.{messages_of}
use swarm_autoscaler.Bpf.ConcReq.Refinement.{Tracks}
use swarm_autoscaler.Bpf.ConcReq.Trace.{IsReady, probes, states_at}
use swarm_autoscaler.Bpf.Classifier.{port_classifier, tc_act_ok}
use swarm_autoscaler.Daemon.Server.{
  send_remove_request_to_all_nodes, send_listen_request_to_all_nodes,
}
use swarm_autoscaler.Daemon.Ports
use swarm_autoscaler.Daemon.Ports.{handle_sample, post, remove_port, listen_on_port}
use swarm_autoscaler.Daemon.ConcReq.{Listener, dispatch}
use swarm_autoscaler.Daemon.ConcReq.Decoding.{sample_of}
use swarm_autoscaler.Daemon.Monitor.{monitor_turn, scales}
use swarm_autoscaler.Daemon.Scale.{
  Manager, returns, keep_alive_elapsed, get_published_port, scale_to, replicas_of, u64,
}
use swarm_autoscaler.Daemon.Scale.Outcomes.{Shows}
use swarm_autoscaler.Daemon.Scale.Progress.{IsAttended}
use swarm_autoscaler.Daemon.Containers.{scale_service, find_service_id_from_container}
use swarm_autoscaler.Daemon.Cycle.{zero_wakes, busy_service_grows}
use swarm_autoscaler.Tests.Classifier.{packet, packet-AllBytes, packet-IsTcp}
use swarm_autoscaler.Tests.ConcReq.{eight, offsets, call, limited, registered}
use swarm_autoscaler.Tests.Daemon.{context, running}
use swarm_autoscaler.Tests.Ports.{manager_alone, answering}
use swarm_autoscaler.Tests.Scale.{
  Services, docker, docker-Accepts, service, keeping, kept, state_of,
}

zero_wakes_example :
    (port_classifier (table 4) (state_of kept).ports.ports_map packet ≡ some (8080 ∷ [], tc_act_ok))
    × (handle_sample (table 4) answering manager_alone (state_of kept).ports (le_bytes 8 8080) ≡ (
      (remove_port (table 4) (state_of kept).ports 8080).0,
      map post (send_remove_request_to_all_nodes answering manager_alone 8080).0
          ++ Ports.scale_to "web" 1 ∷ [],
    ))
    × ((w : Services) × (scale_to docker (state_of kept).world "web" 1 ≡ returns w false)
        × Shows (docker.inspect w "web") 1)
unfolding keep_alive_elapsed get_published_port scale_to listen_on_port
    send_listen_request_to_all_nodes
zero_wakes_example =
    zero_wakes docker (table 4) answering keeping (state_of kept) "web" 0 manager_alone packet 0x1f
      0x90 refl refl refl refl packet-AllBytes (omega arith) (omega arith) packet-IsTcp refl
      (docker-Accepts (state_of kept).world "web")

-- Four connections are open, one more than the upper limit.
abbrev pub busy : Listener eight
busy = record {
  kernel = record registered { conn_count = (7, 4) ∷ [] };
  contexts = λ n. if 7 == n then some context else none;
}

abbrev pub busy_monitor : Monitor
busy_monitor = record { count = 4; buffer = 0; scaling = 0 }

abbrev leading : Manager docker eight
leading = record {
  world = λ j. if str_eq j "web" then some (service 3) else none;
  node_info = manager_alone;
  ports = record { services = λ j. none; ports_map = [] };
  keep_alive_ops = λ j. none;
  waiting = λ c. none;
  next_channel = 0;
}

leading-IsAttended : IsAttended docker eight leading "web"
leading-IsAttended c e = absurd (ground (arith, e))

pub busy-IsReady : IsReady eight busy.kernel 7 limited
unfolding limits
busy-IsReady = record { mark = 1; valid = refl; limited = refl }

pub busy-Tracks : Tracks eight busy.kernel 7 busy_monitor
busy-Tracks = record { at_count = refl; at_buffer = refl; at_scaling = refl }

abbrev pub opens : List Call
opens = call 7 1 ∷ call 7 1 ∷ []

opens_states : states_at offsets 7 opens ≡ 1 ∷ 1 ∷ []
unfolding states_at get_netns_from_task
opens_states = refl

busy_service_grows_example :
    (fired : Listener eight) × (fired
      ≡ record busy { kernel = probes eight offsets busy.kernel opens })
    × (message : List ℕ) × (messages_of 7 fired.kernel.events
        ≡ messages_of 7 busy.kernel.events ++ message ∷ [])
    × (dispatch fired.contexts running 0 (sample_of (record { netns = 7; message = message }))
        ≡ some (5, message))
    × ((monitor_turn eight manager_alone "web" 7 fired message).1 ≡ scales "over")
    × Tracks eight
        (monitor_turn eight manager_alone "web" 7 fired message).0.kernel
        7
        (record { count = counted limited 4 (1 ∷ 1 ∷ []); buffer = 0; scaling = 0 })
    × (mgr' : Manager docker eight) × (scale_service docker eight leading "c1" "over"
        ≡ returns mgr' false)
    × Shows (docker.inspect mgr'.world "web") (u64 4)
unfolding next_count counted find_service_id_from_container replicas_of
busy_service_grows_example =
    busy_service_grows docker eight offsets busy leading opens limited busy_monitor 7 1 (1 ∷ [])
      running context "c1" "web" (service 3) 3 busy-IsReady busy-Tracks opens_states
      (λ e. absurd (omega (arith, e))) (omega arith) refl (refl, (refl, tt)) (omega arith)
      (omega arith) refl refl refl refl refl refl (docker-Accepts leading.world "web")
      leading-IsAttended
