-- ===== src/Tests/Monitor.antt =====
-- One turn of a monitor, on the namespace of the daemon's tests, on a manager and on a worker.
use swarm_autoscaler.Base.{ℕ, ◌≡◌, refl, true, false, some, List, [], ◌∷◌, arith}
use swarm_autoscaler.Bpf.Table.{table}
use swarm_autoscaler.Bpf.ConcReq.{event}
use swarm_autoscaler.Bpf.ConcReq.Monitor
use swarm_autoscaler.Bpf.ConcReq.Refinement.{Tracks}
use swarm_autoscaler.Daemon.Server.{SwarmNodeInfo, scale_request, get_manager_node}
use swarm_autoscaler.Daemon.ConcReq.{dispatch}
use swarm_autoscaler.Daemon.ConcReq.Decoding.{sample_of}
use swarm_autoscaler.Daemon.ConcReq.Limits.{stored}
use swarm_autoscaler.Daemon.Monitor.{sends, monitor_turn, monitor_turn_sends}
use swarm_autoscaler.Tests.Daemon.{signalled, context, resource, running, worker, leader}

abbrev managing : SwarmNodeInfo
managing = record { autoscaler_manager = true; other_nodes = worker ∷ []; keep_alive = 10 }

abbrev working : SwarmNodeInfo
working = record { autoscaler_manager = false; other_nodes = worker ∷ leader ∷ []; keep_alive = 10 }

abbrev monitor : Monitor.Monitor
monitor = record { count = 4; buffer = 0; scaling = 1 }

signalled-Tracks : Tracks (table 8) signalled.kernel 7 monitor
signalled-Tracks = record { at_count = refl; at_buffer = refl; at_scaling = refl }

monitor_turn_sends_example :
    (message : List ℕ) × (dispatch signalled.contexts running 0
        (sample_of (event (stored resource) 7 4))
      ≡ some (context.signal, message))
    × ((monitor_turn (table 8) working "web" 7 signalled message).1
        ≡ sends (scale_request "10.0.0.1" "web" "over"))
    × Tracks
        (table 8)
        (monitor_turn (table 8) working "web" 7 signalled message).0.kernel
        7
        (record monitor { scaling = 0 })
unfolding get_manager_node
monitor_turn_sends_example =
    monitor_turn_sends (table 8) working "web" signalled (stored resource) 7 4 running context
      monitor leader (omega arith) refl refl signalled-Tracks refl refl
