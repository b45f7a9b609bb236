-- ===== src/Tests/Threads.antt =====
-- scale.go with its goroutines interleaved, for the service `web` of the other tests.
use Prim.Native.String.{String}
use swarm_autoscaler.Base.{ℕ, ◌≡◌, refl, false, none, some, arith}
use swarm_autoscaler.Base.Family.{set_at}
use swarm_autoscaler.Bpf.Table.{table}
use swarm_autoscaler.Daemon.Server.{send_listen_request_to_all_nodes}
use swarm_autoscaler.Daemon.Ports.{listen_on_port}
use swarm_autoscaler.Daemon.Scale.{
  Manager, change_service_replicas, keep_alive_elapsed, replicas_of, get_published_port, scale_to,
  update_service_constraints, set_waiting,
}
use swarm_autoscaler.Daemon.Scale.Outcomes.{Shows}
use swarm_autoscaler.Daemon.Scale.Threads.{
  Request, off, expired, Goroutines, Reach, start, later, ask, request_turn,
}
use swarm_autoscaler.Daemon.Scale.Threads.Alone.{Ends, turns, turns-change_service_replicas}
use swarm_autoscaler.Daemon.Scale.Threads.Timers.{
  EndsTimer, timer_turns, timer_turns-keep_alive_elapsed,
}
use swarm_autoscaler.Daemon.Scale.Threads.Traces.{run_request, run_request-Reach}
use swarm_autoscaler.Daemon.Scale.Threads.Channels.{cancels_own}
use swarm_autoscaler.Daemon.Scale.Threads.Late.{late_over_stuck}
use swarm_autoscaler.Daemon.Scale.Threads.Lost.{lost_increment}
use swarm_autoscaler.Daemon.Scale.Threads.Double.{two_goroutines}
use swarm_autoscaler.Tests.Ports.{answering}
use swarm_autoscaler.Tests.Scale.{docker, docker-Accepts, manager, keeping, kept, state_of, service}

turns-change_service_replicas_example :
    Ends docker
      (table 4)
      (change_service_replicas docker (table 4) (manager 3) "web" "under")
      (turns docker (table 4) 9 (manager 3, Request.asked "web" "under"))
turns-change_service_replicas_example =
    turns-change_service_replicas docker (table 4) 9 (manager 3) "web" "under" (omega arith)

timer_turns-keep_alive_elapsed_example :
    EndsTimer docker (table 4) answering (keep_alive_elapsed docker (table 4) answering keeping 0) (
      timer_turns docker
        (table 4)
        answering
        7
        (record keeping { waiting = set_waiting keeping.waiting 0 none }, expired "web"))
timer_turns-keep_alive_elapsed_example =
    timer_turns-keep_alive_elapsed docker (table 4) answering 7 keeping 0 "web" (omega arith) refl

abbrev quiet : Manager docker (table 4) → Goroutines docker (table 4)
quiet m = record { mem = m; request = λ i. Request.idle; timer = λ c. off }

abbrev asking : ℕ → String → Goroutines docker (table 4) → Goroutines docker (table 4)
asking i direction s = record s { request = set_at s.request i (Request.asked "web" direction) }

-- request 0 starts the keep-alive operation, request 1 comes to the send that cancels it
abbrev slow : Goroutines docker (table 4)
slow = run_request docker (table 4) 3 0 (asking 0 "under" (quiet (manager 1)))

abbrev busy : Goroutines docker (table 4)
busy = run_request docker (table 4) 3 1 (asking 1 "over" slow)

busy-Reach : Reach docker (table 4) answering (quiet (manager 1)) busy
unfolding run_request request_turn replicas_of
busy-Reach =
    run_request-Reach docker (table 4) answering 3 1 (quiet (manager 1)) (asking 1 "over" slow) (
      later
        (run_request-Reach docker (table 4) answering 3 0 (quiet (manager 1))
          (asking 0 "under" (quiet (manager 1))) (later start (ask 0 "web" "under" refl)))
        (ask 1 "web" "over" refl))

abbrev its_service : String
its_service = "web"

abbrev waiting_for : String
waiting_for = "web"

cancels_own_example : waiting_for ≡ its_service
unfolding run_request request_turn replicas_of update_service_constraints
cancels_own_example =
    cancels_own docker (table 4) answering (quiet (manager 1)) busy 1 0 2 its_service waiting_for
      (record { no_ops = λ id. refl; no_waiting = λ c. refl; no_requests = λ i. refl }) busy-Reach
      refl refl

late_over_stuck_example :
    (t : Goroutines docker (table 4)) × Reach docker (table 4) answering (quiet keeping) t
    × (t.mem ≡ state_of kept)
    × Shows (docker.inspect t.mem.world "web") 0
    × ((u : Goroutines docker (table 4))
        → Reach docker (table 4) answering t u
        → u.request 5 ≡ Request.sending "web" 0 2)
unfolding keep_alive_elapsed get_published_port scale_to listen_on_port
    send_listen_request_to_all_nodes replicas_of
late_over_stuck_example =
    late_over_stuck docker (table 4) answering (quiet keeping) (state_of kept) 5 0 1 "web"
      (service 1) refl refl (omega arith) refl refl refl refl refl

lost_increment_example :
    (t : Goroutines docker (table 4)) × Reach docker (table 4) answering (quiet (manager 3)) t
    × (t.request 0 ≡ Request.answered false)
    × (t.request 1 ≡ Request.answered false)
    × Shows (docker.inspect t.mem.world "web") 4
unfolding replicas_of
lost_increment_example =
    lost_increment docker (table 4) answering (quiet (manager 3)) 0 1 3 "web" (service 3)
      (omega arith) refl refl refl refl refl (λ c e. absurd (ground (arith, e)))
      (λ w. docker-Accepts w "web")

two_goroutines_example :
    (t : Goroutines docker (table 4)) × Reach docker (table 4) answering (quiet (manager 1)) t
    × (t.request 0 ≡ Request.answered false)
    × (t.request 1 ≡ Request.answered false)
    × (t.mem.waiting 0 ≡ some "web")
    × (t.mem.waiting 1 ≡ some "web")
    × (t.mem.keep_alive_ops "web" ≡ some 1)
unfolding replicas_of
two_goroutines_example =
    two_goroutines docker (table 4) answering (quiet (manager 1)) 0 1 1 "web" (service 1)
      (omega arith) refl refl refl refl (omega arith) refl
