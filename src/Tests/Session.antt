-- ===== src/Tests/Session.antt =====
-- A monitor of namespace 7 from its start to its end.
use swarm_autoscaler.Base.{
  ℕ, ◌+◌, ◌-◌, ◌≤◌, ◌≡◌, refl, none, some, [], ◌∷◌, arith, ◌==◌, if◌then◌else◌, length,
}
use swarm_autoscaler.Bpf.ConcReq.{
  limits, get_netns_from_task, kprobe_tcp_recvmsg, observe, upper_message,
}
use swarm_autoscaler.Bpf.ConcReq.Frame.{messages_of}
use swarm_autoscaler.Bpf.ConcReq.Trace.{Holds, probes, states_at}
use swarm_autoscaler.Daemon.ConcReq.{Listener, add_namespace, dispatch}
use swarm_autoscaler.Daemon.Monitor.{turn_of}
use swarm_autoscaler.Daemon.Session.{
  waits, Session, start_monitor, read_next, receive, finish_turn, fire, Reach, start, later, fires,
  reads, receives,
}
use swarm_autoscaler.Daemon.Session.Start.{HasRoom, start_monitor-Holds}
use swarm_autoscaler.Daemon.Session.Handshake.{IsIdle, unfinished, count_held, one_unanswered}
use swarm_autoscaler.Tests.ConcReq.{eight, offsets, call, limited, registered, two_opens}
use swarm_autoscaler.Tests.Cycle.{busy, busy_monitor, busy-IsReady, busy-Tracks}
use swarm_autoscaler.Tests.Daemon.{context, running as none_cancelled}
use swarm_autoscaler.Tests.Ports.{manager_alone}

abbrev calm : Session eight
calm = record { listener = busy; taken = 0; held = none; dropped = 0; phase = waits }

calm-IsIdle : IsIdle eight offsets manager_alone "web" 7 limited calm busy_monitor
unfolding messages_of
calm-IsIdle = record {
  ready = busy-IsReady;
  tracked = busy-Tracks;
  down = λ e. absurd (omega (arith, e));
  waiting = refl;
  none_held = refl;
  none_dropped = refl;
  all_taken = refl;
}

-- Two firings, the message of which is read and received.
abbrev alarmed : Session eight
alarmed = fire eight offsets (fire eight offsets calm (call 7 1)) (call 7 1)

abbrev heard : Session eight
heard = read_next eight none_cancelled 7 alarmed upper_message

abbrev turning : Session eight
turning = receive eight manager_alone "web" heard upper_message

alarmed_reached : Reach eight offsets manager_alone "web" 7 calm alarmed
alarmed_reached = later (later start (fires (call 7 1))) (fires (call 7 1))

turning_reached : Reach eight offsets manager_alone "web" 7 calm turning
unfolding fire kprobe_tcp_recvmsg get_netns_from_task limits observe messages_of read_next dispatch
turning_reached =
    later (later alarmed_reached (reads none_cancelled upper_message refl refl))
      (receives upper_message refl refl)

one_unanswered_example :
    (scaling : ℕ) × (eight.lookup turning.listener.kernel.scaling 7 ≡ some scaling)
    × (turning.taken ≤ length (messages_of 7 turning.listener.kernel.events))
    × ((length (messages_of 7 turning.listener.kernel.events) - turning.taken)
          + (count_held turning.held + (unfinished turning.phase + turning.dropped))
        ≡ (if scaling == 1 then 1 else 0))
one_unanswered_example =
    one_unanswered eight offsets manager_alone "web" 7 limited calm turning busy_monitor calm-IsIdle
      turning_reached

-- The turn ends, and the goroutine waits again.
abbrev answered : Session eight
answered = finish_turn eight 7 turning (turn_of manager_alone "web" upper_message)

-- Only the limits are stored.
abbrev empty : Listener eight
empty = record {
  kernel = record registered { conn_count = []; buffer = []; scaling = []; valid_netns = [] };
  contexts = λ n. none;
}

abbrev begun : Listener eight
begun = record {
  kernel = record registered { buffer = [] };
  contexts = λ n. if 7 == n then some context else none;
}

empty-HasRoom : HasRoom eight empty.kernel 7
empty-HasRoom = record {
  no_buffer = refl;
  grown = (7, 0) ∷ [];
  buffer_room = refl;
  flagged = (7, 0) ∷ [];
  scaling_room = refl;
}

start_monitor-Holds_example :
    Holds eight offsets 7 limited begun.kernel
      (probes eight offsets begun.kernel two_opens)
      (record { count = 0; buffer = 0; scaling = 0 })
      (states_at offsets 7 two_opens)
    × (begun.contexts 7 ≡ some context)
unfolding start_monitor add_namespace limits get_netns_from_task
start_monitor-Holds_example =
    start_monitor-Holds eight offsets empty begun "web" 7 context limited (call 7 1)
      (call 9 1 ∷ call 7 8 ∷ []) refl empty-HasRoom refl refl
