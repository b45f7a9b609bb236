-- ===== src/Tests/ConcReq.antt =====
-- conc_req_monitoring.c on a table of eight entries: namespace 7, limits 1 and 3, buffer length 2.
use swarm_autoscaler.Base.{
  ℕ, ◌+◌, ◌≤◌, ◌≡◌, refl, none, some, List, [], ◌∷◌, ◌++◌, arith, ◌==◌, if◌then◌else◌, length,
}
use swarm_autoscaler.Bpf.Maps.{BpfMaps}
use swarm_autoscaler.Bpf.Table.{table}
use swarm_autoscaler.Bpf.Kernel.{Memory, Offsets, core_read}
use swarm_autoscaler.Bpf.ConcReq.{
  Maps, Limits, Call, get_netns_from_task, limits, observe, kprobe_tcp_recvmsg, lower_message,
  upper_message,
}
use swarm_autoscaler.Bpf.ConcReq.Monitor.{Monitor, next_count}
use swarm_autoscaler.Bpf.ConcReq.Debounce.{counted}
use swarm_autoscaler.Bpf.ConcReq.Refinement.{Tracks}
use swarm_autoscaler.Bpf.ConcReq.Frame.{messages_of}
use swarm_autoscaler.Bpf.ConcReq.Trace.{IsReady, Holds, probes, probes-Holds, states_at}
use swarm_autoscaler.Bpf.ConcReq.Safety.{probes_once, probes_fire}

abbrev pub eight : BpfMaps
eight = table 8

abbrev pub offsets : Offsets
offsets = record {
  task_nsproxy = 10;
  nsproxy_net_ns = 20;
  net_ns_inum = 30;
  sock_state = 2;
  regs_di = 1;
}

-- A task at 1000 in the namespace `n`, with `ctx` at 5000 and a socket in the state `st`.
abbrev memory : ℕ → ℕ → Memory
memory n st addr size =
    if addr == 1010
    then some 2000
    else if addr == 2020
    then some 3000
    else if addr == 3030
    then some n
    else if addr == 5001
    then some 6000
    else if addr == 6002
    then some st
    else none

abbrev pub call : ℕ → ℕ → Call
call n st = record { ctx = 5000; task = 1000; mem = memory n st }

abbrev pub limited : Limits
limited = record { lower = 1; upper = 3; buffer_length = 2 }

-- after `addNamespace` of 7
abbrev pub registered : Maps eight
registered = record {
  conn_count = (7, 0) ∷ [];
  constants = (0, 1) ∷ (1, 3) ∷ (2, 2) ∷ [];
  buffer = (7, 0) ∷ [];
  scaling = (7, 0) ∷ [];
  valid_netns = (7, 1) ∷ [];
  events = [];
}

abbrev fresh : Monitor
fresh = record { count = 0; buffer = 0; scaling = 0 }

registered-IsReady : IsReady eight registered 7 limited
unfolding limits
registered-IsReady = record { mark = 1; valid = refl; limited = refl }

registered-Tracks : Tracks eight registered 7 fresh
registered-Tracks = record { at_count = refl; at_buffer = refl; at_scaling = refl }

abbrev pub two_opens : List Call
two_opens = call 7 1 ∷ call 9 1 ∷ call 7 8 ∷ []

two_opens_states : states_at offsets 7 two_opens ≡ 1 ∷ 8 ∷ []
unfolding states_at get_netns_from_task core_read
two_opens_states = refl

two_opens_events :
    (probes eight offsets registered two_opens).events
    ≡ record { netns = 7; message = lower_message } ∷ []
unfolding probes kprobe_tcp_recvmsg get_netns_from_task limits observe
two_opens_events = refl

-- Above the limits the message is the other one.
upper_event :
    (observe eight
      (record registered { conn_count = (7, 4) ∷ []; buffer = (7, 1) ∷ [] })
      limited
      7
      1).events
    ≡ record { netns = 7; message = upper_message } ∷ []
unfolding observe
upper_event = refl

probes-Holds_example :
    Holds eight offsets 7 limited registered
      (probes eight offsets registered two_opens)
      fresh
      (states_at offsets 7 two_opens)
probes-Holds_example =
    probes-Holds eight offsets 7 limited registered two_opens fresh registered-IsReady
      registered-Tracks

probes_once_example :
    length (messages_of 7 (probes eight offsets registered two_opens).events)
    ≤ length (messages_of 7 registered.events) + 1
probes_once_example =
    probes_once eight offsets 7 limited registered two_opens fresh registered-IsReady
      registered-Tracks

probes_fire_example :
    (messages_of 7 (probes eight offsets registered two_opens).events
      ≡ messages_of 7 registered.events ++ lower_message ∷ [])
    × (eight.lookup (probes eight offsets registered two_opens).scaling 7 ≡ some 1)
    × (eight.lookup (probes eight offsets registered two_opens).buffer 7 ≡ some 0)
unfolding counted next_count
probes_fire_example =
    probes_fire eight offsets 7 limited registered two_opens fresh 1 (8 ∷ []) registered-IsReady
      registered-Tracks two_opens_states (omega arith) (omega arith) (omega arith)
      (refl, (refl, tt))
