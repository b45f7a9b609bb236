-- ===== src/Tests/Daemon.antt =====
-- The daemon's sides of the two BPF programs on small tables, and the requests between nodes.
use swarm_autoscaler.Base.{
  ℕ, ◌+◌, ◌≡◌, refl, Bool, true, false, Option, none, some, List, [], ◌∷◌, ◌++◌, map, arith, ◌==◌,
  if◌then◌else◌, pos, inl, inr,
}
use swarm_autoscaler.Bpf.Table.{table}
use swarm_autoscaler.Bpf.ConcReq.Frame.{messages_of}
use swarm_autoscaler.Bpf.ConcReq.{lower_message, upper_message}
use swarm_autoscaler.Daemon.ConcReq.{dispatch, ConcReqResource, NamespaceContext, Listener}
use swarm_autoscaler.Daemon.ConcReq.Listening.{
  Delivery, arrives, drops, errs, reading_of, arrived, listen_for_events, received,
  listen_for_events-messages_of,
}
use swarm_autoscaler.Daemon.Server.{
  SwarmNode, Message, Network, Request, listen_request, send, send_all,
}
use swarm_autoscaler.Daemon.Server.Requests.{AllAnswer, send_all_fails}

abbrev pub resource : ConcReqResource
resource = record { lower_limit = pos 1; upper_limit = pos 3; buffer_length = pos 2 }

abbrev constants : List (ℕ × ℕ)
constants = (2, 2) ∷ (1, 3) ∷ (0, 1) ∷ []

abbrev pub context : NamespaceContext
context = record { ctx = 1; signal = 5 }

abbrev idle : Listener (table 8)
idle = record {
  kernel = record {
    conn_count = [];
    constants = constants;
    buffer = [];
    scaling = [];
    valid_netns = [];
    events = [];
  };
  contexts = λ n. none;
}

-- one namespace, registered and not yet reached by the kprobe
abbrev started : Listener (table 8)
started = record {
  kernel = record idle.kernel {
    conn_count = (7, 0) ∷ [];
    valid_netns = (7, 1) ∷ [];
    scaling = (7, 0) ∷ [];
  };
  contexts = λ n. if 7 == n then some context else none;
}

abbrev pub signalled : Listener (table 8)
signalled = record started {
  kernel = record started.kernel {
    conn_count = (7, 4) ∷ [];
    buffer = (7, 0) ∷ [];
    scaling = (7, 1) ∷ [];
  };
}

abbrev pub running : ℕ → Bool
running c = false

-- Messages for the namespace of `started` and for one that has no monitor, with a loss and an error.
abbrev deliveries : List Delivery
deliveries =
    drops 1
    ∷ arrives (record { netns = 7; message = upper_message })
    ∷ errs
    ∷ arrives (record { netns = 9; message = lower_message })
    ∷ []

listen_for_events-messages_of_example :
    received 5
      (listen_for_events started.contexts running (λ signal. 2) (map reading_of deliveries))
    ≡ messages_of 7 (arrived deliveries)
listen_for_events-messages_of_example =
    listen_for_events-messages_of started.contexts running 7 context (λ signal. 2) deliveries refl
      refl (λ j k e f. ground (arith, e)) ((omega arith, inr refl), ((omega arith, inl refl), tt))
      (λ j k e f. omega arith)

-- A monitor that receives nothing more holds up the loop.
held_up : listen_for_events started.contexts running (λ signal. 0) (map reading_of deliveries) ≡ []
unfolding listen_for_events dispatch
held_up = refl

abbrev pub worker : SwarmNode
worker = record { hostname = "vm2"; ip = "10.0.0.2"; manager = false }

abbrev pub leader : SwarmNode
leader = record { hostname = "vm1"; ip = "10.0.0.1"; manager = true }

abbrev listen : SwarmNode → Message
listen node = listen_request node.ip 8080 "web"

-- a network on which every request is answered, with an error of the other node
abbrev answering : Network
answering m = some 500

abbrev silent : Network
silent m = none

send_all_fails_example :
    (before : List SwarmNode) × (node : SwarmNode) × (behind : List SwarmNode) × (worker ∷ leader
        ∷ []
      ≡ before ++ node ∷ behind)
    × ((send_all silent listen (worker ∷ leader ∷ [])).0 ≡ map listen before ++ listen node ∷ [])
    × AllAnswer silent (map listen before)
    × (send silent (listen node) ≡ true)
unfolding send_all
send_all_fails_example = send_all_fails silent listen (worker ∷ leader ∷ []) refl

abbrev decode_length : List ℕ → Option ℕ
decode_length [] = none
decode_length (b ∷ bs) = some b

abbrev add_small : ℕ → ℕ → ℕ × Bool
add_small s a = (s + a, false)

abbrev request : Request
request = record { method = "POST"; body = 3 ∷ [] }
