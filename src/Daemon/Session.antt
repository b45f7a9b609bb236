-- ===== src/Daemon/Session.antt =====
-- `Monitor` in autoscaler/conc_req_monitoring/conc_req_monitoring.go from its start to its end, with the
-- firings of the kprobe in between. The proofs are in the modules below.
pub mod Start
pub mod Handshake
pub mod End
use Prim.Native.String.{String}
use swarm_autoscaler.Base.{ℕ, suc, ◌≡◌, Bool, if◌then◌else◌, Option, none, some, List, get_elem?}
use swarm_autoscaler.Bpf.Maps.{BpfMaps}
use swarm_autoscaler.Bpf.Kernel.{Offsets}
use swarm_autoscaler.Bpf.ConcReq.{Call, kprobe_tcp_recvmsg}
use swarm_autoscaler.Bpf.ConcReq.Frame.{messages_of}
use swarm_autoscaler.Daemon.Server.{SwarmNodeInfo}
use swarm_autoscaler.Daemon.ConcReq.{
  dispatch, Listener, NamespaceContext, Outcome, fatal, add_namespace, remove_namespace,
}
use swarm_autoscaler.Daemon.ConcReq.Decoding.{sample_of}
use swarm_autoscaler.Daemon.Monitor.{Turn, goes_on, turn_of, rearm}

-- Where the goroutine of `Monitor` stands: in its `select`, in a turn, up to the end of its sleep, or
-- after its return.
pub data Phase : Type 0 where
  waits : Phase
  handles : Turn → Phase
  returned : Phase

module _ (B : BpfMaps) where
  -- `service_id` and `netns` are the results of `FindServiceIDFromContainer` and `GetContainerNamespace`.
  unfoldable pub start_monitor :
      Listener B → Option String → Option ℕ → NamespaceContext → Outcome (Listener B)
  start_monitor d none netns c = fatal
  start_monitor d (some id) none c = fatal
  start_monitor d (some id) (some netns) c = add_namespace B d netns c

  -- The clean-up at the end; an error is only printed.
  unfoldable pub end_monitor : Listener B → ℕ → Listener B
  end_monitor d netns = (remove_namespace B d netns).0

  -- What the goroutine shares with the kernel, and where it stands: `taken` of the messages for its
  -- namespace have left the perf buffer, `held` is the one with which `listenForEvents` stands at its
  -- send, and `dropped` did not come that far.
  pub record Session : Type 0 where
    pub listener : Listener B
    pub taken : ℕ
    pub held : Option (List ℕ)
    pub dropped : ℕ
    pub phase : Phase

  unfoldable pub fire : Offsets → Session → Call → Session
  fire o s c = record s {
    listener = record s.listener { kernel = kprobe_tcp_recvmsg B o s.listener.kernel c };
  }

  -- A message that the kernel or a failed read loses.
  unfoldable pub drop_next : Session → Session
  drop_next s = record s { taken = suc s.taken; dropped = suc s.dropped }

  -- The next message in `listenForEvents`, up to its send, if there is one.
  unfoldable pub read_next : (ℕ → Bool) → ℕ → Session → List ℕ → Session
  unfolding drop_next
  read_next cancelled netns s message =
      elim (dispatch s.listener.contexts cancelled 0
        (sample_of (record { netns = netns; message = message }))) [
          | none ↦ drop_next s
          | some (signal, direction) ↦ record s { taken = suc s.taken; held = some direction }
        ]

  -- The send is received, and the goroutine begins a turn.
  unfoldable pub receive : SwarmNodeInfo → String → Session → List ℕ → Session
  receive info id s message = record s { held = none; phase = handles (turn_of info id message) }

  -- The turn ends: after the sleep the namespace is given back to the kprobe, or the goroutine returns.
  unfoldable pub finish_turn : ℕ → Session → Turn → Session
  finish_turn netns s turn = record s {
    listener = rearm B s.listener netns turn;
    phase = if goes_on turn then waits else returned;
  }

  -- The context is cancelled: a goroutine that waits in its `select` cleans up and returns. One in a turn
  -- comes to the `select` first, and one that has returned does not clean up.
  unfoldable pub cancel_monitor : ℕ → Session → Session
  unfolding end_monitor
  cancel_monitor netns s = elim s.phase [
    | waits ↦ record s { listener = end_monitor s.listener netns; phase = returned }
    | handles turn ↦ s
    | returned ↦ s
  ]

  -- A firing of the kprobe anywhere, the next message of the namespace, lost or read, its receipt, and the
  -- end of a turn. `listenForEvents` reads nothing while it stands at a send; which contexts are cancelled
  -- may change from one read to the next.
  pub data Step (o : Offsets) (info : SwarmNodeInfo) (id : String) (netns : ℕ) (s : Session)
      : Session → Type 0 where
    fires : (c : Call) → Step o info id netns s (fire o s c)
    loses :
        (message : List ℕ)
        → get_elem? (messages_of netns s.listener.kernel.events) s.taken ≡ some message
        → Step o info id netns s (drop_next s)
    reads :
        (cancelled : ℕ → Bool) (message : List ℕ)
        → s.held ≡ none
        → get_elem? (messages_of netns s.listener.kernel.events) s.taken ≡ some message
        → Step o info id netns s (read_next cancelled netns s message)
    receives :
        (message : List ℕ)
        → s.phase ≡ waits
        → s.held ≡ some message
        → Step o info id netns s (receive info id s message)
    finishes :
        (turn : Turn) → s.phase ≡ handles turn → Step o info id netns s (finish_turn netns s turn)

  pub data Reach (o : Offsets) (info : SwarmNodeInfo) (id : String) (netns : ℕ) (s : Session)
      : Session → Type 0 where
    start : Reach o info id netns s s
    later :
        {t u : Session}
        → Reach o info id netns s t
        → Step o info id netns t u
        → Reach o info id netns s u
