-- ===== src/Daemon/Session/Handshake.antt =====
-- How the messages of the kprobe of conc_req_monitoring.c and the turns of `Monitor` in
-- conc_req_monitoring.go alternate.
use Prim.Native.String.{String}
use swarm_autoscaler.Base.{
  ℕ, zero, suc, ◌≤◌, ◌-◌, none, Option, Bool, inl, inr, Option-cases, ◌+◌, ◌<◌, ◌≡◌, ◌≢◌, ◌∙◌, ap,
  some, List, [], ◌∷◌, arith, ◌==◌, if◌then◌else◌, length, length-append, get_elem?, to_list,
}
use swarm_autoscaler.Bpf.Maps.{BpfMaps}
use swarm_autoscaler.Bpf.Kernel.{Offsets}
use swarm_autoscaler.Bpf.ConcReq.{Limits, Call}
use swarm_autoscaler.Bpf.ConcReq.Monitor
use swarm_autoscaler.Bpf.ConcReq.Monitor.{step, run, pressure}
use swarm_autoscaler.Bpf.ConcReq.Frame.{messages_of}
use swarm_autoscaler.Bpf.ConcReq.Refinement.{Tracks}
use swarm_autoscaler.Bpf.ConcReq.Trace.{IsReady, kprobe-Holds, states_at}
use swarm_autoscaler.Daemon.Server.{SwarmNodeInfo}
use swarm_autoscaler.Daemon.ConcReq.{dispatch, add_namespace_to_scaling_map}
use swarm_autoscaler.Daemon.ConcReq.Decoding.{sample_of}
use swarm_autoscaler.Daemon.ConcReq.Registration.{reset-Tracks}
use swarm_autoscaler.Daemon.Monitor.{Turn, scales, sends, stops, rearm}
use swarm_autoscaler.Daemon.Session.{
  Phase, waits, handles, returned, Session, drop_next, read_next, receive, finish_turn, fire, Step,
  fires, loses, reads, receives, finishes, Reach, start, later,
}

abbrev pub flag : Monitor.Monitor → ℕ
flag m = if m.scaling == 1 then 1 else 0

-- A message raises the flag, and nothing else of the kprobe changes it.
step-flag :
    (l : Limits) (m : Monitor.Monitor) (x : ℕ)
    → length (to_list (step l m x).1) + flag m ≡ flag (step l m x).0
unfolding step
step-flag l m x = ground arith

run-flag :
    (l : Limits) (m : Monitor.Monitor) (xs : List ℕ)
    → length (run l m xs).1 + flag m ≡ flag (run l m xs).0
unfolding run
run-flag l m [] = omega arith
run-flag l m (x ∷ xs) = omega (
  arith,
  step-flag l m x,
  run-flag l (step l m x).0 xs,
  length-append (to_list (step l m x).1) (run l (step l m x).0 xs).1,
)

get_elem?-small :
    (xs : List (List ℕ)) (i : ℕ) (x : List ℕ) → get_elem? xs i ≡ some x → i < length xs
get_elem?-small [] i x h = absurd (ground (arith, h))
get_elem?-small (y ∷ ys) zero x h = omega arith
get_elem?-small (y ∷ ys) (suc i) x h = omega (arith, get_elem?-small ys i x h)

-- What a goroutine has begun and does not, or not yet, give back to the kprobe.
abbrev pub unfinished : Phase → ℕ
unfinished waits = 0
unfinished (handles turn) = 1
unfinished returned = 1

abbrev pub count_held : Option (List ℕ) → ℕ
count_held none = 0
count_held (some message) = 1

module _ (B : BpfMaps) (o : Offsets) (info : SwarmNodeInfo) (id : String) (n : ℕ) (l : Limits) where
  abbrev pub sent_messages : Session B → ℕ
  sent_messages s = length (messages_of n s.listener.kernel.events)

  -- Each message is either answered or the one that the flag stands for.
  pub record IsPaired (s : Session B) (m : Monitor.Monitor) : Type 0 where
    pub ready : IsReady B s.listener.kernel n l
    pub tracked : Tracks B s.listener.kernel n m
    pub within : s.taken ≤ sent_messages s
    pub paired :
        sent_messages s + (count_held s.held + (unfinished s.phase + s.dropped)) ≡ s.taken + flag m

  fire-IsPaired :
      (s : Session B) (c : Call) (m : Monitor.Monitor)
      → IsPaired s m
      → IsPaired (fire B o s c) (run l m (states_at o n (c ∷ []))).0
  unfolding fire
  fire-IsPaired s c m p =
      let xs = states_at o n (c ∷ []) in
      let holds = kprobe-Holds B o n l s.listener.kernel c m p.ready p.tracked in
      let sent =
        ap length holds.sent
        ∙ length-append (messages_of n s.listener.kernel.events) (run l m xs).1 in
      record {
        ready = holds.ready;
        tracked = holds.tracked;
        within = omega (arith, sent, p.within);
        paired = omega (arith, sent, p.paired, run-flag l m xs);
      }

  drop_next-IsPaired :
      (s : Session B) (m : Monitor.Monitor)
      → s.taken < sent_messages s
      → IsPaired s m
      → IsPaired (drop_next B s) m
  unfolding drop_next
  drop_next-IsPaired s m h p = record {
    ready = p.ready;
    tracked = p.tracked;
    within = h;
    paired = omega (arith, p.paired);
  }

  read_next-IsPaired :
      (cancelled : ℕ → Bool) (s : Session B) (message : List ℕ) (m : Monitor.Monitor)
      → s.held ≡ none
      → s.taken < sent_messages s
      → IsPaired s m
      → IsPaired (read_next B cancelled n s message) m
  unfolding read_next
  read_next-IsPaired cancelled s message m e h p =
      elim (Option-cases (
        dispatch s.listener.contexts cancelled 0
          (sample_of (record { netns = n; message = message })))) [
            | inl f ↦ rw (f, read_next) (drop_next-IsPaired s m h p)
            | inr ((signal, direction), f) ↦
                rw (f, read_next)
                  (record {
                    ready = p.ready;
                    tracked = p.tracked;
                    within = h;
                    paired = omega (arith, rw e at p.paired);
                  })
          ]

  receive-IsPaired :
      (s : Session B) (message : List ℕ) (m : Monitor.Monitor)
      → s.phase ≡ waits
      → s.held ≡ some message
      → IsPaired s m
      → IsPaired (receive B info id s message) m
  unfolding receive
  receive-IsPaired s message m e f p = record {
    ready = p.ready;
    tracked = p.tracked;
    within = p.within;
    paired = omega (arith, rw (e, f) at p.paired);
  }

  rearmed :
      (s : Session B) (m : Monitor.Monitor)
      → unfinished s.phase ≡ 1
      → IsPaired s m
      → IsPaired
          (record s { listener = add_namespace_to_scaling_map B s.listener n; phase = waits })
          (record m { scaling = 0 })
  unfolding add_namespace_to_scaling_map
  rearmed s m e p = record {
    ready = record { mark = p.ready.mark; valid = p.ready.valid; limited = p.ready.limited };
    tracked = reset-Tracks B s.listener n m p.tracked;
    within = p.within;
    paired = ground (arith, p.paired, p.within, e);
  }

  finish_turn-IsPaired :
      (s : Session B) (turn : Turn) (m : Monitor.Monitor)
      → s.phase ≡ handles turn
      → IsPaired s m
      → (m' : Monitor.Monitor) × IsPaired (finish_turn B n s turn) m'
  unfolding finish_turn rearm
  finish_turn-IsPaired s stops m e p = (
    m,
    record {
      ready = p.ready;
      tracked = p.tracked;
      within = p.within;
      paired = omega (arith, rw e at p.paired);
    },
  )
  finish_turn-IsPaired s (scales direction) m e p =
      (record m { scaling = 0 }, rearmed s m (ap unfinished e) p)
  finish_turn-IsPaired s (sends message) m e p =
      (record m { scaling = 0 }, rearmed s m (ap unfinished e) p)

  Step-IsPaired :
      (s t : Session B) (m : Monitor.Monitor)
      → Step B o info id n s t
      → IsPaired s m
      → (m' : Monitor.Monitor) × IsPaired t m'
  Step-IsPaired s t m (fires c) p = ((run l m (states_at o n (c ∷ []))).0, fire-IsPaired s c m p)
  Step-IsPaired s t m (loses message h) p = (
    m,
    drop_next-IsPaired s m
        (get_elem?-small (messages_of n s.listener.kernel.events) s.taken message h) p,
  )
  Step-IsPaired s t m (reads cancelled message e h) p = (
    m,
    read_next-IsPaired cancelled s message m e
        (get_elem?-small (messages_of n s.listener.kernel.events) s.taken message h) p,
  )
  Step-IsPaired s t m (receives message e f) p = (m, receive-IsPaired s message m e f p)
  Step-IsPaired s t m (finishes turn e) p = finish_turn-IsPaired s turn m e p

  pub Reach-IsPaired :
      (s t : Session B) (m : Monitor.Monitor)
      → Reach B o info id n s t
      → IsPaired s m
      → (m' : Monitor.Monitor) × IsPaired t m'
  Reach-IsPaired s t m start p = (m, p)
  Reach-IsPaired s t m (later {t = u} r e) p =
      let (m1, q) = Reach-IsPaired s u m r p in Step-IsPaired u t m1 e q

  -- A monitor that waits for a message when none is on its way, with the flag down.
  pub record IsIdle (s : Session B) (m : Monitor.Monitor) : Type 0 where
    pub ready : IsReady B s.listener.kernel n l
    pub tracked : Tracks B s.listener.kernel n m
    pub down : m.scaling ≢ 1
    pub waiting : s.phase ≡ waits
    pub none_held : s.held ≡ none
    pub none_dropped : s.dropped ≡ 0
    pub all_taken : sent_messages s ≡ s.taken

  pub idle-IsPaired : (s : Session B) (m : Monitor.Monitor) → IsIdle s m → IsPaired s m
  idle-IsPaired s m i = record {
    ready = i.ready;
    tracked = i.tracked;
    within = omega (arith, i.all_taken);
    paired = ground (arith, i.all_taken, i.waiting, i.none_held, i.none_dropped, i.down);
  }

  -- Over any firings, losses of messages, reads, receipts and turns, one after another, since a moment at
  -- which a monitor waits, no message is on its way and the flag is down: at most one message is
  -- unanswered, and the flag in `scaling_map` is 1 exactly if one is. It is still in the perf buffer, or
  -- `listenForEvents` stands with it at its send, or the monitor has received it and not given the
  -- namespace back since, for want of a manager node for ever, or it has been lost or met a cancelled context,
  -- then too for ever.
  pub one_unanswered :
      (s t : Session B) (m : Monitor.Monitor)
      → IsIdle s m
      → Reach B o info id n s t
      → (scaling : ℕ) × (B.lookup t.listener.kernel.scaling n ≡ some scaling)
        × (t.taken ≤ sent_messages t)
        × ((sent_messages t - t.taken) + (count_held t.held + (unfinished t.phase + t.dropped))
            ≡ (if scaling == 1 then 1 else 0))
  one_unanswered s t m i r =
      let (m', p) = Reach-IsPaired s t m r (idle-IsPaired s m i) in
      (m'.scaling, p.tracked.at_scaling, p.within, ground (arith, p.paired, p.within))
