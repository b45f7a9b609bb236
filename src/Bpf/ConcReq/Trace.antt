-- ===== src/Bpf/ConcReq/Trace.antt =====
-- Sequences of firings of the kprobe of conc_req_monitoring.c, in any namespaces.
use mathlib.Core.List.{append-nil, append_assoc}
use swarm_autoscaler.Base.{
  ℕ, ◌+◌, ◌≡◌, refl, ◌∙◌, sym, ◌≢◌, Bool, true, false, not, ◌&&◌, some, List, [], ◌∷◌, ◌++◌, arith,
  inl, inr, ◌⊎◌, ◌==◌, if◌then◌else◌, Bool-cases, Option-cases,
}
use swarm_autoscaler.Bpf.Maps.{BpfMaps}
use swarm_autoscaler.Bpf.Kernel.{Offsets, core_read}
use swarm_autoscaler.Bpf.ConcReq.{
  Maps, Limits, Call, get_netns_from_task, limits, observe, kprobe_tcp_recvmsg,
}
use swarm_autoscaler.Bpf.ConcReq.Monitor.{Monitor, run, run-append}
use swarm_autoscaler.Bpf.ConcReq.Refinement.{Tracks, observe-step}
use swarm_autoscaler.Bpf.ConcReq.Frame.{Agrees, messages_of, observe-Agrees, observe_constants}

abbrev pub netns_of : Offsets → Call → ℕ
netns_of o c = get_netns_from_task o c.mem c.task

abbrev pub sock_of : Offsets → Call → ℕ
sock_of o c = core_read c.mem (c.ctx + o.regs_di) 8

abbrev pub state_of : Offsets → Call → ℕ
state_of o c = core_read c.mem (sock_of o c + o.sock_state) 1

-- The firing has a socket and happens in the namespace `n`.
abbrev pub is_seen : Offsets → ℕ → Call → Bool
is_seen o n c = not (sock_of o c == 0) && (netns_of o c == n)

-- The states of the sockets of the firings in `n`.
unfoldable pub states_at : Offsets → ℕ → List Call → List ℕ
states_at o n [] = []
states_at o n (c ∷ cs) =
    let rest = states_at o n cs in if is_seen o n c then state_of o c ∷ rest else rest

module _ (B : BpfMaps) (o : Offsets) where
  -- Successive firings.
  unfoldable pub probes : Maps B → List Call → Maps B
  probes s [] = s
  probes s (c ∷ cs) = probes (kprobe_tcp_recvmsg B o s c) cs

  -- A firing does nothing, or runs the part below the guards.
  pub kprobe_cases {κ} :
      (P : Maps B → Type κ) (s : Maps B) (c : Call)
      → P s
      → ((l : Limits)
          → limits B s.constants ≡ some l
          → P (observe B s l (netns_of o c) (state_of o c)))
      → P (kprobe_tcp_recvmsg B o s c)
  unfolding kprobe_tcp_recvmsg
  kprobe_cases P s c stay go = elim (Bool-cases (sock_of o c == 0)) [
    | inl e ↦ rw (e, kprobe_tcp_recvmsg) stay
    | inr e ↦ elim (Option-cases (B.lookup s.valid_netns (netns_of o c))) [
      | inl v ↦ rw (e, v, kprobe_tcp_recvmsg) stay
      | inr (w, v) ↦ elim (Option-cases (limits B s.constants)) [
        | inl k ↦ rw (e, v, k, kprobe_tcp_recvmsg) stay
        | inr (l, k) ↦ rw (e, v, k, kprobe_tcp_recvmsg) (go l k)
      ]
    ]
  ]

-- The daemon has registered the namespace `n` and stored the limits `l`.
pub record IsReady (B : BpfMaps) (s : Maps B) (n : ℕ) (l : Limits) : Type 0 where
  pub mark : ℕ
  pub valid : B.lookup s.valid_netns n ≡ some mark
  pub limited : limits B s.constants ≡ some l

module _ (B : BpfMaps) (o : Offsets) (n : ℕ) (l : Limits) where
  pub kprobe_seen :
      (s : Maps B) (c : Call)
      → IsReady B s n l
      → is_seen o n c ≡ true
      → kprobe_tcp_recvmsg B o s c ≡ observe B s l n (state_of o c)
  unfolding kprobe_tcp_recvmsg
  kprobe_seen s c r e = ground arith

  kprobe_unseen :
      (s : Maps B) (c : Call)
      → IsReady B s n l
      → is_seen o n c ≡ false
      → (kprobe_tcp_recvmsg B o s c ≡ s)
        ⊎ ((netns_of o c ≢ n)
            × (kprobe_tcp_recvmsg B o s c ≡ observe B s l (netns_of o c) (state_of o c)))
  unfolding kprobe_tcp_recvmsg
  kprobe_unseen s c r e = ground arith

  pub observe-IsReady :
      (s : Maps B) (k state : ℕ) → IsReady B s n l → IsReady B (observe B s l k state) n l
  observe-IsReady s k state r = record {
    mark = r.mark;
    valid = rw (observe_constants B s l k state).1 r.valid;
    limited = rw (observe_constants B s l k state).0 r.limited;
  }

  Agrees-Tracks : (s t : Maps B) (m : Monitor) → Agrees B s t n → Tracks B s n m → Tracks B t n m
  Agrees-Tracks s t m a h = record {
    at_count = a.same_count ∙ h.at_count;
    at_buffer = a.same_buffer ∙ h.at_buffer;
    at_scaling = a.same_scaling ∙ h.at_scaling;
  }

  -- What holds after the abstract run over `states`.
  pub record Holds (s t : Maps B) (m : Monitor) (states : List ℕ) : Type 0 where
    pub ready : IsReady B t n l
    pub tracked : Tracks B t n (run l m states).0
    pub sent : messages_of n t.events ≡ messages_of n s.events ++ (run l m states).1

  Agrees-Holds :
      (s t : Maps B) (m : Monitor)
      → IsReady B t n l
      → Agrees B s t n
      → Tracks B s n m
      → Holds s t m []
  unfolding run
  Agrees-Holds s t m r a h = record {
    ready = r;
    tracked = Agrees-Tracks s t m a h;
    sent = a.same_messages ∙ sym (append-nil (messages_of n s.events));
  }

  observe-Holds :
      (s : Maps B) (m : Monitor) (state : ℕ)
      → IsReady B s n l
      → Tracks B s n m
      → Holds s (observe B s l n state) m (state ∷ [])
  unfolding run
  observe-Holds s m state r h =
      let next = observe-step B s n state l m h in
      record { ready = observe-IsReady s n state r; tracked = next.0; sent = rw append-nil next.1 }

  pub kprobe-Holds :
      (s : Maps B) (c : Call) (m : Monitor)
      → IsReady B s n l
      → Tracks B s n m
      → Holds s (kprobe_tcp_recvmsg B o s c) m (states_at o n (c ∷ []))
  unfolding states_at
  kprobe-Holds s c m r h = elim (Bool-cases (is_seen o n c)) [
    | inl e ↦ rw (e, kprobe_seen s c r e) (observe-Holds s m (state_of o c) r h)
    | inr e ↦ rw e (elim (kprobe_unseen s c r e) [
      | inl same ↦ rw same (
          Agrees-Holds s s m r
            (record {
              same_count = refl;
              same_buffer = refl;
              same_scaling = refl;
              same_messages = refl;
            })
            h)
      | inr (ne, other) ↦
          rw other (Agrees-Holds s _ m (observe-IsReady s _ _ r) (observe-Agrees B s l _ _ n ne) h)
    ])
  ]

  pub states_at-cons :
      (c : Call) (cs : List Call)
      → states_at o n (c ∷ cs) ≡ states_at o n (c ∷ []) ++ states_at o n cs
  unfolding states_at
  states_at-cons c cs = ground arith

  pub Holds-trans :
      (s t u : Maps B) (m : Monitor) (xs ys : List ℕ)
      → Holds s t m xs
      → Holds t u (run l m xs).0 ys
      → Holds s u m (xs ++ ys)
  Holds-trans s t u m xs ys h k = record {
    ready = k.ready;
    tracked = rw run-append k.tracked;
    sent = rw (run-append, ← append_assoc, ← h.sent) k.sent;
  }

  -- The kprobe, over any firings in any namespaces, implements the monitor of a namespace that is
  -- registered: its entries and its messages are those of the abstract run over its own firings.
  pub probes-Holds :
      (s : Maps B) (cs : List Call) (m : Monitor)
      → IsReady B s n l
      → Tracks B s n m
      → Holds s (probes B o s cs) m (states_at o n cs)
  unfolding probes states_at
  probes-Holds s [] m r h =
      Agrees-Holds s s m r
        (record {
          same_count = refl;
          same_buffer = refl;
          same_scaling = refl;
          same_messages = refl;
        })
        h
  probes-Holds s (c ∷ cs) m r h =
      let first = kprobe-Holds s c m r h in
      let rest = probes-Holds (kprobe_tcp_recvmsg B o s c) cs _ first.ready first.tracked in
      rw states_at-cons (
        Holds-trans s (kprobe_tcp_recvmsg B o s c) _ m (states_at o n (c ∷ [])) (states_at o n cs)
          first rest)
