-- ===== src/Daemon/ConcReq/Listening.antt =====
-- `listenForEvents` in autoscaler/conc_req_monitoring/conc_req_monitoring.go: the samples of the kprobe, one
-- after another.
use swarm_autoscaler.Base.{
  ℕ, zero, suc, ◌≤◌, ◌-◌, true, length, Bool-cases, ◌≡◌, ◌∙◌, refl, ap, ◌<◌, ◌^◌, ◌⊎◌, Bool, false,
  Option, none, some, List, [], ◌∷◌, map, arith, ◌==◌, if◌then◌else◌, inl, inr, Option-cases,
}
use swarm_autoscaler.Base.Family.{set_at}
use swarm_autoscaler.Bpf.ConcReq.{Data, lower_message, upper_message}
use swarm_autoscaler.Bpf.ConcReq.Frame.{messages_of}
use swarm_autoscaler.Daemon.ConcReq.{NamespaceContext, read_data, dispatch}
use swarm_autoscaler.Daemon.ConcReq.Decoding.{sample_of, little_endian}

-- What `PerfReader.Read` gives, or that the listener is closing.
pub data Reading : Type 0 where
  closing : Reading
  failed : Reading
  sample : (lost_samples : ℕ) (bytes : List ℕ) → Reading

-- The sends into channels that go through, in order; `cancelled` says of a context that it is done, and
-- `takes` of a channel how many messages are still received from it. The channels have no buffer: at a send
-- that nobody receives the loop stands for ever, whatever is still to come.
unfoldable pub listen_for_events :
    (ℕ → Option NamespaceContext) → (ℕ → Bool) → (ℕ → ℕ) → List Reading → List (ℕ × List ℕ)
listen_for_events contexts cancelled takes [] = []
listen_for_events contexts cancelled takes (closing ∷ rs) = []
listen_for_events contexts cancelled takes (failed ∷ rs) =
    listen_for_events contexts cancelled takes rs
listen_for_events contexts cancelled takes (sample lost_samples bytes ∷ rs) =
    elim (dispatch contexts cancelled lost_samples bytes) [
      | none ↦ listen_for_events contexts cancelled takes rs
      | some (signal, message) ↦ elim (takes signal) [
        | zero ↦ []
        | suc k ↦
            (signal, message) ∷ listen_for_events contexts cancelled (set_at takes signal k) rs
      ]
    ]

-- What comes out of one channel.
unfoldable pub received : ℕ → List (ℕ × List ℕ) → List (List ℕ)
received channel [] = []
received channel ((signal, message) ∷ sends) =
    let rest = received channel sends in if signal == channel then message ∷ rest else rest

-- What the reader meets of what the kprobe sends: a record, a number of lost records, or an error.
pub data Delivery : Type 0 where
  arrives : Data → Delivery
  drops : (more : ℕ) → Delivery
  errs : Delivery

abbrev pub reading_of : Delivery → Reading
reading_of (arrives d) = sample 0 (sample_of d)
reading_of (drops more) = sample (suc more) []
reading_of errs = failed

abbrev pub arrived : List Delivery → List Data
arrived [] = []
arrived (arrives d ∷ xs) = d ∷ arrived xs
arrived (drops more ∷ xs) = arrived xs
arrived (errs ∷ xs) = arrived xs

-- A record as the kprobe sends them.
abbrev pub IsSent : Data → Type 0
IsSent d = (d.netns < 2 ^ 32) × ((d.message ≡ lower_message) ⊎ (d.message ≡ upper_message))

abbrev pub AllSent : List Data → Type 0
AllSent [] = Unit {0}
AllSent (d ∷ ds) = IsSent d × AllSent ds

read_data-sample_of : (d : Data) → IsSent d → read_data (sample_of d) ≡ some d
unfolding read_data
read_data-sample_of d h = elim h.1 [
  | inl e ↦ rw (e, little_endian d.netns h.0) refl
  | inr e ↦ rw (e, little_endian d.netns h.0) refl
]

module _ (contexts : ℕ → Option NamespaceContext) (cancelled : ℕ → Bool) where
  -- The monitors whose contexts are not cancelled receive at least `k` more messages each.
  abbrev pub Takes : (ℕ → ℕ) → ℕ → Type 0
  Takes takes k =
      (j : ℕ) (c : NamespaceContext)
      → contexts j ≡ some c
      → cancelled c.ctx ≡ false
      → k ≤ takes c.signal

  -- A sample from which nothing is sent.
  unsent :
      (takes : ℕ → ℕ) (lost_samples : ℕ) (bytes : List ℕ) (rs : List Reading)
      → dispatch contexts cancelled lost_samples bytes ≡ none
      → listen_for_events contexts cancelled takes (sample lost_samples bytes ∷ rs)
        ≡ listen_for_events contexts cancelled takes rs
  unfolding listen_for_events
  unsent takes lost_samples bytes rs e = rw (e, listen_for_events) refl

  sent :
      (takes : ℕ → ℕ) (d : Data) (rs : List Reading) (signal k : ℕ)
      → dispatch contexts cancelled 0 (sample_of d) ≡ some (signal, d.message)
      → takes signal ≡ suc k
      → listen_for_events contexts cancelled takes (sample 0 (sample_of d) ∷ rs)
        ≡ (signal, d.message) ∷ listen_for_events contexts cancelled (set_at takes signal k) rs
  unfolding listen_for_events
  sent takes d rs signal k e f = rw (e, f, listen_for_events) refl

  dispatched :
      (d : Data) (c : NamespaceContext)
      → IsSent d
      → contexts d.netns ≡ some c
      → cancelled c.ctx ≡ false
      → dispatch contexts cancelled 0 (sample_of d) ≡ some (c.signal, d.message)
  unfolding dispatch
  dispatched d c h e f = rw (read_data-sample_of d h, e, f) refl

  lost_undispatched : (more : ℕ) → dispatch contexts cancelled (suc more) [] ≡ none
  unfolding dispatch
  lost_undispatched more = ground arith

  undispatched :
      (d : Data)
      → IsSent d
      → contexts d.netns ≡ none
      → dispatch contexts cancelled 0 (sample_of d) ≡ none
  unfolding dispatch
  undispatched d h e = rw (read_data-sample_of d h, e) refl

  undispatched_cancelled :
      (d : Data) (c : NamespaceContext)
      → IsSent d
      → contexts d.netns ≡ some c
      → cancelled c.ctx ≡ true
      → dispatch contexts cancelled 0 (sample_of d) ≡ none
  unfolding dispatch
  undispatched_cancelled d c h e f = rw (read_data-sample_of d h, e, f) refl

module _ (contexts : ℕ → Option NamespaceContext) (cancelled : ℕ → Bool) (n : ℕ)
    (c : NamespaceContext) where
  -- The one namespace with this channel.
  abbrev pub IsOnly : Type 0
  IsOnly = (j : ℕ) (k : NamespaceContext) → contexts j ≡ some k → k.signal ≡ c.signal → j ≡ n

  -- What the monitor receives of a record and of those after it.
  delivered :
      (takes : ℕ → ℕ) (d : Data) (more : ℕ) (rs : List Reading) (ms : List (List ℕ))
      → contexts n ≡ some c
      → cancelled c.ctx ≡ false
      → IsOnly
      → IsSent d
      → Takes contexts cancelled takes (suc more)
      → ((t : ℕ → ℕ)
          → Takes contexts cancelled t more
          → received c.signal (listen_for_events contexts cancelled t rs) ≡ ms)
      → received c.signal (listen_for_events contexts cancelled takes (sample 0 (sample_of d) ∷ rs))
        ≡ (if d.netns == n then d.message ∷ ms else ms)
  unfolding received
  delivered takes d more rs ms e f only h enough rest = elim (Option-cases (contexts d.netns)) [
    | inl g ↦
        rw
          (
            unsent contexts cancelled takes 0 (sample_of d) rs
                (undispatched contexts cancelled d h g),
            rest takes (λ j k a b. omega (arith, enough j k a b)),
          )
          (ground (arith, e, g))
    | inr (k, g) ↦ elim (Bool-cases (cancelled k.ctx)) [
      | inl a ↦
          rw
            (
              unsent contexts cancelled takes 0 (sample_of d) rs
                  (undispatched_cancelled contexts cancelled d k h g a),
              rest takes (λ j k' a' b. omega (arith, enough j k' a' b)),
            )
            (ground (arith, e, f, g, a))
      | inr a ↦
          let room : takes k.signal ≡ suc (takes k.signal - 1) =
            omega (arith, enough d.netns k g a) in
          let left = set_at takes k.signal (takes k.signal - 1) in
          rw
            (
              sent contexts cancelled takes d rs k.signal (takes k.signal - 1)
                  (dispatched contexts cancelled d k h g a) room,
              rest left (λ j k' a' b. ground (arith, enough j k' a' b)),
            )
            (ground (arith, e, f, g, a, only d.netns k g))
    ]
  ]

  -- The monitor of a namespace that has its channel for itself receives what is sent for the namespace and
  -- is not lost before it is read, all of it and in order, while its context is not cancelled and each
  -- monitor whose context is not cancelled receives as many messages as records arrive; lost records,
  -- errors of the reader, and what is sent for others do not disturb it then.
  pub listen_for_events-messages_of :
      (takes : ℕ → ℕ) (xs : List Delivery)
      → contexts n ≡ some c
      → cancelled c.ctx ≡ false
      → IsOnly
      → AllSent (arrived xs)
      → Takes contexts cancelled takes (length (arrived xs))
      → received c.signal (listen_for_events contexts cancelled takes (map reading_of xs))
        ≡ messages_of n (arrived xs)
  unfolding listen_for_events received messages_of dispatch
  listen_for_events-messages_of takes [] e f only h enough = refl
  listen_for_events-messages_of takes (drops more ∷ xs) e f only h enough =
      ap (received c.signal) (
        unsent contexts cancelled takes (suc more) [] (map reading_of xs)
          (lost_undispatched contexts cancelled more))
      ∙ listen_for_events-messages_of takes xs e f only h enough
  listen_for_events-messages_of takes (errs ∷ xs) e f only h enough =
      listen_for_events-messages_of takes xs e f only h enough
  listen_for_events-messages_of takes (arrives d ∷ xs) e f only h enough =
      delivered takes d (length (arrived xs)) (map reading_of xs) (messages_of n (arrived xs)) e f
        only h.0 enough (λ t room. listen_for_events-messages_of t xs e f only h.1 room)
