-- ===== src/Bpf/ConcReq/Race/Alone.antt =====
-- One CPU by itself: its accesses one after another are a firing of the kprobe as a whole, and there are
-- at most thirteen of them whatever the other CPUs do.
use mathlib.Core.List.{append-nil}
use mathlib.Core.Path.{subst}
use swarm_autoscaler.Base.{
  ℕ, zero, suc, ◌+◌, ◌-◌, ◌≤◌, ◌<◌, ◌^◌, ◌≡◌, ◌∙◌, refl, sym, Option, none, some, List, [], ◌∷◌,
  ◌++◌, arith, ◌==◌, ltb, u32, length, inl, inr, Bool-cases,
}
use swarm_autoscaler.Bpf.ConcReq.{Data, Limits, tcp_established, event, breaches}
use swarm_autoscaler.Bpf.ConcReq.Monitor.{Monitor, next_count, pressure, step, is_outside}
use swarm_autoscaler.Bpf.ConcReq.Race.{
  Shared, Pc, idle, entered, incrementing, decrementing, guarded, rereading, checking, deciding,
  buffering, copying, writing, comparing, raising, sending, clearing, turn,
}

-- The accesses that are left before a CPU is idle.
abbrev pub rank : Pc → ℕ
rank idle = 0
rank (entered state) = 13
rank guarded = 12
rank (incrementing loaded) = 11
rank (decrementing loaded) = 11
rank rereading = 10
rank (checking value) = 9
rank (deciding value) = 8
rank (buffering value loaded) = 7
rank (copying value) = 6
rank (writing value loaded) = 5
rank (comparing value) = 4
rank (raising value) = 3
rank (sending value) = 2
rank clearing = 1

-- Each access brings a CPU nearer to the end of its firing, whatever it reads.
turn-rank :
    (netns : ℕ) (l : Limits) (s : Shared) (p : Pc)
    → (rank (turn netns l s p).1 ≤ rank p - 1) × (rank p ≤ 13)
unfolding turn
turn-rank netns l s p = ground arith

module _ (netns : ℕ) (l : Limits) where
  -- Accesses of one CPU, each of which finds the entries as the others have left them by then.
  unfoldable pub turns_amid : List Shared → Pc → Pc
  turns_amid [] p = p
  turns_amid (s ∷ ss) p = turns_amid ss (turn netns l s p).1

  turns_amid-rank :
      (found : List Shared) (p : Pc) → rank p ≤ length found → turns_amid found p ≡ idle
  unfolding turns_amid
  turns_amid-rank [] p h = ground arith
  turns_amid-rank (s ∷ ss) p h =
      turns_amid-rank ss (turn netns l s p).1 (omega (arith, (turn-rank netns l s p).0))

  -- No CPU waits for another: whatever the others do to the entries in between, a firing is over after
  -- its thirteenth access at the latest.
  turns_end : (found : List Shared) (p : Pc) → 13 ≤ length found → turns_amid found p ≡ idle
  turns_end found p h = turns_amid-rank found p (
      omega (
        arith,
        (turn-rank netns l (record { count = 0; buffer = 0; scaling = 0; events = [] }) p).1,
      ))

  unfoldable pub turns : ℕ → Shared × Pc → Shared × Pc
  turns zero x = x
  turns (suc k) x = turns k (turn netns l x.0 x.1)

  -- Accesses that lead from one state to another.
  pub data Runs : Shared × Pc → Shared × Pc → Type 0 where
    done : {x : Shared × Pc} → Runs x x
    next : {z : Shared × Pc} (s : Shared) (p : Pc) → Runs (turn netns l s p) z → Runs (s, p) z

  idle_stays : (k : ℕ) (s : Shared) → turns k (s, idle) ≡ (s, idle)
  unfolding turns turn
  idle_stays zero s = refl
  idle_stays (suc k) s = idle_stays k s

  Runs-trans : {x y z : Shared × Pc} → Runs x y → Runs y z → Runs x z
  Runs-trans done q = q
  Runs-trans (next s p r) q = next s p (Runs-trans r q)

  at_rest : (s : Shared) (p : Pc) → rank p ≤ 0 → turn netns l s p ≡ (s, p)
  unfolding turn
  at_rest s p h = ground arith

  -- Enough turns reach the state that the accesses lead to, if the CPU is idle there.
  Runs-turns : {x z : Shared × Pc} → Runs x z → z.1 ≡ idle → (j : ℕ) → rank x.1 ≤ j → turns j x ≡ z
  unfolding turns
  Runs-turns (done {x = (s, p)}) e j h = rw e (idle_stays j s)
  Runs-turns (next s p r) e zero h =
      sym (at_rest s p h) ∙ Runs-turns r e zero (omega (arith, (turn-rank netns l s p).0, h))
  Runs-turns (next s p r) e (suc j) h =
      Runs-turns r e j (omega (arith, (turn-rank netns l s p).0, h))

  pub one : (s : Shared) (p : Pc) (z : Shared × Pc) → turn netns l s p ≡ z → Runs (s, p) z
  one s p z e = next s p (subst (λ y. Runs y z) (sym e) done)

  -- Up to the test of the flag.
  pub counting :
      (s : Shared) (state : ℕ)
      → s.count < 2 ^ 32
      → Runs
          (s, entered state)
          (record s { count = next_count state s.count }, checking (next_count state s.count))
  unfolding turn next_count
  counting s state h = elim (Bool-cases (state == tcp_established)) [
    | inl e ↦ rw e (
        Runs-trans (one s (entered state) (s, incrementing s.count) (rw e refl)) (
          next s (incrementing s.count)
            (next (record s { count = u32 (s.count + 1) }) rereading done)))
    | inr e ↦ elim (Bool-cases (ltb 0 s.count)) [
      | inl f ↦ rw e (
          Runs-trans (one s (entered state) (s, guarded) (rw (e, f) refl)) (
            next s guarded (
              Runs-trans
                (one s (decrementing s.count) (record s { count = s.count - 1 }, rereading)
                  (ground arith))
                (next (record s { count = s.count - 1 }) rereading done))))
      | inr f ↦ rw e (
          one s (entered state) (record s { count = s.count - 1 }, checking (s.count - 1))
            (ground arith))
    ]
  ]

  -- `bpf_map_update_elem` of the buffer by its own value.
  pub copied : (t : Shared) (value : ℕ) → Runs (t, copying value) (t, comparing value)
  unfolding turn
  copied t value = next t (copying value) (next t (writing value t.buffer) done)

  -- From the test of the limits to that of the buffer.
  tracking :
      (s : Shared) (m : Monitor) (value : ℕ)
      → m.buffer ≡ s.buffer
      → Runs (s, deciding value) (record s { buffer = pressure l m value }, comparing value)
  unfolding turn pressure breaches
  tracking s m value h = elim (Bool-cases (is_outside l value)) [
    | inl e ↦ rw e (
        Runs-trans (one s (deciding value) (s, buffering value s.buffer) (rw e refl)) (
          Runs-trans
            (one s (buffering value s.buffer)
              (record s { buffer = u32 (m.buffer + 1) }, copying value) (rw h refl))
            (copied (record s { buffer = u32 (m.buffer + 1) }) value)))
    | inr e ↦ rw e (
        Runs-trans (one s (deciding value) (record s { buffer = 0 }, copying value) (rw e refl))
          (copied (record s { buffer = 0 }) value))
  ]

  abbrev pub sent_as : Option (List ℕ) → List Data
  sent_as none = []
  sent_as (some text) = record { netns = netns; message = text } ∷ []

  abbrev pub monitor_of : Shared → Monitor
  monitor_of s = record { count = s.count; buffer = s.buffer; scaling = s.scaling }

  -- What a firing as a whole does, by the abstract monitor.
  unfoldable pub alone : Shared → ℕ → Shared
  alone s state =
      let (m, text) = step l (monitor_of s) state in
      record {
        count = m.count;
        buffer = m.buffer;
        scaling = m.scaling;
        events = s.events ++ sent_as text;
      }

  -- From the test of the flag to the end.
  debouncing :
      (s : Shared) (state : ℕ)
      → Runs
          (record s { count = next_count state s.count }, checking (next_count state s.count))
          (alone s state, idle)
  unfolding turn alone step event
  debouncing s state =
      let value = next_count state s.count in
      let t : Shared = record s { count = value } in
      let u : Shared = record t { buffer = pressure l (monitor_of s) value } in
      elim (Bool-cases (s.scaling == 1)) [
        | inl e ↦ one t (checking value) (alone s state, idle) (rw (e, append-nil) refl)
        | inr e ↦ elim (Bool-cases (pressure l (monitor_of s) value == l.buffer_length)) [
          | inl f ↦
              let v : Shared = record u { scaling = 1 } in
              let w : Shared = record v { events = v.events ++ event l netns value ∷ [] } in
              Runs-trans (one t (checking value) (t, deciding value) (rw e refl)) (
                Runs-trans (tracking t (monitor_of s) value refl) (
                  Runs-trans (one u (comparing value) (u, raising value) (rw f refl)) (
                    next u (raising value) (
                      next v (sending value)
                        (one w clearing (alone s state, idle) (rw (e, f) refl))))))
          | inr f ↦ Runs-trans (one t (checking value) (t, deciding value) (rw e refl)) (
              Runs-trans (tracking t (monitor_of s) value refl)
                (one u (comparing value) (alone s state, idle) (rw (e, f, append-nil) refl)))
        ]
      ]

  -- On one CPU alone the accesses amount to a firing as a whole: after any thirteen turns or more the
  -- entries and messages are those of the abstract monitor, and the CPU is idle.
  pub turns-alone :
      (s : Shared) (state j : ℕ)
      → s.count < 2 ^ 32
      → 13 ≤ j
      → turns j (s, entered state) ≡ (alone s state, idle)
  turns-alone s state j h enough =
      Runs-turns (Runs-trans (counting s state h) (debouncing s state)) refl j enough
