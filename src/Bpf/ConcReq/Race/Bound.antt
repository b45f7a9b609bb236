-- ===== src/Bpf/ConcReq/Race/Bound.antt =====
-- How many messages the kprobe can send for a namespace when several CPUs run it at once.
use swarm_autoscaler.Base.{
  ℕ, ◌+◌, ◌≤◌, ◌<◌, ◌≡◌, ◌≢◌, refl, Bool, true, false, arith, if◌then◌else◌, length, length-append,
}
use swarm_autoscaler.Base.Family.{set_at, sum, sum-set_at, sum_small}
use swarm_autoscaler.Bpf.ConcReq.{Limits}
use swarm_autoscaler.Bpf.ConcReq.Race.{
  Shared, Pc, idle, entered, deciding, buffering, copying, writing, comparing, raising, sending,
  turn, System, enter, move, Reach, start, later,
}

-- A CPU that found the flag down and may still send.
abbrev pub pending : Pc → ℕ
pending (deciding value) = 1
pending (buffering value loaded) = 1
pending (copying value) = 1
pending (writing value loaded) = 1
pending (comparing value) = 1
pending (raising value) = 1
pending (sending value) = 1
pending _ = 0

abbrev pub is_sending : Pc → Bool
is_sending (sending value) = true
is_sending _ = false

-- Since a moment at which `sent` messages were out.
record Inv (n sent : ℕ) (s : System) : Type 0 where
  none_yet : s.mem.scaling ≢ 1 → length s.mem.events ≡ sent
  few : length s.mem.events + sum pending n s.pc ≤ sent + n
  raised : (i : ℕ) → is_sending (s.pc i) ≡ true → s.mem.scaling ≡ 1

pending_small : (p : Pc) → pending p ≤ 1
pending_small p = ground arith

module _ (netns : ℕ) (l : Limits) (n sent : ℕ) where
  turn_sends :
      (s : Shared) (p : Pc)
      → length (turn netns l s p).0.events ≡ length s.events + (if is_sending p then 1 else 0)
  unfolding turn
  turn_sends s (sending value) = length-append s.events _
  turn_sends s p = ground arith

  -- The invariant with the state of the CPU that moves in sight.
  moved :
      (s : System) (i : ℕ) (p : Pc)
      → i < n
      → s.pc i ≡ p
      → Inv n sent s
      → Inv n sent
          (record { mem = (turn netns l s.mem p).0; pc = set_at s.pc i (turn netns l s.mem p).1 })
  unfolding turn
  moved s i p lt here inv = record {
    none_yet = moved_quiet p here;
    few = moved_few p here;
    raised = λ j. moved_raised p j here;
  }
    where
      moved_quiet :
          (p : Pc)
          → s.pc i ≡ p
          → (turn netns l s.mem p).0.scaling ≢ 1
          → length (turn netns l s.mem p).0.events ≡ sent
      moved_quiet p here h = ground (arith, inv.none_yet, inv.raised i, turn_sends s.mem p)

      moved_few :
          (p : Pc)
          → s.pc i ≡ p
          → length (turn netns l s.mem p).0.events
              + sum pending n (set_at s.pc i (turn netns l s.mem p).1)
            ≤ sent + n
      moved_few p here = ground (
        arith,
        inv.none_yet,
        inv.few,
        inv.raised i,
        turn_sends s.mem p,
        sum-set_at pending n s.pc i (turn netns l s.mem p).1 lt,
        sum_small pending pending_small n (set_at s.pc i (turn netns l s.mem p).1),
      )

      moved_raised :
          (p : Pc) (j : ℕ)
          → s.pc i ≡ p
          → is_sending (set_at s.pc i (turn netns l s.mem p).1 j) ≡ true
          → (turn netns l s.mem p).0.scaling ≡ 1
      moved_raised p j here h = ground (arith, inv.raised i, inv.raised j)

  entered_keeps :
      (s : System) (i state : ℕ)
      → i < n
      → s.pc i ≡ idle
      → Inv n sent s
      → Inv n sent (record { mem = s.mem; pc = set_at s.pc i (entered state) })
  entered_keeps s i state lt here inv = record {
    none_yet = inv.none_yet;
    few = ground (arith, inv.few, sum-set_at pending n s.pc i (entered state) lt);
    raised = λ j h. ground (arith, inv.raised j);
  }

  reached : (s t : System) → Reach netns l n s t → Inv n sent s → Inv n sent t
  reached s t start inv = inv
  reached s t (later {t = u} r (enter i state lt here)) inv =
      entered_keeps u i state lt here (reached s u r inv)
  reached s t (later {t = u} r (move i lt)) inv = moved u i (u.pc i) lt refl (reached s u r inv)

-- Whatever the interleaving of the accesses of `n` CPUs, from a moment at which the flag is down and no
-- CPU has raised it without having sent, at most `n` messages are sent for the namespace until the
-- daemon takes the flag down again.
pub race_bound :
    (netns : ℕ) (l : Limits) (n : ℕ) (s t : System)
    → s.mem.scaling ≢ 1
    → ((i : ℕ) → is_sending (s.pc i) ≡ false)
    → Reach netns l n s t
    → length t.mem.events ≤ length s.mem.events + n
race_bound netns l n s t down quiet r =
    let inv : Inv n (length s.mem.events) s = record {
      none_yet = λ _. refl;
      few = omega (arith, sum_small pending pending_small n s.pc);
      raised = λ i h. ground (arith, quiet i);
    } in
    let end = reached netns l n (length s.mem.events) s t r inv in omega (arith, end.few)
