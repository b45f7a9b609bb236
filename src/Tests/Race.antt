-- ===== src/Tests/Race.antt =====
-- The kprobe on two CPUs: a namespace one firing short of its buffer length.
use swarm_autoscaler.Base.{
  ℕ, ◌+◌, ◌≤◌, ◌≡◌, refl, Bool, true, List, [], ◌∷◌, ◌++◌, arith, length, ltb, ◌&&◌,
}
use swarm_autoscaler.Base.Family.{set_at}
use swarm_autoscaler.Bpf.ConcReq.{Limits, tcp_established, tcp_close, event, breaches}
use swarm_autoscaler.Bpf.ConcReq.Monitor.{next_count}
use swarm_autoscaler.Bpf.ConcReq.Race.{
  Shared, idle, entered, clearing, System, Reach, turn, enter, move, start, later,
}
use swarm_autoscaler.Bpf.ConcReq.Race.Alone.{turns, alone, turns-alone}
use swarm_autoscaler.Bpf.ConcReq.Race.Bound.{race_bound}
use swarm_autoscaler.Bpf.ConcReq.Race.Twice.{at, race_twice}

abbrev limits : Limits
limits = record { lower = 0; upper = 3; buffer_length = 5 }

abbrev nearly_full : Shared
nearly_full = record { count = 6; buffer = 4; scaling = 0; events = [] }

abbrev quiet : System
quiet = at nearly_full idle idle

abbrev one_inside : System
one_inside = record { mem = nearly_full; pc = set_at quiet.pc 0 (entered tcp_established) }

abbrev both_inside : System
both_inside = record { mem = nearly_full; pc = set_at one_inside.pc 1 (entered tcp_established) }

both_inside_reached : Reach 7 limits 2 quiet both_inside
both_inside_reached =
    later (later start (enter 0 tcp_established (omega arith) refl))
      (enter 1 tcp_established (omega arith) refl)

-- The accesses of the CPUs in this order.
abbrev schedule : System → List ℕ → System
schedule s [] = s
schedule s (i ∷ is) =
    schedule
      (record {
        mem = (turn 7 limits s.mem (s.pc i)).0;
        pc = set_at s.pc i (turn 7 limits s.mem (s.pc i)).1;
      })
      is

abbrev all_small : List ℕ → Bool
all_small [] = true
all_small (i ∷ is) = ltb i 2 && all_small is

schedule-Reach :
    (o : System) (is : List ℕ) (s : System)
    → all_small is ≡ true
    → Reach 7 limits 2 o s
    → Reach 7 limits 2 o (schedule s is)
schedule-Reach o [] s h r = r
schedule-Reach o (i ∷ is) s h r =
    schedule-Reach o is
      (record {
        mem = (turn 7 limits s.mem (s.pc i)).0;
        pc = set_at s.pc i (turn 7 limits s.mem (s.pc i)).1;
      })
      (ground (arith, h)) (later r (move i (ground (arith, h))))

-- The second CPU loads the buffer before the first stores it.
abbrev order : List ℕ
order = 0 ∷ 0 ∷ 0 ∷ 1 ∷ 1 ∷ 1 ∷ 0 ∷ 1 ∷ 0 ∷ 1 ∷ 0 ∷ 1 ∷ 0 ∷ 0 ∷ 1 ∷ 1 ∷ 0 ∷ 1 ∷ 0 ∷ 1 ∷ 0 ∷ 1 ∷ []

both_sent : length (schedule both_inside order).mem.events ≡ 2
unfolding turn breaches event
both_sent = refl

race_bound_example : length (schedule both_inside order).mem.events ≤ length nearly_full.events + 2
race_bound_example =
    race_bound 7 limits 2 quiet (schedule both_inside order) (λ e. absurd (omega (arith, e)))
      (λ i. ground arith) (schedule-Reach quiet order both_inside refl both_inside_reached)

race_twice_example :
    (t : Shared) × Reach 7 limits 2 quiet (at t clearing clearing)
    × (t.events ≡ nearly_full.events ++ event limits 7 7 ∷ event limits 7 6 ∷ [])
unfolding breaches next_count
race_twice_example =
    race_twice 7 limits 2 nearly_full tcp_established tcp_close (omega arith) (omega arith)
      (λ e. absurd (omega (arith, e))) refl (omega arith) refl refl

turns-alone_example :
    turns 7 limits 20 (nearly_full, entered tcp_established)
    ≡ (alone 7 limits nearly_full tcp_established, idle)
turns-alone_example =
    turns-alone 7 limits nearly_full tcp_established 20 (omega arith) (omega arith)

-- The other CPUs have changed the entries before each of the thirteen accesses.
abbrev found : List Shared
found =
    let other : Shared = record { count = 9; buffer = 2; scaling = 0; events = [] } in
    other ∷ nearly_full ∷ other ∷ nearly_full ∷ other ∷ nearly_full ∷ other ∷ nearly_full ∷ other
    ∷ nearly_full ∷ other ∷ nearly_full ∷ other ∷ []
