-- ===== src/Bpf/ConcReq/Race/Twice.antt =====
-- Two CPUs that reach the end of the buffer together both send.
use mathlib.Core.List.{append_assoc}
use mathlib.Core.Path.{subst, fun_ext}
use swarm_autoscaler.Base.{
  ℕ, ◌+◌, ◌≤◌, ◌<◌, ◌^◌, ◌≡◌, ◌≢◌, refl, true, [], ◌∷◌, ◌++◌, arith, ◌==◌, if◌then◌else◌, u32,
}
use swarm_autoscaler.Base.Family.{set_at}
use swarm_autoscaler.Bpf.ConcReq.{Limits, event, breaches}
use swarm_autoscaler.Bpf.ConcReq.Monitor.{next_count}
use swarm_autoscaler.Bpf.ConcReq.Race.{
  Shared, Pc, idle, entered, checking, deciding, buffering, copying, comparing, raising, sending,
  clearing, turn, System, enter, move, Reach, start, later,
}
use swarm_autoscaler.Bpf.ConcReq.Race.Alone.{Runs, done, next, one, counting, copied}

-- The first CPU at `p`, the second at `q`, the others idle.
abbrev pub pair : Pc → Pc → ℕ → Pc
pair p q i = if i == 0 then p else (if i == 1 then q else idle)

abbrev pub at : Shared → Pc → Pc → System
at s p q = record { mem = s; pc = pair p q }

set_first : (p q r : Pc) → set_at (pair p q) 0 r ≡ pair r q
set_first p q r = fun_ext λ i. ground arith

set_second : (p q r : Pc) → set_at (pair p q) 1 r ≡ pair p r
set_second p q r = fun_ext λ i. ground arith

module _ (netns : ℕ) (l : Limits) (n : ℕ) (many : 2 ≤ n) (o : System) where
  first :
      {x z : Shared × Pc} (q : Pc)
      → Reach netns l n o (at x.0 x.1 q)
      → Runs netns l x z
      → Reach netns l n o (at z.0 z.1 q)
  first q r done = r
  first q r (next s p runs) =
      first q
        (subst (λ f. Reach netns l n o (record { mem = (turn netns l s p).0; pc = f }))
          (set_first p q (turn netns l s p).1) (later r (move 0 (omega arith))))
        runs

  second :
      {x z : Shared × Pc} (p : Pc)
      → Reach netns l n o (at x.0 p x.1)
      → Runs netns l x z
      → Reach netns l n o (at z.0 p z.1)
  second p r done = r
  second p r (next s q runs) =
      second p
        (subst (λ f. Reach netns l n o (record { mem = (turn netns l s q).0; pc = f }))
          (set_second p q (turn netns l s q).1) (later r (move 1 (omega arith))))
        runs

  entering :
      (s : Shared) (x y : ℕ)
      → Reach netns l n o (at s idle idle)
      → Reach netns l n o (at s (entered x) (entered y))
  entering s x y r =
      subst (λ f. Reach netns l n o (record { mem = s; pc = f }))
        (set_second (entered x) idle (entered y))
        (later
          (subst (λ f. Reach netns l n o (record { mem = s; pc = f }))
            (set_first idle idle (entered x)) (later r (enter 0 x (omega arith) refl)))
          (enter 1 y (omega arith) refl))

-- A count stays a 32-bit number.
next_count_fits : (state count : ℕ) → count < 2 ^ 32 → next_count state count < 2 ^ 32
unfolding next_count
next_count_fits state count h = ground arith

-- Where one more firing out of the limits fills the buffer and the flag is down, two CPUs that fire
-- together, both out of the limits, can both send: between the load and the store of the buffer of each
-- the other loads it too.
pub race_twice :
    (netns : ℕ) (l : Limits) (n : ℕ) (s : Shared) (x y : ℕ)
    → 2 ≤ n
    → s.count < 2 ^ 32
    → s.scaling ≢ 1
    → s.buffer + 1 ≡ l.buffer_length
    → l.buffer_length < 2 ^ 32
    → breaches l (next_count x s.count) ≡ true
    → breaches l (next_count y (next_count x s.count)) ≡ true
    → (t : Shared) × Reach netns l n (at s idle idle) (at t clearing clearing)
      × (t.events
          ≡ s.events
            ++ event l netns (next_count x s.count)
              ∷ event l netns (next_count y (next_count x s.count))
              ∷ [])
unfolding turn
race_twice netns l n s x y many small down full fits out_x out_y =
    let v = next_count x s.count in
    let w = next_count y v in
    let s1 : Shared = record s { count = v } in
    let s2 : Shared = record s { count = w } in
    let s3 : Shared = record s2 { buffer = u32 (s.buffer + 1) } in
    let s4 : Shared = record s3 { scaling = 1 } in
    let s5 : Shared = record s4 { events = s.events ++ event l netns v ∷ [] } in
    let s6 : Shared = record s5 {
      events = (s.events ++ event l netns v ∷ []) ++ event l netns w ∷ [];
    } in
    let o = at s idle idle in
    let r0 = entering netns l n many o s x y start in
    let r1 = first netns l n many o (entered y) r0 (counting netns l s x small) in
    let r2 =
      second netns l n many o (checking v) r1
        (counting netns l s1 y (next_count_fits x s.count small)) in
    let r3 =
      first netns l n many o (checking w) r2
        (one netns l s2 (checking v) (s2, deciding v) (ground arith)) in
    let r4 =
      second netns l n many o (deciding v) r3
        (one netns l s2 (checking w) (s2, deciding w) (ground arith)) in
    let r5 =
      first netns l n many o (deciding w) r4
        (one netns l s2 (deciding v) (s2, buffering v s.buffer) (rw out_x refl)) in
    let r6 =
      second netns l n many o (buffering v s.buffer) r5
        (one netns l s2 (deciding w) (s2, buffering w s.buffer) (rw out_y refl)) in
    let r7 =
      first netns l n many o (buffering w s.buffer) r6 (next s2 (buffering v s.buffer) done) in
    let r8 = second netns l n many o (copying v) r7 (next s3 (buffering w s.buffer) done) in
    let r9 = first netns l n many o (copying w) r8 (copied netns l s3 v) in
    let r10 =
      first netns l n many o (copying w) r9
        (one netns l s3 (comparing v) (s3, raising v) (ground arith)) in
    let r11 = second netns l n many o (raising v) r10 (copied netns l s3 w) in
    let r12 =
      second netns l n many o (raising v) r11
        (one netns l s3 (comparing w) (s3, raising w) (ground arith)) in
    let r13 =
      first netns l n many o (raising w) r12 (next s3 (raising v) (next s4 (sending v) done)) in
    let r14 =
      second netns l n many o clearing r13 (next s5 (raising w) (next s5 (sending w) done)) in
    (s6, r14, append_assoc s.events (event l netns v ∷ []) (event l netns w ∷ []))
