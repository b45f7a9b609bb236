-- ===== src/Bpf/ConcReq/Debounce.antt =====
-- What the abstract monitor promises: bounds, quiet runs, and when a run sends its one message.
use swarm_autoscaler.Base.{
  ℕ, ◌+◌, ◌^◌, ◌≤◌, ◌<◌, ◌≡◌, refl, ◌≢◌, true, false, none, List, [], ◌∷◌, arith, length,
}
use swarm_autoscaler.Bpf.ConcReq.{Limits}
use swarm_autoscaler.Bpf.ConcReq.Monitor.{
  Monitor, next_count, is_outside, message, pressure, step, run,
}

module _ (l : Limits) where
  -- While the daemon has not answered, nothing more is sent and the buffer rests.
  pub run_silent :
      (m : Monitor) (states : List ℕ)
      → m.scaling ≡ 1
      → ((run l m states).1 ≡ [])
        × ((run l m states).0.buffer ≡ m.buffer)
        × ((run l m states).0.scaling ≡ 1)
  unfolding run step
  run_silent m [] h = (refl, refl, h)
  run_silent m (x ∷ xs) h = ground (arith, run_silent (step l m x).0 xs)

  -- A run sends one message at most.
  pub run_once : (m : Monitor) (states : List ℕ) → length (run l m states).1 ≤ 1
  unfolding run step
  run_once m [] = omega arith
  run_once m (x ∷ xs) = ground (arith, run_once (step l m x).0 xs, run_silent (step l m x).0 xs)

  -- With fewer firings than the buffer lacks, nothing is sent.
  pub run_quiet :
      (m : Monitor) (states : List ℕ)
      → m.scaling ≢ 1
      → l.buffer_length < 2 ^ 32
      → m.buffer + length states < l.buffer_length
      → ((run l m states).1 ≡ []) × ((run l m states).0.scaling ≡ m.scaling)
  unfolding run step pressure
  run_quiet m [] h b q = (refl, refl)
  run_quiet m (x ∷ xs) h b q = ground (arith, run_quiet (step l m x).0 xs)

  -- Every firing of the run, from the count `c` on, sees a number of connections out of the limits.
  abbrev pub AllOutside : ℕ → List ℕ → Type 0
  AllOutside c [] = Unit {0}
  AllOutside c (x ∷ xs) = (is_outside l (next_count x c) ≡ true) × AllOutside (next_count x c) xs

  -- The number of connections after the run.
  unfoldable pub counted : ℕ → List ℕ → ℕ
  counted c [] = c
  counted c (x ∷ xs) = counted (next_count x c) xs

  pub run-counted : (m : Monitor) (xs : List ℕ) → (run l m xs).0.count ≡ counted m.count xs
  unfolding run step counted
  run-counted m [] = refl
  run-counted m (x ∷ xs) = ground (arith, run-counted (step l m x).0 xs)

  -- As many firings out of the limits as the buffer lacks send one message, which says the side of
  -- the last one, and stop the monitor until the daemon answers.
  pub run_fires :
      (m : Monitor) (x : ℕ) (xs : List ℕ)
      → m.scaling ≢ 1
      → l.buffer_length < 2 ^ 32
      → m.buffer + length (x ∷ xs) ≡ l.buffer_length
      → AllOutside m.count (x ∷ xs)
      → ((run l m (x ∷ xs)).1 ≡ message l (counted m.count (x ∷ xs)) ∷ [])
        × ((run l m (x ∷ xs)).0.buffer ≡ 0)
        × ((run l m (x ∷ xs)).0.scaling ≡ 1)
  unfolding run step pressure counted
  run_fires m x [] h b e a = ground arith
  run_fires m x (y ∷ ys) h b e a = ground (arith, run_fires (step l m x).0 y ys)

  -- The buffer stays below its length.
  pub run_below :
      (m : Monitor) (states : List ℕ)
      → m.buffer < l.buffer_length
      → (run l m states).0.buffer < l.buffer_length
  unfolding run step pressure
  run_below m [] h = h
  run_below m (x ∷ xs) h = ground (arith, run_below (step l m x).0 xs)

  -- A firing within the limits clears the buffer.
  pub step_clears :
      (m : Monitor) (x : ℕ)
      → m.scaling ≢ 1
      → 0 < l.buffer_length
      → is_outside l (next_count x m.count) ≡ false
      → ((step l m x).0.buffer ≡ 0) × ((step l m x).1 ≡ none)
  unfolding step pressure
  step_clears m x h p e = ground arith
