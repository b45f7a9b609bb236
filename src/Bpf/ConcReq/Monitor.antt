-- ===== src/Bpf/ConcReq/Monitor.antt =====
-- The abstract monitor of one network namespace: what the kprobe promises of its entries in the maps
-- of conc_req_monitoring.c, with no maps in sight.
use mathlib.Core.List.{append_assoc}
use swarm_autoscaler.Base.{
  ℕ, ◌≡◌, refl, ◌+◌, ◌-◌, Bool, ◌||◌, Option, none, some, List, [], ◌∷◌, ◌++◌, leb, ◌==◌,
  if◌then◌else◌, u32, to_list,
}
use swarm_autoscaler.Bpf.ConcReq.{Limits, tcp_established, lower_message, upper_message}

pub record Monitor : Type 0 where
  pub count : ℕ
  pub buffer : ℕ
  pub scaling : ℕ

-- The number of connections after a firing: up on ESTABLISHED, down on every other state, never
-- below 0.
unfoldable pub next_count : ℕ → ℕ → ℕ
next_count state count = if state == tcp_established then u32 (count + 1) else count - 1

abbrev pub is_outside : Limits → ℕ → Bool
is_outside l value = leb value l.lower || leb l.upper value

abbrev pub message : Limits → ℕ → List ℕ
message l value = if leb value l.lower then lower_message else upper_message

-- The value of the buffer that is compared with its length.
unfoldable pub pressure : Limits → Monitor → ℕ → ℕ
pressure l m value = if is_outside l value then u32 (m.buffer + 1) else 0

-- One firing, with the message that it sends.
unfoldable pub step : Limits → Monitor → ℕ → Monitor × Option (List ℕ)
unfolding next_count pressure
step l m state =
    let value = next_count state m.count in
    if m.scaling == 1
    then (record m { count = value }, none)
    else (if pressure l m value == l.buffer_length
        then (record { count = value; buffer = 0; scaling = 1 }, some (message l value))
        else (record m { count = value; buffer = pressure l m value }, none))

-- A run over the states that successive firings see, with the messages sent, in order.
unfoldable pub run : Limits → Monitor → List ℕ → Monitor × List (List ℕ)
run l m [] = (m, [])
run l m (state ∷ rest) =
    let after = run l (step l m state).0 rest in (after.0, to_list (step l m state).1 ++ after.1)

pub run-append :
    (l : Limits) (m : Monitor) (xs ys : List ℕ)
    → run l m (xs ++ ys)
      ≡ ((run l (run l m xs).0 ys).0, (run l m xs).1 ++ (run l (run l m xs).0 ys).1)
unfolding run
run-append l m [] ys = refl
run-append l m (x ∷ xs) ys = rw (run-append l (step l m x).0 xs ys, append_assoc)
