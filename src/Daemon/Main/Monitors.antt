-- ===== src/Daemon/Main/Monitors.antt =====
-- The monitors that `main` starts for the running containers.
use Prim.Native.String.{String}
use text.Mathlib.Text.{◌==◌ as str_eq}
use text.Mathlib.TextEquality.{eq_iff}
use swarm_autoscaler.Base.{
  ◌≡◌, refl, List, [], ◌∷◌, arith, ◌||◌, inl, inr, Bool-cases, Option-cases,
}
use swarm_autoscaler.Daemon.Ports.Consistency.{has}
use swarm_autoscaler.Daemon.Containers.{Supervisor, start_monitoring, start_all}
use swarm_autoscaler.Daemon.Containers.Ownership.{is_in}
use swarm_autoscaler.Daemon.Containers.Lifecycle.{
  IsSound, start_monitoring-IsSound, initial-IsSound,
}
use swarm_autoscaler.Daemon.Main.{no_monitors}

pub start_all-IsSound : (s : Supervisor) (ids : List String) → IsSound s → IsSound (start_all s ids)
unfolding start_all
start_all-IsSound s [] i = i
start_all-IsSound s (k ∷ ks) i =
    start_all-IsSound (start_monitoring s k) ks (start_monitoring-IsSound s k i)

pub no_monitors-IsSound : IsSound no_monitors
no_monitors-IsSound =
    initial-IsSound no_monitors
      (record { no_monitors = λ k. refl; none_started = λ c. refl; none_cancelled = λ c. refl })

start_monitoring-has :
    (s : Supervisor) (k j : String)
    → has ((start_monitoring s k).monitored j) ≡ (str_eq k j || has (s.monitored j))
unfolding start_monitoring
start_monitoring-has s k j = elim (Option-cases (s.monitored k)) [
  | inl e ↦ rw (e, start_monitoring) (ground arith)
  | inr (c, e) ↦ elim (Bool-cases (str_eq k j)) [
    | inl f ↦ rw (← (eq_iff k j).0 f, e, start_monitoring) (ground (arith, e, eq_iff k k))
    | inr f ↦ rw (e, start_monitoring) (ground (arith, f))
  ]
]

-- A container is monitored then if it was before or is among those that are started.
pub start_all-has :
    (s : Supervisor) (ids : List String) (j : String)
    → has ((start_all s ids).monitored j) ≡ (is_in j ids || has (s.monitored j))
unfolding start_all
start_all-has s [] j = refl
start_all-has s (k ∷ ks) j =
    ground (arith, start_all-has (start_monitoring s k) ks j, start_monitoring-has s k j)
