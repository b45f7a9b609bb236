-- ===== src/Tests/Cgroup.antt =====
-- cgroup_monitoring.go on small usage files.
use swarm_autoscaler.Base.{ℕ, ◌≡◌, refl, pos, negsuc, none, some, List, [], ◌∷◌, ◌++◌, arith}
use swarm_autoscaler.Daemon.Monitor.{scales}
use swarm_autoscaler.Daemon.Cgroup.{
  usage_key, read_cpu_usage, read_memory_usage, memory_tick, cpu_tick, parse_int,
}
use swarm_autoscaler.Daemon.Cgroup.Numbers.{value_of}
use swarm_autoscaler.Daemon.Cgroup.Usage.{read_cpu_usage-value_of}
use swarm_autoscaler.Daemon.Cgroup.Loop.{Tick, cpu_monitor, readable, cpu_monitor-readable}
use swarm_autoscaler.Tests.Config.{whole}
use swarm_autoscaler.Tests.Ports.{manager_alone}

-- A sign, a word, and a number that int64 does not hold.
negative_read : parse_int (b'-' ∷ b'4' ∷ b'2' ∷ []) ≡ some (negsuc 41)
unfolding parse_int
negative_read = refl

word_refused : parse_int (b'm' ∷ b'a' ∷ b'x' ∷ []) ≡ none
unfolding parse_int
word_refused = refl

large_refused :
    parse_int (
      b'9' ∷ b'2' ∷ b'2' ∷ b'3' ∷ b'3' ∷ b'7' ∷ b'2' ∷ b'0' ∷ b'3' ∷ b'6' ∷ b'8' ∷ b'5' ∷ b'4'
      ∷ b'7' ∷ b'7' ∷ b'5' ∷ b'8' ∷ b'0' ∷ b'8' ∷ [])
    ≡ none
unfolding parse_int
large_refused = refl

-- "usage_usec 250", a line end, and "user_usec"
abbrev cpu_stat : List ℕ
cpu_stat = usage_key ++ (b' ' ∷ b'2' ∷ b'5' ∷ b'0' ∷ []) ++ 10 ∷ b'u' ∷ b's' ∷ b'e' ∷ b'r' ∷ []

read_cpu_usage-value_of_example :
    read_cpu_usage (some cpu_stat) ≡ some (pos (value_of (b'2' ∷ b'5' ∷ b'0' ∷ [])))
unfolding value_of
read_cpu_usage-value_of_example =
    read_cpu_usage-value_of b'2' (b'5' ∷ b'0' ∷ []) (b'u' ∷ b's' ∷ b'e' ∷ b'r' ∷ [])
      (refl, (refl, (refl, tt))) (omega arith)

-- 3145728 bytes are 3 MB
abbrev memory_current : List ℕ
memory_current = b'3' ∷ b'1' ∷ b'4' ∷ b'5' ∷ b'7' ∷ b'2' ∷ b'8' ∷ 10 ∷ []

memory_scales :
    memory_tick whole (pos 0) (pos 2) manager_alone (some "web") (some memory_current)
    ≡ some (scales "over")
unfolding memory_tick
memory_scales = refl

-- A file that cannot be read leaves the usage of the last tick.
unread_kept :
    cpu_tick whole (pos 10) (pos 1) (pos 90) manager_alone (some "web") (pos 7) none ≡ (pos 7, none)
unfolding cpu_tick
unread_kept = refl

abbrev unread_tick : Tick
unread_tick = record { service_id = some "web"; content = none }

abbrev cpu_tick_now : Tick
cpu_tick_now = record { service_id = some "web"; content = some cpu_stat }

cpu_monitor-readable_example :
    cpu_monitor whole
      (pos 10)
      (pos 1)
      (pos 90)
      manager_alone
      (some cpu_stat)
      (unread_tick ∷ cpu_tick_now ∷ [])
    ≡ cpu_monitor whole
        (pos 10)
        (pos 1)
        (pos 90)
        manager_alone
        (some cpu_stat)
        (readable (unread_tick ∷ cpu_tick_now ∷ []))
cpu_monitor-readable_example =
    cpu_monitor-readable whole (pos 10) (pos 1) (pos 90) manager_alone (some cpu_stat)
      (unread_tick ∷ cpu_tick_now ∷ [])

-- No time passes in use, so that the monitor asks for less.
cpu_unused :
    cpu_monitor whole
      (pos 10)
      (pos 1)
      (pos 90)
      manager_alone
      (some cpu_stat)
      (unread_tick ∷ cpu_tick_now ∷ [])
    ≡ scales "under" ∷ []
unfolding cpu_monitor read_cpu_usage cpu_tick
cpu_unused = refl

abbrev memory_tick_now : Tick
memory_tick_now = record { service_id = some "web"; content = some memory_current }

memory_read : read_memory_usage (some memory_current) ≡ some (pos 3)
unfolding read_memory_usage
memory_read = refl
