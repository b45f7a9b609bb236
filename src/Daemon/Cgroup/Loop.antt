-- ===== src/Daemon/Cgroup/Loop.antt =====
-- The loops of the two monitors in autoscaler/cgroup_monitoring/cgroup_monitoring.go.
use Prim.Native.String.{String}
use swarm_autoscaler.Base.{
  ℕ, ◌≡◌, ◌∙◌, refl, ap, ℤ, ltb_ℤ, false, Option, none, some, List, [], ◌∷◌, if◌then◌else◌, inl,
  inr, Option-cases,
}
use swarm_autoscaler.Daemon.Float.{Float, Laws, IsExact}
use swarm_autoscaler.Daemon.Server.{SwarmNodeInfo}
use swarm_autoscaler.Daemon.Monitor.{Turn, goes_on}
use swarm_autoscaler.Daemon.Cgroup.{
  read_memory_usage, read_cpu_usage, act_on, memory_tick, cpu_tick,
}
use swarm_autoscaler.Daemon.Cgroup.Usage.{direction_of_integers, memory_tick-some}

-- What a tick finds: the result of `FindServiceIDFromContainer`, and the usage file.
pub record Tick : Type 0 where
  pub service_id : Option String
  pub content : Option (List ℕ)

-- What the monitor does at a tick and then, if it does not return.
unfoldable pub proceed : Option Turn → List Turn → List Turn
proceed none rest = rest
proceed (some turn) rest = if goes_on turn then turn ∷ rest else turn ∷ []

-- The ticks that find a usage in the file.
unfoldable pub readable : List Tick → List Tick
readable [] = []
readable (t ∷ ts) =
    let rest = readable ts in elim (read_cpu_usage t.content) [ none ↦ rest | some _ ↦ t ∷ rest ]

readable-none :
    (t : Tick) (ts : List Tick) → read_cpu_usage t.content ≡ none → readable (t ∷ ts) ≡ readable ts
unfolding readable
readable-none t ts e = rw (e, readable) refl

readable-some :
    (t : Tick) (ts : List Tick) (usage : ℤ)
    → read_cpu_usage t.content ≡ some usage
    → readable (t ∷ ts) ≡ t ∷ readable ts
unfolding readable
readable-some t ts usage e = rw (e, readable) refl

-- A usage that is within the limits.
abbrev pub IsWithin : ℤ → ℤ → Tick → Type 0
IsWithin lower upper t =
    (usage : ℤ)
    → read_memory_usage t.content ≡ some usage
    → IsExact usage × (ltb_ℤ upper usage ≡ false) × (ltb_ℤ usage lower ≡ false)

abbrev pub AllWithin : ℤ → ℤ → List Tick → Type 0
AllWithin lower upper [] = Unit {0}
AllWithin lower upper (t ∷ ts) = IsWithin lower upper t × AllWithin lower upper ts

module _ {F : Type 0} (fl : Float F) where
  -- The ticks before the context is cancelled; the result is what the monitor does, in order.
  unfoldable pub memory_monitor : ℤ → ℤ → SwarmNodeInfo → List Tick → List Turn
  unfolding proceed
  memory_monitor lower upper info [] = []
  memory_monitor lower upper info (t ∷ ts) =
      let rest = memory_monitor lower upper info ts in
      proceed (memory_tick fl lower upper info t.service_id t.content) rest

  unfoldable pub cpu_loop : F → F → F → SwarmNodeInfo → ℤ → List Tick → List Turn
  unfolding proceed
  cpu_loop seconds lower upper info last [] = []
  cpu_loop seconds lower upper info last (t ∷ ts) =
      let (next, turn) = cpu_tick fl seconds lower upper info t.service_id last t.content in
      let rest = cpu_loop seconds lower upper info next ts in proceed turn rest

  -- `content` is the file at the start.
  unfoldable pub cpu_monitor : F → F → F → SwarmNodeInfo → Option (List ℕ) → List Tick → List Turn
  unfolding cpu_loop
  cpu_monitor seconds lower upper info content ticks = elim (read_cpu_usage content) [
    | none ↦ []
    | some last ↦ cpu_loop seconds lower upper info last ticks
  ]

  unread :
      (seconds lower upper : F) (info : SwarmNodeInfo) (last : ℤ) (id : Option String)
      (content : Option (List ℕ))
      → read_cpu_usage content ≡ none
      → cpu_tick fl seconds lower upper info id last content ≡ (last, none)
  unfolding cpu_tick
  unread seconds lower upper info last id content e = rw (e, cpu_tick) refl

  cpu_loop-readable :
      (seconds lower upper : F) (info : SwarmNodeInfo) (last : ℤ) (ticks : List Tick)
      → cpu_loop seconds lower upper info last ticks
        ≡ cpu_loop seconds lower upper info last (readable ticks)
  unfolding cpu_loop readable proceed
  cpu_loop-readable seconds lower upper info last [] = refl
  cpu_loop-readable seconds lower upper info last (t ∷ ts) =
      let (next, turn) = cpu_tick fl seconds lower upper info t.service_id last t.content in
      elim (Option-cases (read_cpu_usage t.content)) [
        | inl e ↦
            rw (readable-none t ts e, unread seconds lower upper info last t.service_id t.content e)
              (cpu_loop-readable seconds lower upper info last ts)
        | inr (usage, e) ↦
            rw (readable-some t ts usage e)
              (ap (proceed turn) (cpu_loop-readable seconds lower upper info next ts))
      ]

  -- A tick that finds no usage is as if it had not come: the monitor of the CPU does the same without
  -- it.
  pub cpu_monitor-readable :
      (seconds lower upper : F) (info : SwarmNodeInfo) (content : Option (List ℕ))
      (ticks : List Tick)
      → cpu_monitor seconds lower upper info content ticks
        ≡ cpu_monitor seconds lower upper info content (readable ticks)
  unfolding cpu_monitor
  cpu_monitor-readable seconds lower upper info content ticks =
      elim (Option-cases (read_cpu_usage content)) [
        | inl e ↦ rw (e, cpu_monitor) refl
        | inr (last, e) ↦
            rw (e, cpu_monitor) (cpu_loop-readable seconds lower upper info last ticks)
      ]

  tick_quiet :
      (lower upper : ℤ) (info : SwarmNodeInfo) (t : Tick)
      → Laws fl
      → IsExact lower
      → IsExact upper
      → IsWithin lower upper t
      → memory_tick fl lower upper info t.service_id t.content ≡ none
  unfolding memory_tick act_on
  tick_quiet lower upper info t laws x y within =
      elim (Option-cases (read_memory_usage t.content)) [
        | inl e ↦ rw (e, memory_tick) refl
        | inr (usage, e) ↦
            let (exact, not_over, not_under) = within usage e in
            memory_tick-some fl lower upper usage info t.service_id t.content e
            ∙ rw (direction_of_integers fl usage lower upper laws exact x y, not_over, not_under)
                refl
      ]

  -- While every usage that can be read is within limits that a float64 holds, the monitor of memory does
  -- nothing, on any node.
  memory_monitor_quiet :
      (lower upper : ℤ) (info : SwarmNodeInfo) (ticks : List Tick)
      → Laws fl
      → IsExact lower
      → IsExact upper
      → AllWithin lower upper ticks
      → memory_monitor lower upper info ticks ≡ []
  unfolding memory_monitor proceed
  memory_monitor_quiet lower upper info [] laws x y h = refl
  memory_monitor_quiet lower upper info (t ∷ ts) laws x y h =
      rw (tick_quiet lower upper info t laws x y h.0)
        (memory_monitor_quiet lower upper info ts laws x y h.1)
