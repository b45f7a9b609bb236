-- ===== src/Daemon/Scale/Progress.antt =====
-- When a request of scale.go succeeds: Docker takes the updates, and no operation blocks.
use Prim.Native.String.{String}
use text.Mathlib.TextEquality.{eq_iff}
use swarm_autoscaler.Base.{
  ℕ, ◌+◌, ◌≡◌, ◌∙◌, refl, true, false, Option, none, some, arith, ◌==◌, inl, inr, Option-cases,
}
use swarm_autoscaler.Bpf.Maps.{BpfMaps}
use swarm_autoscaler.Daemon.Scale.Client.{Docker, Service, Spec, replicated}
use swarm_autoscaler.Daemon.Scale.{
  Manager, returns, set_op, set_waiting, update_spec, set_replicas, scale_to, after,
  cancel_keep_alive, scale_over, change_service_replicas, replicas_of, u64,
}
use swarm_autoscaler.Daemon.Scale.Outcomes.{Gives-returns, Shows, Scaled, Gives-scale_to}
use swarm_autoscaler.Daemon.Scale.Replicas.{change-scale_over, pin_if_unlabelled}

-- Docker takes an update of this service with the version that it shows.
abbrev pub Accepts : (D : Docker) → D.World → String → Type 0
Accepts D w id =
    (s : Service) (spec : Spec)
    → D.inspect w id ≡ some s
    → (w' : D.World) × (D.update w id s.version spec ≡ some w')

-- A keep-alive operation of this service, if there is one, has its goroutine.
abbrev pub IsAttended : (D : Docker) (B : BpfMaps) → Manager D B → String → Type 0
IsAttended D B m id = (c : ℕ) → m.keep_alive_ops id ≡ some c → (j : String) × (m.waiting c ≡ some j)

replicas_of-inspect :
    (found : Option Service) (s : Service) (n : ℕ)
    → replicas_of found ≡ some (s, n)
    → (found ≡ some s) × (s.spec.mode ≡ replicated (some n))
unfolding replicas_of
replicas_of-inspect none s n e = ground (arith, e)
replicas_of-inspect (some t) s n e = ground (arith, e)

module _ (D : Docker) where
  scale_to_updates :
      (w w' : D.World) (id : String) (s : Service) (k n : ℕ)
      → D.inspect w id ≡ some s
      → s.spec.mode ≡ replicated (some k)
      → D.update w id s.version (record s.spec { mode = replicated (some n) }) ≡ some w'
      → scale_to D w id n ≡ returns w' false
  unfolding scale_to set_replicas update_spec
  scale_to_updates w w' id s k n e f g = rw (e, scale_to) (ground (arith, f, g))

  -- `scaleTo` succeeds for a service in replicated mode whose update Docker takes.
  pub scale_to_succeeds :
      (w : D.World) (id : String) (s : Service) (k n : ℕ)
      → replicas_of (D.inspect w id) ≡ some (s, k)
      → Accepts D w id
      → (w' : D.World) × (scale_to D w id n ≡ returns w' false) × Shows (D.inspect w' id) n
  scale_to_succeeds w id s k n e accepts =
      let (found, mode) = replicas_of-inspect (D.inspect w id) s k e in
      let (w', taken) = accepts s (record s.spec { mode = replicated (some n) }) found in
      let result = scale_to_updates w w' id s k n found mode taken in
      (w', result, Gives-returns (Scaled D w id n) _ w' false result (Gives-scale_to D w id n))

module _ (D : Docker) (B : BpfMaps) where
  cancels :
      (m : Manager D B) (id : String)
      → IsAttended D B m id
      → (m' : Manager D B) × (cancel_keep_alive D B m id ≡ returns m' false)
        × (m'.world ≡ m.world)
        × (m'.keep_alive_ops id ≡ none)
  unfolding cancel_keep_alive
  cancels m id attended = elim (Option-cases (m.keep_alive_ops id)) [
    | inl e ↦ (m, rw (e, cancel_keep_alive) refl, refl, e)
    | inr (c, e) ↦
        let (j, f) = attended c e in
        (
          record m {
            keep_alive_ops = set_op m.keep_alive_ops id none;
            waiting = set_waiting m.waiting c none;
          },
          rw (e, f, cancel_keep_alive) refl,
          refl,
          ground (arith, eq_iff id id),
        )
  ]

  -- The scaling up of a service whose last inspection may have shown another number of replicas.
  pub scale_over_succeeds :
      (m : Manager D B) (id : String) (service shown : Service) (current replicas : ℕ)
      → replicas_of (D.inspect m.world id) ≡ some (shown, replicas)
      → service.spec.labels "autoscaler.handlerNode" ≡ none
      → Accepts D m.world id
      → IsAttended D B m id
      → (m' : Manager D B) × (scale_over D B m id service current ≡ returns m' false)
        × Shows (D.inspect m'.world id) (u64 (current + 1))
        × (m'.keep_alive_ops id ≡ none)
  unfolding scale_over after
  scale_over_succeeds m id service shown current replicas e l accepts attended =
      let (m2, cancelled, same, ended) = cancels m id attended in
      let (w', scaled, shows) =
        scale_to_succeeds D m.world id shown replicas (u64 (current + 1)) e accepts in
      (
        record m2 { world = w' },
        simp (
          pin_if_unlabelled D B m (current == 1) false id service l,
          cancelled,
          same,
          scaled,
          after,
        ),
        shows,
        ended,
      )

  -- On the manager a request "over" for a service in replicated mode that pins no handler node goes
  -- through, where Docker takes its updates and its keep-alive operation, if there is one, is attended:
  -- the replicas are one more, as a 64-bit number, and the operation is cancelled.
  pub over_succeeds :
      (m : Manager D B) (id : String) (service : Service) (current : ℕ)
      → m.node_info.autoscaler_manager ≡ true
      → replicas_of (D.inspect m.world id) ≡ some (service, current)
      → service.spec.labels "autoscaler.handlerNode" ≡ none
      → Accepts D m.world id
      → IsAttended D B m id
      → (m' : Manager D B) × (change_service_replicas D B m id "over" ≡ returns m' false)
        × Shows (D.inspect m'.world id) (u64 (current + 1))
        × (m'.keep_alive_ops id ≡ none)
  over_succeeds m id service current a e l accepts attended =
      let (m', result, shows, ended) =
        scale_over_succeeds m id service service current current e l accepts attended in
      (m', change-scale_over D B m id service current a e ∙ result, shows, ended)
