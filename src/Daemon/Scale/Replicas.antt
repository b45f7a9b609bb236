-- ===== src/Daemon/Scale/Replicas.antt =====
-- What a request of scale.go to change the replicas does to Docker.
use Prim.Native.String.{String}
use text.Mathlib.TextEquality.{eq_iff}
use swarm_autoscaler.Base.{
  suc, Bool, ℕ, ◌+◌, ◌-◌, ◌<◌, ◌≤◌, ◌≡◌, refl, ◌∙◌, sym, ap, true, false, none, some, arith, ◌==◌,
  inl, inr, Option-cases,
}
use swarm_autoscaler.Bpf.Maps.{BpfMaps}
use swarm_autoscaler.Daemon.Scale.Client.{Docker, Service}
use swarm_autoscaler.Daemon.Scale.Outcomes.{
  Gives, OnSuccess, OnSuccess-bind, OnSuccess-map, Gives-returns, Shows, Scaled, Gives-scale_to,
}
use swarm_autoscaler.Daemon.Scale.{
  Manager, set_op, set_waiting, Outcome, returns, blocks, panics, after, cancel_keep_alive, pin_if,
  scale_over, scale_under, scale_down, ◌>>=◌, start_keep_alive, in_direction, replicas_of,
  change_service_replicas, scale_to, u64, update_service_constraints,
}

module _ (D : Docker) (B : BpfMaps) where
  -- `scale_to` at the end of a request: the replicas, with the operations as they were.
  Scales : Manager D B → String → ℕ → Manager D B → Type 0
  Scales m id n m' = Shows (D.inspect m'.world id) n × (m'.keep_alive_ops ≡ m.keep_alive_ops)

  scaled :
      (m : Manager D B) (id : String) (n : ℕ) (r : Outcome D.World)
      → Gives (Scaled D m.world id n) r
      → Gives (OnSuccess (Scales m id n)) (after D B m r)
  unfolding after Scales
  scaled m id n (returns w true) h = tt
  scaled m id n (returns w false) h = (h, refl)
  scaled m id n (blocks w) h = tt
  scaled m id n panics h = tt

  any_outcome : (r : Outcome (Manager D B)) → Gives (OnSuccess (λ m. Unit {0})) r
  any_outcome (returns m true) = tt
  any_outcome (returns m false) = tt
  any_outcome (blocks m) = tt
  any_outcome panics = tt

  Idle : String → Manager D B → Type 0
  Idle id m = m.keep_alive_ops id ≡ none

  -- After the send into its channel no operation of the service is left.
  Gives-cancel_keep_alive :
      (m : Manager D B) (id : String) → Gives (OnSuccess (Idle id)) (cancel_keep_alive D B m id)
  unfolding cancel_keep_alive Idle
  Gives-cancel_keep_alive m id = elim (Option-cases (m.keep_alive_ops id)) [
    | inl e ↦ rw (e, cancel_keep_alive) e
    | inr (c, e) ↦ elim (Option-cases (m.waiting c)) [
      | inl f ↦ rw (e, f, cancel_keep_alive) tt
      | inr (j, f) ↦ rw (e, f, cancel_keep_alive) (ground (arith, eq_iff id id))
    ]
  ]

  Raised : String → ℕ → Manager D B → Type 0
  Raised id n m = Shows (D.inspect m.world id) n × (m.keep_alive_ops id ≡ none)

  Gives-scale_over :
      (m : Manager D B) (id : String) (service : Service) (current : ℕ)
      → Gives (OnSuccess (Raised id (u64 (current + 1)))) (scale_over D B m id service current)
  unfolding scale_over Idle Scales Raised
  Gives-scale_over m id service current =
      let n = u64 (current + 1) in
      let rise : Manager D B → Outcome (Manager D B) =
        λ m2. after D B m2 (scale_to D m2.world id n) in
      OnSuccess-bind (λ _. Unit {0}) (Raised id n) (pin_if D B m (current == 1) id service false)
        (λ m1. cancel_keep_alive D B m1 id >>= rise) (any_outcome _)
        (λ m1 _.
          OnSuccess-bind (Idle id) (Raised id n) (cancel_keep_alive D B m1 id) rise
            (Gives-cancel_keep_alive m1 id)
            (λ m2 h.
              OnSuccess-map (Scales m2 id n) (Raised id n) (rise m2)
                (scaled m2 id n _ (Gives-scale_to D m2.world id n))
                (λ m' (l, k). (l, ap (λ f. f id) k ∙ h))))

  Lowered : String → ℕ → Manager D B → Type 0
  Lowered id n m = Shows (D.inspect m.world id) n

  Gives-scale_down :
      (m : Manager D B) (id : String) (service : Service) (current : ℕ)
      → Gives (OnSuccess (Lowered id (current - 1))) (scale_down D B m id service current)
  unfolding scale_down Scales Lowered
  Gives-scale_down m id service current =
      let n = current - 1 in
      let lower : Manager D B → Outcome (Manager D B) =
        λ m1. after D B m1 (scale_to D m1.world id n) in
      OnSuccess-bind (λ _. Unit {0}) (Lowered id n) (pin_if D B m (n == 1) id service true) lower
        (any_outcome _)
        (λ m1 _.
          OnSuccess-map (Scales m1 id n) (Lowered id n) (lower m1)
            (scaled m1 id n _ (Gives-scale_to D m1.world id n)) (λ m' (l, k). l))

  -- Where the service pins no handler node its constraints stay.
  pub pin_if_unlabelled :
      (m : Manager D B) (test add : Bool) (id : String) (service : Service)
      → service.spec.labels "autoscaler.handlerNode" ≡ none
      → pin_if D B m test id service add ≡ returns m false
  unfolding pin_if after update_service_constraints
  pin_if_unlabelled m true add id service e = simp (e, update_service_constraints)
  pin_if_unlabelled m false add id service e = refl

  pub change-scale_over :
      (m : Manager D B) (id : String) (service : Service) (current : ℕ)
      → m.node_info.autoscaler_manager ≡ true
      → replicas_of (D.inspect m.world id) ≡ some (service, current)
      → change_service_replicas D B m id "over" ≡ scale_over D B m id service current
  unfolding change_service_replicas in_direction
  change-scale_over m id service current f e = simp (f, e, change_service_replicas)

  change-scale_under :
      (m : Manager D B) (id : String) (service : Service) (current : ℕ)
      → m.node_info.autoscaler_manager ≡ true
      → replicas_of (D.inspect m.world id) ≡ some (service, current)
      → change_service_replicas D B m id "under" ≡ scale_under D B m id service current
  unfolding change_service_replicas in_direction
  change-scale_under m id service current f e = simp (f, e, change_service_replicas)

  -- A request "over" on the manager that returns without an error has set the replicas one higher than
  -- they were, as a 64-bit number, and no keep-alive operation of the service is left.
  pub over_replicas :
      (m m' : Manager D B) (id : String) (service : Service) (current : ℕ)
      → m.node_info.autoscaler_manager ≡ true
      → replicas_of (D.inspect m.world id) ≡ some (service, current)
      → change_service_replicas D B m id "over" ≡ returns m' false
      → Shows (D.inspect m'.world id) (u64 (current + 1)) × (m'.keep_alive_ops id ≡ none)
  unfolding Raised
  over_replicas m m' id service current f e h =
      Gives-returns (OnSuccess (Raised id (u64 (current + 1)))) _ m' false
        (sym (change-scale_over m id service current f e) ∙ h)
        (Gives-scale_over m id service current)

  scale_under-scale_down :
      (m : Manager D B) (id : String) (service : Service) (current : ℕ)
      → 1 < current
      → scale_under D B m id service current ≡ scale_down D B m id service current
  unfolding scale_under
  scale_under-scale_down m id service current h = ground arith

  scale_under-start :
      (m : Manager D B) (id : String) (service : Service) (current : ℕ)
      → current ≤ 1
      → scale_under D B m id service current ≡ returns (start_keep_alive D B m id) false
  unfolding scale_under
  scale_under-start m id service current h = ground arith

  -- A request "under" on the manager for a service of more than one replica that returns without an
  -- error has set the replicas one lower.
  under_replicas :
      (m m' : Manager D B) (id : String) (service : Service) (current : ℕ)
      → m.node_info.autoscaler_manager ≡ true
      → replicas_of (D.inspect m.world id) ≡ some (service, current)
      → 1 < current
      → change_service_replicas D B m id "under" ≡ returns m' false
      → Shows (D.inspect m'.world id) (current - 1)
  unfolding Lowered
  under_replicas m m' id service current f e k h =
      Gives-returns (OnSuccess (Lowered id (current - 1))) _ m' false
        (sym (
            change-scale_under m id service current f e
            ∙ scale_under-scale_down m id service current k)
          ∙ h)
        (Gives-scale_down m id service current)

  start_keep_alive_starts :
      (m : Manager D B) (id : String)
      → ((start_keep_alive D B m id).world ≡ m.world)
        × ((c : ℕ) × ((start_keep_alive D B m id).keep_alive_ops id ≡ some c))
  unfolding start_keep_alive
  start_keep_alive_starts m id = elim (Option-cases (m.keep_alive_ops id)) [
    | inl e ↦ rw (e, start_keep_alive) (refl, (m.next_channel, ground (arith, eq_iff id id)))
    | inr (c, e) ↦ rw (e, start_keep_alive) (refl, (c, e))
  ]

  -- A request "under" on the manager for a service of at most one replica changes nothing in Docker: it
  -- only leaves a keep-alive operation of the service, without an error.
  under_keeps_last :
      (m : Manager D B) (id : String) (service : Service) (current : ℕ)
      → m.node_info.autoscaler_manager ≡ true
      → replicas_of (D.inspect m.world id) ≡ some (service, current)
      → current ≤ 1
      → (m' : Manager D B) × (change_service_replicas D B m id "under" ≡ returns m' false)
        × (m'.world ≡ m.world)
        × ((c : ℕ) × (m'.keep_alive_ops id ≡ some c))
  under_keeps_last m id service current f e k =
      let (w, c) = start_keep_alive_starts m id in
      (
        start_keep_alive D B m id,
        change-scale_under m id service current f e ∙ scale_under-start m id service current k,
        w,
        c,
      )

  -- The operation that a request "under" starts where there is none.
  pub under_starts :
      (m : Manager D B) (id : String) (service : Service) (current : ℕ)
      → m.node_info.autoscaler_manager ≡ true
      → replicas_of (D.inspect m.world id) ≡ some (service, current)
      → current ≤ 1
      → m.keep_alive_ops id ≡ none
      → change_service_replicas D B m id "under"
        ≡ returns
            (record m {
              keep_alive_ops = set_op m.keep_alive_ops id (some m.next_channel);
              waiting = set_waiting m.waiting m.next_channel (some id);
              next_channel = suc m.next_channel;
            })
            false
  unfolding start_keep_alive
  under_starts m id service current f e k h =
      change-scale_under m id service current f e
      ∙ scale_under-start m id service current k
      ∙ rw (h, start_keep_alive) refl
