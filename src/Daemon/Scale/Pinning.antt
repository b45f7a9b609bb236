-- ===== src/Daemon/Scale/Pinning.antt =====
-- The constraints of a service with a handler node: `updateServiceConstraints` of scale.go as
-- `ChangeServiceReplicas` uses it.
use Prim.Native.String.{String}
use text.Mathlib.Text.{◌==◌ as str_eq}
use mathlib.Core.Path.{subst}
use swarm_autoscaler.Base.{
  ℕ, ◌+◌, ◌-◌, ◌^◌, ◌<◌, ◌≡◌, ◌∙◌, refl, sym, ap, Bool, true, false, Option, some, List, arith,
  ◌==◌, ltb, if◌then◌else◌, inl, inr, Bool-cases, Option-cases,
}
use swarm_autoscaler.Bpf.Maps.{BpfMaps}
use swarm_autoscaler.Daemon.Scale.Client.{Docker, Service, Spec, replicated}
use swarm_autoscaler.Daemon.Scale.{
  Manager, Outcome, returns, blocks, panics, ◌>>=◌, after, cancel_keep_alive, start_keep_alive,
  pin_if, scale_over, scale_down, scale_under, in_direction, scale_to, replicas_of,
  change_service_replicas, u64,
}
use swarm_autoscaler.Daemon.Scale.Outcomes.{Gives, OnSuccess, OnSuccess-bind, Gives-returns}
use swarm_autoscaler.Daemon.Scale.Specs.{
  constraints_on, HasSpec, IsPinned, placed_by, Gives-update_service_constraints, Gives-scale_to,
}

module _ (D : Docker) (B : BpfMaps) where
  Gives-after :
      (P : D.World → Type 0) (m : Manager D B) (r : Outcome D.World)
      → Gives (OnSuccess P) r
      → Gives (OnSuccess (λ m'. P m'.world)) (after D B m r)
  unfolding after
  Gives-after P m (returns w true) h = tt
  Gives-after P m (returns w false) h = h
  Gives-after P m (blocks w) h = tt
  Gives-after P m panics h = tt

  Gives-cancel_keep_alive :
      (m : Manager D B) (id : String)
      → Gives (OnSuccess (λ m'. m'.world ≡ m.world)) (cancel_keep_alive D B m id)
  unfolding cancel_keep_alive
  Gives-cancel_keep_alive m id = elim (Option-cases (m.keep_alive_ops id)) [
    | inl e ↦ rw (e, cancel_keep_alive) refl
    | inr (c, e) ↦ elim (Option-cases (m.waiting c)) [
      | inl f ↦ rw (e, f, cancel_keep_alive) tt
      | inr (j, f) ↦ rw (e, f, cancel_keep_alive) refl
    ]
  ]

  Gives-pin_if :
      (m : Manager D B) (id host : String) (service : Service) (old : Option (List String))
      (test add : Bool)
      → D.inspect m.world id ≡ some service
      → service.spec.labels "autoscaler.handlerNode" ≡ some host
      → service.spec.placement ≡ some old
      → Gives
          (OnSuccess (λ m'.
            HasSpec D id
              (if test then placed_by D add host service.spec else service.spec)
              m'.world))
          (pin_if D B m test id service add)
  unfolding pin_if after
  Gives-pin_if m id host service old true add e f g =
      Gives-after (HasSpec D id (placed_by D add host service.spec)) m _
        (Gives-update_service_constraints D m.world id host service old add f g)
  Gives-pin_if m id host service old false add e f g = (service, e, refl)

  Gives-scaled :
      (m : Manager D B) (id : String) (spec : Spec) (k n : ℕ)
      → HasSpec D id spec m.world
      → spec.mode ≡ replicated (some k)
      → Gives
          (OnSuccess (λ m'. HasSpec D id (record spec { mode = replicated (some n) }) m'.world))
          (after D B m (scale_to D m.world id n))
  Gives-scaled m id spec k n h e =
      Gives-after (HasSpec D id (record spec { mode = replicated (some n) })) m _
        (Gives-scale_to D m.world id n spec (some k) h e)

  mode_kept :
      (test add : Bool) (host : String) (spec : Spec) (k : ℕ)
      → spec.mode ≡ replicated (some k)
      → (if test then placed_by D add host spec else spec).mode ≡ replicated (some k)
  mode_kept true add host spec k e = e
  mode_kept false add host spec k e = e

  -- The specification after a request "over": free from one replica on.
  over_spec :
      (m : Manager D B) (id host : String) (service : Service) (old : Option (List String))
      (current : ℕ)
      → D.inspect m.world id ≡ some service
      → service.spec.mode ≡ replicated (some current)
      → service.spec.labels "autoscaler.handlerNode" ≡ some host
      → service.spec.placement ≡ some old
      → Gives
          (OnSuccess (λ m'.
            HasSpec D id
              (record (if current == 1 then placed_by D false host service.spec else service.spec) {
                mode = replicated (some (u64 (current + 1)));
              })
              m'.world))
          (scale_over D B m id service current)
  unfolding scale_over
  over_spec m id host service old current e k f g =
      let n = u64 (current + 1) in
      let spec = if current == 1 then placed_by D false host service.spec else service.spec in
      let Q : Manager D B → Type 0 =
        λ m'. HasSpec D id (record spec { mode = replicated (some n) }) m'.world in
      let rise : Manager D B → Outcome (Manager D B) =
        λ m2. after D B m2 (scale_to D m2.world id n) in
      OnSuccess-bind (λ m1. HasSpec D id spec m1.world) Q
        (pin_if D B m (current == 1) id service false) (λ m1. cancel_keep_alive D B m1 id >>= rise)
        (Gives-pin_if m id host service old (current == 1) false e f g)
        (λ m1 h.
          OnSuccess-bind (λ m2. m2.world ≡ m1.world) Q (cancel_keep_alive D B m1 id) rise
            (Gives-cancel_keep_alive m1 id)
            (λ m2 same.
              Gives-scaled m2 id spec current n (subst (HasSpec D id spec) (sym same) h)
                (mode_kept (current == 1) false host service.spec current k)))

  -- And after a request "under" for more than one replica: bound to the host at one replica.
  under_spec :
      (m : Manager D B) (id host : String) (service : Service) (old : Option (List String))
      (current : ℕ)
      → D.inspect m.world id ≡ some service
      → service.spec.mode ≡ replicated (some current)
      → service.spec.labels "autoscaler.handlerNode" ≡ some host
      → service.spec.placement ≡ some old
      → Gives
          (OnSuccess (λ m'.
            HasSpec D id
              (record (if current - 1 == 1
                then placed_by D true host service.spec
                else service.spec) { mode = replicated (some (current - 1)) })
              m'.world))
          (scale_down D B m id service current)
  unfolding scale_down
  under_spec m id host service old current e k f g =
      let spec = if current - 1 == 1 then placed_by D true host service.spec else service.spec in
      OnSuccess-bind (λ m1. HasSpec D id spec m1.world)
        (λ m'. HasSpec D id (record spec { mode = replicated (some (current - 1)) }) m'.world)
        (pin_if D B m (current - 1 == 1) id service true)
        (λ m1. after D B m1 (scale_to D m1.world id (current - 1)))
        (Gives-pin_if m id host service old (current - 1 == 1) true e f g)
        (λ m1 h.
          Gives-scaled m1 id spec current (current - 1) h
            (mode_kept (current - 1 == 1) true host service.spec current k))

  -- A service that pins its host, whatever its specification and its replicas are.
  abbrev pub PinsHost : String → String → D.World → Type 0
  PinsHost id host w = (spec : Spec) × (n : ℕ) × IsPinned D w id host spec n

  over-PinsHost :
      (w w' : D.World) (id host : String) (spec : Spec) (n : ℕ)
      → IsPinned D w id host spec n
      → n + 1 < 2 ^ 64
      → HasSpec D id
          (record (if n == 1 then placed_by D false host spec else spec) {
            mode = replicated (some (u64 (n + 1)));
          })
          w'
      → PinsHost id host w'
  over-PinsHost w w' id host spec n p small h = elim (Bool-cases (n == 1)) [
    | inl e ↦ (
      _,
      u64 (n + 1),
      record { shown = rw e at h; mode = refl; handler = p.handler; placed = ground (arith, e) },
    )
    | inr e ↦ (
      _,
      u64 (n + 1),
      record {
        shown = rw e at h;
        mode = refl;
        handler = p.handler;
        placed = ground (arith, e, p.placed);
      },
    )
  ]

  under-PinsHost :
      (w w' : D.World) (id host : String) (spec : Spec) (n : ℕ)
      → IsPinned D w id host spec n
      → 1 < n
      → HasSpec D id
          (record (if n - 1 == 1 then placed_by D true host spec else spec) {
            mode = replicated (some (n - 1));
          })
          w'
      → PinsHost id host w'
  under-PinsHost w w' id host spec n p many h = elim (Bool-cases (n - 1 == 1)) [
    | inl e ↦ (
      _,
      n - 1,
      record { shown = rw e at h; mode = refl; handler = p.handler; placed = ground (arith, e) },
    )
    | inr e ↦ (
      _,
      n - 1,
      record {
        shown = rw e at h;
        mode = refl;
        handler = p.handler;
        placed = ground (arith, e, p.placed);
      },
    )
  ]

  start_keep_alive_world :
      (m : Manager D B) (id : String) → (start_keep_alive D B m id).world ≡ m.world
  unfolding start_keep_alive
  start_keep_alive_world m id = elim (Option-cases (m.keep_alive_ops id)) [
    | inl e ↦ rw (e, start_keep_alive) refl
    | inr (c, e) ↦ rw (e, start_keep_alive) refl
  ]

  in_direction-PinsHost :
      (m m' : Manager D B) (id direction host : String) (service : Service) (n : ℕ)
      → D.inspect m.world id ≡ some service
      → IsPinned D m.world id host service.spec n
      → n + 1 < 2 ^ 64
      → in_direction D B m id direction service n ≡ returns m' false
      → PinsHost id host m'.world
  unfolding in_direction scale_under
  in_direction-PinsHost m m' id direction host service n found p small h =
      elim (Bool-cases (str_eq direction "over")) [
        | inl e ↦ over-PinsHost m.world m'.world id host service.spec n p small (
            Gives-returns _ _ m' false (rw e at h) (
              over_spec m id host service (constraints_on host n) n found p.mode p.handler
                p.placed))
        | inr e ↦ elim (Bool-cases (str_eq direction "under")) [
          | inl f ↦ elim (Bool-cases (ltb 1 n)) [
            | inl g ↦ under-PinsHost m.world m'.world id host service.spec n p (ground (arith, g)) (
                Gives-returns _ _ m' false (rw (e, f, g) at h) (
                  under_spec m id host service (constraints_on host n) n found p.mode p.handler
                    p.placed))
            | inr g ↦
                let started : start_keep_alive D B m id ≡ m' = ground (arith, rw (e, f, g) at h) in
                (
                  service.spec,
                  n,
                  subst (λ w. IsPinned D w id host service.spec n)
                      (sym (start_keep_alive_world m id) ∙ ap (λ x. x.world) started) p,
                )
          ]
          | inr f ↦ absurd (ground (arith, rw (e, f) at h))
        ]
      ]

  found_replicas :
      (w : D.World) (id : String) (s : Service) (n : ℕ)
      → D.inspect w id ≡ some s
      → s.spec.mode ≡ replicated (some n)
      → replicas_of (D.inspect w id) ≡ some (s, n)
  unfolding replicas_of
  found_replicas w id s n e f = simp (e, f, replicas_of)

  -- A request that returns without an error leaves a service in replicated mode that has a handler node bound
  -- to its host where it has at most one replica, and bound to no host where it has more, if it was so
  -- before, with fewer than 2^64 - 1 replicas.
  pub change_service_replicas-PinsHost :
      (m m' : Manager D B) (id direction host : String) (spec : Spec) (n : ℕ)
      → IsPinned D m.world id host spec n
      → n + 1 < 2 ^ 64
      → change_service_replicas D B m id direction ≡ returns m' false
      → PinsHost id host m'.world
  unfolding change_service_replicas
  change_service_replicas-PinsHost m m' id direction host spec n p small h =
      let (s, found, same) = p.shown in
      let p' : IsPinned D m.world id host s.spec n =
        subst (λ t. IsPinned D m.world id host t n) (sym same) p in
      elim (Bool-cases m.node_info.autoscaler_manager) [
        | inr e ↦ absurd (ground (arith, rw e at h))
        | inl e ↦
            in_direction-PinsHost m m' id direction host s n found p' small
              (rw (e, found_replicas m.world id s n found p'.mode) at h)
      ]
