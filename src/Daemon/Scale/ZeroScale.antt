-- ===== src/Daemon/Scale/ZeroScale.antt =====
-- What the end of the keep-alive period of scale.go leaves: a service that is scaled to zero and watched
-- by the port listeners, or an operation that no goroutine stands behind.
use Prim.Native.String.{String}
use text.Mathlib.TextEquality.{eq_iff}
use swarm_autoscaler.Base.{
  ℕ, ◌≡◌, ◌∙◌, refl, sym, ap, Bool, true, false, none, some, arith, inl, inr, Bool-cases,
  Option-cases, ◌==◌,
}
use swarm_autoscaler.Bpf.Maps.{BpfMaps, any}
use swarm_autoscaler.Daemon.Server.{Network, send_listen_request_to_all_nodes}
use swarm_autoscaler.Daemon.Ports.{Ports, listen_on_port}
use swarm_autoscaler.Daemon.Scale.Client.{Docker, Service}
use swarm_autoscaler.Daemon.Scale.{
  Manager, Outcome, returns, blocks, panics, set_waiting, cancel_keep_alive, scale_over,
  change_service_replicas, keep_alive_elapsed, replicas_of, finish, scale_to_zero, expire,
  get_published_port,
}
use swarm_autoscaler.Daemon.Scale.Outcomes.{Gives, Gives-returns, Shows, Scaled, Gives-scale_to}
use swarm_autoscaler.Daemon.Scale.Replicas.{change-scale_over, pin_if_unlabelled}

listen_on_port-registers :
    (B : BpfMaps) (p : Ports B) (port : ℕ) (id : String)
    → (listen_on_port B p port id).1 ≡ false
    → ((listen_on_port B p port id).0.services port ≡ some id)
      × (B.lookup (listen_on_port B p port id).0.ports_map port ≡ some 1)
unfolding listen_on_port
listen_on_port-registers B p port id h = elim (Option-cases (B.update p.ports_map port 1 any)) [
  | inl e ↦ absurd (ground arith)
  | inr (m, e) ↦
      rw (e, listen_on_port)
        (ground arith, ground (arith, B.lookup-update p.ports_map port 1 any m port e))
]

module _ (D : Docker) (B : BpfMaps) (net : Network) where
  -- The service shows no replicas and is watched: on this node by the classifier, on the others by what
  -- the listen request made of them.
  pub record Watched (m : Manager D B) (id : String) (port : ℕ) (m' : Manager D B) : Type 0 where
    pub published : get_published_port D m.world id ≡ some port
    pub named : m'.ports.services port ≡ some id
    pub listened : B.lookup m'.ports.ports_map port ≡ some 1
    pub told : (send_listen_request_to_all_nodes net m.node_info port id).1 ≡ false
    pub scaled : Shows (D.inspect m'.world id) 0
    pub ended : m'.keep_alive_ops id ≡ none

  -- Docker is as it was, and the operation stays with its channel, which nobody waits for.
  pub record Stale (m : Manager D B) (id : String) (channel : ℕ) (m' : Manager D B) : Type 0 where
    pub same_world : m'.world ≡ m.world
    pub same_node : m'.node_info ≡ m.node_info
    pub kept : m'.keep_alive_ops id ≡ some channel
    pub gone : m'.waiting channel ≡ none

  Elapsed : Manager D B → String → ℕ → Manager D B → Bool → Type 0
  Elapsed m id channel m' true = Stale m id channel m'
  Elapsed m id channel m' false = (port : ℕ) × Watched m id port m'

  finish-Elapsed :
      (m m' : Manager D B) (id : String) (channel port : ℕ) (r : Outcome D.World)
      → Stale m id channel m'
      → get_published_port D m.world id ≡ some port
      → m'.ports.services port ≡ some id
      → B.lookup m'.ports.ports_map port ≡ some 1
      → (send_listen_request_to_all_nodes net m.node_info port id).1 ≡ false
      → Gives (Scaled D m'.world id 0) r
      → Gives (Elapsed m id channel) (finish D B m' id r)
  unfolding finish Elapsed
  finish-Elapsed m m' id channel port (returns w true) s p n l t h = record {
    same_world = h ∙ s.same_world;
    same_node = s.same_node;
    kept = s.kept;
    gone = s.gone;
  }
  finish-Elapsed m m' id channel port (returns w false) s p n l t h = (
    port,
    record {
      published = p;
      named = n;
      listened = l;
      told = t;
      scaled = h;
      ended = ground (arith, eq_iff id id);
    },
  )
  finish-Elapsed m m' id channel port (blocks w) s p n l t h = record {
    same_world = h ∙ s.same_world;
    same_node = s.same_node;
    kept = s.kept;
    gone = s.gone;
  }
  finish-Elapsed m m' id channel port panics s p n l t h = tt

  scale_to_zero-Elapsed :
      (m m' : Manager D B) (id : String) (channel port : ℕ)
      → Stale m id channel m'
      → get_published_port D m.world id ≡ some port
      → Gives (Elapsed m id channel) (scale_to_zero D B net m' id port)
  unfolding scale_to_zero Elapsed
  scale_to_zero-Elapsed m m' id channel port s p =
      let stale : (q : Ports B) → Stale m id channel (record m' { ports = q }) = λ q. record {
        same_world = s.same_world;
        same_node = s.same_node;
        kept = s.kept;
        gone = s.gone;
      } in
      elim (Bool-cases (listen_on_port B m'.ports port id).1) [
        | inl k ↦ rw (k, scale_to_zero) (stale _)
        | inr k ↦ elim (Bool-cases (send_listen_request_to_all_nodes net m'.node_info port id).1) [
          | inl l ↦ rw (k, l, scale_to_zero) (stale _)
          | inr l ↦
              let (n, u) = listen_on_port-registers B m'.ports port id k in
              rw (k, l, scale_to_zero)
                (finish-Elapsed m (record m' { ports = (listen_on_port B m'.ports port id).0 }) id
                  channel port _ (stale _) p n u
                  (ap (λ i. (send_listen_request_to_all_nodes net i port id).1) (sym s.same_node)
                    ∙ l)
                  (Gives-scale_to D m'.world id 0))
        ]
      ]

  elapsed :
      (m : Manager D B) (id : String) (channel : ℕ)
      → m.waiting channel ≡ some id
      → m.keep_alive_ops id ≡ some channel
      → Gives (Elapsed m id channel) (keep_alive_elapsed D B net m channel)
  unfolding keep_alive_elapsed expire Elapsed
  elapsed m id channel e f =
      let m' : Manager D B = record m { waiting = set_waiting m.waiting channel none } in
      let s : Stale m id channel m' = record {
        same_world = refl;
        same_node = refl;
        kept = f;
        gone = ground arith;
      } in
      elim (Option-cases (get_published_port D m.world id)) [
        | inl k ↦ rw (e, f, k, keep_alive_elapsed) s
        | inr (port, k) ↦
            rw (e, f, k, keep_alive_elapsed) (scale_to_zero-Elapsed m m' id channel port s k)
      ]

  -- A timer of a waiting goroutine that runs to its end without an error leaves a service that shows
  -- zero replicas, whose published port this node listens on and whose listen request every other node
  -- answered; the operation has ended.
  pub elapsed-Watched :
      (m m' : Manager D B) (id : String) (channel : ℕ)
      → m.waiting channel ≡ some id
      → m.keep_alive_ops id ≡ some channel
      → keep_alive_elapsed D B net m channel ≡ returns m' false
      → (port : ℕ) × Watched m id port m'
  unfolding Elapsed
  elapsed-Watched m m' id channel e f h =
      Gives-returns (Elapsed m id channel) _ m' false h (elapsed m id channel e f)

  stale :
      (m m' : Manager D B) (id : String) (channel : ℕ)
      → m.waiting channel ≡ some id
      → m.keep_alive_ops id ≡ some channel
      → keep_alive_elapsed D B net m channel ≡ returns m' true
      → Stale m id channel m'
  unfolding Elapsed
  stale m m' id channel e f h =
      Gives-returns (Elapsed m id channel) _ m' true h (elapsed m id channel e f)

  scale_over_blocks :
      (m : Manager D B) (id : String) (channel : ℕ) (service : Service) (current : ℕ)
      → m.keep_alive_ops id ≡ some channel
      → m.waiting channel ≡ none
      → service.spec.labels "autoscaler.handlerNode" ≡ none
      → scale_over D B m id service current ≡ blocks m
  unfolding scale_over cancel_keep_alive
  scale_over_blocks m id channel service current e f l =
      simp (pin_if_unlabelled D B m (current == 1) false id service l, e, f, cancel_keep_alive)

  -- Where the body of the keep-alive timer of a service fails on the manager, the next request "over"
  -- for the service blocks, if the service pins no handler node: Docker is as it was, and the operation
  -- still has the channel of the goroutine that is gone.
  pub failed_keep_alive_blocks :
      (m m' : Manager D B) (id : String) (channel : ℕ) (service : Service) (current : ℕ)
      → m.waiting channel ≡ some id
      → m.keep_alive_ops id ≡ some channel
      → m.node_info.autoscaler_manager ≡ true
      → replicas_of (D.inspect m.world id) ≡ some (service, current)
      → service.spec.labels "autoscaler.handlerNode" ≡ none
      → keep_alive_elapsed D B net m channel ≡ returns m' true
      → change_service_replicas D B m' id "over" ≡ blocks m'
  failed_keep_alive_blocks m m' id channel service current e f a r l h =
      let s = stale m m' id channel e f h in
      change-scale_over D B m' id service current (ap (λ i. i.autoscaler_manager) s.same_node ∙ a)
        (ap (λ w. replicas_of (D.inspect w id)) s.same_world ∙ r)
      ∙ scale_over_blocks m' id channel service current s.kept s.gone l
