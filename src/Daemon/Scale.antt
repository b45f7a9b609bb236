-- ===== src/Daemon/Scale.antt =====
-- autoscaler/scale/scale.go: the scale manager. Docker is an interface, the port listener is that of
-- Ports.antt. The proofs are in the modules below.
pub mod Client
pub mod Isolation
pub mod Outcomes
pub mod Replicas
pub mod Progress
pub mod Threads
pub mod Specs
pub mod Pinning
pub mod ZeroScale
pub mod Sleep
use Prim.Native.String.{String}
use Prim.Native.String
use text.Mathlib.Text.{◌==◌ as str_eq}
use swarm_autoscaler.Base.{
  ℕ, suc, ◌+◌, ◌-◌, ◌%◌, ◌^◌, ◌∙◌, Bool, true, false, not, Option, none, some, List, [], ◌∷◌, ◌==◌,
  ltb, if◌then◌else◌,
}
use swarm_autoscaler.Bpf.Maps.{BpfMaps}
use swarm_autoscaler.Daemon.Server.{SwarmNodeInfo, Network, send_listen_request_to_all_nodes}
use swarm_autoscaler.Daemon.Ports.{Ports, listen_on_port}
use Client.{Docker, Service, Spec, global, replicated}

-- `instance`: Docker as it is, the node, the map `keepAliveOps` from services to channels, and the port
-- listener. `waiting c` is the service of the goroutine that stands in the `select` of
-- `keepAliveAndScaleDown` with channel `c`.
pub record Manager (D : Docker) (B : BpfMaps) : Type 0 where
  pub world : D.World
  pub node_info : SwarmNodeInfo
  pub ports : Ports B
  pub keep_alive_ops : String → Option ℕ
  pub waiting : ℕ → Option String
  pub next_channel : ℕ

-- `panics` is a nil dereference, `blocks` a send that no goroutine receives.
pub data Outcome {ℓ} (A : Type ℓ) : Type ℓ where
  returns : A → (failed : Bool) → Outcome A
  blocks : A → Outcome A
  panics : Outcome A

-- An error returns at once.
infixl 5 ◌>>=◌
abbrev pub ◌>>=◌ {ℓ} : {A : Type ℓ} → Outcome A → (A → Outcome A) → Outcome A
returns a false >>= f = f a
returns a true >>= f = returns a true
blocks a >>= f = blocks a
panics >>= f = panics

abbrev pub set_op : (String → Option ℕ) → String → Option ℕ → String → Option ℕ
set_op f id v j = if str_eq id j then v else f j

abbrev pub set_waiting : (ℕ → Option String) → ℕ → Option String → ℕ → Option String
set_waiting f c v j = if c == j then v else f j

abbrev pub u64 : ℕ → ℕ
u64 n = n % 2 ^ 64

module _ (D : Docker) where
  -- An update of the spec of a service, with the error of Docker.
  update_spec : D.World → String → Service → Spec → Outcome D.World
  update_spec w id service spec = elim (D.update w id service.version spec) [
    | none ↦ returns w true
    | some w' ↦ returns w' false
  ]

  unfoldable pub update_service_constraints : D.World → String → Service → Bool → Outcome D.World
  unfolding update_spec
  update_service_constraints w id service add =
      elim (service.spec.labels "autoscaler.handlerNode") [
        | none ↦ returns w false
        | some host ↦ elim service.spec.placement [
          | none ↦ panics
          | some _ ↦ update_spec w id service (record service.spec {
            placement = some (if add then some (String.◌++◌ "node.hostname==" host ∷ []) else none);
          })
        ]
      ]

  unfoldable pub set_replicas : D.World → String → Service → ℕ → Outcome D.World
  unfolding update_spec
  set_replicas w id service n = elim service.spec.mode [
    | global ↦ panics
    | replicated _ ↦ update_spec w id service (record service.spec { mode = replicated (some n) })
  ]

  unfoldable pub scale_to : D.World → String → ℕ → Outcome D.World
  unfolding set_replicas
  scale_to w id n = elim (D.inspect w id) [
    | none ↦ returns w true
    | some service ↦ set_replicas w id service n
  ]

  unfoldable pub get_published_port : D.World → String → Option ℕ
  get_published_port w id = elim (D.inspect w id) [
    | none ↦ none
    | some service ↦ elim service.ports [ [] ↦ none | p ∷ ps ↦ some p ]
  ]

-- A service that Docker knows, in replicated mode with its number of replicas set.
unfoldable pub replicas_of : Option Service → Option (Service × ℕ)
replicas_of none = none
replicas_of (some service) = elim service.spec.mode [
  | global ↦ none
  | replicated replicas ↦ elim replicas [ none ↦ none | some current ↦ some (service, current) ]
]

module _ (D : Docker) (B : BpfMaps) where
  -- What follows a change of Docker that may fail.
  after : Manager D B → Outcome D.World → Outcome (Manager D B)
  after m (returns w failed) = returns (record m { world = w }) failed
  after m (blocks w) = blocks (record m { world = w })
  after m panics = panics

  -- The send into the channel of a keep-alive operation, and the deletion of the operation: it blocks
  -- unless the goroutine waits.
  cancel_keep_alive : Manager D B → String → Outcome (Manager D B)
  cancel_keep_alive m id = elim (m.keep_alive_ops id) [
    | none ↦ returns m false
    | some channel ↦ elim (m.waiting channel) [
      | none ↦ blocks m
      | some _ ↦
          returns
            (record m {
              keep_alive_ops = set_op m.keep_alive_ops id none;
              waiting = set_waiting m.waiting channel none;
            })
            false
    ]
  ]

  -- The change of the constraints where the service leaves or reaches one replica.
  unfoldable pub pin_if : Manager D B → Bool → String → Service → Bool → Outcome (Manager D B)
  unfolding after
  pin_if m test id service add =
      after m (
        if test then update_service_constraints D m.world id service add else returns m.world false)

  -- direction "over", from `current` replicas on
  unfoldable pub scale_over : Manager D B → String → Service → ℕ → Outcome (Manager D B)
  unfolding cancel_keep_alive after pin_if
  scale_over m id service current = do
    m1 ← pin_if m (current == 1) id service false
    m2 ← cancel_keep_alive m1 id
    after m2 (scale_to D m2.world id (u64 (current + 1)))

  -- the start of a keep-alive operation, if there is none
  start_keep_alive : Manager D B → String → Manager D B
  start_keep_alive m id = elim (m.keep_alive_ops id) [
    | some _ ↦ m
    | none ↦ record m {
      keep_alive_ops = set_op m.keep_alive_ops id (some m.next_channel);
      waiting = set_waiting m.waiting m.next_channel (some id);
      next_channel = suc m.next_channel;
    }
  ]

  -- direction "under", from `current` replicas on, where there are more than one
  scale_down : Manager D B → String → Service → ℕ → Outcome (Manager D B)
  unfolding after pin_if
  scale_down m id service current = do
    m1 ← pin_if m (current - 1 == 1) id service true
    after m1 (scale_to D m1.world id (current - 1))

  -- direction "under"
  scale_under : Manager D B → String → Service → ℕ → Outcome (Manager D B)
  unfolding start_keep_alive scale_down
  scale_under m id service current =
      if ltb 1 current
      then scale_down m id service current
      else returns (start_keep_alive m id) false

  -- the ladder of directions
  in_direction : Manager D B → String → String → Service → ℕ → Outcome (Manager D B)
  unfolding scale_over scale_under
  in_direction m id direction service current =
      if str_eq direction "over"
      then scale_over m id service current
      else (if str_eq direction "under" then scale_under m id service current else returns m true)

  unfoldable pub change_service_replicas : Manager D B → String → String → Outcome (Manager D B)
  unfolding in_direction replicas_of
  change_service_replicas m id direction =
      if not m.node_info.autoscaler_manager
      then returns m true
      else elim (replicas_of (D.inspect m.world id)) [
        | none ↦ returns m true
        | some (service, current) ↦ in_direction m id direction service current
      ]

  -- The end of the goroutine, from the result of scaling to 0 on.
  finish : Manager D B → String → Outcome D.World → Outcome (Manager D B)
  finish m id (returns w true) = returns (record m { world = w }) true
  finish m id (returns w false) =
      returns (record m { world = w; keep_alive_ops = set_op m.keep_alive_ops id none }) false
  finish m id (blocks w) = blocks (record m { world = w })
  finish m id panics = panics

module _ (D : Docker) (B : BpfMaps) (net : Network) where
  -- From the local listener on: the other nodes, the scaling to 0 and the end of the operation.
  scale_to_zero : Manager D B → String → ℕ → Outcome (Manager D B)
  unfolding finish
  scale_to_zero m id port =
      let (ports, failed) = listen_on_port B m.ports port id in
      let m' = record m { ports = ports } in
      if failed
      then returns m' true
      else (if (send_listen_request_to_all_nodes net m.node_info port id).1
          then returns m' true
          else finish D B m' id (scale_to D m'.world id 0))

  -- The body of the first case of the `select`. It fails where the source logs an error and returns.
  expire : Manager D B → String → Outcome (Manager D B)
  unfolding scale_to_zero
  expire m id = elim (m.keep_alive_ops id) [
    | none ↦ returns m false
    | some _ ↦ elim (get_published_port D m.world id) [
      | none ↦ returns m true
      | some port ↦ scale_to_zero m id port
    ]
  ]

  -- The timer of the goroutine with this channel fires; after its body the goroutine is gone.
  unfoldable pub keep_alive_elapsed : Manager D B → ℕ → Outcome (Manager D B)
  unfolding expire
  keep_alive_elapsed m channel = elim (m.waiting channel) [
    | none ↦ returns m false
    | some id ↦ expire (record m { waiting = set_waiting m.waiting channel none }) id
  ]
