-- ===== src/Daemon/Scale/Threads.antt =====
-- autoscaler/scale/scale.go with its goroutines interleaved: requests and keep-alive goroutines that make
-- one access at a time to Docker, to `keepAliveOps`, to a channel or to the other nodes. Each access is
-- taken to be atomic. The proofs are in the modules below.
pub mod Alone
pub mod Timers
pub mod Channels
pub mod Traces
pub mod Late
pub mod Lost
pub mod Double
use Prim.Native.String.{String}
use text.Mathlib.Text.{◌==◌ as str_eq}
use swarm_autoscaler.Base.{
  ℕ, zero, suc, ◌+◌, ◌-◌, ◌≡◌, Bool, true, false, not, Option, none, some, ◌==◌, ltb, if◌then◌else◌,
}
use swarm_autoscaler.Base.Family.{set_at}
use swarm_autoscaler.Bpf.Maps.{BpfMaps}
use swarm_autoscaler.Daemon.Server.{Network, send_listen_request_to_all_nodes}
use swarm_autoscaler.Daemon.Ports.{listen_on_port}
use swarm_autoscaler.Daemon.Scale.Client.{Docker, Service}
use swarm_autoscaler.Daemon.Scale.{
  Manager, Outcome, returns, blocks, panics, set_op, set_waiting, u64, update_service_constraints,
  set_replicas, get_published_port, replicas_of,
}

-- Where a call of `ChangeServiceReplicas` stands; `n` is `newReplicas`.
pub data Request : Type 0 where
  idle : Request
  -- before the inspection
  asked : (id direction : String) → Request
  -- before the constraint is taken away
  unpinning : (id : String) (service : Service) (n : ℕ) → Request
  -- before the look into `keepAliveOps`, the send into the channel, and the deletion
  looking : (id : String) (n : ℕ) → Request
  sending : (id : String) (channel n : ℕ) → Request
  deleting : (id : String) (n : ℕ) → Request
  -- before the constraint is added
  pinning : (id : String) (service : Service) (n : ℕ) → Request
  -- before the inspection and the update of `scaleTo`
  scaling : (id : String) (n : ℕ) → Request
  updating : (id : String) (service : Service) (n : ℕ) → Request
  -- before the look into `keepAliveOps` for an operation, and before its start
  testing : (id : String) → Request
  starting : (id : String) → Request
  answered : (failed : Bool) → Request
  crashed : Request

-- Where a goroutine of `keepAliveAndScaleDown` stands, once its timer has fired.
pub data Timer : Type 0 where
  off : Timer
  -- before the look into `keepAliveOps`
  expired : (id : String) → Timer
  -- before `GetPublishedPort`, `ListenOnPort` and the requests to the other nodes
  publishing : (id : String) → Timer
  opening : (id : String) (port : ℕ) → Timer
  telling : (id : String) (port : ℕ) → Timer
  -- before the inspection and the update of `scaleTo`
  zeroing : (id : String) → Timer
  emptying : (id : String) (service : Service) → Timer
  -- before the deletion
  clearing : (id : String) → Timer
  ended : (failed : Bool) → Timer
  crashed : Timer

-- From the inspection on: the ladder of directions.
unfoldable pub decide : String → String → Service → ℕ → Request
decide id direction service current =
    if str_eq direction "over"
    then (if current == 1
        then Request.unpinning id service (u64 (current + 1))
        else Request.looking id (u64 (current + 1)))
    else (if str_eq direction "under"
        then (if ltb 1 current
            then (if current - 1 == 1
                then Request.pinning id service (current - 1)
                else Request.scaling id (current - 1))
            else Request.testing id)
        else Request.answered true)

module _ (D : Docker) (B : BpfMaps) where
  -- What follows an update of Docker.
  unfoldable pub onward {ℓ} :
      {P : Type ℓ} → Manager D B → Outcome D.World → (next failing crash : P) → Manager D B × P
  onward m (returns w false) next failing crash = (record m { world = w }, next)
  onward m (returns w true) next failing crash = (record m { world = w }, failing)
  onward m (blocks w) next failing crash = (record m { world = w }, failing)
  onward m panics next failing crash = (m, crash)

  unfoldable pub inspected : Manager D B → String → String → Request
  unfolding decide replicas_of
  inspected m id direction =
      if not m.node_info.autoscaler_manager
      then Request.answered true
      else elim (replicas_of (D.inspect m.world id)) [
        | none ↦ Request.answered true
        | some (service, current) ↦ decide id direction service current
      ]

  -- The next access of a request. One that sends stays where no goroutine waits.
  unfoldable pub request_turn : Manager D B → Request → Manager D B × Request
  unfolding onward inspected
  request_turn m Request.idle = (m, Request.idle)
  request_turn m (Request.asked id direction) = (m, inspected m id direction)
  request_turn m (Request.unpinning id service n) =
      onward m (update_service_constraints D m.world id service false) (Request.looking id n)
        (Request.answered true) Request.crashed
  request_turn m (Request.looking id n) = elim (m.keep_alive_ops id) [
    | none ↦ (m, Request.scaling id n)
    | some channel ↦ (m, Request.sending id channel n)
  ]
  request_turn m (Request.sending id channel n) = elim (m.waiting channel) [
    | none ↦ (m, Request.sending id channel n)
    | some _ ↦ (record m { waiting = set_waiting m.waiting channel none }, Request.deleting id n)
  ]
  request_turn m (Request.deleting id n) =
      (record m { keep_alive_ops = set_op m.keep_alive_ops id none }, Request.scaling id n)
  request_turn m (Request.pinning id service n) =
      onward m (update_service_constraints D m.world id service true) (Request.scaling id n)
        (Request.answered true) Request.crashed
  request_turn m (Request.scaling id n) = elim (D.inspect m.world id) [
    | none ↦ (m, Request.answered true)
    | some service ↦ (m, Request.updating id service n)
  ]
  request_turn m (Request.updating id service n) =
      onward m (set_replicas D m.world id service n) (Request.answered false)
        (Request.answered true) Request.crashed
  request_turn m (Request.testing id) = elim (m.keep_alive_ops id) [
    | none ↦ (m, Request.starting id)
    | some _ ↦ (m, Request.answered false)
  ]
  request_turn m (Request.starting id) = (
    record m {
      keep_alive_ops = set_op m.keep_alive_ops id (some m.next_channel);
      waiting = set_waiting m.waiting m.next_channel (some id);
      next_channel = suc m.next_channel;
    },
    Request.answered false,
  )
  request_turn m (Request.answered failed) = (m, Request.answered failed)
  request_turn m Request.crashed = (m, Request.crashed)

  -- The next access of a goroutine whose timer has fired.
  unfoldable pub timer_turn : Network → Manager D B → Timer → Manager D B × Timer
  unfolding onward
  timer_turn net m off = (m, off)
  timer_turn net m (expired id) = elim (m.keep_alive_ops id) [
    | none ↦ (m, ended false)
    | some _ ↦ (m, publishing id)
  ]
  timer_turn net m (publishing id) = elim (get_published_port D m.world id) [
    | none ↦ (m, ended true)
    | some port ↦ (m, opening id port)
  ]
  timer_turn net m (opening id port) =
      let (ports, failed) = listen_on_port B m.ports port id in
      (record m { ports = ports }, if failed then ended true else telling id port)
  timer_turn net m (telling id port) =
      if (send_listen_request_to_all_nodes net m.node_info port id).1
      then (m, ended true)
      else (m, zeroing id)
  timer_turn net m (zeroing id) = elim (D.inspect m.world id) [
    | none ↦ (m, ended true)
    | some service ↦ (m, emptying id service)
  ]
  timer_turn net m (emptying id service) =
      onward m (set_replicas D m.world id service 0) (clearing id) (ended true) Timer.crashed
  timer_turn net m (clearing id) =
      (record m { keep_alive_ops = set_op m.keep_alive_ops id none }, ended false)
  timer_turn net m (ended failed) = (m, ended failed)
  timer_turn net m Timer.crashed = (m, Timer.crashed)

  -- Requests by number, and the goroutines of channels whose timers have fired.
  pub record Goroutines : Type 0 where
    pub mem : Manager D B
    pub request : ℕ → Request
    pub timer : ℕ → Timer

  abbrev pub move_request : ℕ → Goroutines → Goroutines
  move_request i s =
      let (m, r) = request_turn s.mem (s.request i) in
      record { mem = m; request = set_at s.request i r; timer = s.timer }

  abbrev pub move_timer : Network → ℕ → Goroutines → Goroutines
  move_timer net c s =
      let (m, t) = timer_turn net s.mem (s.timer c) in
      record { mem = m; request = s.request; timer = set_at s.timer c t }

  -- A call that begins, the next access of a call, a timer that fires, or the next access of its
  -- goroutine.
  pub data Step (net : Network) (s : Goroutines) : Goroutines → Type 0 where
    ask :
        (i : ℕ) (id direction : String)
        → s.request i ≡ Request.idle
        → Step net s (record {
          mem = s.mem;
          request = set_at s.request i (Request.asked id direction);
          timer = s.timer;
        })
    go_on : (i : ℕ) → Step net s (move_request i s)
    fire :
        (c : ℕ) (id : String)
        → s.mem.waiting c ≡ some id
        → Step net s (record {
          mem = record s.mem { waiting = set_waiting s.mem.waiting c none };
          request = s.request;
          timer = set_at s.timer c (expired id);
        })
    tick : (c : ℕ) → Step net s (move_timer net c s)

  pub data Reach (net : Network) (s : Goroutines) : Goroutines → Type 0 where
    start : Reach net s s
    later : {t u : Goroutines} → Reach net s t → Step net t u → Reach net s u
