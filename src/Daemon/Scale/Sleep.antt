-- ===== src/Daemon/Scale/Sleep.antt =====
-- From a request "under" of scale.go for the last replica over the keep-alive period to zero replicas.
use Prim.Native.String.{String}
use mathlib.Core.Path.{subst}
use text.Mathlib.TextEquality.{eq_iff}
use swarm_autoscaler.Base.{ℕ, suc, ◌≡◌, ◌≤◌, refl, true, false, none, some, arith}
use swarm_autoscaler.Bpf.Maps.{BpfMaps, any}
use swarm_autoscaler.Daemon.Server.{Network, send_listen_request_to_all_nodes}
use swarm_autoscaler.Daemon.Ports.{Ports, set_service, listen_on_port}
use swarm_autoscaler.Daemon.Scale.Client.{Docker, Service}
use swarm_autoscaler.Daemon.Scale.{
  Manager, returns, set_op, set_waiting, get_published_port, finish, scale_to_zero, expire,
  keep_alive_elapsed, scale_to, replicas_of, change_service_replicas,
}
use swarm_autoscaler.Daemon.Scale.Progress.{Accepts, scale_to_succeeds}
use swarm_autoscaler.Daemon.Scale.Replicas.{under_starts}
use swarm_autoscaler.Daemon.Scale.ZeroScale.{Watched, elapsed-Watched}

module _ (D : Docker) (B : BpfMaps) (net : Network) where
  -- What a timer needs to go through: a published port with room for it in the map of the classifier, the
  -- answers of the other nodes, and a Docker that takes the update.
  pub record CanSleep (m : Manager D B) (id : String) (service : Service) (current port : ℕ)
      : Type 0 where
    pub shown : replicas_of (D.inspect m.world id) ≡ some (service, current)
    pub published : get_published_port D m.world id ≡ some port
    pub room : (n : B.Map) × (B.update m.ports.ports_map port 1 any ≡ some n)
    pub answered : (send_listen_request_to_all_nodes net m.node_info port id).1 ≡ false
    pub accepts : Accepts D m.world id

  listened :
      (p : Ports B) (port : ℕ) (id : String) (n : B.Map)
      → B.update p.ports_map port 1 any ≡ some n
      → listen_on_port B p port id
        ≡ (record { services = set_service p.services port (some id); ports_map = n }, false)
  unfolding listen_on_port
  listened p port id n e = rw (e, listen_on_port) refl

  zeroed :
      (m : Manager D B) (id : String) (port : ℕ) (n : B.Map) (w : D.World)
      → B.update m.ports.ports_map port 1 any ≡ some n
      → (send_listen_request_to_all_nodes net m.node_info port id).1 ≡ false
      → scale_to D m.world id 0 ≡ returns w false
      → scale_to_zero D B net m id port
        ≡ returns
            (record m {
              world = w;
              ports = record {
                services = set_service m.ports.services port (some id);
                ports_map = n;
              };
              keep_alive_ops = set_op m.keep_alive_ops id none;
            })
            false
  unfolding scale_to_zero finish
  zeroed m id port n w e f g = simp (listened m.ports port id n e, f, g, scale_to_zero, finish)

  elapsed_succeeds :
      (m : Manager D B) (id : String) (channel current port : ℕ) (service : Service)
      → m.waiting channel ≡ some id
      → m.keep_alive_ops id ≡ some channel
      → CanSleep m id service current port
      → (m' : Manager D B) × (keep_alive_elapsed D B net m channel ≡ returns m' false)
  unfolding keep_alive_elapsed expire
  elapsed_succeeds m id channel current port service e f c =
      let (w, scaled, _) = scale_to_succeeds D m.world id service current 0 c.shown c.accepts in
      let (n, update) = c.room in
      (
        record m {
          world = w;
          ports = record { services = set_service m.ports.services port (some id); ports_map = n };
          keep_alive_ops = set_op m.keep_alive_ops id none;
          waiting = set_waiting m.waiting channel none;
        },
        rw (e, f, c.published, keep_alive_elapsed)
            (zeroed (record m { waiting = set_waiting m.waiting channel none }) id port n w update
              c.answered scaled),
      )

  -- On the manager a service of at most one replica without a keep-alive operation goes to sleep after a
  -- request "under": the request leaves Docker as it is and starts an operation with a goroutine, and when
  -- the timer of this goroutine fires, the service is scaled to zero without an error and is watched for
  -- packets, if the service publishes a port for which the classifier has room, the other nodes answer
  -- and Docker takes the update.
  pub idle_service_sleeps :
      (m : Manager D B) (id : String) (current port : ℕ) (service : Service)
      → m.node_info.autoscaler_manager ≡ true
      → current ≤ 1
      → m.keep_alive_ops id ≡ none
      → CanSleep m id service current port
      → (m1 : Manager D B) × (change_service_replicas D B m id "under" ≡ returns m1 false)
        × (m1.world ≡ m.world)
        × (m1.keep_alive_ops id ≡ some m.next_channel)
        × (m2 : Manager D B) × (keep_alive_elapsed D B net m1 m.next_channel ≡ returns m2 false)
        × Watched D B net m1 id port m2
  idle_service_sleeps m id current port service a k none_yet c =
      let m1 : Manager D B = record m {
        keep_alive_ops = set_op m.keep_alive_ops id (some m.next_channel);
        waiting = set_waiting m.waiting m.next_channel (some id);
        next_channel = suc m.next_channel;
      } in
      let waits : m1.waiting m.next_channel ≡ some id = ground arith in
      let kept : m1.keep_alive_ops id ≡ some m.next_channel = ground (arith, eq_iff id id) in
      let (m2, done) =
        elapsed_succeeds m1 id m.next_channel current port service waits kept (record {
          shown = c.shown;
          published = c.published;
          room = c.room;
          answered = c.answered;
          accepts = c.accepts;
        }) in
      let (published, watched) = elapsed-Watched D B net m1 m2 id m.next_channel waits kept done in
      let same : published ≡ port = ground (arith, watched.published, c.published) in
      (
        m1,
        under_starts D B m id service current a c.shown k none_yet,
        refl,
        kept,
        m2,
        done,
        subst (λ x. Watched D B net m1 id x m2) same watched,
      )
