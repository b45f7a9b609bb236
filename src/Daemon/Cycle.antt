-- ===== src/Daemon/Cycle.antt =====
-- The parts together: from the connections of a container to a replica more, and from the end of a
-- keep-alive period over the first packet back to a running service.
use Prim.Native.String.{String}
use swarm_autoscaler.Base.{
  ℕ, ◌+◌, ◌*◌, ◌^◌, ◌<◌, ◌≡◌, ◌≢◌, ◌∙◌, refl, sym, ap, Bool, true, false, none, some, List, [], ◌∷◌,
  ◌++◌, arith, map, length, le_bytes, le_u32-le_bytes,
}
use swarm_autoscaler.Bpf.Maps.{BpfMaps}
use swarm_autoscaler.Bpf.Kernel.{Offsets}
use swarm_autoscaler.Bpf.ConcReq
use swarm_autoscaler.Bpf.ConcReq.{Call, event}
use swarm_autoscaler.Bpf.ConcReq.Monitor
use swarm_autoscaler.Bpf.ConcReq.Debounce.{AllOutside, counted, run-counted}
use swarm_autoscaler.Bpf.ConcReq.Frame.{messages_of}
use swarm_autoscaler.Bpf.ConcReq.Refinement.{Tracks}
use swarm_autoscaler.Bpf.ConcReq.Trace.{IsReady, probes, states_at, probes-Holds}
use swarm_autoscaler.Bpf.ConcReq.Safety.{probes_fire}
use swarm_autoscaler.Bpf.Classifier.{Packet, port_classifier, tc_act_ok}
use swarm_autoscaler.Bpf.Classifier.Headers.{AllBytes, IsTcp, port_classifier_reports}
use swarm_autoscaler.Daemon.Server.{SwarmNodeInfo, Network, send_remove_request_to_all_nodes}
use swarm_autoscaler.Daemon.Ports
use swarm_autoscaler.Daemon.Ports.{handle_sample, post, remove_port, scale_up}
use swarm_autoscaler.Daemon.Ports.Wake.{handle_sample-wake, wake-some}
use swarm_autoscaler.Daemon.ConcReq.{Listener, NamespaceContext, dispatch}
use swarm_autoscaler.Daemon.ConcReq.Decoding.{sample_of}
use swarm_autoscaler.Daemon.Monitor.{monitor_turn, scales, scales_event}
use swarm_autoscaler.Daemon.Scale.{
  Manager, returns, keep_alive_elapsed, get_published_port, scale_to, u64, replicas_of,
  change_service_replicas,
}
use swarm_autoscaler.Daemon.Scale.Client.{Docker, Service}
use swarm_autoscaler.Daemon.Scale.Outcomes.{Shows}
use swarm_autoscaler.Daemon.Scale.Progress.{Accepts, IsAttended, scale_to_succeeds, over_succeeds}
use swarm_autoscaler.Daemon.Scale.ZeroScale.{elapsed-Watched}
use swarm_autoscaler.Daemon.Containers.{find_service_id_from_container, scale_service}

module _ (D : Docker) (B : BpfMaps) (net : Network) where
  scale_up-manager :
      (id : String) (info : SwarmNodeInfo)
      → info.autoscaler_manager ≡ true
      → scale_up B net info id ≡ Ports.scale_to id 1 ∷ []
  unfolding scale_up
  scale_up-manager id info manager = simp manager

  -- A service that its keep-alive timer has scaled to zero comes back with a TCP packet to its published
  -- port, in IPv4 without IP options and no later fragment, on a node that is a manager: the classifier
  -- reports the port, the sample makes the daemon remove the port, tell the other nodes and set the
  -- replicas to 1, and where Docker takes the update the service shows 1 replica.
  pub zero_wakes :
      (m m' : Manager D B) (id : String) (channel : ℕ) (info : SwarmNodeInfo) (packet : Packet)
      (hi lo : ℕ)
      → m.waiting channel ≡ some id
      → m.keep_alive_ops id ≡ some channel
      → keep_alive_elapsed D B net m channel ≡ returns m' false
      → get_published_port D m.world id ≡ some (256 * hi + lo)
      → AllBytes packet
      → hi < 256
      → lo < 256
      → IsTcp packet hi lo
      → info.autoscaler_manager ≡ true
      → Accepts D m'.world id
      → (port_classifier B m'.ports.ports_map packet ≡ some ((256 * hi + lo) ∷ [], tc_act_ok))
        × (handle_sample B net info m'.ports (le_bytes 8 (256 * hi + lo)) ≡ (
          (remove_port B m'.ports (256 * hi + lo)).0,
          map post (send_remove_request_to_all_nodes net info (256 * hi + lo)).0
              ++ Ports.scale_to id 1 ∷ [],
        ))
        × ((w : D.World) × (scale_to D m'.world id 1 ≡ returns w false) × Shows (D.inspect w id) 1)
  zero_wakes m m' id channel info packet hi lo e f h p bytes k l tcp manager accepts =
      let port = 256 * hi + lo in
      let (published, watched) = elapsed-Watched D B net m m' id channel e f h in
      let same : published ≡ port = ground (arith, watched.published, p) in
      let named : m'.ports.services port ≡ some id = rw (sym same) watched.named in
      let listened : B.lookup m'.ports.ports_map port ≡ some 1 = rw (sym same) watched.listened in
      let (service, zero_replicas) = watched.scaled in
      (
        ground
            (arith, listened, port_classifier_reports B m'.ports.ports_map packet hi lo bytes tcp),
        handle_sample-wake B net info m'.ports (le_bytes 8 port) port
              (le_u32-le_bytes 4 port [] (omega arith))
            ∙ wake-some B net info m'.ports port id named
            ∙ ap
                (λ calls. (
                  (remove_port B m'.ports port).0,
                  map post (send_remove_request_to_all_nodes net info port).0 ++ calls,
                ))
                (scale_up-manager id info manager),
        scale_to_succeeds D m'.world id service 0 1 zero_replicas accepts,
      )

module _ (D : Docker) (B : BpfMaps) (o : Offsets) where
  scale_service-over :
      (m m' : Manager D B) (container id : String)
      → find_service_id_from_container D m.world container ≡ some id
      → change_service_replicas D B m id "over" ≡ returns m' false
      → scale_service D B m container "over" ≡ returns m' false
  unfolding scale_service
  scale_service-over m m' container id e h = rw (e, scale_service) h

  -- On the manager, connections that keep a container out of its upper limit bring its service one more
  -- replica: after as many firings in its namespace as the buffer lacks, the last of which finds more
  -- connections than the lower limit, a message is there; it comes through the daemon to the monitor
  -- of the container, which scales its service "over", and this goes through if the service pins no
  -- handler node, Docker takes the update and a keep-alive operation is attended. The kprobe is then
  -- armed again, with the count of the firings and an empty buffer.
  pub busy_service_grows :
      (d : Listener B) (mgr : Manager D B) (cs : List Call) (l : ConcReq.Limits)
      (m : Monitor.Monitor) (n x : ℕ) (xs : List ℕ) (cancelled : ℕ → Bool) (c : NamespaceContext)
      (container id : String) (service : Service) (current : ℕ)
      → IsReady B d.kernel n l
      → Tracks B d.kernel n m
      → states_at o n cs ≡ x ∷ xs
      → m.scaling ≢ 1
      → l.buffer_length < 2 ^ 32
      → m.buffer + length (x ∷ xs) ≡ l.buffer_length
      → AllOutside l m.count (x ∷ xs)
      → l.lower < counted l m.count (x ∷ xs)
      → n < 2 ^ 32
      → d.contexts n ≡ some c
      → cancelled c.ctx ≡ false
      → mgr.node_info.autoscaler_manager ≡ true
      → find_service_id_from_container D mgr.world container ≡ some id
      → replicas_of (D.inspect mgr.world id) ≡ some (service, current)
      → service.spec.labels "autoscaler.handlerNode" ≡ none
      → Accepts D mgr.world id
      → IsAttended D B mgr id
      → (fired : Listener B) × (fired ≡ record d { kernel = probes B o d.kernel cs })
        × (message : List ℕ) × (messages_of n fired.kernel.events
            ≡ messages_of n d.kernel.events ++ message ∷ [])
        × (dispatch fired.contexts cancelled 0 (sample_of (record { netns = n; message = message }))
            ≡ some (c.signal, message))
        × ((monitor_turn B mgr.node_info id n fired message).1 ≡ scales "over")
        × Tracks B
            (monitor_turn B mgr.node_info id n fired message).0.kernel
            n
            (record { count = counted l m.count (x ∷ xs); buffer = 0; scaling = 0 })
        × (mgr' : Manager D B) × (scale_service D B mgr container "over" ≡ returns mgr' false)
        × Shows (D.inspect mgr'.world id) (u64 (current + 1))
  unfolding event
  busy_service_grows d mgr cs l m n x xs cancelled c container id service current ready tracked seen
        off fits exact out above small known runs manager found shown free accepts attended =
      let fired : Listener B = record d { kernel = probes B o d.kernel cs } in
      let value = counted l m.count (x ∷ xs) in
      let (sent, raised, emptied) =
        probes_fire B o n l d.kernel cs m x xs ready tracked seen off fits exact out in
      let after = probes-Holds B o n l d.kernel cs m ready tracked in
      let t : Tracks B fired.kernel n (record { count = value; buffer = 0; scaling = 1 }) = record {
        at_count =
            after.tracked.at_count
            ∙ ap some
                (ap (λ states. (Monitor.run l m states).0.count) seen ∙ run-counted l m (x ∷ xs));
        at_buffer = emptied;
        at_scaling = raised;
      } in
      let (arrives, turns, rearmed) =
        scales_event B mgr.node_info id fired l n value cancelled c _ small known runs t manager in
      let (mgr', goes_through, shows, ended) =
        over_succeeds D B mgr id service current manager shown free accepts attended in
      (
        fired,
        refl,
        Monitor.message l value,
        sent,
        arrives,
        turns ∙ ap scales (ground arith),
        rearmed,
        mgr',
        scale_service-over mgr mgr' container id found goes_through,
        shows,
      )
