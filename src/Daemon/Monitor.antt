-- ===== src/Daemon/Monitor.antt =====
-- One turn of the loop of `Monitor` in autoscaler/conc_req_monitoring/conc_req_monitoring.go: what a
-- message makes the goroutine of a container do.
use Prim.Native.String.{String}
use swarm_autoscaler.Base.{
  ℕ, ◌<◌, ◌^◌, ◌≡◌, ◌∙◌, ap, refl, Bool, true, false, none, some, List, if◌then◌else◌, leb,
}
use swarm_autoscaler.Bpf.Maps.{BpfMaps}
use swarm_autoscaler.Bpf.ConcReq
use swarm_autoscaler.Bpf.ConcReq.{event}
use swarm_autoscaler.Bpf.ConcReq.Monitor
use swarm_autoscaler.Bpf.ConcReq.Refinement.{Tracks}
use swarm_autoscaler.Daemon.Server.{
  SwarmNodeInfo, SwarmNode, Message, scale_request, get_manager_node,
}
use swarm_autoscaler.Daemon.ConcReq.{
  Listener, NamespaceContext, direction_of, add_namespace_to_scaling_map, dispatch,
}
use swarm_autoscaler.Daemon.ConcReq.Decoding.{dispatch-event, sample_of}
use swarm_autoscaler.Daemon.ConcReq.Registration.{reset-Tracks}

-- `scales` is the call of `ScaleService` for the container, `sends` the request to the manager node. The
-- errors of both are only printed. `stops` is the return where no manager node is found.
pub data Turn : Type 0 where
  scales : (direction : String) → Turn
  sends : Message → Turn
  stops : Turn

-- Whether the loop comes round again.
abbrev pub goes_on : Turn → Bool
goes_on stops = false
goes_on turn = true

unfoldable pub turn_of : SwarmNodeInfo → String → List ℕ → Turn
turn_of info service_id message =
    if info.autoscaler_manager
    then scales (direction_of message)
    else elim (get_manager_node info.other_nodes) [
      | none ↦ stops
      | some manager ↦ sends (scale_request manager.ip service_id (direction_of message))
    ]

module _ (B : BpfMaps) where
  -- After the sleep the namespace is given back to the kprobe.
  unfoldable pub rearm : Listener B → ℕ → Turn → Listener B
  rearm d netns stops = d
  rearm d netns turn = add_namespace_to_scaling_map B d netns

  unfoldable pub monitor_turn : SwarmNodeInfo → String → ℕ → Listener B → List ℕ → Listener B × Turn
  unfolding turn_of rearm
  monitor_turn info service_id netns d message =
      let turn = turn_of info service_id message in (rearm d netns turn, turn)

  turn_of-manager :
      (info : SwarmNodeInfo) (id : String) (message : List ℕ)
      → info.autoscaler_manager ≡ true
      → turn_of info id message ≡ scales (direction_of message)
  unfolding turn_of
  turn_of-manager info id message a = rw (a, turn_of) refl

  turn_of-worker :
      (info : SwarmNodeInfo) (id : String) (message : List ℕ) (node : SwarmNode)
      → info.autoscaler_manager ≡ false
      → get_manager_node info.other_nodes ≡ some node
      → turn_of info id message ≡ sends (scale_request node.ip id (direction_of message))
  unfolding turn_of
  turn_of-worker info id message node a b = rw (a, b, turn_of) refl

  -- What a message of the kprobe does on a manager.
  pub scales_event :
      (info : SwarmNodeInfo) (id : String) (d : Listener B) (l : ConcReq.Limits) (n value : ℕ)
      (cancelled : ℕ → Bool) (c : NamespaceContext) (m : Monitor.Monitor)
      → n < 2 ^ 32
      → d.contexts n ≡ some c
      → cancelled c.ctx ≡ false
      → Tracks B d.kernel n m
      → info.autoscaler_manager ≡ true
      → (dispatch d.contexts cancelled 0 (sample_of (event l n value))
          ≡ some (c.signal, (event l n value).message))
        × ((monitor_turn info id n d (event l n value).message).1
            ≡ scales (if leb value l.lower then "under" else "over"))
        × Tracks B
            (monitor_turn info id n d (event l n value).message).0.kernel
            n
            (record m { scaling = 0 })
  unfolding monitor_turn rearm
  scales_event info id d l n value cancelled c m h e k t a =
      let (arrives, means) = dispatch-event l n value d.contexts cancelled c h e k in
      (
        arrives,
        turn_of-manager info id _ a ∙ ap scales means,
        rw (turn_of-manager info id (event l n value).message a) (reset-Tracks B d n m t),
      )

  -- On a manager a message of the kprobe for a namespace that is tracked and whose monitor runs comes
  -- through the daemon as the call that scales in the direction that the kprobe meant, and the kprobe
  -- is armed again afterwards.
  monitor_turn_scales :
      (info : SwarmNodeInfo) (id : String) (d : Listener B) (l : ConcReq.Limits) (n value : ℕ)
      (cancelled : ℕ → Bool) (c : NamespaceContext) (m : Monitor.Monitor)
      → n < 2 ^ 32
      → d.contexts n ≡ some c
      → cancelled c.ctx ≡ false
      → Tracks B d.kernel n m
      → info.autoscaler_manager ≡ true
      → (message : List ℕ) × (dispatch d.contexts cancelled 0 (sample_of (event l n value))
          ≡ some (c.signal, message))
        × ((monitor_turn info id n d message).1
            ≡ scales (if leb value l.lower then "under" else "over"))
        × Tracks B (monitor_turn info id n d message).0.kernel n (record m { scaling = 0 })
  monitor_turn_scales info id d l n value cancelled c m h e k t a =
      let (arrives, turns, rearmed) = scales_event info id d l n value cancelled c m h e k t a in
      ((event l n value).message, arrives, turns, rearmed)

  -- On a worker that knows a manager node, a message of the kprobe for a namespace that is tracked and
  -- whose monitor runs comes through the daemon as the request to that node, for the service and in the
  -- direction that the kprobe meant, and the kprobe is armed again afterwards.
  pub monitor_turn_sends :
      (info : SwarmNodeInfo) (id : String) (d : Listener B) (l : ConcReq.Limits) (n value : ℕ)
      (cancelled : ℕ → Bool) (c : NamespaceContext) (m : Monitor.Monitor) (node : SwarmNode)
      → n < 2 ^ 32
      → d.contexts n ≡ some c
      → cancelled c.ctx ≡ false
      → Tracks B d.kernel n m
      → info.autoscaler_manager ≡ false
      → get_manager_node info.other_nodes ≡ some node
      → (message : List ℕ) × (dispatch d.contexts cancelled 0 (sample_of (event l n value))
          ≡ some (c.signal, message))
        × ((monitor_turn info id n d message).1
            ≡ sends (scale_request node.ip id (if leb value l.lower then "under" else "over")))
        × Tracks B (monitor_turn info id n d message).0.kernel n (record m { scaling = 0 })
  unfolding monitor_turn rearm
  monitor_turn_sends info id d l n value cancelled c m node h e k t a b =
      let (arrives, means) = dispatch-event l n value d.contexts cancelled c h e k in
      (
        (event l n value).message,
        arrives,
        turn_of-worker info id _ node a b ∙ ap (λ way. sends (scale_request node.ip id way)) means,
        rw (turn_of-worker info id (event l n value).message node a b) (reset-Tracks B d n m t),
      )
