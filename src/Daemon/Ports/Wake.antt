-- ===== src/Daemon/Ports/Wake.antt =====
-- From a packet to the call that scales its service up: tc-port-monitor.c and listener.go together.
use Prim.Native.String.{String}
use swarm_autoscaler.Base.{
  ℕ, ◌+◌, ◌*◌, ◌<◌, ◌≡◌, ◌∙◌, refl, none, some, List, [], ◌∷◌, ◌++◌, arith, if◌then◌else◌, map,
  le_u32, le_bytes, le_u32-le_bytes, inl, inr, Option-cases,
}
use swarm_autoscaler.Bpf.Maps.{BpfMaps}
use swarm_autoscaler.Bpf.Classifier.{Packet, port_classifier, tc_act_ok}
use swarm_autoscaler.Bpf.Classifier.Headers.{AllBytes, IsTcp, port_classifier_reports}
use swarm_autoscaler.Daemon.Server.{
  SwarmNodeInfo, Network, scale_request, send_remove_request_to_all_nodes,
}
use swarm_autoscaler.Daemon.Ports.{
  Ports, post, scale_to, manager_ip, remove_port, scale_up, wake, handle_sample,
}
use swarm_autoscaler.Daemon.Ports.Consistency.{IsConsistent}

pub remove_port_gone :
    (B : BpfMaps) (p : Ports B) (port : ℕ) → (remove_port B p port).0.services port ≡ none
unfolding remove_port
remove_port_gone B p port = ground arith

module _ (B : BpfMaps) (net : Network) (info : SwarmNodeInfo) where
  pub wake-none :
      (p : Ports B) (port : ℕ) → p.services port ≡ none → wake B net info p port ≡ (p, [])
  unfolding wake
  wake-none p port e = rw (e, wake) refl

  pub wake-some :
      (p : Ports B) (port : ℕ) (s : String)
      → p.services port ≡ some s
      → wake B net info p port ≡ (
        (remove_port B p port).0,
        map post (send_remove_request_to_all_nodes net info port).0 ++ scale_up B net info s,
      )
  unfolding wake
  wake-some p port s e = rw (e, wake) refl

  pub handle_sample-none :
      (p : Ports B) (sample : List ℕ)
      → le_u32 sample ≡ none
      → handle_sample B net info p sample ≡ (p, [])
  unfolding handle_sample
  handle_sample-none p sample e = rw (e, handle_sample) refl

  pub handle_sample-wake :
      (p : Ports B) (sample : List ℕ) (port : ℕ)
      → le_u32 sample ≡ some port
      → handle_sample B net info p sample ≡ wake B net info p port
  unfolding handle_sample
  handle_sample-wake p sample port e = rw (e, handle_sample) refl

  wake_once :
      (p : Ports B) (port : ℕ)
      → wake B net info (wake B net info p port).0 port ≡ ((wake B net info p port).0, [])
  wake_once p port = elim (Option-cases (p.services port)) [
    | inl e ↦ rw (wake-none p port e) (wake-none p port e)
    | inr (s, e) ↦ rw (wake-some p port s e) (wake-none _ port (remove_port_gone B p port))
  ]

  -- A port that has set off its service does nothing when its sample comes again, whatever the maps
  -- answered the first time: each registration of a port wakes its service once.
  handle_sample_once :
      (p : Ports B) (sample : List ℕ)
      → handle_sample B net info (handle_sample B net info p sample).0 sample
        ≡ ((handle_sample B net info p sample).0, [])
  handle_sample_once p sample = elim (Option-cases (le_u32 sample)) [
    | inl e ↦ rw (handle_sample-none p sample e) (handle_sample-none p sample e)
    | inr (port, e) ↦
        rw (handle_sample-wake p sample port e)
          (handle_sample-wake _ sample port e ∙ wake_once p port)
  ]

  -- A TCP packet, in IPv4 without IP options, to a port that the daemon listens on is reported by the classifier, and its sample
  -- makes the daemon remove the port and, after the other nodes are told, scale the service up: to 1 by
  -- itself on a manager, by a request to the manager node elsewhere.
  packet_wakes :
      (p : Ports B) (packet : Packet) (hi lo : ℕ) (s : String)
      → AllBytes packet
      → hi < 256
      → lo < 256
      → IsTcp packet hi lo
      → IsConsistent B p
      → p.services (256 * hi + lo) ≡ some s
      → (port_classifier B p.ports_map packet ≡ some ((256 * hi + lo) ∷ [], tc_act_ok))
        × (handle_sample B net info p (le_bytes 8 (256 * hi + lo)) ≡ (
          (remove_port B p (256 * hi + lo)).0,
          map post (send_remove_request_to_all_nodes net info (256 * hi + lo)).0
              ++ (if info.autoscaler_manager
                  then scale_to s 1 ∷ []
                  else post (scale_request (manager_ip info.other_nodes) s "over") ∷ []),
        ))
  unfolding scale_up
  packet_wakes p packet hi lo s bytes h k t c e =
      let port = 256 * hi + lo in
      (
        ground (arith, c port, port_classifier_reports B p.ports_map packet hi lo bytes t),
        handle_sample-wake p (le_bytes 8 port) port (le_u32-le_bytes 4 port [] (omega arith))
            ∙ wake-some p port s e,
      )
