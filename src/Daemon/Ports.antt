-- ===== src/Daemon/Ports.antt =====
-- autoscaler/bpf_port_listen/listener.go: the ports of the services that are scaled to zero, and what a
-- sample of the classifier sets off. The proofs are in the modules below.
pub mod Consistency
pub mod Wake
pub mod Samples
pub mod Capacity
pub mod Race
use Prim.Native.String.{String}
use swarm_autoscaler.Base.{
  ℕ, Bool, true, false, Option, none, some, List, [], ◌∷◌, ◌++◌, ◌==◌, if◌then◌else◌, map, le_u32,
}
use swarm_autoscaler.Bpf.Maps.{BpfMaps, any}
use swarm_autoscaler.Daemon.Server.{
  SwarmNode, SwarmNodeInfo, Message, Network, scale_request, send, get_manager_node,
  send_remove_request_to_all_nodes,
}

-- `portToServiceID` and the map of the classifier
pub record Ports (B : BpfMaps) : Type 0 where
  pub services : ℕ → Option String
  pub ports_map : B.Map

-- What the handling of a sample does outside: requests, and calls of the scaler.
pub data Action : Type 0 where
  post : Message → Action
  scale_to : String → ℕ → Action

abbrev pub set_service : (ℕ → Option String) → ℕ → Option String → ℕ → Option String
set_service f port s j = if port == j then s else f j

-- The address of the manager; the empty text where none is found, since the error is only logged.
abbrev pub manager_ip : List SwarmNode → String
manager_ip nodes = elim (get_manager_node nodes) [ none ↦ "" | some m ↦ m.ip ]

module _ (B : BpfMaps) where
  -- The new state, and whether an error is returned.
  unfoldable pub listen_on_port : Ports B → ℕ → String → Ports B × Bool
  listen_on_port p port service_id =
      let q = record p { services = set_service p.services port (some service_id) } in
      elim (B.update q.ports_map port 1 any) [
        | none ↦ (q, true)
        | some m ↦ (record q { ports_map = m }, false)
      ]

  unfoldable pub remove_port : Ports B → ℕ → Ports B × Bool
  remove_port p port = elim (p.services port) [
    | none ↦ (p, true)
    | some _ ↦
        let q = record p { services = set_service p.services port none } in
        elim (B.delete q.ports_map port) [
          | none ↦ (q, true)
          | some m ↦ (record q { ports_map = m }, false)
        ]
  ]

  unfoldable pub scale_up : Network → SwarmNodeInfo → String → List Action
  scale_up net info service_id =
      if info.autoscaler_manager
      then scale_to service_id 1 ∷ []
      else post (scale_request (manager_ip info.other_nodes) service_id "over") ∷ []

  unfoldable pub wake : Network → SwarmNodeInfo → Ports B → ℕ → Ports B × List Action
  unfolding remove_port scale_up
  wake net info p port = elim (p.services port) [
    | none ↦ (p, [])
    | some service_id ↦ (
      (remove_port p port).0,
      map post (send_remove_request_to_all_nodes net info port).0 ++ scale_up net info service_id,
    )
  ]

  -- One sample in `listenForEvents`; one of fewer than four bytes is malformed.
  unfoldable pub handle_sample : Network → SwarmNodeInfo → Ports B → List ℕ → Ports B × List Action
  unfolding wake
  handle_sample net info p sample = elim (le_u32 sample) [
    | none ↦ (p, [])
    | some port ↦ wake net info p port
  ]
