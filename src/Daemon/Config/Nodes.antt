-- ===== src/Daemon/Config/Nodes.antt =====
-- The nodes that autoscaler/autoscaler/autoscaler.go makes of the configuration.
use Prim.Native.String.{String}
use swarm_autoscaler.Base.{ℕ, ◌≡◌, true, false, Option, some, List, ◌∷◌, arith}
use swarm_autoscaler.Daemon.Float.{Float}
use swarm_autoscaler.Daemon.Server.{SwarmNodeInfo, get_manager_node}
use swarm_autoscaler.Daemon.Config.{Config, managers_but, create_swarm_node_info}

module _ {F : Type 0} (fl : Float F) where
  -- A node that is no manager is never without a manager node to send its requests to, if the
  -- configuration names one: it is the first manager that the loop meets.
  worker_finds_manager :
      (c : Config F) (hostname name ip : String) (rest : List (String × String))
      (parse_duration : String → Option ℕ) (info : SwarmNodeInfo)
      → create_swarm_node_info fl (some hostname) parse_duration c ≡ some info
      → c.managers ≡ (name, ip) ∷ rest
      → info.autoscaler_manager ≡ false
      → get_manager_node info.other_nodes
        ≡ some (record { hostname = name; ip = ip; manager = true })
  unfolding create_swarm_node_info managers_but get_manager_node
  worker_finds_manager c hostname name ip rest parse_duration info h e f = ground (arith, h, e, f)
