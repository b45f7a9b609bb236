-- ===== src/Daemon/Server/Requests.antt =====
-- What the loops over the nodes in server.go send.
use swarm_autoscaler.Base.{
  ◌≡◌, refl, true, false, none, some, List, [], ◌∷◌, ◌++◌, map, arith, inl, inr, Bool-cases,
}
use swarm_autoscaler.Daemon.Server.{SwarmNode, Message, Network, send, send_all, get_manager_node}

abbrev pub AllAnswer : Network → List Message → Type 0
AllAnswer post [] = Unit {0}
AllAnswer post (m ∷ ms) = (send post m ≡ false) × AllAnswer post ms

-- Without an error every node was asked, in order, and every request was answered.
send_all_succeeds :
    (post : Network) (message : SwarmNode → Message) (nodes : List SwarmNode)
    → (send_all post message nodes).1 ≡ false
    → ((send_all post message nodes).0 ≡ map message nodes) × AllAnswer post (map message nodes)
unfolding send_all
send_all_succeeds post message [] h = (refl, tt)
send_all_succeeds post message (node ∷ nodes) h =
    ground (arith, send_all_succeeds post message nodes)

-- Where the requests to all nodes end with an error, the nodes up to the first that did not answer were
-- asked, and none behind it.
pub send_all_fails :
    (post : Network) (message : SwarmNode → Message) (nodes : List SwarmNode)
    → (send_all post message nodes).1 ≡ true
    → (before : List SwarmNode) × (node : SwarmNode) × (behind : List SwarmNode) × (nodes
        ≡ before ++ node ∷ behind)
      × ((send_all post message nodes).0 ≡ map message before ++ message node ∷ [])
      × AllAnswer post (map message before)
      × (send post (message node) ≡ true)
unfolding send_all
send_all_fails post message [] h = absurd (cc)
send_all_fails post message (node ∷ nodes) h = elim (Bool-cases (send post (message node))) [
  | inl fails ↦ ([], node, nodes, refl, ground arith, tt, fails)
  | inr answers ↦
      let (before, last, behind, split, asked, fine, stops) =
        send_all_fails post message nodes (ground arith) in
      (node ∷ before, last, behind, ground arith, ground arith, (answers, fine), stops)
]

-- The manager node that is found is the first of the list that is one.
get_manager_node_first :
    (nodes : List SwarmNode) (m : SwarmNode)
    → get_manager_node nodes ≡ some m
    → (before behind : List SwarmNode) × (nodes ≡ before ++ m ∷ behind)
      × (m.manager ≡ true)
      × (get_manager_node before ≡ none)
unfolding get_manager_node
get_manager_node_first [] m h = absurd (cc)
get_manager_node_first (n ∷ nodes) m h = elim (Bool-cases n.manager) [
  | inl yes_manager ↦ ([], nodes, ground arith, ground arith, refl)
  | inr other ↦
      let (before, behind, split, is_manager, none_before) =
        get_manager_node_first nodes m (ground arith) in
      (n ∷ before, behind, ground arith, is_manager, ground arith)
]
