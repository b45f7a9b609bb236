-- ===== src/Daemon/Server.antt =====
-- autoscaler/server/server.go: the nodes of the swarm, requests between them and the HTTP handlers. The
-- network and the JSON decoder are parameters. The proofs are in the modules below.
pub mod Requests
pub mod Handlers
use Prim.Native.String.{String}
use text.Mathlib.Text.{◌==◌ as str_eq}
use swarm_autoscaler.Base.{
  ℕ, Bool, true, false, not, Option, none, some, List, [], ◌∷◌, if◌then◌else◌, map,
}

pub record SwarmNode : Type 0 where
  pub hostname : String
  pub ip : String
  pub manager : Bool

-- `keep_alive` in nanoseconds
pub record SwarmNodeInfo : Type 0 where
  pub autoscaler_manager : Bool
  pub other_nodes : List SwarmNode
  pub keep_alive : ℕ

-- The bodies of `http.Post`, with the address that they go to.
pub data Message : Type 0 where
  scale_request : (ip service_id direction : String) → Message
  listen_request : (ip : String) (port : ℕ) (service_id : String) → Message
  remove_request : (ip : String) (port : ℕ) → Message

-- What `http.Post` gives: `none` is an error, `some` the status of the reply.
abbrev pub Network : Type 0
Network = Message → Option ℕ

-- `SendScaleRequest`, `SendListenRequest` and `SendRemoveRequest`: whether an error is returned. The
-- status of the reply is not read.
unfoldable pub send : Network → Message → Bool
send post m = elim (post m) [ none ↦ true | some status ↦ false ]

unfoldable pub get_manager_node : List SwarmNode → Option SwarmNode
get_manager_node [] = none
get_manager_node (node ∷ nodes) = if node.manager then some node else get_manager_node nodes

-- The requests that are made, in order, and whether an error is returned.
unfoldable pub send_all : Network → (SwarmNode → Message) → List SwarmNode → List Message × Bool
unfolding send
send_all post message [] = ([], false)
send_all post message (node ∷ nodes) =
    let rest = send_all post message nodes in
    if send post (message node) then (message node ∷ [], true) else (message node ∷ rest.0, rest.1)

unfoldable pub send_listen_request_to_all_nodes :
    Network → SwarmNodeInfo → ℕ → String → List Message × Bool
unfolding send_all
send_listen_request_to_all_nodes post info port service_id =
    send_all post (λ node. listen_request node.ip port service_id) info.other_nodes

unfoldable pub send_remove_request_to_all_nodes : Network → SwarmNodeInfo → ℕ → List Message × Bool
unfolding send_all
send_remove_request_to_all_nodes post info port =
    send_all post (λ node. remove_request node.ip port) info.other_nodes

pub record Request : Type 0 where
  pub method : String
  pub body : List ℕ

-- The three handlers differ in what they decode and call. `call` returns the new state and whether
-- there was an error; the result is the new state and the status of the reply.
unfoldable pub handle {ℓ κ} :
    {S : Type ℓ} {A : Type κ} → (List ℕ → Option A) → (S → A → S × Bool) → S → Request → S × ℕ
handle decode call s r = if not (str_eq r.method "POST") then (s, 405) else elim (decode r.body) [
  | none ↦ (s, 400)
  | some a ↦ let (t, failed) = call s a in (t, if failed then 500 else 200)
]

module _ {ℓ} {S : Type ℓ} where
  unfoldable pub scaler_handler :
      (List ℕ → Option (String × String)) → (S → String → String → S × Bool) → S → Request → S × ℕ
  unfolding handle
  scaler_handler decode scale_func = handle decode (λ s a. scale_func s a.0 a.1)

  unfoldable pub listen_port_handler :
      (List ℕ → Option (ℕ × String)) → (S → ℕ → String → S × Bool) → S → Request → S × ℕ
  unfolding handle
  listen_port_handler decode listen_func = handle decode (λ s a. listen_func s a.0 a.1)

  unfoldable pub remove_port_handler :
      (List ℕ → Option ℕ) → (S → ℕ → S × Bool) → S → Request → S × ℕ
  unfolding handle
  remove_port_handler decode remove_func = handle decode remove_func
