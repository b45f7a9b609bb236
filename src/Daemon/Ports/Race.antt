-- ===== src/Daemon/Ports/Race.antt =====
-- `ListenOnPort` and `RemovePort` of autoscaler/bpf_port_listen/listener.go in two goroutines: the table of
-- the daemon and the map of the classifier are changed by one access each, without a lock around both.
use Prim.Native.String.{String}
use swarm_autoscaler.Base.{ℕ, ◌≡◌, ◌∙◌, refl, Bool, true, false, none, some, List, [], ◌∷◌, arith}
use swarm_autoscaler.Bpf.Maps.{BpfMaps, any}
use swarm_autoscaler.Daemon.Ports.{Ports, set_service}

-- Before `portToServiceID.Store`, before `PortsMap.Update`, and after the return.
pub data Listening : Type 0 where
  storing : (port : ℕ) (service_id : String) → Listening
  updating : (port : ℕ) → Listening
  listened : (failed : Bool) → Listening

-- Before `portToServiceID.Load`, before its `Delete`, before `PortsMap.Delete`, and after the return.
pub data Removing : Type 0 where
  loading : (port : ℕ) → Removing
  forgetting : (port : ℕ) → Removing
  deleting : (port : ℕ) → Removing
  removed : (failed : Bool) → Removing

module _ (B : BpfMaps) where
  unfoldable pub listen_turn : Ports B → Listening → Ports B × Listening
  listen_turn p (storing port service_id) =
      (record p { services = set_service p.services port (some service_id) }, updating port)
  listen_turn p (updating port) = elim (B.update p.ports_map port 1 any) [
    | none ↦ (p, listened true)
    | some m ↦ (record p { ports_map = m }, listened false)
  ]
  listen_turn p (listened failed) = (p, listened failed)

  unfoldable pub remove_turn : Ports B → Removing → Ports B × Removing
  remove_turn p (loading port) = elim (p.services port) [
    | none ↦ (p, removed true)
    | some _ ↦ (p, forgetting port)
  ]
  remove_turn p (forgetting port) =
      (record p { services = set_service p.services port none }, deleting port)
  remove_turn p (deleting port) = elim (B.delete p.ports_map port) [
    | none ↦ (p, removed true)
    | some m ↦ (record p { ports_map = m }, removed false)
  ]
  remove_turn p (removed failed) = (p, removed failed)

  -- The two goroutines, and whose turn it is: the one that listens, or the one that removes.
  pub record Pair : Type 0 where
    pub ports : Ports B
    pub listening : Listening
    pub removing : Removing

  pub data Mover : Type 0 where
    listens : Mover
    removes : Mover

  abbrev pub take_turn : Pair → Mover → Pair
  take_turn s listens =
      let (p, l) = listen_turn s.ports s.listening in
      record { ports = p; listening = l; removing = s.removing }
  take_turn s removes =
      let (p, r) = remove_turn s.ports s.removing in
      record { ports = p; listening = s.listening; removing = r }

  abbrev pub take_turns : Pair → List Mover → Pair
  take_turns s [] = s
  take_turns s (t ∷ ts) = take_turns (take_turn s t) ts

  loads_some :
      (p : Ports B) (port : ℕ) (s : String)
      → p.services port ≡ some s
      → remove_turn p (loading port) ≡ (p, forgetting port)
  unfolding remove_turn
  loads_some p port s e = rw (e, remove_turn) refl

  -- A port that is removed after a packet and listened on again at the same time can end in the table of
  -- the daemon and not in the map of the classifier, although neither call fails: no packet wakes its
  -- service then. The port has an entry in both tables at first.
  pub deaf_port :
      (p : Ports B) (port value : ℕ) (old service_id : String)
      → p.services port ≡ some old
      → B.lookup p.ports_map port ≡ some value
      → (turns : List Mover) × let s =
            take_turns
              (record { ports = p; listening = storing port service_id; removing = loading port })
              turns in
          (s.listening ≡ listened false)
          × (s.removing ≡ removed false)
          × (s.ports.services port ≡ some service_id)
          × (B.lookup s.ports.ports_map port ≡ none)
  unfolding listen_turn remove_turn
  deaf_port p port value old service_id e f =
      let (m, g) = B.update_present p.ports_map port 1 value f in
      let there : B.lookup m port ≡ some 1 =
        B.lookup-update p.ports_map port 1 any m port g ∙ ground arith in
      let (n, h) = B.delete_present m port 1 there in
      (
        removes ∷ removes ∷ listens ∷ listens ∷ removes ∷ [],
        rw (loads_some p port old e, g, h)
            (refl, refl, ground arith, B.lookup-delete m port n port h ∙ ground arith),
      )
