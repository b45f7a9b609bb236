-- ===== src/Daemon/Ports/Capacity.antt =====
-- The room in the map of the classifier (autoscaler/bpf_port_listen/bpf/tc-port-monitor.c) for the ports of
-- listener.go.
use Prim.Native.String.{String}
use swarm_autoscaler.Base.{
  ℕ, ◌≤◌, ◌≡◌, refl, not, ◌&&◌, none, some, [], ◌∷◌, arith, ltb, length, inl, inr, Bool-cases,
  Option-cases,
}
use swarm_autoscaler.Bpf.Maps.{BpfMaps, any}
use swarm_autoscaler.Bpf.Table.{table, Entries, find, replace}
use swarm_autoscaler.Daemon.Ports.{Ports, listen_on_port}
use swarm_autoscaler.Daemon.Ports.Consistency.{has}

abbrev pub max_ports : ℕ
max_ports = 256

-- `ports_map` with its 256 entries, as a hash map of a concrete shape.
abbrev pub ports_map : BpfMaps
ports_map = table max_ports

length-replace : (m : Entries) (k v : ℕ) → length (replace m k v) ≡ length m
length-replace [] k v = refl
length-replace ((j, w) ∷ m) k v = ground (arith, length-replace m k v)

-- With a map of the classifier that has at most its 256 entries, `ListenOnPort` fails exactly where the map
-- is full and has no entry for the port; the map has at most 256 entries afterwards; and the port gets its
-- service in the table of the daemon in either case, even where the classifier does not report it.
pub listen_on_port_room :
    (p : Ports ports_map) (port : ℕ) (service_id : String)
    → length p.ports_map ≤ max_ports
    → ((listen_on_port ports_map p port service_id).1 ≡ (
        not (has (ports_map.lookup p.ports_map port)) && not (ltb (length p.ports_map) max_ports)))
      × (length (listen_on_port ports_map p port service_id).0.ports_map ≤ max_ports)
      × ((listen_on_port ports_map p port service_id).0.services port ≡ some service_id)
unfolding listen_on_port
listen_on_port_room p port service_id h =
    let m = p.ports_map in
    elim (Option-cases (find m port)) [
      | inl e ↦ elim (Bool-cases (ltb (length m) max_ports)) [
        | inl f ↦
            let taken : ports_map.update m port 1 any ≡ some ((port, 1) ∷ m) =
              ground (arith, e, f) in
            rw (taken, listen_on_port) (ground (arith, e, f), ground (arith, f), ground arith)
        | inr f ↦
            let refused : ports_map.update m port 1 any ≡ none = ground (arith, e, f) in
            rw (refused, listen_on_port) (ground (arith, e, f), h, ground arith)
      ]
      | inr (v, e) ↦
          let taken : ports_map.update m port 1 any ≡ some (replace m port 1) = ground (arith, e) in
          rw (taken, listen_on_port)
            (ground (arith, e), ground (arith, h, length-replace m port 1), ground arith)
    ]
