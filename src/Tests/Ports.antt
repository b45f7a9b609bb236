-- ===== src/Tests/Ports.antt =====
-- listener.go: a service on port 8080, and the packet of the classifier's tests.
use swarm_autoscaler.Base.{
  ◌≤◌, false, not, ◌&&◌, List, arith, ltb, length, ◌≡◌, refl, true, none, some, [], ◌∷◌, ◌==◌,
  if◌then◌else◌, le_bytes,
}
use swarm_autoscaler.Bpf.Table.{table}
use swarm_autoscaler.Daemon.Server.{SwarmNodeInfo, Network, send_remove_request_to_all_nodes}
use swarm_autoscaler.Daemon.Ports.{Ports, scale_to, listen_on_port, handle_sample}
use swarm_autoscaler.Daemon.Ports.Consistency.{has}
use swarm_autoscaler.Daemon.Ports.Capacity.{ports_map, listen_on_port_room}
use swarm_autoscaler.Daemon.Ports.Race.{
  storing, listened, loading, removed, Mover, take_turns, deaf_port,
}
use swarm_autoscaler.Daemon.Ports.Samples.{
  PortReading, closed, sample, listen_for_port_events, Woken, one_wake,
}

abbrev pub no_ports : Ports (table 4)
no_ports = record { services = λ j. none; ports_map = [] }

abbrev pub manager_alone : SwarmNodeInfo
manager_alone = record { autoscaler_manager = true; other_nodes = []; keep_alive = 10 }

abbrev pub answering : Network
answering m = some 200

abbrev web : Ports (table 4)
web = record { services = λ j. if 8080 == j then some "web" else none; ports_map = (8080, 1) ∷ [] }

-- On a manager the sample of port 8080 scales the service to 1.
sample_scales :
    (handle_sample (table 4) answering manager_alone web (le_bytes 8 8080)).1
    ≡ scale_to "web" 1 ∷ []
unfolding handle_sample send_remove_request_to_all_nodes
sample_scales = refl

-- Packets to ports 9000, 8080 and 9000 again before the listener is closed; both have a service.
abbrev two_ports : Ports (table 4)
two_ports = record {
  services = λ j. if 8080 == j then some "web" else (if 9000 == j then some "api" else none);
  ports_map = (8080, 1) ∷ (9000, 1) ∷ [];
}

abbrev packets : List PortReading
packets =
    sample (le_bytes 8 9000) ∷ sample (le_bytes 8 8080) ∷ sample (le_bytes 8 9000) ∷ closed ∷ []

one_wake_example : Woken (table 4) answering manager_alone two_ports packets
one_wake_example = one_wake (table 4) answering manager_alone two_ports packets

woken_in_order :
    (listen_for_port_events (table 4) answering manager_alone two_ports packets).1
    ≡ scale_to "api" 1 ∷ scale_to "web" 1 ∷ []
unfolding listen_for_port_events handle_sample send_remove_request_to_all_nodes
woken_in_order = refl

woken_once :
    (listen_for_port_events
      (table 4)
      answering
      manager_alone
      web
      (sample (le_bytes 8 8080) ∷ sample (le_bytes 8 8080) ∷ closed ∷ [])).1
    ≡ scale_to "web" 1 ∷ []
unfolding listen_for_port_events handle_sample send_remove_request_to_all_nodes
woken_once = refl

-- One port is there, and another one is added.
abbrev wide : Ports ports_map
wide = record { services = λ j. if 8080 == j then some "web" else none; ports_map = (8080, 1) ∷ [] }

listen_on_port_room_example :
    ((listen_on_port ports_map wide 9000 "api").1
      ≡ (not (has (ports_map.lookup wide.ports_map 9000)) && not (ltb (length wide.ports_map) 256)))
    × (length (listen_on_port ports_map wide 9000 "api").0.ports_map ≤ 256)
    × ((listen_on_port ports_map wide 9000 "api").0.services 9000 ≡ some "api")
listen_on_port_room_example = listen_on_port_room wide 9000 "api" (omega arith)

deaf_port_example :
    (turns : List (Mover (table 4))) × let s =
        take_turns
          (table 4)
          (record { ports = web; listening = storing 8080 "api"; removing = loading 8080 })
          turns in
      (s.listening ≡ listened false)
      × (s.removing ≡ removed false)
      × (s.ports.services 8080 ≡ some "api")
      × ((table 4).lookup s.ports.ports_map 8080 ≡ none)
deaf_port_example = deaf_port (table 4) web 8080 1 "web" "api" refl refl
