-- ===== src/Tests/Classifier.antt =====
-- tc-port-monitor.c on an IPv4 packet with a TCP header to port 8080, and on others.
use swarm_autoscaler.Base.{ℕ, ◌≡◌, refl, some, List, [], ◌∷◌, ◌++◌, arith}
use swarm_autoscaler.Bpf.Table.{table}
use swarm_autoscaler.Bpf.Classifier.{Packet, port_classifier, tc_act_ok}
use swarm_autoscaler.Bpf.Classifier.Headers.{AllBytes, IsTcp, port_classifier_reports}

abbrev pub zeros : ℕ → List ℕ
zeros ℕ.zero = []
zeros (ℕ.suc n) = 0 ∷ zeros n

-- 14 bytes of Ethernet, 20 of IPv4 with the protocol 6, 20 of TCP to 0x1f90.
abbrev pub packet : Packet
packet = zeros 12 ++ (8 ∷ 0 ∷ 0x45 ∷ zeros 8 ++ (6 ∷ zeros 12 ++ (0x1f ∷ 0x90 ∷ zeros 16)))

abbrev listening : List (ℕ × ℕ)
listening = (8080, 1) ∷ []

pub packet-IsTcp : IsTcp packet 0x1f 0x90
packet-IsTcp = record {
  long_enough = omega arith;
  type_high = refl;
  type_low = refl;
  version_and_length = refl;
  fragment_high = (0, refl);
  fragment_low = refl;
  protocol = refl;
  port_high = refl;
  port_low = refl;
}

pub packet-AllBytes : AllBytes packet
packet-AllBytes = omega arith

packet_reported : port_classifier (table 4) listening packet ≡ some (8080 ∷ [], 0)
unfolding port_classifier
packet_reported = refl

-- A packet to a port that nobody listens on, and one that ends in its IP header.
packet_ignored : port_classifier (table 4) [] packet ≡ some ([], 0)
unfolding port_classifier
packet_ignored = refl

short_ignored : port_classifier (table 4) listening (zeros 12 ++ 8 ∷ 0 ∷ zeros 19) ≡ some ([], 0)
unfolding port_classifier
short_ignored = refl

port_classifier_reports_example :
    port_classifier (table 4) listening packet ≡ some (8080 ∷ [], tc_act_ok)
port_classifier_reports_example =
    port_classifier_reports (table 4) listening packet 0x1f 0x90 packet-AllBytes packet-IsTcp
