-- ===== src/Bpf/Classifier/Headers.antt =====
-- What tc-port-monitor.c reports, against the fields of the headers in network byte order.
use swarm_autoscaler.Base.{
  ℕ, zero, suc, ◌+◌, ◌*◌, ◌≤◌, ◌<◌, ◌≡◌, Option, none, some, List, [], ◌∷◌, arith, length,
  get_elem?, get_elem?-lt,
}
use swarm_autoscaler.Bpf.Maps.{BpfMaps}
use swarm_autoscaler.Bpf.Classifier.{Packet, port_classifier, tc_act_ok}

-- Every byte is one.
abbrev pub AllBytes : Packet → Type 0
AllBytes [] = Unit {0}
AllBytes (b ∷ bs) = (b < 256) × AllBytes bs

get_elem?-byte : (p : Packet) (i b : ℕ) → AllBytes p → get_elem? p i ≡ some b → b < 256
get_elem?-byte [] i b h e = cc
get_elem?-byte (x ∷ p) zero b h e = ground arith
get_elem?-byte (x ∷ p) (suc i) b h e = get_elem?-byte p i b h.1 e

-- The first bytes of an Ethernet frame with an IPv4 packet that carries TCP: by its EtherType, by version 4
-- and a header of five words, which leaves no room for IP options, by fragment offset 0 and by its
-- protocol. Behind the 20 bytes of the IP header the destination port has the bytes `hi` and `lo`.
pub record IsTcp (p : Packet) (hi lo : ℕ) : Type 0 where
  pub long_enough : 54 ≤ length p
  pub type_high : get_elem? p 12 ≡ some 0x08
  pub type_low : get_elem? p 13 ≡ some 0x00
  pub version_and_length : get_elem? p 14 ≡ some 0x45
  pub fragment_high : (flags : ℕ) × (get_elem? p 20 ≡ some (32 * flags))
  pub fragment_low : get_elem? p 21 ≡ some 0x00
  pub protocol : get_elem? p 23 ≡ some 6
  pub port_high : get_elem? p 36 ≡ some hi
  pub port_low : get_elem? p 37 ≡ some lo

abbrev pub found : Option ℕ → ℕ → List ℕ
found none port = []
found (some _) port = port ∷ []

abbrev reported : Option (List ℕ × ℕ) → List ℕ
reported none = []
reported (some (r, v)) = r

module _ (B : BpfMaps) where
  -- No packet makes the program read past its end, and every packet is passed on.
  port_classifier_total :
      (ports : B.Map) (p : Packet)
      → (reported : List ℕ) × (port_classifier B ports p ≡ some (reported, tc_act_ok))
  unfolding port_classifier
  port_classifier_total ports p = (
    reported (port_classifier B ports p),
    ground (
      arith,
      get_elem?-lt p 12,
      get_elem?-lt p 13,
      get_elem?-lt p 23,
      get_elem?-lt p 36,
      get_elem?-lt p 37,
    ),
  )

  -- A frame with a TCP segment in an IPv4 packet that has no IP options and is no later fragment is
  -- passed on, and it is reported with its destination port exactly if the daemon listens on that port.
  pub port_classifier_reports :
      (ports : B.Map) (p : Packet) (hi lo : ℕ)
      → AllBytes p
      → IsTcp p hi lo
      → port_classifier B ports p
        ≡ some (found (B.lookup ports (256 * hi + lo)) (256 * hi + lo), tc_act_ok)
  unfolding port_classifier
  port_classifier_reports ports p hi lo bytes t =
      ground (arith, get_elem?-byte p 36 hi bytes, get_elem?-byte p 37 lo bytes)
