-- ===== src/Bpf/Cgroup.antt =====
-- The archived cgroup programs, archive/cgroup_net_listen/bpf/cgroup-ingress.c and
-- cgroup-ingress-perf.c, which the kernel runs on every packet that comes into a container.
use swarm_autoscaler.Base.{
  ℕ, ◌+◌, ◌≡◌, refl, Bool, true, List, [], ◌∷◌, ◌++◌, arith, if◌then◌else◌, or_keep, length,
  length-append, ◌↔◌,
}
use swarm_autoscaler.Bpf.Maps.{BpfMaps, any}

abbrev bpf_ok : ℕ
bpf_ok = 0

module _ (B : BpfMaps) where
  -- `detect_first_packet` of cgroup-ingress.c: `signal_map` after it, and the verdict
  unfoldable signal_first_packet : B.Map → B.Map × ℕ
  signal_first_packet signals = (or_keep signals (B.update signals 0 1 any), bpf_ok)

-- `detect_first_packet` of cgroup-ingress-perf.c: the values that were output after it, and the verdict
unfoldable output_first_packet : List ℕ → List ℕ × ℕ
output_first_packet events = (events ++ 1 ∷ [], bpf_ok)

-- The packets of a container through one of the programs, with those that reach it; `passes` is what the
-- kernel makes of a verdict.
unfoldable deliver {ℓ κ} :
    {S : Type ℓ} {P : Type κ} → (ℕ → Bool) → (S → S × ℕ) → S → List P → S × List P
deliver passes program s [] = (s, [])
deliver passes program s (p ∷ ps) =
    let (t, verdict) = program s in
    let rest = deliver passes program t ps in
    (rest.0, if passes verdict then p ∷ rest.1 else rest.1)

-- If the kernel lets a packet through on the verdict 1 only, then with either program attached no packet
-- reaches the container, though the second outputs a value for each.
archived_drop :
    {P : Type 0} (passes : ℕ → Bool) (B : BpfMaps) (signals : B.Map) (events : List ℕ)
    (packets : List P)
    → ((verdict : ℕ) → (passes verdict ≡ true) ↔ (verdict ≡ 1))
    → ((deliver passes (signal_first_packet B) signals packets).1 ≡ [])
      × ((deliver passes output_first_packet events packets).1 ≡ [])
      × (length (deliver passes output_first_packet events packets).0
          ≡ length events + length packets)
unfolding deliver signal_first_packet output_first_packet
archived_drop passes B signals events [] h = (refl, refl, omega arith)
archived_drop passes B signals events (p ∷ ps) h =
    let (a, b, c) =
      archived_drop passes B (signal_first_packet B signals).0 (events ++ 1 ∷ []) ps h in
    (
      ground (arith, a, h 0),
      ground (arith, b, h 0),
      omega (arith, c, length-append events (1 ∷ [])),
    )
