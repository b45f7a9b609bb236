-- ===== src/Daemon/Ports/Consistency.antt =====
-- The daemon's table of ports and the classifier's map in listener.go name the same ports.
use Prim.Native.String.{String}
use swarm_autoscaler.Base.{
  ℕ, ◌≡◌, refl, ◌≢◌, Bool, true, false, Option, none, some, arith, inl, inr, Option-cases,
}
use swarm_autoscaler.Bpf.Maps.{BpfMaps, any}
use swarm_autoscaler.Daemon.Ports.{Ports, listen_on_port, remove_port}

-- A port is in a table if it has an entry.
abbrev pub has {ℓ} : {A : Type ℓ} → Option A → Bool
has none = false
has (some a) = true

module _ (B : BpfMaps) where
  abbrev pub IsConsistent : Ports B → Type 0
  IsConsistent p = (j : ℕ) → has (p.services j) ≡ has (B.lookup p.ports_map j)

  -- Where the tables of the daemon and of the classifier agree, a port that is added without an error
  -- is then in both, and they still agree.
  listen_on_port-IsConsistent :
      (p : Ports B) (port : ℕ) (s : String)
      → IsConsistent p
      → (listen_on_port B p port s).1 ≡ false
      → IsConsistent (listen_on_port B p port s).0
        × ((listen_on_port B p port s).0.services port ≡ some s)
        × (B.lookup (listen_on_port B p port s).0.ports_map port ≡ some 1)
  unfolding listen_on_port
  listen_on_port-IsConsistent p port s c h = elim (Option-cases (B.update p.ports_map port 1 any)) [
    | inl e ↦ absurd (ground arith)
    | inr (m, e) ↦
        rw (e, listen_on_port)
          (
            λ j. ground (arith, c j, B.lookup-update p.ports_map port 1 any m j e),
            ground arith,
            ground (arith, B.lookup-update p.ports_map port 1 any m port e),
          )
  ]

  -- A port that is in the daemon's table is removed from both, without an error, and no other port is
  -- touched.
  remove_port-IsConsistent :
      (p : Ports B) (port : ℕ)
      → IsConsistent p
      → p.services port ≢ none
      → IsConsistent (remove_port B p port).0
        × ((remove_port B p port).1 ≡ false)
        × ((remove_port B p port).0.services port ≡ none)
  unfolding remove_port
  remove_port-IsConsistent p port c h = elim (Option-cases (p.services port)) [
    | inl e ↦ absurd (h e)
    | inr (s, e) ↦ elim (Option-cases (B.lookup p.ports_map port)) [
      | inl f ↦ absurd (ground (arith, c port))
      | inr (v, f) ↦
          let (m, k) = B.delete_present p.ports_map port v f in
          rw (e, k, remove_port)
            (λ j. ground (arith, c j, B.lookup-delete p.ports_map port m j k), refl, ground arith)
    ]
  ]
