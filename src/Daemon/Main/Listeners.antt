-- ===== src/Daemon/Main/Listeners.antt =====
-- What `InitBPFListener` and `initBPFPortListener` leave in the maps, as `main` calls them.
use Prim.Native.String.{String}
use mathlib.Core.Path.{subst}
use swarm_autoscaler.Base.{
  ℕ, ◌≡◌, refl, Option, none, some, arith, inl, inr, Bool-cases, Option-cases,
}
use swarm_autoscaler.Bpf.Maps.{BpfMaps}
use swarm_autoscaler.Bpf.ConcReq.{Maps, limits}
use swarm_autoscaler.Daemon.Float.{Float}
use swarm_autoscaler.Daemon.ConcReq.{
  ConcReqResource, Listener, Outcome, done, fatal, init_constants,
}
use swarm_autoscaler.Daemon.ConcReq.Limits.{stored, limits-init_constants}
use swarm_autoscaler.Daemon.Ports.{Ports}
use swarm_autoscaler.Daemon.Ports.Consistency.{IsConsistent}
use swarm_autoscaler.Daemon.Scale.Client.{Docker}
use swarm_autoscaler.Daemon.Config.{
  Config, Resource, Choice, cpu, memory, conc_req, exits as gives_up, nothing, chosen,
  choose_resource,
}
use swarm_autoscaler.Daemon.Main.{Environment, init_bpf_listener, init_bpf_port_listener, set_up}

module _ (D : Docker) (B : BpfMaps) {F : Type 0} (fl : Float F) where
  -- The maps of a program are empty when it is loaded.
  abbrev pub IsLoadedEmpty : Environment D B F → Type 0
  IsLoadedEmpty e =
      (ports : B.Map) → e.port_objects ≡ some ports → (j : ℕ) → B.lookup ports j ≡ none

  kernel_of-limits :
      (maps : Maps B) (r : ConcReqResource) (o : Outcome B.Map) (l : Listener B)
      → init_constants B maps.constants r ≡ o
      → (elim o [
        | fatal ↦ some fatal
        | done constants ↦
            some (
              done
                (record { kernel = record maps { constants = constants }; contexts = λ n. none }))
      ])
        ≡ some (done l)
      → limits B l.kernel.constants ≡ some (stored r)
  kernel_of-limits maps r fatal l e h = absurd (ground (arith, h))
  kernel_of-limits maps r (done constants) l e h =
      ground (arith, h, limits-init_constants B maps.constants constants r e)

  init_bpf_listener-limits :
      (e : Environment D B F) (r : ConcReqResource) (l : Listener B)
      → init_bpf_listener D B fl e r ≡ some (done l)
      → limits B l.kernel.constants ≡ some (stored r)
  unfolding init_bpf_listener
  init_bpf_listener-limits e r l h = elim (Bool-cases e.remove_memlock) [
    | inr f ↦ absurd (ground (arith, h))
    | inl f ↦ elim (Option-cases e.conc_req_objects) [
      | inl g ↦ absurd (ground (arith, h))
      | inr (maps, g) ↦ elim (Bool-cases e.attach_kprobe) [
        | inr a ↦ absurd (ground (arith, h))
        | inl a ↦ elim (Bool-cases e.conc_req_reader) [
          | inr b ↦ absurd (ground (arith, h))
          | inl b ↦
              kernel_of-limits maps r (init_constants B maps.constants r) l refl
                (rw (f, g, a, b) at h)
        ]
      ]
    ]
  ]

  pub init_bpf_port_listener-IsConsistent :
      (e : Environment D B F) (iface : String) (p : Ports B)
      → IsLoadedEmpty e
      → init_bpf_port_listener D B fl e iface ≡ some p
      → IsConsistent B p
  unfolding init_bpf_port_listener
  init_bpf_port_listener-IsConsistent e iface p fresh h j = elim (Bool-cases e.remove_memlock) [
    | inr f ↦ absurd (ground (arith, h))
    | inl f ↦ elim (Option-cases e.port_objects) [
      | inl g ↦ absurd (ground (arith, h))
      | inr (ports, g) ↦ elim (Option-cases (e.link_by_name iface)) [
        | inl a ↦ absurd (ground (arith, h))
        | inr (index, a) ↦ ground (arith, h, fresh ports g j)
      ]
    ]
  ]

  set_up-conc_req :
      (c r : ConcReqResource) (result : Option (Outcome (Listener B)))
      (kprobe : Option (Listener B))
      → ◌≡◌ {A = Option (Option (Resource F) × Option (Listener B))}
          (elim result [
            | none ↦ none
            | some o ↦ elim o [
              | fatal ↦ none
              | done listener ↦ some (some (conc_req c), some listener)
            ]
          ])
          (some (some (conc_req r), kprobe))
      → (c ≡ r) × ((l : Listener B) × (kprobe ≡ some l) × (result ≡ some (done l)))
  set_up-conc_req c r none kprobe h = absurd (ground (arith, h))
  set_up-conc_req c r (some fatal) kprobe h = absurd (ground (arith, h))
  set_up-conc_req c r (some (done l)) kprobe h = (ground (arith, h), (l, ground (arith, h), refl))

  pub chosen-limits :
      (e : Environment D B F) (config : Config F) (r : ConcReqResource)
      (kprobe : Option (Listener B)) (x : Choice F)
      → choose_resource fl config ≡ x
      → set_up D B fl e config ≡ some (some (conc_req r), kprobe)
      → (l : Listener B) × (kprobe ≡ some l) × (limits B l.kernel.constants ≡ some (stored r))
  unfolding set_up
  chosen-limits e config r kprobe gives_up f h = absurd (ground (arith, h))
  chosen-limits e config r kprobe nothing f h = absurd (ground (arith, h))
  chosen-limits e config r kprobe (chosen (cpu c)) f h = absurd (ground (arith, h))
  chosen-limits e config r kprobe (chosen (memory c)) f h = absurd (ground (arith, h))
  chosen-limits e config r kprobe (chosen (conc_req c)) f h =
      let (same, (l, found, started)) =
        set_up-conc_req c r (init_bpf_listener D B fl e c) kprobe (rw (f, set_up) at h) in
      (
        l,
        found,
        init_bpf_listener-limits e r l
            (subst (λ x. init_bpf_listener D B fl e x ≡ some (done l)) same started),
      )
