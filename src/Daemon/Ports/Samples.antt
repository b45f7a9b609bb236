-- ===== src/Daemon/Ports/Samples.antt =====
-- The loop `listenForEvents` of autoscaler/bpf_port_listen/listener.go over the samples of the classifier.
use Prim.Native.String.{String}
use mathlib.Core.Path.{fun_ext, subst}
use swarm_autoscaler.Base.{
  not, if◌then◌else◌, ℕ, ◌≡◌, ◌∙◌, refl, sym, ap, Bool, true, false, ◌&&◌, ◌||◌, Option, none, some,
  List, [], ◌∷◌, ◌++◌, arith, ◌==◌, le_u32, inl, inr, Bool-cases, Option-cases,
}
use swarm_autoscaler.Bpf.Maps.{BpfMaps}
use swarm_autoscaler.Daemon.Server.{SwarmNodeInfo, Network}
use swarm_autoscaler.Daemon.Ports.{Ports, Action, remove_port, wake, handle_sample}
use swarm_autoscaler.Daemon.Ports.Consistency.{has}
use swarm_autoscaler.Daemon.Ports.Wake.{
  wake-none, wake-some, handle_sample-none, handle_sample-wake, remove_port_gone,
}

-- What the loop meets: the listener or its reader is closed, the read fails, or it gives a sample.
pub data PortReading : Type 0 where
  closed : PortReading
  failed : PortReading
  sample : (raw_sample : List ℕ) → PortReading

abbrev pub among : ℕ → List ℕ → Bool
among j [] = false
among j (x ∷ xs) = (x == j) || among j xs

abbrev pub IsDistinct : List ℕ → Type 0
IsDistinct [] = Unit {0}
IsDistinct (x ∷ xs) = (among x xs ≡ false) × IsDistinct xs

-- The port of a sample, in front of other ports.
abbrev pub port_before : Option ℕ → List ℕ → List ℕ
port_before none ports = ports
port_before (some port) ports = port ∷ ports

-- The ports that samples report until the listener is closed.
abbrev pub reported : List PortReading → List ℕ
reported [] = []
reported (closed ∷ rs) = []
reported (failed ∷ rs) = reported rs
reported (sample bytes ∷ rs) = port_before (le_u32 bytes) (reported rs)

-- Of these ports those that pass a test, each at its first place only.
abbrev pub firsts : (ℕ → Bool) → List ℕ → List ℕ
firsts passes [] = []
firsts passes (x ∷ xs) =
    if passes x then x ∷ firsts (λ j. not (x == j) && passes j) xs else firsts passes xs

firsts_ext : (f g : ℕ → Bool) (xs : List ℕ) → ((j : ℕ) → f j ≡ g j) → firsts f xs ≡ firsts g xs
firsts_ext f g xs h = ap (λ t. firsts t xs) (fun_ext h)

-- What is done for each port, one after another.
abbrev pub for_each : (ℕ → List Action) → List ℕ → List Action
for_each f [] = []
for_each f (x ∷ xs) = f x ++ for_each f xs

for_each_ext :
    (f g : ℕ → List Action) (xs : List ℕ)
    → ((j : ℕ) → among j xs ≡ true → f j ≡ g j)
    → for_each f xs ≡ for_each g xs
for_each_ext f g [] h = refl
for_each_ext f g (x ∷ xs) h =
    rw (h x (ground arith), for_each_ext f g xs (λ j e. h j (ground (arith, e)))) refl

module _ (B : BpfMaps) (net : Network) (info : SwarmNodeInfo) where
  unfoldable pub listen_for_port_events : Ports B → List PortReading → Ports B × List Action
  listen_for_port_events p [] = (p, [])
  listen_for_port_events p (closed ∷ rs) = (p, [])
  listen_for_port_events p (failed ∷ rs) = listen_for_port_events p rs
  listen_for_port_events p (sample bytes ∷ rs) =
      let (q, now) = handle_sample B net info p bytes in
      let (r, after) = listen_for_port_events q rs in (r, now ++ after)

  remove_port_elsewhere :
      (p : Ports B) (k j : ℕ) → (k == j) ≡ false → (remove_port B p k).0.services j ≡ p.services j
  unfolding remove_port
  remove_port_elsewhere p k j h = ground (arith, h)

  -- What a sample sets off depends on the service of its port alone.
  wake_services :
      (p q : Ports B) (j : ℕ)
      → p.services j ≡ q.services j
      → (wake B net info p j).1 ≡ (wake B net info q j).1
  unfolding wake
  wake_services p q j h = ground (arith, h)

  -- What a run of the loop does: for the reported ports with a service, in the order in which the first
  -- sample of each comes, what the port sets off by itself.
  abbrev pub Woken : Ports B → List PortReading → Type 0
  Woken p rs =
      let ports = firsts (λ j. has (p.services j)) (reported rs) in
      IsDistinct ports
      × ((j : ℕ) → among j ports ≡ (among j (reported rs) && has (p.services j)))
      × ((listen_for_port_events p rs).1 ≡ for_each (λ j. (wake B net info p j).1) ports)

  -- The same, with a name for the ports.
  Named : Ports B → List PortReading → Type 0
  Named p rs =
      (ports : List ℕ) × IsDistinct ports
      × ((j : ℕ) → among j ports ≡ (among j (reported rs) && has (p.services j)))
      × ((listen_for_port_events p rs).1 ≡ for_each (λ j. (wake B net info p j).1) ports)
      × (ports ≡ firsts (λ j. has (p.services j)) (reported rs))

  sample-Named :
      (p : Ports B) (bytes : List ℕ) (rs : List PortReading) (k : ℕ) (s : String)
      → le_u32 bytes ≡ some k
      → p.services k ≡ some s
      → Named (remove_port B p k).0 rs
      → Named p (sample bytes ∷ rs)
  unfolding listen_for_port_events wake Named
  sample-Named p bytes rs k s e f (ports, distinct, which, did, order) =
      let q = (remove_port B p k).0 in
      let rest : (j : ℕ) → has (q.services j) ≡ (not (k == j) && has (p.services j)) = λ j.
        elim (Bool-cases (k == j)) [
          | inl g ↦ ground (arith, g, remove_port_gone B p k)
          | inr g ↦ ground (arith, g, remove_port_elsewhere p k j g)
        ] in
      let gone : among k ports ≡ false = ground (arith, which k, remove_port_gone B p k) in
      (
        k ∷ ports,
        (gone, distinct),
        λ j. elim (Bool-cases (k == j)) [
          | inl g ↦ ground (arith, e, f, g)
          | inr g ↦ ground (arith, e, f, g, which j, remove_port_elsewhere p k j g)
        ],
        rw
            (
              handle_sample-wake B net info p bytes k e,
              ap (λ x. x.0) (wake-some B net info p k s f),
              did,
            )
            (ap (λ x. (wake B net info p k).1 ++ x)
              (for_each_ext (λ j. (wake B net info q j).1) (λ j. (wake B net info p j).1) ports
                (λ j m.
                  wake_services q p j (remove_port_elsewhere p k j (ground (arith, m, gone)))))),
        rw (e, f)
            (ap (λ x. k ∷ x)
              (order
                ∙ firsts_ext (λ j. has (q.services j)) (λ j. not (k == j) && has (p.services j))
                    (reported rs) rest)),
      )

  -- A sample that sets off nothing.
  quiet-Named :
      (p : Ports B) (bytes : List ℕ) (rs : List PortReading)
      → handle_sample B net info p bytes ≡ (p, [])
      → ((j : ℕ)
          → (among j (reported (sample bytes ∷ rs)) && has (p.services j))
            ≡ (among j (reported rs) && has (p.services j)))
      → firsts (λ j. has (p.services j)) (reported rs)
        ≡ firsts (λ j. has (p.services j)) (reported (sample bytes ∷ rs))
      → Named p rs
      → Named p (sample bytes ∷ rs)
  unfolding listen_for_port_events Named
  quiet-Named p bytes rs e same firsts_same (ports, distinct, which, did, order) =
      (ports, distinct, λ j. which j ∙ sym (same j), rw e did, order ∙ firsts_same)

  named : (p : Ports B) (rs : List PortReading) → Named p rs
  unfolding listen_for_port_events Named
  named p [] = ([], tt, λ j. refl, refl, refl)
  named p (closed ∷ rs) = ([], tt, λ j. refl, refl, refl)
  named p (failed ∷ rs) = named p rs
  named p (sample bytes ∷ rs) = elim (Option-cases (le_u32 bytes)) [
    | inl e ↦
        quiet-Named p bytes rs (handle_sample-none B net info p bytes e) (λ j. ground (arith, e))
          (rw e refl) (named p rs)
    | inr (k, e) ↦ elim (Option-cases (p.services k)) [
      | inl f ↦
          quiet-Named p bytes rs
            (handle_sample-wake B net info p bytes k e ∙ wake-none B net info p k f)
            (λ j. ground (arith, e, f)) (rw (e, f) refl) (named p rs)
      | inr (s, f) ↦ sample-Named p bytes rs k s e f (named (remove_port B p k).0 rs)
    ]
  ]

  -- Of the samples that the loop meets until the listener is closed, the first for each port that has a
  -- service sets off what it does by itself, in the order of these first samples, and no other sample
  -- sets off anything: while no port is listened on anew, however many packets come to a port, its
  -- service is woken once.
  pub one_wake : (p : Ports B) (rs : List PortReading) → Woken p rs
  unfolding Named
  one_wake p rs =
      let (ports, distinct, which, did, order) = named p rs in
      (
        subst IsDistinct order distinct,
        λ j. ap (among j) (sym order) ∙ which j,
        did ∙ ap (for_each (λ j. (wake B net info p j).1)) order,
      )
