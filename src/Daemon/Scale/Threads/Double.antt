-- ===== src/Daemon/Scale/Threads/Double.antt =====
-- Two requests "under" of scale.go for the last replica of one service that both look into `keepAliveOps`
-- before either starts an operation.
use Prim.Native.String.{String}
use text.Mathlib.TextEquality.{eq_iff}
use swarm_autoscaler.Base.{
  ℕ, suc, ◌≤◌, ◌≡◌, ◌≢◌, ◌∙◌, refl, sym, ap, true, false, none, some, arith,
}
use swarm_autoscaler.Base.Family.{set_at}
use swarm_autoscaler.Bpf.Maps.{BpfMaps}
use swarm_autoscaler.Daemon.Server.{Network}
use swarm_autoscaler.Daemon.Scale.Client.{Docker, Service}
use swarm_autoscaler.Daemon.Scale.{Manager, set_op, set_waiting, replicas_of}
use swarm_autoscaler.Daemon.Scale.Threads.{
  Request, decide, request_turn, Goroutines, move_request, Reach, start, later, ask, go_on,
}
use swarm_autoscaler.Daemon.Scale.Threads.Traces.{
  set_at-same, set_at-other, inspected_over, ask_turn,
}

module _ (D : Docker) (B : BpfMaps) where
  under_decides :
      (id : String) (service : Service) (current : ℕ)
      → current ≤ 1
      → decide id "under" service current ≡ Request.testing id
  unfolding decide
  under_decides id service current h = ground (arith, h)

  finds_none :
      (m : Manager D B) (id : String)
      → m.keep_alive_ops id ≡ none
      → request_turn D B m (Request.testing id) ≡ (m, Request.starting id)
  unfolding request_turn
  finds_none m id e = rw (e, request_turn) refl

  started : Manager D B → String → Manager D B
  started m id = record m {
    keep_alive_ops = set_op m.keep_alive_ops id (some m.next_channel);
    waiting = set_waiting m.waiting m.next_channel (some id);
    next_channel = suc m.next_channel;
  }

  starts :
      (m : Manager D B) (id : String)
      → request_turn D B m (Request.starting id) ≡ (started m id, Request.answered false)
  unfolding request_turn started
  starts m id = refl

  started_twice :
      (m : Manager D B) (id : String)
      → let m2 = started (started m id) id in
        (m2.waiting m.next_channel ≡ some id)
        × (m2.waiting (suc m.next_channel) ≡ some id)
        × (m2.keep_alive_ops id ≡ some (suc m.next_channel))
  unfolding started
  started_twice m id = (ground arith, ground arith, ground (arith, eq_iff id id))

module _ (D : Docker) (B : BpfMaps) (net : Network) (o : Goroutines D B) where
  -- A state that is reached, with what is known of two requests.
  At : ℕ → ℕ → Manager D B → Request → Request → Type 0
  At i j m p q =
      (t : Goroutines D B) × Reach D B net o t × (t.mem ≡ m) × (t.request i ≡ p) × (t.request j ≡ q)

  swaps : (i j : ℕ) (m : Manager D B) (p q : Request) → At i j m p q → At j i m q p
  unfolding At
  swaps i j m p q (t, r, e, f, g) = (t, r, e, g, f)

  asks :
      (i j : ℕ) (m : Manager D B) (q : Request) (id : String)
      → i ≢ j
      → At i j m Request.idle q
      → At i j m (Request.asked id "under") q
  unfolding At
  asks i j m q id h (t, r, e, f, g) = (
    record t { request = set_at t.request i (Request.asked id "under") },
    later r (ask i id "under" f),
    e,
    set_at-same t.request i (Request.asked id "under"),
    set_at-other t.request i j (Request.asked id "under") h ∙ g,
  )

  moves :
      (i j : ℕ) (m m' : Manager D B) (p p' q : Request)
      → i ≢ j
      → request_turn D B m p ≡ (m', p')
      → At i j m p q
      → At i j m' p' q
  unfolding At
  moves i j m m' p p' q h turn (t, r, e, f, g) =
      let now : request_turn D B t.mem (t.request i) ≡ (m', p') =
        ap (λ x. request_turn D B x (t.request i)) e ∙ ap (request_turn D B m) f ∙ turn in
      (
        move_request D B i t,
        later r (go_on i),
        ap (λ x. x.0) now,
        set_at-same t.request i (request_turn D B t.mem (t.request i)).1 ∙ ap (λ x. x.1) now,
        set_at-other t.request i j (request_turn D B t.mem (t.request i)).1 h ∙ g,
      )

  -- A request that comes to its look into the operations.
  comes_to_test :
      (i j current : ℕ) (m : Manager D B) (q : Request) (id : String) (service : Service)
      → i ≢ j
      → m.node_info.autoscaler_manager ≡ true
      → replicas_of (D.inspect m.world id) ≡ some (service, current)
      → current ≤ 1
      → m.keep_alive_ops id ≡ none
      → At i j m Request.idle q
      → At i j m (Request.starting id) q
  comes_to_test i j current m q id service h a e k f s =
      moves i j m m (Request.testing id) (Request.starting id) q h (finds_none D B m id f) (
        moves i j m m (Request.asked id "under") (Request.testing id) q h
          (ask_turn D B m id "under"
            ∙ ap (λ p. (m, p))
                (inspected_over D B m id "under" service current a e
                  ∙ under_decides D B id service current k))
          (asks i j m q id h s))

-- Two requests "under" for a service of at most one replica can both answer without an error and leave it
-- two goroutines that wait for it, of which the operation names only the second: on the manager, for a
-- service in replicated mode that has no keep-alive operation.
pub two_goroutines :
    (D : Docker) (B : BpfMaps) (net : Network) (s : Goroutines D B) (i j current : ℕ) (id : String)
    (service : Service)
    → i ≢ j
    → s.request i ≡ Request.idle
    → s.request j ≡ Request.idle
    → s.mem.node_info.autoscaler_manager ≡ true
    → replicas_of (D.inspect s.mem.world id) ≡ some (service, current)
    → current ≤ 1
    → s.mem.keep_alive_ops id ≡ none
    → (t : Goroutines D B) × Reach D B net s t
      × (t.request i ≡ Request.answered false)
      × (t.request j ≡ Request.answered false)
      × (t.mem.waiting s.mem.next_channel ≡ some id)
      × (t.mem.waiting (suc s.mem.next_channel) ≡ some id)
      × (t.mem.keep_alive_ops id ≡ some (suc s.mem.next_channel))
unfolding At
two_goroutines D B net s i j current id service h idle_i idle_j a e k f =
    let m = s.mem in
    let h' : j ≢ i = λ q. h (sym q) in
    let m1 = started D B m id in
    let first =
      comes_to_test D B net s i j current m Request.idle id service h a e k f
        (s, start, refl, idle_i, idle_j) in
    let both =
      comes_to_test D B net s j i current m (Request.starting id) id service h' a e k f
        (swaps D B net s i j m (Request.starting id) Request.idle first) in
    let one =
      moves D B net s i j m m1 (Request.starting id) (Request.answered false) (Request.starting id)
        h (starts D B m id)
        (swaps D B net s j i m (Request.starting id) (Request.starting id) both) in
    let (t, r, mem, at_j, at_i) =
      moves D B net s j i m1 (started D B m1 id) (Request.starting id) (Request.answered false)
        (Request.answered false) h' (starts D B m1 id)
        (swaps D B net s i j m1 (Request.answered false) (Request.starting id) one) in
    let (w, w', named) = started_twice D B m id in
    (t, r, at_i, at_j, rw mem w, rw mem w', rw mem named)
