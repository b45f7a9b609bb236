-- ===== src/Daemon/Scale/Threads/Timers.antt =====
-- A keep-alive goroutine of scale.go that no other goroutine disturbs once its timer has fired.
use Prim.Native.String.{String}
use swarm_autoscaler.Base.{
  ℕ, zero, suc, ◌-◌, ◌≤◌, ◌≡◌, ◌∙◌, refl, ap, Bool, true, false, none, some, arith, inl, inr,
  Bool-cases, Option-cases,
}
use swarm_autoscaler.Bpf.Maps.{BpfMaps}
use swarm_autoscaler.Daemon.Server.{Network, send_listen_request_to_all_nodes}
use swarm_autoscaler.Daemon.Ports.{listen_on_port}
use swarm_autoscaler.Daemon.Scale.Client.{Docker}
use swarm_autoscaler.Daemon.Scale.{
  Manager, Outcome, returns, blocks, panics, set_waiting, set_replicas, scale_to,
  get_published_port, finish, scale_to_zero, expire, keep_alive_elapsed,
}
use swarm_autoscaler.Daemon.Scale.Threads.{
  Timer, expired, publishing, opening, telling, zeroing, emptying, clearing, ended, onward,
  timer_turn,
}
use swarm_autoscaler.Daemon.Scale.Threads.Alone.{IsUnblocked, set_replicas-IsUnblocked}

module _ (D : Docker) (B : BpfMaps) (net : Network) where
  unfoldable pub timer_turns : ℕ → Manager D B × Timer → Manager D B × Timer
  timer_turns zero x = x
  timer_turns (suc k) x = timer_turns k (timer_turn D B net x.0 x.1)

  -- Where a goroutine stands that ended as its body as a whole does; nothing in the body waits for ever.
  abbrev pub EndsTimer : Outcome (Manager D B) → Manager D B × Timer → Type 0
  EndsTimer (returns m failed) x = x ≡ (m, ended failed)
  EndsTimer (blocks m) x = ⊥
  EndsTimer panics x = x.1 ≡ Timer.crashed

  ended_stays :
      (k : ℕ) (m : Manager D B) (failed : Bool)
      → timer_turns k (m, ended failed) ≡ (m, ended failed)
  unfolding timer_turns timer_turn
  ended_stays zero m failed = refl
  ended_stays (suc k) m failed = ended_stays k m failed

  crashed_stays : (k : ℕ) (m : Manager D B) → timer_turns k (m, Timer.crashed) ≡ (m, Timer.crashed)
  unfolding timer_turns timer_turn
  crashed_stays zero m = refl
  crashed_stays (suc k) m = crashed_stays k m

  timer_turns-turn :
      (k : ℕ) (m : Manager D B) (p : Timer) (z : Manager D B × Timer)
      → timer_turn D B net m p ≡ z
      → timer_turns (suc k) (m, p) ≡ timer_turns k z
  unfolding timer_turns
  timer_turns-turn k m p z e = ap (timer_turns k) e

  EndsTimer-finish :
      (k : ℕ) (m : Manager D B) (id : String) (r : Outcome D.World)
      → IsUnblocked r
      → EndsTimer
          (finish D B m id r)
          (timer_turns (suc k) (onward D B m r (clearing id) (ended true) Timer.crashed))
  unfolding finish onward timer_turn
  EndsTimer-finish k m id (returns w false) u =
      timer_turns-turn k (record m { world = w }) (clearing id) _ refl ∙ ended_stays k _ false
  EndsTimer-finish k m id (returns w true) u = ended_stays (suc k) (record m { world = w }) true
  EndsTimer-finish k m id (blocks w) u = u
  EndsTimer-finish k m id panics u = ap (λ x. x.1) (crashed_stays (suc k) m)

  EndsTimer-zeroing :
      (k : ℕ) (m : Manager D B) (id : String)
      → EndsTimer
          (finish D B m id (scale_to D m.world id 0))
          (timer_turns (suc (suc (suc k))) (m, zeroing id))
  unfolding timer_turn scale_to finish
  EndsTimer-zeroing k m id = elim (Option-cases (D.inspect m.world id)) [
    | inl e ↦
        rw
          (
            e,
            scale_to,
            timer_turns-turn (suc (suc k)) m (zeroing id) (m, ended true) (rw (e, timer_turn) refl),
          )
          (ended_stays (suc (suc k)) m true)
    | inr (s, e) ↦
        rw
          (
            e,
            scale_to,
            timer_turns-turn (suc (suc k)) m (zeroing id) (m, emptying id s)
                (rw (e, timer_turn) refl),
            timer_turns-turn (suc k) m (emptying id s)
                (onward D B m (set_replicas D m.world id s 0) (clearing id) (ended true)
                  Timer.crashed)
                refl,
          )
          (EndsTimer-finish k m id (set_replicas D m.world id s 0)
            (set_replicas-IsUnblocked D m.world id s 0))
  ]

  EndsTimer-opening :
      (k : ℕ) (m : Manager D B) (id : String) (port : ℕ)
      → EndsTimer
          (scale_to_zero D B net m id port)
          (timer_turns (suc (suc (suc (suc (suc k))))) (m, opening id port))
  unfolding timer_turn scale_to_zero
  EndsTimer-opening k m id port =
      let m' : Manager D B = record m { ports = (listen_on_port B m.ports port id).0 } in
      elim (Bool-cases (listen_on_port B m.ports port id).1) [
        | inl e ↦
            rw
              (
                e,
                timer_turns-turn (suc (suc (suc (suc k)))) m (opening id port) (m', ended true)
                    (rw e refl),
              )
              (ended_stays (suc (suc (suc (suc k)))) m' true)
        | inr e ↦
            let opened =
              timer_turns-turn (suc (suc (suc (suc k)))) m (opening id port) (m', telling id port)
                (rw e refl) in
            elim (Bool-cases (send_listen_request_to_all_nodes net m.node_info port id).1) [
              | inl f ↦
                  rw
                    (
                      e,
                      f,
                      opened,
                      timer_turns-turn (suc (suc (suc k))) m' (telling id port) (m', ended true)
                          (rw f refl),
                    )
                    (ended_stays (suc (suc (suc k))) m' true)
              | inr f ↦
                  rw
                    (
                      e,
                      f,
                      opened,
                      timer_turns-turn (suc (suc (suc k))) m' (telling id port) (m', zeroing id)
                          (rw f refl),
                    )
                    (EndsTimer-zeroing k m' id)
            ]
      ]

  EndsTimer-expired :
      (k : ℕ) (m : Manager D B) (id : String)
      → EndsTimer
          (expire D B net m id)
          (timer_turns (suc (suc (suc (suc (suc (suc (suc k))))))) (m, expired id))
  unfolding timer_turn expire
  EndsTimer-expired k m id = elim (Option-cases (m.keep_alive_ops id)) [
    | inl e ↦
        rw
          (
            e,
            expire,
            timer_turns-turn (suc (suc (suc (suc (suc (suc k)))))) m (expired id) (m, ended false)
                (rw (e, timer_turn) refl),
          )
          (ended_stays (suc (suc (suc (suc (suc (suc k)))))) m false)
    | inr (c, e) ↦
        let found =
          timer_turns-turn (suc (suc (suc (suc (suc (suc k)))))) m (expired id) (m, publishing id)
            (rw (e, timer_turn) refl) in
        elim (Option-cases (get_published_port D m.world id)) [
          | inl f ↦
              rw
                (
                  e,
                  f,
                  expire,
                  found,
                  timer_turns-turn (suc (suc (suc (suc (suc k))))) m (publishing id) (m, ended true)
                      (rw (f, timer_turn) refl),
                )
                (ended_stays (suc (suc (suc (suc (suc k))))) m true)
          | inr (port, f) ↦
              rw
                (
                  e,
                  f,
                  expire,
                  found,
                  timer_turns-turn (suc (suc (suc (suc (suc k))))) m (publishing id)
                      (m, opening id port) (rw (f, timer_turn) refl),
                )
                (EndsTimer-opening k m id port)
        ]
  ]

  -- From the moment at which its timer fires, the accesses of a goroutine that is not disturbed amount to
  -- its body as a whole: after seven of them it has ended with the state and the error of the body, or it
  -- has panicked with it, and it never waits.
  pub timer_turns-keep_alive_elapsed :
      (k : ℕ) (m : Manager D B) (channel : ℕ) (id : String)
      → 7 ≤ k
      → m.waiting channel ≡ some id
      → EndsTimer
          (keep_alive_elapsed D B net m channel)
          (timer_turns k (record m { waiting = set_waiting m.waiting channel none }, expired id))
  unfolding keep_alive_elapsed
  timer_turns-keep_alive_elapsed k m channel id enough e =
      let split : k ≡ suc (suc (suc (suc (suc (suc (suc (k - 7))))))) = omega arith in
      rw (e, keep_alive_elapsed)
        (rw split (
          EndsTimer-expired (k - 7) (record m { waiting = set_waiting m.waiting channel none }) id))
