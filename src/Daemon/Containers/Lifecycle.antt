-- ===== src/Daemon/Containers/Lifecycle.antt =====
-- The monitors of containers in autoscaler/autoscaler/autoscaler.go, over events in any order.
use Prim.Native.String.{String}
use mathlib.Core.Path.{subst}
use text.Mathlib.TextEquality.{eq_iff}
use swarm_autoscaler.Base.{
  ℕ, ◌≤◌, ◌<◌, ◌≡◌, sym, Bool, true, false, Option, none, some, List, [], ◌∷◌, arith, inl, inr,
  Option-cases,
}
use swarm_autoscaler.Daemon.Containers.{
  Supervisor, start_monitoring, stop_monitoring, push_start, push_stop, on_event, take_start,
  take_stop,
}

-- The map names for each container its one monitor that is not cancelled.
pub record IsSound (s : Supervisor) : Type 0 where
  pub named :
      (c : ℕ) (k : String) → s.started c ≡ some k → s.cancelled c ≡ false → s.monitored k ≡ some c
  pub live :
      (c : ℕ) (k : String)
      → s.monitored k ≡ some c
      → (s.started c ≡ some k) × (s.cancelled c ≡ false) × (c < s.next_context)
  pub issued : (c : ℕ) → s.next_context ≤ c → s.cancelled c ≡ false

pub start_monitoring-IsSound :
    (s : Supervisor) (k : String) → IsSound s → IsSound (start_monitoring s k)
unfolding start_monitoring
start_monitoring-IsSound s k i = elim (Option-cases (s.monitored k)) [
  | inr (c, e) ↦ rw (e, start_monitoring) i
  | inl e ↦
      rw (e, start_monitoring)
        (record {
          named = λ c j f g. ground (arith, i.named c j, i.live c j, eq_iff k j);
          live = λ c j f. ground (arith, i.live c j, i.issued c, eq_iff k j);
          issued = λ c f. ground (arith, i.issued c);
        })
]

stop_monitoring-IsSound : (s : Supervisor) (k : String) → IsSound s → IsSound (stop_monitoring s k)
unfolding stop_monitoring
stop_monitoring-IsSound s k i = elim (Option-cases (s.monitored k)) [
  | inl e ↦ rw (e, stop_monitoring) i
  | inr (c, e) ↦
      rw (e, stop_monitoring)
        (record {
          named = λ d j f g. ground (arith, i.named d j, i.live c k, eq_iff k j);
          live = λ d j f. ground (arith, i.live d j, i.live c k, eq_iff k j);
          issued = λ d f. ground (arith, i.issued d, i.live c k);
        })
]

-- One of the running containers at the start of `main`, an event, or a turn of the loop of `main`.
pub data Step (s t : Supervisor) : Type 0 where
  running : (k : String) → start_monitoring s k ≡ t → Step s t
  event : (action k : String) (owned : Option Bool) → on_event s action k owned ≡ some t → Step s t
  starts : take_start s ≡ t → Step s t
  stops : take_stop s ≡ t → Step s t

pub data Reach (s : Supervisor) : Supervisor → Type 0 where
  start : Reach s s
  later : {t u : Supervisor} → Reach s t → Step t u → Reach s u

-- `main` before the first container: nothing is monitored.
pub record IsInitial (s : Supervisor) : Type 0 where
  pub no_monitors : (k : String) → s.monitored k ≡ none
  pub none_started : (c : ℕ) → s.started c ≡ none
  pub none_cancelled : (c : ℕ) → s.cancelled c ≡ false

pub initial-IsSound : (s : Supervisor) → IsInitial s → IsSound s
initial-IsSound s i = record {
  named = λ c k e f. ground (arith, i.none_started c);
  live = λ c k e. ground (arith, i.no_monitors k);
  issued = λ c h. i.none_cancelled c;
}

-- The channels are no part of the invariant.
channels-IsSound :
    (s : Supervisor) (a b : List String)
    → IsSound s
    → IsSound (record s { start_chan = a; stop_chan = b })
channels-IsSound s a b i = record { named = i.named; live = i.live; issued = i.issued }

on_event-channels :
    (s t : Supervisor) (action k : String) (owned : Option Bool)
    → on_event s action k owned ≡ some t
    → t ≡ record s { start_chan = t.start_chan; stop_chan = t.stop_chan }
unfolding on_event push_start push_stop
on_event-channels s t action k none e = ground (arith, e)
on_event-channels s t action k (some false) e = ground (arith, e)
on_event-channels s t action k (some true) e = ground (arith, e)

take_start-IsSound : (s : Supervisor) → IsSound s → IsSound (take_start s)
unfolding take_start
take_start-IsSound s i =
    elim s.start_chan
        as (λ chan.
          IsSound (record s { start_chan = chan })
          → IsSound (take_start (record s { start_chan = chan }))) [
            | [] ↦ λ h. h
            | k ∷ ks ↦ λ h.
                start_monitoring-IsSound (record s { start_chan = ks }) k
                  (channels-IsSound s ks s.stop_chan i)
          ]
      i

take_stop-IsSound : (s : Supervisor) → IsSound s → IsSound (take_stop s)
unfolding take_stop
take_stop-IsSound s i =
    elim s.stop_chan
        as (λ chan.
          IsSound (record s { stop_chan = chan })
          → IsSound (take_stop (record s { stop_chan = chan }))) [
            | [] ↦ λ h. h
            | k ∷ ks ↦ λ h.
                stop_monitoring-IsSound (record s { stop_chan = ks }) k
                  (channels-IsSound s s.start_chan ks i)
          ]
      i

Step-IsSound : (s t : Supervisor) → Step s t → IsSound s → IsSound t
Step-IsSound s t (running k e) i = subst IsSound e (start_monitoring-IsSound s k i)
Step-IsSound s t (event action k owned e) i =
    subst IsSound (sym (on_event-channels s t action k owned e))
      (channels-IsSound s t.start_chan t.stop_chan i)
Step-IsSound s t (starts e) i = subst IsSound e (take_start-IsSound s i)
Step-IsSound s t (stops e) i = subst IsSound e (take_stop-IsSound s i)

Reach-IsSound : (s t : Supervisor) → Reach s t → IsSound s → IsSound t
Reach-IsSound s t start i = i
Reach-IsSound s t (later {t = u} r e) i = Step-IsSound u t e (Reach-IsSound s u r i)

-- Whatever the order of events and turns of the loop since the start: a container has one monitor at
-- most that is not cancelled, and it is the one that the map names, so that the next stop cancels it.
pub one_monitor :
    (s t : Supervisor) (k : String) (c d : ℕ)
    → IsInitial s
    → Reach s t
    → t.started c ≡ some k
    → t.cancelled c ≡ false
    → t.started d ≡ some k
    → t.cancelled d ≡ false
    → (c ≡ d) × (t.monitored k ≡ some c)
one_monitor s t k c d i r e f g h =
    let sound = Reach-IsSound s t r (initial-IsSound s i) in
    (ground (arith, sound.named c k e f, sound.named d k g h), sound.named c k e f)

-- The two channels do not keep the order of the events: where a container that is monitored stops and
-- starts again before the loop comes to either, the loop may take the start first, and the container
-- is then left without a monitor; taken in order, it has a new one.
pub restart_lost :
    (s : Supervisor) (k : String) (c : ℕ)
    → s.monitored k ≡ some c
    → s.start_chan ≡ []
    → s.stop_chan ≡ []
    → (died both : Supervisor) × (on_event s "die" k (some true) ≡ some died)
      × (on_event died "start" k (some true) ≡ some both)
      × ((take_stop (take_start both)).monitored k ≡ none)
      × ((take_start (take_stop both)).monitored k ≡ some s.next_context)
unfolding on_event push_start push_stop take_start take_stop start_monitoring stop_monitoring
restart_lost s k c e f g =
    let died : Supervisor = record s { stop_chan = k ∷ [] } in
    let both : Supervisor = record died { start_chan = k ∷ [] } in
    (
      died,
      both,
      ground (arith, g),
      ground (arith, f),
      ground (arith, eq_iff k k),
      ground (arith, eq_iff k k),
    )
