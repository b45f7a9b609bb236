-- ===== src/Tests/Containers.antt =====
-- Containers of a node: the swarm of the tests of scale.go, and a container that stops and starts again.
use Prim.Native.String.{String}
use swarm_autoscaler.Base.{suc, ◌≡◌, refl, true, false, none, some, List, [], ◌∷◌}
use swarm_autoscaler.Daemon.Containers.{
  Supervisor, start_monitoring, stop_monitoring, on_event, take_start, take_stop,
}
use swarm_autoscaler.Daemon.Containers.Lifecycle.{
  IsInitial, Reach, start, later, running, event, starts, stops, one_monitor, restart_lost,
}

abbrev asleep : Supervisor
asleep = record {
  monitored = λ k. none;
  cancelled = λ c. false;
  started = λ c. none;
  next_context = 0;
  start_chan = [];
  stop_chan = [];
}

asleep-IsInitial : IsInitial asleep
asleep-IsInitial = record {
  no_monitors = λ k. refl;
  none_started = λ c. refl;
  none_cancelled = λ c. refl;
}

-- "c1" runs from the start, is started once more, stops and starts.
abbrev monitoring : Supervisor
monitoring = start_monitoring asleep "c1"

abbrev restarted : Supervisor
restarted = start_monitoring (stop_monitoring monitoring "c1") "c1"

abbrev told : Supervisor
told = record monitoring { stop_chan = "c1" ∷ [] }

abbrev stopped : Supervisor
stopped = take_stop told

abbrev told_again : Supervisor
told_again = record stopped { start_chan = "c1" ∷ [] }

abbrev back : Supervisor
back = take_start told_again

back_reached : Reach asleep back
unfolding on_event start_monitoring stop_monitoring take_stop
back_reached =
    later
      (later
        (later (later (later start (running "c1" refl)) (event "die" "c1" (some true) refl))
          (stops refl))
        (event "start" "c1" (some true) refl))
      (starts refl)

one_monitor_example : (suc 0 ≡ 1) × (back.monitored "c1" ≡ some 1)
unfolding take_start take_stop start_monitoring stop_monitoring
one_monitor_example =
    one_monitor asleep back "c1" 1 1 asleep-IsInitial back_reached refl refl refl refl

restart_lost_example :
    (died both : Supervisor) × (on_event monitoring "die" "c1" (some true) ≡ some died)
    × (on_event died "start" "c1" (some true) ≡ some both)
    × ((take_stop (take_start both)).monitored "c1" ≡ none)
    × ((take_start (take_stop both)).monitored "c1" ≡ some 1)
unfolding start_monitoring
restart_lost_example = restart_lost monitoring "c1" 0 refl refl refl

abbrev taken : List String
taken = "c1" ∷ "c2" ∷ []
