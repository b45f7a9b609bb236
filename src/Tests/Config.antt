-- ===== src/Tests/Config.antt =====
-- A configuration with limits on memory, over numbers that stand for themselves, and one with two nodes.
use swarm_autoscaler.Base.{◌≡◌, refl, ℤ, pos, ltb_ℤ, true, false, not, [], ◌∷◌}
use swarm_autoscaler.Daemon.Float.{Float, Laws}
use swarm_autoscaler.Daemon.Server.{SwarmNodeInfo}
use swarm_autoscaler.Daemon.Config.{Config, nothing, default_config, choose_resource}

-- The tests divide and multiply nothing.
abbrev pub whole : Float ℤ
whole = record {
  of_int = λ x. x;
  lt = ltb_ℤ;
  le = λ a b. not (ltb_ℤ b a);
  div = λ a b. a;
  mul = λ a b. a;
}

pub whole-Laws : Laws whole
whole-Laws = record { lt-of_int = λ a b x y. refl; le-of_int = λ a b x y. refl }

abbrev two_gb : Config ℤ
two_gb = record (default_config whole) { lower_mb = pos 100; lower_gb = pos 0; upper_gb = pos 2 }

-- The defaults choose nothing.
defaults_nothing : choose_resource whole (default_config whole) ≡ nothing
unfolding choose_resource default_config
defaults_nothing = refl

abbrev two_nodes : Config ℤ
two_nodes = record (default_config whole) {
  managers = ("vm1", "10.0.0.1") ∷ [];
  workers = ("vm2", "10.0.0.2") ∷ [];
}

abbrev on_vm2 : SwarmNodeInfo
on_vm2 = record {
  autoscaler_manager = false;
  other_nodes =
      record { hostname = "vm1"; ip = "10.0.0.1"; manager = true }
      ∷ record { hostname = "vm2"; ip = "10.0.0.2"; manager = false }
      ∷ [];
  keep_alive = 5;
}
