-- ===== src/Daemon/Config/Selection.antt =====
-- What autoscaler/autoscaler/autoscaler.go monitors with which limits.
use swarm_autoscaler.Base.{
  ℕ, ℤ, pos, negsuc, ◌-◌, ◌==◌, ◌*◌, ◌^◌, ◌<◌, ◌≡◌, refl, false, some, List, arith, if◌then◌else◌,
}
use swarm_autoscaler.Daemon.Float.{Float, Laws}
use swarm_autoscaler.Daemon.Config.{
  Config, MemoryResource, memory, nothing, chosen, cpu_enabled, conc_req_enabled, in_mb, memory_of,
  choose_resource, default_config, load_config,
}

module _ {F : Type 0} (fl : Float F) where
  -- A file that sets nothing leaves the daemon with no resource, since every limit is then -1, and the
  -- first container to be monitored is a call on the interface value nil.
  nothing_by_default :
      Laws fl
      → (file : List ℕ) (c : Config F)
      → load_config fl (some file) (λ bytes defaults. some defaults) ≡ some c
      → choose_resource fl c ≡ nothing
  unfolding choose_resource default_config load_config
  nothing_by_default laws file c h =
      ground (arith, h, laws.le-of_int (pos 0) (negsuc 0) (omega arith) (omega arith))

  -- Where memory is monitored, neither CPU nor requests are, and each limit is the one in GB, if that is
  -- positive, or else the one in MB; a limit of less than 2^53 GB is exactly 1024 times as many MB.
  memory_limits :
      (c : Config F) (r : MemoryResource) (lower upper : ℕ)
      → choose_resource fl c ≡ chosen (memory r)
      → c.lower_gb ≡ pos lower
      → c.upper_gb ≡ pos upper
      → lower < 2 ^ 53
      → upper < 2 ^ 53
      → (cpu_enabled fl c ≡ false)
        × (conc_req_enabled fl c ≡ false)
        × (r.lower_limit ≡ (if 0 == lower then c.lower_mb else pos (1024 * lower)))
        × (r.upper_limit ≡ (if 0 == upper then c.upper_mb else pos (1024 * upper)))
  unfolding choose_resource memory_of in_mb
  memory_limits c r lower upper h e f k l = ground (arith, h, e, f)

  -- One GB more than these and the limit is negative.
  gb_overflow : (mb : ℤ) → in_mb fl (pos (2 ^ 53)) mb ≡ negsuc (2 ^ 63 - 1)
  unfolding in_mb
  gb_overflow mb = refl
