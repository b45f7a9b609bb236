-- ===== src/Bpf/Kernel.antt =====
-- What the programs read of the running kernel: helper functions and offsets of fields.
use swarm_autoscaler.Base.{ℕ, Option, none, some}

-- `bpf_probe_read_kernel` by address and size; `none` is a fault. A parameter of the model.
abbrev pub Memory : Type 0
Memory = ℕ → ℕ → Option ℕ

-- A destination that starts as 0 and is read into: the helper fills it with 0 on a fault.
unfoldable pub core_read : Memory → ℕ → ℕ → ℕ
core_read mem addr size = elim (mem addr size) [ none ↦ 0 | some v ↦ v ]

-- The offsets that CO-RE relocation puts into the program.
pub record Offsets : Type 0 where
  pub task_nsproxy : ℕ
  pub nsproxy_net_ns : ℕ
  pub net_ns_inum : ℕ
  pub sock_state : ℕ
  pub regs_di : ℕ
