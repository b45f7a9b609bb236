-- ===== src/Bpf.antt =====
-- The BPF programs (autoscaler/*/bpf/*.c) and what they use of the kernel.
pub mod Maps
pub mod Table
pub mod Kernel
pub mod ConcReq
pub mod Classifier
pub mod Cgroup
