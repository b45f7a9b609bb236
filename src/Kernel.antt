-- ===== src/Kernel.antt =====
-- The types of the kernel that the kprobe reads through, from the header that the build generates
-- (autoscaler/conc_req_monitoring/bpf/vmlinux.h), and their layout on x86-64.
pub mod Layout
pub mod Types
