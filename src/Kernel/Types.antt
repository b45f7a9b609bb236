-- ===== src/Kernel/Types.antt =====
-- The types of autoscaler/conc_req_monitoring/bpf/vmlinux.h that the kprobe reads through, with every type
-- that they hold by value.
pub mod Entry
pub mod Lists
pub mod Sock
pub mod Sched
pub mod Tracking
pub mod Fpu
pub mod TaskRest
pub mod Task
pub mod NetCore
pub mod Ipv4
pub mod Ipv6
pub mod NetFilter
pub mod NetParts
pub mod Net
