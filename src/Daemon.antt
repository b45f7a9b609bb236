-- ===== src/Daemon.antt =====
-- The daemon (autoscaler/*/*.go).
pub mod ConcReq
pub mod Server
pub mod Monitor
pub mod Session
pub mod Ports
pub mod Scale
pub mod Containers
pub mod Cycle
pub mod Float
pub mod Config
pub mod Cgroup
pub mod Main
