-- ===== src/Tests.antt =====
-- Tests and witnesses: the models run on small inputs, and the theorems applied to them.
mod ConcReq
mod Sizes
mod Daemon
mod Monitor
mod Ports
mod Scale
mod Classifier
mod Layout
mod Netns
mod Race
mod Containers
mod Cycle
mod Config
mod Cgroup
mod Session
mod Threads
mod Main
