-- ===== src/Daemon/Session/End.antt =====
-- The end of `Monitor` in conc_req_monitoring.go, and the kprobe of conc_req_monitoring.c after it.
use Prim.Native.String.{String}
use swarm_autoscaler.Bpf.ConcReq.{Maps}
use swarm_autoscaler.Bpf.ConcReq.Monitor
use swarm_autoscaler.Daemon.Session.{Session}
