-- ===== src/Tests/Netns.antt =====
-- The offsets of the members that the kprobe reads, as a C compiler gives them for vmlinux.h.
use swarm_autoscaler.Base.{◌≡◌, refl, none, some, ◌==◌, if◌then◌else◌}
use swarm_autoscaler.Bpf.Kernel.{Memory}
use swarm_autoscaler.Bpf.ConcReq.Netns.{vmlinux_offsets, get_netns_from_task-inum_of}
use swarm_autoscaler.Bpf.ConcReq.{get_netns_from_task}

offsets_of_header : vmlinux_offsets ≡ record {
  task_nsproxy = 3120;
  nsproxy_net_ns = 40;
  net_ns_inum = 128;
  sock_state = 18;
  regs_di = 112;
}
unfolding vmlinux_offsets
offsets_of_header = refl

-- A task at 1000 whose namespaces lie at 50000, and whose network namespace, at 60000, has number 7.
abbrev chain : Memory
chain addr size =
    if addr == 4120
    then some 50000
    else (if addr == 50040 then some 60000 else (if addr == 60128 then some 7 else none))

get_netns_from_task-inum_of_example : get_netns_from_task vmlinux_offsets chain 1000 ≡ 7
unfolding vmlinux_offsets
get_netns_from_task-inum_of_example = get_netns_from_task-inum_of vmlinux_offsets chain 1000
