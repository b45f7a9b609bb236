-- ===== src/Tests/Sizes.antt =====
-- The sizes and alignments in bytes that a C compiler gives the types of
-- autoscaler/conc_req_monitoring/bpf/vmlinux.h, and those of the model.
use swarm_autoscaler.Base.{ℕ, ◌≡◌, refl, [], ◌∷◌, map}
use swarm_autoscaler.Kernel.Layout.{CType, size_of, align_of}
use swarm_autoscaler.Kernel.Types.Entry.{
  atomic_t, fred_cs, fred_ss, ns_common, nsproxy, pt_regs, refcount_struct,
}
use swarm_autoscaler.Kernel.Types.Fpu.{
  arch_tlbflush_unmap_batch, desc_struct, fpregs_state, fpstate, fpu, fpu_state_perm, fregs_state,
  fxregs_state, latency_record, llist_head, nodemask_t, seqcount_spinlock, swregs_state,
  thread_struct, tlbflush_unmap_batch, xregs_state, xstate_header,
}
use swarm_autoscaler.Kernel.Types.Ipv4.{netns_ipv4}
use swarm_autoscaler.Kernel.Types.Ipv6.{
  delayed_work, dst_ops, netns_ipv6, netns_sysctl_ipv6, percpu_counter, work_struct,
}
use swarm_autoscaler.Kernel.Types.Lists.{
  atomic64_t, callback_head, hlist_node, hlist_nulls_node, in6_addr, kuid_t, list_head, page_frag,
  possible_net_t, qrwlock, qspinlock, raw_spinlock, rb_root, rwlock_t, sk_buff_head, sk_buff_list,
  sock_cgroup_data, sock_common, socket_lock_t, spinlock, timer_list, wait_queue_head,
}
use swarm_autoscaler.Kernel.Types.Net.{net}
use swarm_autoscaler.Kernel.Types.NetCore.{
  blocking_notifier_head, ctl_dir, ctl_table_header, ctl_table_set, idr, inet_timewait_death_row,
  kgid_t, local_ports, netns_core, netns_mib, netns_nexthop, netns_packet, netns_unix,
  ping_group_range, raw_notifier_head, rw_semaphore, seqlock_t, siphash_key_t, unix_table, xarray,
}
use swarm_autoscaler.Kernel.Types.NetFilter.{
  netns_bpf, netns_ct, netns_ft, netns_ieee802154_lowpan, netns_nf, netns_nftables, netns_sctp,
  netns_sysctl_lowpan, nf_dccp_net, nf_generic_net, nf_gre_net, nf_icmp_net, nf_ip_net, nf_sctp_net,
  nf_tcp_net, nf_udp_net,
}
use swarm_autoscaler.Kernel.Types.NetParts.{
  netns_can, netns_mctp, netns_mpls, netns_smc, netns_xdp, netns_xfrm, xfrm_policy_hash,
  xfrm_policy_hthresh,
}
use swarm_autoscaler.Kernel.Types.Sched.{
  __call_single_node, hrtimer, llist_node, load_weight, rb_node, sched_avg, sched_dl_entity,
  sched_entity, sched_rt_entity, thread_info, timerqueue_node,
}
use swarm_autoscaler.Kernel.Types.Sock.{sock}
use swarm_autoscaler.Kernel.Types.Task.{task_struct}
use swarm_autoscaler.Kernel.Types.Tracking.{
  cpumask, hlist_head, mutex, optimistic_spin_queue, plist_node, posix_cputimer_base,
  posix_cputimers, posix_cputimers_work, prev_cputime, rb_root_cached, rcu_special, restart_block,
  sched_info, sched_statistics, seccomp, seqcount, sigpending, sigset_t, syscall_user_dispatch,
  sysv_sem, sysv_shm, task_io_accounting, timerqueue_head, vtime, wake_q_node,
}

abbrev measure : CType → ℕ × ℕ
unfolding size_of align_of
measure t = (size_of t, align_of t)

sizes_entry :
    map measure
      (fred_cs ∷ fred_ss ∷ pt_regs ∷ atomic_t ∷ refcount_struct ∷ nsproxy ∷ ns_common ∷ [])
    ≡ (8, 8) ∷ (8, 8) ∷ (168, 8) ∷ (4, 4) ∷ (4, 4) ∷ (72, 8) ∷ (24, 8) ∷ []
unfolding size_of align_of
sizes_entry = refl

sizes_lists :
    map measure (
      hlist_node ∷ possible_net_t ∷ in6_addr ∷ atomic64_t ∷ hlist_nulls_node ∷ sock_common
      ∷ sk_buff_list ∷ qspinlock ∷ raw_spinlock ∷ spinlock ∷ sk_buff_head ∷ list_head
      ∷ wait_queue_head ∷ socket_lock_t ∷ rb_root ∷ page_frag ∷ timer_list ∷ qrwlock ∷ rwlock_t
      ∷ kuid_t ∷ sock_cgroup_data ∷ callback_head ∷ [])
    ≡ (16, 8)
      ∷ (8, 8)
      ∷ (16, 4)
      ∷ (8, 8)
      ∷ (16, 8)
      ∷ (136, 8)
      ∷ (16, 8)
      ∷ (4, 4)
      ∷ (4, 4)
      ∷ (4, 4)
      ∷ (24, 8)
      ∷ (16, 8)
      ∷ (24, 8)
      ∷ (32, 8)
      ∷ (8, 8)
      ∷ (16, 8)
      ∷ (40, 8)
      ∷ (8, 4)
      ∷ (8, 4)
      ∷ (4, 4)
      ∷ (16, 8)
      ∷ (16, 8)
      ∷ []
unfolding size_of align_of
sizes_lists = refl

sizes_sock : map measure (sock ∷ []) ≡ (760, 8) ∷ []
unfolding size_of align_of
sizes_sock = refl

sizes_sched :
    map measure (
      thread_info ∷ llist_node ∷ __call_single_node ∷ load_weight ∷ rb_node ∷ sched_avg
      ∷ sched_entity ∷ sched_rt_entity ∷ timerqueue_node ∷ hrtimer ∷ sched_dl_entity ∷ [])
    ≡ (24, 8)
      ∷ (8, 8)
      ∷ (16, 8)
      ∷ (16, 8)
      ∷ (24, 8)
      ∷ (64, 8)
      ∷ (256, 8)
      ∷ (48, 8)
      ∷ (32, 8)
      ∷ (64, 8)
      ∷ (248, 8)
      ∷ []
unfolding size_of align_of
sizes_sched = refl

sizes_tracking :
    map measure (
      sched_statistics ∷ hlist_head ∷ cpumask ∷ rcu_special ∷ sched_info ∷ plist_node
      ∷ restart_block ∷ prev_cputime ∷ seqcount ∷ vtime ∷ rb_root_cached ∷ timerqueue_head
      ∷ posix_cputimer_base ∷ posix_cputimers ∷ optimistic_spin_queue ∷ mutex ∷ posix_cputimers_work
      ∷ sysv_sem ∷ sysv_shm ∷ sigset_t ∷ sigpending ∷ seccomp ∷ syscall_user_dispatch ∷ wake_q_node
      ∷ task_io_accounting ∷ [])
    ≡ (256, 8)
      ∷ (8, 8)
      ∷ (1024, 8)
      ∷ (4, 4)
      ∷ (32, 8)
      ∷ (40, 8)
      ∷ (56, 8)
      ∷ (24, 8)
      ∷ (4, 4)
      ∷ (48, 8)
      ∷ (16, 8)
      ∷ (16, 8)
      ∷ (24, 8)
      ∷ (80, 8)
      ∷ (4, 4)
      ∷ (32, 8)
      ∷ (56, 8)
      ∷ (8, 8)
      ∷ (16, 8)
      ∷ (8, 8)
      ∷ (24, 8)
      ∷ (16, 8)
      ∷ (32, 8)
      ∷ (8, 8)
      ∷ (56, 8)
      ∷ []
unfolding size_of align_of
sizes_tracking = refl

sizes_fpu :
    map measure (
      nodemask_t ∷ seqcount_spinlock ∷ arch_tlbflush_unmap_batch ∷ tlbflush_unmap_batch
      ∷ latency_record ∷ llist_head ∷ desc_struct ∷ fpu_state_perm ∷ fregs_state ∷ fxregs_state
      ∷ swregs_state ∷ xstate_header ∷ xregs_state ∷ fpregs_state ∷ fpstate ∷ fpu ∷ thread_struct
      ∷ [])
    ≡ (128, 8)
      ∷ (4, 4)
      ∷ (1024, 8)
      ∷ (1032, 8)
      ∷ (120, 8)
      ∷ (8, 8)
      ∷ (8, 2)
      ∷ (16, 8)
      ∷ (112, 4)
      ∷ (512, 8)
      ∷ (136, 8)
      ∷ (64, 8)
      ∷ (576, 8)
      ∷ (4096, 8)
      ∷ (4160, 8)
      ∷ (4224, 8)
      ∷ (4416, 8)
      ∷ []
unfolding size_of align_of
sizes_fpu = refl

sizes_task : map measure (task_struct ∷ []) ≡ (13696, 8) ∷ []
unfolding size_of align_of
sizes_task = refl

sizes_net_core :
    map measure (
      xarray ∷ idr ∷ ctl_table_header ∷ ctl_dir ∷ ctl_table_set ∷ raw_notifier_head ∷ netns_core
      ∷ netns_mib ∷ netns_packet ∷ unix_table ∷ netns_unix ∷ rw_semaphore ∷ blocking_notifier_head
      ∷ netns_nexthop ∷ inet_timewait_death_row ∷ local_ports ∷ seqlock_t ∷ kgid_t
      ∷ ping_group_range ∷ siphash_key_t ∷ [])
    ≡ (16, 8)
      ∷ (24, 8)
      ∷ (80, 8)
      ∷ (88, 8)
      ∷ (96, 8)
      ∷ (8, 8)
      ∷ (40, 8)
      ∷ (120, 8)
      ∷ (40, 8)
      ∷ (16, 8)
      ∷ (32, 8)
      ∷ (40, 8)
      ∷ (48, 8)
      ∷ (72, 8)
      ∷ (128, 8)
      ∷ (8, 4)
      ∷ (8, 4)
      ∷ (4, 4)
      ∷ (16, 4)
      ∷ (16, 8)
      ∷ []
unfolding size_of align_of
sizes_net_core = refl

sizes_ipv4 : map measure (netns_ipv4 ∷ []) ≡ (768, 8) ∷ []
unfolding size_of align_of
sizes_ipv4 = refl

sizes_ipv6 :
    map measure
      (percpu_counter ∷ dst_ops ∷ netns_sysctl_ipv6 ∷ work_struct ∷ delayed_work ∷ netns_ipv6 ∷ [])
    ≡ (40, 8) ∷ (192, 8) ∷ (184, 8) ∷ (32, 8) ∷ (88, 8) ∷ (832, 8) ∷ []
unfolding size_of align_of
sizes_ipv6 = refl

sizes_net_filter :
    map measure (
      netns_sysctl_lowpan ∷ netns_ieee802154_lowpan ∷ netns_sctp ∷ netns_nf ∷ nf_generic_net
      ∷ nf_tcp_net ∷ nf_udp_net ∷ nf_icmp_net ∷ nf_dccp_net ∷ nf_sctp_net ∷ nf_gre_net ∷ nf_ip_net
      ∷ netns_ct ∷ netns_nftables ∷ netns_ft ∷ netns_bpf ∷ [])
    ≡ (8, 8)
      ∷ (16, 8)
      ∷ (304, 8)
      ∷ (256, 8)
      ∷ (4, 4)
      ∷ (64, 4)
      ∷ (12, 4)
      ∷ (4, 4)
      ∷ (44, 4)
      ∷ (40, 4)
      ∷ (24, 8)
      ∷ (200, 8)
      ∷ (232, 8)
      ∷ (1, 1)
      ∷ (8, 8)
      ∷ (64, 8)
      ∷ []
unfolding size_of align_of
sizes_net_filter = refl

sizes_net_parts :
    map measure (
      xfrm_policy_hash ∷ xfrm_policy_hthresh ∷ netns_xfrm ∷ netns_mpls ∷ netns_can ∷ netns_xdp
      ∷ netns_mctp ∷ netns_smc ∷ [])
    ≡ (16, 8) ∷ (48, 8) ∷ (832, 8) ∷ (32, 8) ∷ (160, 8) ∷ (40, 8) ∷ (128, 8) ∷ (96, 8) ∷ []
unfolding size_of align_of
sizes_net_parts = refl

sizes_net : map measure (net ∷ []) ≡ (4608, 8) ∷ []
unfolding size_of align_of
sizes_net = refl
