-- ===== src/Kernel/Types/NetParts.antt =====
-- autoscaler/conc_req_monitoring/bpf/vmlinux.h: the last parts of struct net, member by member.
use swarm_autoscaler.Kernel.Layout.{
  CType, int8, int32, int64, array, struct, pad, end, ◌of◌, ◌⨾◌, ptr,
}
use swarm_autoscaler.Kernel.Types.Fpu.{seqcount_spinlock}
use swarm_autoscaler.Kernel.Types.Ipv6.{dst_ops, work_struct}
use swarm_autoscaler.Kernel.Types.Lists.{list_head, spinlock, timer_list}
use swarm_autoscaler.Kernel.Types.NetCore.{seqlock_t}
use swarm_autoscaler.Kernel.Types.Tracking.{hlist_head, mutex}

abbrev pub xfrm_policy_hash : CType
xfrm_policy_hash = struct (
    "table" of ptr
    ⨾ "hmask" of int32
    ⨾ "dbits4" of int8
    ⨾ "sbits4" of int8
    ⨾ "dbits6" of int8
    ⨾ "sbits6" of int8
    ⨾ end)

abbrev pub xfrm_policy_hthresh : CType
xfrm_policy_hthresh = struct (
    "work" of work_struct
    ⨾ "lock" of seqlock_t
    ⨾ "lbits4" of int8
    ⨾ "rbits4" of int8
    ⨾ "lbits6" of int8
    ⨾ "rbits6" of int8
    ⨾ end)

abbrev pub netns_xfrm : CType
netns_xfrm = struct (
    "state_all" of list_head
    ⨾ "state_bydst" of ptr
    ⨾ "state_bysrc" of ptr
    ⨾ "state_byspi" of ptr
    ⨾ "state_byseq" of ptr
    ⨾ "state_hmask" of int32
    ⨾ "state_num" of int32
    ⨾ "state_hash_work" of work_struct
    ⨾ "policy_all" of list_head
    ⨾ "policy_byidx" of ptr
    ⨾ "policy_idx_hmask" of int32
    ⨾ "idx_generator" of int32
    ⨾ "policy_inexact" of array 3 hlist_head
    ⨾ "policy_bydst" of array 3 xfrm_policy_hash
    ⨾ "policy_count" of array 6 int32
    ⨾ "policy_hash_work" of work_struct
    ⨾ "policy_hthresh" of xfrm_policy_hthresh
    ⨾ "inexact_bins" of list_head
    ⨾ "nlsk" of ptr
    ⨾ "nlsk_stash" of ptr
    ⨾ "sysctl_aevent_etime" of int32
    ⨾ "sysctl_aevent_rseqth" of int32
    ⨾ "sysctl_larval_drop" of int32
    ⨾ "sysctl_acq_expires" of int32
    ⨾ "policy_default" of array 3 int8
    ⨾ "sysctl_hdr" of ptr
    ⨾ pad 8 64
    ⨾ pad 8 64
    ⨾ pad 8 64
    ⨾ "xfrm4_dst_ops" of dst_ops
    ⨾ "xfrm6_dst_ops" of dst_ops
    ⨾ "xfrm_state_lock" of spinlock
    ⨾ "xfrm_state_hash_generation" of seqcount_spinlock
    ⨾ "xfrm_policy_hash_generation" of seqcount_spinlock
    ⨾ "xfrm_policy_lock" of spinlock
    ⨾ "xfrm_cfg_mutex" of mutex
    ⨾ pad 8 64
    ⨾ pad 8 64
    ⨾ end)

abbrev pub netns_mpls : CType
netns_mpls = struct (
    "ip_ttl_propagate" of int32
    ⨾ "default_ttl" of int32
    ⨾ "platform_labels" of int64
    ⨾ "platform_label" of ptr
    ⨾ "ctl" of ptr
    ⨾ end)

abbrev pub netns_can : CType
netns_can = struct (
    "proc_dir" of ptr
    ⨾ "pde_stats" of ptr
    ⨾ "pde_reset_stats" of ptr
    ⨾ "pde_rcvlist_all" of ptr
    ⨾ "pde_rcvlist_fil" of ptr
    ⨾ "pde_rcvlist_inv" of ptr
    ⨾ "pde_rcvlist_sff" of ptr
    ⨾ "pde_rcvlist_eff" of ptr
    ⨾ "pde_rcvlist_err" of ptr
    ⨾ "bcmproc_dir" of ptr
    ⨾ "rx_alldev_list" of ptr
    ⨾ "rcvlists_lock" of spinlock
    ⨾ "stattimer" of timer_list
    ⨾ "pkg_stats" of ptr
    ⨾ "rcv_lists_stats" of ptr
    ⨾ "cgw_list" of hlist_head
    ⨾ end)

abbrev pub netns_xdp : CType
netns_xdp = struct ("lock" of mutex ⨾ "list" of hlist_head ⨾ end)

abbrev pub netns_mctp : CType
netns_mctp = struct (
    "routes" of list_head
    ⨾ "bind_lock" of mutex
    ⨾ "binds" of hlist_head
    ⨾ "keys_lock" of spinlock
    ⨾ "keys" of hlist_head
    ⨾ "default_net" of int32
    ⨾ "neigh_lock" of mutex
    ⨾ "neighbours" of list_head
    ⨾ end)

abbrev pub netns_smc : CType
netns_smc = struct (
    "smc_stats" of ptr
    ⨾ "mutex_fback_rsn" of mutex
    ⨾ "fback_rsn" of ptr
    ⨾ "limit_smc_hs" of int8
    ⨾ "smc_hdr" of ptr
    ⨾ "sysctl_autocorking_size" of int32
    ⨾ "sysctl_smcr_buf_type" of int32
    ⨾ "sysctl_smcr_testlink_time" of int32
    ⨾ "sysctl_wmem" of int32
    ⨾ "sysctl_rmem" of int32
    ⨾ "sysctl_max_links_per_lgr" of int32
    ⨾ "sysctl_max_conns_per_lgr" of int32
    ⨾ end)
