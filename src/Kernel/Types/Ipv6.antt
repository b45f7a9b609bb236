-- ===== src/Kernel/Types/Ipv6.antt =====
-- autoscaler/conc_req_monitoring/bpf/vmlinux.h: struct netns_ipv6 and what it holds, member by member.
use swarm_autoscaler.Kernel.Layout.{
  CType, int8, int16, int32, int64, array, struct, pad, end, ◌of◌, ◌⨾◌, ptr,
}
use swarm_autoscaler.Kernel.Types.Entry.{atomic_t}
use swarm_autoscaler.Kernel.Types.Lists.{
  atomic64_t, list_head, raw_spinlock, rwlock_t, spinlock, timer_list,
}
use swarm_autoscaler.Kernel.Types.Tracking.{hlist_head}

abbrev pub percpu_counter : CType
percpu_counter =
    struct
      ("lock" of raw_spinlock ⨾ "count" of int64 ⨾ "list" of list_head ⨾ "counters" of ptr ⨾ end)

abbrev pub dst_ops : CType
dst_ops = struct (
    "family" of int16
    ⨾ "gc_thresh" of int32
    ⨾ "gc" of ptr
    ⨾ "check" of ptr
    ⨾ "default_advmss" of ptr
    ⨾ "mtu" of ptr
    ⨾ "cow_metrics" of ptr
    ⨾ "destroy" of ptr
    ⨾ "ifdown" of ptr
    ⨾ "negative_advice" of ptr
    ⨾ "link_failure" of ptr
    ⨾ "update_pmtu" of ptr
    ⨾ "redirect" of ptr
    ⨾ "local_out" of ptr
    ⨾ "neigh_lookup" of ptr
    ⨾ "confirm_neigh" of ptr
    ⨾ "kmem_cachep" of ptr
    ⨾ "pcpuc_entries" of percpu_counter
    ⨾ pad 8 64
    ⨾ pad 8 64
    ⨾ pad 8 64
    ⨾ end)

abbrev pub netns_sysctl_ipv6 : CType
netns_sysctl_ipv6 = struct (
    "hdr" of ptr
    ⨾ "route_hdr" of ptr
    ⨾ "icmp_hdr" of ptr
    ⨾ "frags_hdr" of ptr
    ⨾ "xfrm6_hdr" of ptr
    ⨾ "flush_delay" of int32
    ⨾ "ip6_rt_max_size" of int32
    ⨾ "ip6_rt_gc_min_interval" of int32
    ⨾ "ip6_rt_gc_timeout" of int32
    ⨾ "ip6_rt_gc_interval" of int32
    ⨾ "ip6_rt_gc_elasticity" of int32
    ⨾ "ip6_rt_mtu_expires" of int32
    ⨾ "ip6_rt_min_advmss" of int32
    ⨾ "multipath_hash_fields" of int32
    ⨾ "multipath_hash_policy" of int8
    ⨾ "bindv6only" of int8
    ⨾ "flowlabel_consistency" of int8
    ⨾ "auto_flowlabels" of int8
    ⨾ "icmpv6_time" of int32
    ⨾ "icmpv6_echo_ignore_all" of int8
    ⨾ "icmpv6_echo_ignore_multicast" of int8
    ⨾ "icmpv6_echo_ignore_anycast" of int8
    ⨾ "icmpv6_ratemask" of array 4 int64
    ⨾ "icmpv6_ratemask_ptr" of ptr
    ⨾ "anycast_src_echo_reply" of int8
    ⨾ "ip_nonlocal_bind" of int8
    ⨾ "fwmark_reflect" of int8
    ⨾ "flowlabel_state_ranges" of int8
    ⨾ "idgen_retries" of int32
    ⨾ "idgen_delay" of int32
    ⨾ "flowlabel_reflect" of int32
    ⨾ "max_dst_opts_cnt" of int32
    ⨾ "max_hbh_opts_cnt" of int32
    ⨾ "max_dst_opts_len" of int32
    ⨾ "max_hbh_opts_len" of int32
    ⨾ "seg6_flowlabel" of int32
    ⨾ "ioam6_id" of int32
    ⨾ "ioam6_id_wide" of int64
    ⨾ "skip_notify_on_dev_down" of int8
    ⨾ "fib_notify_on_flag_change" of int8
    ⨾ "icmpv6_error_anycast_as_unicast" of int8
    ⨾ end)

abbrev pub work_struct : CType
work_struct = struct ("data" of atomic64_t ⨾ "entry" of list_head ⨾ "func" of int64 ⨾ end)

abbrev pub delayed_work : CType
delayed_work =
    struct ("work" of work_struct ⨾ "timer" of timer_list ⨾ "wq" of ptr ⨾ "cpu" of int32 ⨾ end)

abbrev pub netns_ipv6 : CType
netns_ipv6 = struct (
    "ip6_dst_ops" of dst_ops
    ⨾ "sysctl" of netns_sysctl_ipv6
    ⨾ "devconf_all" of ptr
    ⨾ "devconf_dflt" of ptr
    ⨾ "peers" of ptr
    ⨾ "fqdir" of ptr
    ⨾ "fib6_null_entry" of ptr
    ⨾ "ip6_null_entry" of ptr
    ⨾ "rt6_stats" of ptr
    ⨾ "ip6_fib_timer" of timer_list
    ⨾ "fib_table_hash" of ptr
    ⨾ "fib6_main_tbl" of ptr
    ⨾ "fib6_walkers" of list_head
    ⨾ "fib6_walker_lock" of rwlock_t
    ⨾ "fib6_gc_lock" of spinlock
    ⨾ "ip6_rt_gc_expire" of atomic_t
    ⨾ "ip6_rt_last_gc" of int64
    ⨾ "flowlabel_has_excl" of int8
    ⨾ "fib6_has_custom_rules" of int8
    ⨾ "fib6_rules_require_fldissect" of int32
    ⨾ "fib6_routes_require_src" of int32
    ⨾ "ip6_prohibit_entry" of ptr
    ⨾ "ip6_blk_hole_entry" of ptr
    ⨾ "fib6_local_tbl" of ptr
    ⨾ "fib6_rules_ops" of ptr
    ⨾ "ndisc_sk" of ptr
    ⨾ "tcp_sk" of ptr
    ⨾ "igmp_sk" of ptr
    ⨾ "mc_autojoin_sk" of ptr
    ⨾ "inet6_addr_lst" of ptr
    ⨾ "addrconf_hash_lock" of spinlock
    ⨾ "addr_chk_work" of delayed_work
    ⨾ "mr6_tables" of list_head
    ⨾ "mr6_rules_ops" of ptr
    ⨾ "dev_addr_genid" of atomic_t
    ⨾ "fib6_sernum" of atomic_t
    ⨾ "seg6_data" of ptr
    ⨾ "notifier_ops" of ptr
    ⨾ "ip6mr_notifier_ops" of ptr
    ⨾ "ipmr_seq" of int32
    ⨾ "ip6addrlbl_table"
      of struct ("head" of hlist_head ⨾ "lock" of spinlock ⨾ "seq" of int32 ⨾ end)
    ⨾ "ioam6_data" of ptr
    ⨾ pad 8 64
    ⨾ pad 8 64
    ⨾ pad 8 64
    ⨾ pad 8 64
    ⨾ end)
