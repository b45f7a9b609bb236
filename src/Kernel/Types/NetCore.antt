-- ===== src/Kernel/Types/NetCore.antt =====
-- autoscaler/conc_req_monitoring/bpf/vmlinux.h: parts of struct net: names, notifiers, sockets, member by member.
use swarm_autoscaler.Kernel.Layout.{
  CType, int8, int32, int64, array, struct, union, pad, end, ◌of◌, ◌⨾◌, ptr,
}
use swarm_autoscaler.Kernel.Types.Entry.{refcount_struct}
use swarm_autoscaler.Kernel.Types.Fpu.{seqcount_spinlock}
use swarm_autoscaler.Kernel.Types.Lists.{
  atomic64_t, callback_head, list_head, raw_spinlock, rb_root, spinlock,
}
use swarm_autoscaler.Kernel.Types.Tracking.{hlist_head, mutex, optimistic_spin_queue}

abbrev pub xarray : CType
xarray = struct ("xa_lock" of spinlock ⨾ "xa_flags" of int32 ⨾ "xa_head" of ptr ⨾ end)

abbrev pub idr : CType
idr = struct ("idr_rt" of xarray ⨾ "idr_base" of int32 ⨾ "idr_next" of int32 ⨾ end)

abbrev pub ctl_table_header : CType
ctl_table_header = struct (
    ""
      of union (
          ""
            of struct (
                "ctl_table" of ptr
                ⨾ "ctl_table_size" of int32
                ⨾ "used" of int32
                ⨾ "count" of int32
                ⨾ "nreg" of int32
                ⨾ end)
          ⨾ "rcu" of callback_head
          ⨾ end)
    ⨾ "unregistering" of ptr
    ⨾ "ctl_table_arg" of ptr
    ⨾ "root" of ptr
    ⨾ "set" of ptr
    ⨾ "parent" of ptr
    ⨾ "node" of ptr
    ⨾ "inodes" of hlist_head
    ⨾ end)

abbrev pub ctl_dir : CType
ctl_dir = struct ("header" of ctl_table_header ⨾ "root" of rb_root ⨾ end)

abbrev pub ctl_table_set : CType
ctl_table_set = struct ("is_seen" of ptr ⨾ "dir" of ctl_dir ⨾ end)

abbrev pub raw_notifier_head : CType
raw_notifier_head = struct ("head" of ptr ⨾ end)

abbrev pub netns_core : CType
netns_core = struct (
    "sysctl_hdr" of ptr
    ⨾ "sysctl_somaxconn" of int32
    ⨾ "sysctl_optmem_max" of int32
    ⨾ "sysctl_txrehash" of int8
    ⨾ "prot_inuse" of ptr
    ⨾ "rps_default_mask" of ptr
    ⨾ end)

abbrev pub netns_mib : CType
netns_mib = struct (
    "ip_statistics" of ptr
    ⨾ "ipv6_statistics" of ptr
    ⨾ "tcp_statistics" of ptr
    ⨾ "net_statistics" of ptr
    ⨾ "udp_statistics" of ptr
    ⨾ "udp_stats_in6" of ptr
    ⨾ "tls_statistics" of ptr
    ⨾ "mptcp_statistics" of ptr
    ⨾ "udplite_statistics" of ptr
    ⨾ "udplite_stats_in6" of ptr
    ⨾ "icmp_statistics" of ptr
    ⨾ "icmpmsg_statistics" of ptr
    ⨾ "icmpv6_statistics" of ptr
    ⨾ "icmpv6msg_statistics" of ptr
    ⨾ "proc_net_devsnmp6" of ptr
    ⨾ end)

abbrev pub netns_packet : CType
netns_packet = struct ("sklist_lock" of mutex ⨾ "sklist" of hlist_head ⨾ end)

abbrev pub unix_table : CType
unix_table = struct ("locks" of ptr ⨾ "buckets" of ptr ⨾ end)

abbrev pub netns_unix : CType
netns_unix = struct ("table" of unix_table ⨾ "sysctl_max_dgram_qlen" of int32 ⨾ "ctl" of ptr ⨾ end)

abbrev pub rw_semaphore : CType
rw_semaphore = struct (
    "count" of atomic64_t
    ⨾ "owner" of atomic64_t
    ⨾ "osq" of optimistic_spin_queue
    ⨾ "wait_lock" of raw_spinlock
    ⨾ "wait_list" of list_head
    ⨾ end)

abbrev pub blocking_notifier_head : CType
blocking_notifier_head = struct ("rwsem" of rw_semaphore ⨾ "head" of ptr ⨾ end)

abbrev pub netns_nexthop : CType
netns_nexthop = struct (
    "rb_root" of rb_root
    ⨾ "devhash" of ptr
    ⨾ "seq" of int32
    ⨾ "last_id_allocated" of int32
    ⨾ "notifier_chain" of blocking_notifier_head
    ⨾ end)

abbrev pub inet_timewait_death_row : CType
inet_timewait_death_row = struct (
    "tw_refcount" of refcount_struct
    ⨾ pad 8 64
    ⨾ pad 8 64
    ⨾ pad 8 64
    ⨾ pad 8 64
    ⨾ pad 8 64
    ⨾ pad 8 64
    ⨾ pad 8 64
    ⨾ "hashinfo" of ptr
    ⨾ "sysctl_max_tw_buckets" of int32
    ⨾ pad 8 64
    ⨾ pad 8 64
    ⨾ pad 8 64
    ⨾ pad 8 64
    ⨾ pad 8 64
    ⨾ pad 8 64
    ⨾ end)

abbrev pub local_ports : CType
local_ports = struct ("range" of int32 ⨾ "warned" of int8 ⨾ end)

abbrev pub seqlock_t : CType
seqlock_t = struct ("seqcount" of seqcount_spinlock ⨾ "lock" of spinlock ⨾ end)

abbrev pub kgid_t : CType
kgid_t = struct ("val" of int32 ⨾ end)

abbrev pub ping_group_range : CType
ping_group_range = struct ("lock" of seqlock_t ⨾ "range" of array 2 kgid_t ⨾ end)

abbrev pub siphash_key_t : CType
siphash_key_t = struct ("key" of array 2 int64 ⨾ end)
