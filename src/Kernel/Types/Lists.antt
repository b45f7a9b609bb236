-- ===== src/Kernel/Types/Lists.antt =====
-- autoscaler/conc_req_monitoring/bpf/vmlinux.h: lists, locks and wait queues, member by member.
use swarm_autoscaler.Kernel.Layout.{
  CType, int8, int16, int32, int64, array, struct, union, bits, end, ◌of◌, ◌⨾◌, ptr,
}
use swarm_autoscaler.Kernel.Types.Entry.{atomic_t, refcount_struct}

abbrev pub hlist_node : CType
hlist_node = struct ("next" of ptr ⨾ "pprev" of ptr ⨾ end)

abbrev pub possible_net_t : CType
possible_net_t = struct ("net" of ptr ⨾ end)

abbrev pub in6_addr : CType
in6_addr = struct (
    "in6_u"
      of union (
          "u6_addr8" of array 16 int8
          ⨾ "u6_addr16" of array 8 int16
          ⨾ "u6_addr32" of array 4 int32
          ⨾ end)
    ⨾ end)

abbrev pub atomic64_t : CType
atomic64_t = struct ("counter" of int64 ⨾ end)

abbrev pub hlist_nulls_node : CType
hlist_nulls_node = struct ("next" of ptr ⨾ "pprev" of ptr ⨾ end)

abbrev pub sock_common : CType
sock_common = struct (
    ""
      of union (
          "skc_addrpair" of int64
          ⨾ "" of struct ("skc_daddr" of int32 ⨾ "skc_rcv_saddr" of int32 ⨾ end)
          ⨾ end)
    ⨾ "" of union ("skc_hash" of int32 ⨾ "skc_u16hashes" of array 2 int16 ⨾ end)
    ⨾ ""
      of union (
          "skc_portpair" of int32
          ⨾ "" of struct ("skc_dport" of int16 ⨾ "skc_num" of int16 ⨾ end)
          ⨾ end)
    ⨾ "skc_family" of int16
    ⨾ "skc_state" of int8
    ⨾ bits "skc_reuse" 1 4
    ⨾ bits "skc_reuseport" 1 1
    ⨾ bits "skc_ipv6only" 1 1
    ⨾ bits "skc_net_refcnt" 1 1
    ⨾ "skc_bound_dev_if" of int32
    ⨾ "" of union ("skc_bind_node" of hlist_node ⨾ "skc_portaddr_node" of hlist_node ⨾ end)
    ⨾ "skc_prot" of ptr
    ⨾ "skc_net" of possible_net_t
    ⨾ "skc_v6_daddr" of in6_addr
    ⨾ "skc_v6_rcv_saddr" of in6_addr
    ⨾ "skc_cookie" of atomic64_t
    ⨾ "" of union ("skc_flags" of int64 ⨾ "skc_listener" of ptr ⨾ "skc_tw_dr" of ptr ⨾ end)
    ⨾ "skc_dontcopy_begin" of array 0 int32
    ⨾ "" of union ("skc_node" of hlist_node ⨾ "skc_nulls_node" of hlist_nulls_node ⨾ end)
    ⨾ "skc_tx_queue_mapping" of int16
    ⨾ "skc_rx_queue_mapping" of int16
    ⨾ ""
      of union
          ("skc_incoming_cpu" of int32 ⨾ "skc_rcv_wnd" of int32 ⨾ "skc_tw_rcv_nxt" of int32 ⨾ end)
    ⨾ "skc_refcnt" of refcount_struct
    ⨾ "skc_dontcopy_end" of array 0 int32
    ⨾ ""
      of union
          ("skc_rxhash" of int32 ⨾ "skc_window_clamp" of int32 ⨾ "skc_tw_snd_nxt" of int32 ⨾ end)
    ⨾ end)

abbrev pub sk_buff_list : CType
sk_buff_list = struct ("next" of ptr ⨾ "prev" of ptr ⨾ end)

abbrev pub qspinlock : CType
qspinlock = struct (
    ""
      of union (
          "val" of atomic_t
          ⨾ "" of struct ("locked" of int8 ⨾ "pending" of int8 ⨾ end)
          ⨾ "" of struct ("locked_pending" of int16 ⨾ "tail" of int16 ⨾ end)
          ⨾ end)
    ⨾ end)

abbrev pub raw_spinlock : CType
raw_spinlock = struct ("raw_lock" of qspinlock ⨾ end)

abbrev pub spinlock : CType
spinlock = struct ("" of union ("rlock" of raw_spinlock ⨾ end) ⨾ end)

abbrev pub sk_buff_head : CType
sk_buff_head = struct (
    "" of union ("" of struct ("next" of ptr ⨾ "prev" of ptr ⨾ end) ⨾ "list" of sk_buff_list ⨾ end)
    ⨾ "qlen" of int32
    ⨾ "lock" of spinlock
    ⨾ end)

abbrev pub list_head : CType
list_head = struct ("next" of ptr ⨾ "prev" of ptr ⨾ end)

abbrev pub wait_queue_head : CType
wait_queue_head = struct ("lock" of spinlock ⨾ "head" of list_head ⨾ end)

abbrev pub socket_lock_t : CType
socket_lock_t = struct ("slock" of spinlock ⨾ "owned" of int32 ⨾ "wq" of wait_queue_head ⨾ end)

abbrev pub rb_root : CType
rb_root = struct ("rb_node" of ptr ⨾ end)

abbrev pub page_frag : CType
page_frag = struct ("page" of ptr ⨾ "offset" of int32 ⨾ "size" of int32 ⨾ end)

abbrev pub timer_list : CType
timer_list =
    struct ("entry" of hlist_node ⨾ "expires" of int64 ⨾ "function" of ptr ⨾ "flags" of int32 ⨾ end)

abbrev pub qrwlock : CType
qrwlock = struct (
    ""
      of union (
          "cnts" of atomic_t
          ⨾ "" of struct ("wlocked" of int8 ⨾ "__lstate" of array 3 int8 ⨾ end)
          ⨾ end)
    ⨾ "wait_lock" of qspinlock
    ⨾ end)

abbrev pub rwlock_t : CType
rwlock_t = struct ("raw_lock" of qrwlock ⨾ end)

abbrev pub kuid_t : CType
kuid_t = struct ("val" of int32 ⨾ end)

abbrev pub sock_cgroup_data : CType
sock_cgroup_data = struct ("cgroup" of ptr ⨾ "classid" of int32 ⨾ "prioidx" of int16 ⨾ end)

abbrev pub callback_head : CType
callback_head = struct ("next" of ptr ⨾ "func" of ptr ⨾ end)
