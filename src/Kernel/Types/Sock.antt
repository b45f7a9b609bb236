-- ===== src/Kernel/Types/Sock.antt =====
-- autoscaler/conc_req_monitoring/bpf/vmlinux.h: struct sock, member by member.
use swarm_autoscaler.Kernel.Layout.{
  CType, int8, int16, int32, int64, array, struct, union, bits, end, ◌of◌, ◌⨾◌, ptr,
}
use swarm_autoscaler.Kernel.Types.Entry.{atomic_t, refcount_struct}
use swarm_autoscaler.Kernel.Types.Lists.{
  callback_head, kuid_t, page_frag, rb_root, rwlock_t, sk_buff_head, sock_cgroup_data, sock_common,
  socket_lock_t, spinlock, timer_list,
}

abbrev pub sock : CType
sock = struct (
    "__sk_common" of sock_common
    ⨾ "__cacheline_group_begin__sock_write_rx" of array 0 int8
    ⨾ "sk_drops" of atomic_t
    ⨾ "sk_peek_off" of int32
    ⨾ "sk_error_queue" of sk_buff_head
    ⨾ "sk_receive_queue" of sk_buff_head
    ⨾ "sk_backlog"
      of struct ("rmem_alloc" of atomic_t ⨾ "len" of int32 ⨾ "head" of ptr ⨾ "tail" of ptr ⨾ end)
    ⨾ "__cacheline_group_end__sock_write_rx" of array 0 int8
    ⨾ "__cacheline_group_begin__sock_read_rx" of array 0 int8
    ⨾ "sk_rx_dst" of ptr
    ⨾ "sk_rx_dst_ifindex" of int32
    ⨾ "sk_rx_dst_cookie" of int32
    ⨾ "sk_ll_usec" of int32
    ⨾ "sk_napi_id" of int32
    ⨾ "sk_busy_poll_budget" of int16
    ⨾ "sk_prefer_busy_poll" of int8
    ⨾ "sk_userlocks" of int8
    ⨾ "sk_rcvbuf" of int32
    ⨾ "sk_filter" of ptr
    ⨾ "" of union ("sk_wq" of ptr ⨾ "sk_wq_raw" of ptr ⨾ end)
    ⨾ "sk_data_ready" of ptr
    ⨾ "sk_rcvtimeo" of int64
    ⨾ "sk_rcvlowat" of int32
    ⨾ "__cacheline_group_end__sock_read_rx" of array 0 int8
    ⨾ "__cacheline_group_begin__sock_read_rxtx" of array 0 int8
    ⨾ "sk_err" of int32
    ⨾ "sk_socket" of ptr
    ⨾ "sk_memcg" of ptr
    ⨾ "sk_policy" of array 2 ptr
    ⨾ "__cacheline_group_end__sock_read_rxtx" of array 0 int8
    ⨾ "__cacheline_group_begin__sock_write_rxtx" of array 0 int8
    ⨾ "sk_lock" of socket_lock_t
    ⨾ "sk_reserved_mem" of int32
    ⨾ "sk_forward_alloc" of int32
    ⨾ "sk_tsflags" of int32
    ⨾ "__cacheline_group_end__sock_write_rxtx" of array 0 int8
    ⨾ "__cacheline_group_begin__sock_write_tx" of array 0 int8
    ⨾ "sk_write_pending" of int32
    ⨾ "sk_omem_alloc" of atomic_t
    ⨾ "sk_sndbuf" of int32
    ⨾ "sk_wmem_queued" of int32
    ⨾ "sk_wmem_alloc" of refcount_struct
    ⨾ "sk_tsq_flags" of int64
    ⨾ "" of union ("sk_send_head" of ptr ⨾ "tcp_rtx_queue" of rb_root ⨾ end)
    ⨾ "sk_write_queue" of sk_buff_head
    ⨾ "sk_dst_pending_confirm" of int32
    ⨾ "sk_pacing_status" of int32
    ⨾ "sk_frag" of page_frag
    ⨾ "sk_timer" of timer_list
    ⨾ "sk_pacing_rate" of int64
    ⨾ "sk_zckey" of atomic_t
    ⨾ "sk_tskey" of atomic_t
    ⨾ "__cacheline_group_end__sock_write_tx" of array 0 int8
    ⨾ "__cacheline_group_begin__sock_read_tx" of array 0 int8
    ⨾ "sk_max_pacing_rate" of int64
    ⨾ "sk_sndtimeo" of int64
    ⨾ "sk_priority" of int32
    ⨾ "sk_mark" of int32
    ⨾ "sk_dst_cache" of ptr
    ⨾ "sk_route_caps" of int64
    ⨾ "sk_validate_xmit_skb" of ptr
    ⨾ "sk_gso_type" of int16
    ⨾ "sk_gso_max_segs" of int16
    ⨾ "sk_gso_max_size" of int32
    ⨾ "sk_allocation" of int32
    ⨾ "sk_txhash" of int32
    ⨾ "sk_pacing_shift" of int8
    ⨾ "sk_use_task_frag" of int8
    ⨾ "__cacheline_group_end__sock_read_tx" of array 0 int8
    ⨾ bits "sk_gso_disabled" 1 1
    ⨾ bits "sk_kern_sock" 1 1
    ⨾ bits "sk_no_check_tx" 1 1
    ⨾ bits "sk_no_check_rx" 1 1
    ⨾ "sk_shutdown" of int8
    ⨾ "sk_type" of int16
    ⨾ "sk_protocol" of int16
    ⨾ "sk_lingertime" of int64
    ⨾ "sk_prot_creator" of ptr
    ⨾ "sk_callback_lock" of rwlock_t
    ⨾ "sk_err_soft" of int32
    ⨾ "sk_ack_backlog" of int32
    ⨾ "sk_max_ack_backlog" of int32
    ⨾ "sk_uid" of kuid_t
    ⨾ "sk_peer_lock" of spinlock
    ⨾ "sk_bind_phc" of int32
    ⨾ "sk_peer_pid" of ptr
    ⨾ "sk_peer_cred" of ptr
    ⨾ "sk_stamp" of int64
    ⨾ "sk_disconnects" of int32
    ⨾ "sk_txrehash" of int8
    ⨾ "sk_clockid" of int8
    ⨾ bits "sk_txtime_deadline_mode" 1 1
    ⨾ bits "sk_txtime_report_errors" 1 1
    ⨾ bits "sk_txtime_unused" 1 6
    ⨾ "sk_user_data" of ptr
    ⨾ "sk_security" of ptr
    ⨾ "sk_cgrp_data" of sock_cgroup_data
    ⨾ "sk_state_change" of ptr
    ⨾ "sk_write_space" of ptr
    ⨾ "sk_error_report" of ptr
    ⨾ "sk_backlog_rcv" of ptr
    ⨾ "sk_destruct" of ptr
    ⨾ "sk_reuseport_cb" of ptr
    ⨾ "sk_bpf_storage" of ptr
    ⨾ "sk_rcu" of callback_head
    ⨾ "ns_tracker" of struct end
    ⨾ end)
