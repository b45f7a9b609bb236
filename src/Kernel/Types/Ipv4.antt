-- ===== src/Kernel/Types/Ipv4.antt =====
-- autoscaler/conc_req_monitoring/bpf/vmlinux.h: struct netns_ipv4, member by member.
use swarm_autoscaler.Kernel.Layout.{
  CType, Fields, int8, int32, int64, array, struct, pad, end, ◌of◌, ◌⨾◌, ptr,
}
use swarm_autoscaler.Kernel.Types.Entry.{atomic_t}
use swarm_autoscaler.Kernel.Types.Lists.{list_head}
use swarm_autoscaler.Kernel.Types.NetCore.{
  inet_timewait_death_row, local_ports, ping_group_range, siphash_key_t,
}
use swarm_autoscaler.Kernel.Types.Tracking.{mutex}

abbrev pub netns_ipv4_rest : Fields
netns_ipv4_rest =
    "sysctl_tcp_syncookies" of int8
    ⨾ "sysctl_tcp_migrate_req" of int8
    ⨾ "sysctl_tcp_comp_sack_nr" of int8
    ⨾ "sysctl_tcp_backlog_ack_defer" of int8
    ⨾ "sysctl_tcp_pingpong_thresh" of int8
    ⨾ "sysctl_tcp_retries1" of int8
    ⨾ "sysctl_tcp_retries2" of int8
    ⨾ "sysctl_tcp_orphan_retries" of int8
    ⨾ "sysctl_tcp_tw_reuse" of int8
    ⨾ "sysctl_tcp_fin_timeout" of int32
    ⨾ "sysctl_tcp_sack" of int8
    ⨾ "sysctl_tcp_window_scaling" of int8
    ⨾ "sysctl_tcp_timestamps" of int8
    ⨾ "sysctl_tcp_recovery" of int8
    ⨾ "sysctl_tcp_thin_linear_timeouts" of int8
    ⨾ "sysctl_tcp_slow_start_after_idle" of int8
    ⨾ "sysctl_tcp_retrans_collapse" of int8
    ⨾ "sysctl_tcp_stdurg" of int8
    ⨾ "sysctl_tcp_rfc1337" of int8
    ⨾ "sysctl_tcp_abort_on_overflow" of int8
    ⨾ "sysctl_tcp_fack" of int8
    ⨾ "sysctl_tcp_max_reordering" of int32
    ⨾ "sysctl_tcp_adv_win_scale" of int32
    ⨾ "sysctl_tcp_dsack" of int8
    ⨾ "sysctl_tcp_app_win" of int8
    ⨾ "sysctl_tcp_frto" of int8
    ⨾ "sysctl_tcp_nometrics_save" of int8
    ⨾ "sysctl_tcp_no_ssthresh_metrics_save" of int8
    ⨾ "sysctl_tcp_workaround_signed_windows" of int8
    ⨾ "sysctl_tcp_challenge_ack_limit" of int32
    ⨾ "sysctl_tcp_min_tso_segs" of int8
    ⨾ "sysctl_tcp_reflect_tos" of int8
    ⨾ "sysctl_tcp_invalid_ratelimit" of int32
    ⨾ "sysctl_tcp_pacing_ss_ratio" of int32
    ⨾ "sysctl_tcp_pacing_ca_ratio" of int32
    ⨾ "sysctl_tcp_child_ehash_entries" of int32
    ⨾ "sysctl_tcp_comp_sack_delay_ns" of int64
    ⨾ "sysctl_tcp_comp_sack_slack_ns" of int64
    ⨾ "sysctl_max_syn_backlog" of int32
    ⨾ "sysctl_tcp_fastopen" of int32
    ⨾ "tcp_congestion_control" of ptr
    ⨾ "tcp_fastopen_ctx" of ptr
    ⨾ "sysctl_tcp_fastopen_blackhole_timeout" of int32
    ⨾ "tfo_active_disable_times" of atomic_t
    ⨾ "tfo_active_disable_stamp" of int64
    ⨾ "tcp_challenge_timestamp" of int32
    ⨾ "tcp_challenge_count" of int32
    ⨾ "sysctl_tcp_plb_enabled" of int8
    ⨾ "sysctl_tcp_plb_idle_rehash_rounds" of int8
    ⨾ "sysctl_tcp_plb_rehash_rounds" of int8
    ⨾ "sysctl_tcp_plb_suspend_rto_sec" of int8
    ⨾ "sysctl_tcp_plb_cong_thresh" of int32
    ⨾ "sysctl_udp_wmem_min" of int32
    ⨾ "sysctl_udp_rmem_min" of int32
    ⨾ "sysctl_fib_notify_on_flag_change" of int8
    ⨾ "sysctl_tcp_syn_linear_timeouts" of int8
    ⨾ "sysctl_udp_l3mdev_accept" of int8
    ⨾ "sysctl_igmp_llm_reports" of int8
    ⨾ "sysctl_igmp_max_memberships" of int32
    ⨾ "sysctl_igmp_max_msf" of int32
    ⨾ "sysctl_igmp_qrv" of int32
    ⨾ "ping_group_range" of ping_group_range
    ⨾ "dev_addr_genid" of atomic_t
    ⨾ "sysctl_udp_child_hash_entries" of int32
    ⨾ "sysctl_local_reserved_ports" of ptr
    ⨾ "sysctl_ip_prot_sock" of int32
    ⨾ "mr_tables" of list_head
    ⨾ "mr_rules_ops" of ptr
    ⨾ "sysctl_fib_multipath_hash_fields" of int32
    ⨾ "sysctl_fib_multipath_use_neigh" of int8
    ⨾ "sysctl_fib_multipath_hash_policy" of int8
    ⨾ "notifier_ops" of ptr
    ⨾ "fib_seq" of int32
    ⨾ "ipmr_notifier_ops" of ptr
    ⨾ "ipmr_seq" of int32
    ⨾ "rt_genid" of atomic_t
    ⨾ "ip_id_key" of siphash_key_t
    ⨾ pad 8 64
    ⨾ pad 8 64
    ⨾ pad 8 64
    ⨾ pad 8 64
    ⨾ end

abbrev pub netns_ipv4 : CType
netns_ipv4 = struct (
    "__cacheline_group_begin__netns_ipv4_read_tx" of array 0 int8
    ⨾ "sysctl_tcp_early_retrans" of int8
    ⨾ "sysctl_tcp_tso_win_divisor" of int8
    ⨾ "sysctl_tcp_tso_rtt_log" of int8
    ⨾ "sysctl_tcp_autocorking" of int8
    ⨾ "sysctl_tcp_min_snd_mss" of int32
    ⨾ "sysctl_tcp_notsent_lowat" of int32
    ⨾ "sysctl_tcp_limit_output_bytes" of int32
    ⨾ "sysctl_tcp_min_rtt_wlen" of int32
    ⨾ "sysctl_tcp_wmem" of array 3 int32
    ⨾ "sysctl_ip_fwd_use_pmtu" of int8
    ⨾ "__cacheline_group_end__netns_ipv4_read_tx" of array 0 int8
    ⨾ "__cacheline_group_begin__netns_ipv4_read_txrx" of array 0 int8
    ⨾ "sysctl_tcp_moderate_rcvbuf" of int8
    ⨾ "__cacheline_group_end__netns_ipv4_read_txrx" of array 0 int8
    ⨾ "__cacheline_group_begin__netns_ipv4_read_rx" of array 0 int8
    ⨾ "sysctl_ip_early_demux" of int8
    ⨾ "sysctl_tcp_early_demux" of int8
    ⨾ "sysctl_tcp_reordering" of int32
    ⨾ "sysctl_tcp_rmem" of array 3 int32
    ⨾ "__cacheline_group_end__netns_ipv4_read_rx" of array 0 int8
    ⨾ pad 8 64
    ⨾ "tcp_death_row" of inet_timewait_death_row
    ⨾ "udp_table" of ptr
    ⨾ "forw_hdr" of ptr
    ⨾ "frags_hdr" of ptr
    ⨾ "ipv4_hdr" of ptr
    ⨾ "route_hdr" of ptr
    ⨾ "xfrm4_hdr" of ptr
    ⨾ "devconf_all" of ptr
    ⨾ "devconf_dflt" of ptr
    ⨾ "ra_chain" of ptr
    ⨾ "ra_mutex" of mutex
    ⨾ "rules_ops" of ptr
    ⨾ "fib_main" of ptr
    ⨾ "fib_default" of ptr
    ⨾ "fib_rules_require_fldissect" of int32
    ⨾ "fib_has_custom_rules" of int8
    ⨾ "fib_has_custom_local_routes" of int8
    ⨾ "fib_offload_disabled" of int8
    ⨾ "sysctl_tcp_shrink_window" of int8
    ⨾ "fib_num_tclassid_users" of atomic_t
    ⨾ "fib_table_hash" of ptr
    ⨾ "fibnl" of ptr
    ⨾ "mc_autojoin_sk" of ptr
    ⨾ "peers" of ptr
    ⨾ "fqdir" of ptr
    ⨾ "sysctl_icmp_echo_ignore_all" of int8
    ⨾ "sysctl_icmp_echo_enable_probe" of int8
    ⨾ "sysctl_icmp_echo_ignore_broadcasts" of int8
    ⨾ "sysctl_icmp_ignore_bogus_error_responses" of int8
    ⨾ "sysctl_icmp_errors_use_inbound_ifaddr" of int8
    ⨾ "sysctl_icmp_ratelimit" of int32
    ⨾ "sysctl_icmp_ratemask" of int32
    ⨾ "ip_rt_min_pmtu" of int32
    ⨾ "ip_rt_mtu_expires" of int32
    ⨾ "ip_rt_min_advmss" of int32
    ⨾ "ip_local_ports" of local_ports
    ⨾ "sysctl_tcp_ecn" of int8
    ⨾ "sysctl_tcp_ecn_fallback" of int8
    ⨾ "sysctl_ip_default_ttl" of int8
    ⨾ "sysctl_ip_no_pmtu_disc" of int8
    ⨾ "sysctl_ip_fwd_update_priority" of int8
    ⨾ "sysctl_ip_nonlocal_bind" of int8
    ⨾ "sysctl_ip_autobind_reuse" of int8
    ⨾ "sysctl_ip_dynaddr" of int8
    ⨾ "sysctl_raw_l3mdev_accept" of int8
    ⨾ "sysctl_udp_early_demux" of int8
    ⨾ "sysctl_nexthop_compat_mode" of int8
    ⨾ "sysctl_fwmark_reflect" of int8
    ⨾ "sysctl_tcp_fwmark_accept" of int8
    ⨾ "sysctl_tcp_l3mdev_accept" of int8
    ⨾ "sysctl_tcp_mtu_probing" of int8
    ⨾ "sysctl_tcp_mtu_probe_floor" of int32
    ⨾ "sysctl_tcp_base_mss" of int32
    ⨾ "sysctl_tcp_probe_threshold" of int32
    ⨾ "sysctl_tcp_probe_interval" of int32
    ⨾ "sysctl_tcp_keepalive_time" of int32
    ⨾ "sysctl_tcp_keepalive_intvl" of int32
    ⨾ "sysctl_tcp_keepalive_probes" of int8
    ⨾ "sysctl_tcp_syn_retries" of int8
    ⨾ "sysctl_tcp_synack_retries" of int8
    ⨾ netns_ipv4_rest)
