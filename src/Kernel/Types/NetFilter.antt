-- ===== src/Kernel/Types/NetFilter.antt =====
-- autoscaler/conc_req_monitoring/bpf/vmlinux.h: the other protocols of struct net, member by member.
use swarm_autoscaler.Kernel.Layout.{CType, int8, int32, int64, array, struct, end, ◌of◌, ◌⨾◌, ptr}
use swarm_autoscaler.Kernel.Types.Entry.{atomic_t}
use swarm_autoscaler.Kernel.Types.Lists.{list_head, spinlock, timer_list}

abbrev pub netns_sysctl_lowpan : CType
netns_sysctl_lowpan = struct ("frags_hdr" of ptr ⨾ end)

abbrev pub netns_ieee802154_lowpan : CType
netns_ieee802154_lowpan = struct ("sysctl" of netns_sysctl_lowpan ⨾ "fqdir" of ptr ⨾ end)

abbrev pub netns_sctp : CType
netns_sctp = struct (
    "sctp_statistics" of ptr
    ⨾ "proc_net_sctp" of ptr
    ⨾ "sysctl_header" of ptr
    ⨾ "ctl_sock" of ptr
    ⨾ "udp4_sock" of ptr
    ⨾ "udp6_sock" of ptr
    ⨾ "udp_port" of int32
    ⨾ "encap_port" of int32
    ⨾ "local_addr_list" of list_head
    ⨾ "addr_waitq" of list_head
    ⨾ "addr_wq_timer" of timer_list
    ⨾ "auto_asconf_splist" of list_head
    ⨾ "addr_wq_lock" of spinlock
    ⨾ "local_addr_lock" of spinlock
    ⨾ "rto_initial" of int32
    ⨾ "rto_min" of int32
    ⨾ "rto_max" of int32
    ⨾ "rto_alpha" of int32
    ⨾ "rto_beta" of int32
    ⨾ "max_burst" of int32
    ⨾ "cookie_preserve_enable" of int32
    ⨾ "sctp_hmac_alg" of ptr
    ⨾ "valid_cookie_life" of int32
    ⨾ "sack_timeout" of int32
    ⨾ "hb_interval" of int32
    ⨾ "probe_interval" of int32
    ⨾ "max_retrans_association" of int32
    ⨾ "max_retrans_path" of int32
    ⨾ "max_retrans_init" of int32
    ⨾ "pf_retrans" of int32
    ⨾ "ps_retrans" of int32
    ⨾ "pf_enable" of int32
    ⨾ "pf_expose" of int32
    ⨾ "sndbuf_policy" of int32
    ⨾ "rcvbuf_policy" of int32
    ⨾ "default_auto_asconf" of int32
    ⨾ "addip_enable" of int32
    ⨾ "addip_noauth" of int32
    ⨾ "prsctp_enable" of int32
    ⨾ "reconf_enable" of int32
    ⨾ "auth_enable" of int32
    ⨾ "intl_enable" of int32
    ⨾ "ecn_enable" of int32
    ⨾ "scope_policy" of int32
    ⨾ "rwnd_upd_shift" of int32
    ⨾ "max_autoclose" of int64
    ⨾ "l3mdev_accept" of int32
    ⨾ end)

abbrev pub netns_nf : CType
netns_nf = struct (
    "proc_netfilter" of ptr
    ⨾ "nf_loggers" of array 11 ptr
    ⨾ "nf_log_dir_header" of ptr
    ⨾ "hooks_ipv4" of array 5 ptr
    ⨾ "hooks_ipv6" of array 5 ptr
    ⨾ "hooks_arp" of array 3 ptr
    ⨾ "hooks_bridge" of array 5 ptr
    ⨾ "defrag_ipv4_users" of int32
    ⨾ "defrag_ipv6_users" of int32
    ⨾ end)

abbrev pub nf_generic_net : CType
nf_generic_net = struct ("timeout" of int32 ⨾ end)

abbrev pub nf_tcp_net : CType
nf_tcp_net = struct (
    "timeouts" of array 14 int32
    ⨾ "tcp_loose" of int8
    ⨾ "tcp_be_liberal" of int8
    ⨾ "tcp_max_retrans" of int8
    ⨾ "tcp_ignore_invalid_rst" of int8
    ⨾ "offload_timeout" of int32
    ⨾ end)

abbrev pub nf_udp_net : CType
nf_udp_net = struct ("timeouts" of array 2 int32 ⨾ "offload_timeout" of int32 ⨾ end)

abbrev pub nf_icmp_net : CType
nf_icmp_net = struct ("timeout" of int32 ⨾ end)

abbrev pub nf_dccp_net : CType
nf_dccp_net = struct ("dccp_loose" of int8 ⨾ "dccp_timeout" of array 10 int32 ⨾ end)

abbrev pub nf_sctp_net : CType
nf_sctp_net = struct ("timeouts" of array 10 int32 ⨾ end)

abbrev pub nf_gre_net : CType
nf_gre_net = struct ("keymap_list" of list_head ⨾ "timeouts" of array 2 int32 ⨾ end)

abbrev pub nf_ip_net : CType
nf_ip_net = struct (
    "generic" of nf_generic_net
    ⨾ "tcp" of nf_tcp_net
    ⨾ "udp" of nf_udp_net
    ⨾ "icmp" of nf_icmp_net
    ⨾ "icmpv6" of nf_icmp_net
    ⨾ "dccp" of nf_dccp_net
    ⨾ "sctp" of nf_sctp_net
    ⨾ "gre" of nf_gre_net
    ⨾ end)

abbrev pub netns_ct : CType
netns_ct = struct (
    "ecache_dwork_pending" of int8
    ⨾ "sysctl_log_invalid" of int8
    ⨾ "sysctl_events" of int8
    ⨾ "sysctl_acct" of int8
    ⨾ "sysctl_tstamp" of int8
    ⨾ "sysctl_checksum" of int8
    ⨾ "stat" of ptr
    ⨾ "nf_conntrack_event_cb" of ptr
    ⨾ "nf_ct_proto" of nf_ip_net
    ⨾ "labels_used" of atomic_t
    ⨾ end)

abbrev pub netns_nftables : CType
netns_nftables = struct ("gencursor" of int8 ⨾ end)

abbrev pub netns_ft : CType
netns_ft = struct ("stat" of ptr ⨾ end)

abbrev pub netns_bpf : CType
netns_bpf =
    struct
      ("run_array" of array 2 ptr ⨾ "progs" of array 2 ptr ⨾ "links" of array 2 list_head ⨾ end)
