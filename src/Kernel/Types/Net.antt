-- ===== src/Kernel/Types/Net.antt =====
-- autoscaler/conc_req_monitoring/bpf/vmlinux.h: struct net, member by member.
use swarm_autoscaler.Kernel.Layout.{CType, int32, int64, struct, pad, end, ◌of◌, ◌⨾◌, ptr}
use swarm_autoscaler.Kernel.Types.Entry.{atomic_t, ns_common, refcount_struct}
use swarm_autoscaler.Kernel.Types.Ipv4.{netns_ipv4}
use swarm_autoscaler.Kernel.Types.Ipv6.{netns_ipv6}
use swarm_autoscaler.Kernel.Types.Lists.{list_head, sk_buff_head, spinlock}
use swarm_autoscaler.Kernel.Types.NetCore.{
  ctl_table_set, idr, netns_core, netns_mib, netns_nexthop, netns_packet, netns_unix,
  raw_notifier_head, xarray,
}
use swarm_autoscaler.Kernel.Types.NetFilter.{
  netns_bpf, netns_ct, netns_ft, netns_ieee802154_lowpan, netns_nf, netns_nftables, netns_sctp,
}
use swarm_autoscaler.Kernel.Types.NetParts.{
  netns_can, netns_mctp, netns_mpls, netns_smc, netns_xdp, netns_xfrm,
}
use swarm_autoscaler.Kernel.Types.Sched.{llist_node}

abbrev pub net : CType
net = struct (
    "passive" of refcount_struct
    ⨾ "rules_mod_lock" of spinlock
    ⨾ "dev_base_seq" of int32
    ⨾ "ifindex" of int32
    ⨾ "nsid_lock" of spinlock
    ⨾ "fnhe_genid" of atomic_t
    ⨾ "list" of list_head
    ⨾ "exit_list" of list_head
    ⨾ "cleanup_list" of llist_node
    ⨾ "key_domain" of ptr
    ⨾ "user_ns" of ptr
    ⨾ "ucounts" of ptr
    ⨾ "netns_ids" of idr
    ⨾ "ns" of ns_common
    ⨾ "refcnt_tracker" of struct end
    ⨾ "notrefcnt_tracker" of struct end
    ⨾ "dev_base_head" of list_head
    ⨾ "proc_net" of ptr
    ⨾ "proc_net_stat" of ptr
    ⨾ "sysctls" of ctl_table_set
    ⨾ "rtnl" of ptr
    ⨾ "genl_sock" of ptr
    ⨾ "uevent_sock" of ptr
    ⨾ "dev_name_head" of ptr
    ⨾ "dev_index_head" of ptr
    ⨾ "dev_by_index" of xarray
    ⨾ "netdev_chain" of raw_notifier_head
    ⨾ "hash_mix" of int32
    ⨾ "loopback_dev" of ptr
    ⨾ "rules_ops" of list_head
    ⨾ "core" of netns_core
    ⨾ "mib" of netns_mib
    ⨾ "packet" of netns_packet
    ⨾ "unx" of netns_unix
    ⨾ "nexthop" of netns_nexthop
    ⨾ pad 8 64
    ⨾ pad 8 64
    ⨾ pad 8 64
    ⨾ pad 8 64
    ⨾ pad 8 64
    ⨾ "ipv4" of netns_ipv4
    ⨾ "ipv6" of netns_ipv6
    ⨾ "ieee802154_lowpan" of netns_ieee802154_lowpan
    ⨾ "sctp" of netns_sctp
    ⨾ "nf" of netns_nf
    ⨾ "ct" of netns_ct
    ⨾ "nft" of netns_nftables
    ⨾ "ft" of netns_ft
    ⨾ "wext_nlevents" of sk_buff_head
    ⨾ "gen" of ptr
    ⨾ "bpf" of netns_bpf
    ⨾ pad 8 64
    ⨾ pad 8 64
    ⨾ pad 8 64
    ⨾ pad 8 64
    ⨾ pad 8 64
    ⨾ "xfrm" of netns_xfrm
    ⨾ "net_cookie" of int64
    ⨾ "ipvs" of ptr
    ⨾ "mpls" of netns_mpls
    ⨾ "can" of netns_can
    ⨾ "xdp" of netns_xdp
    ⨾ "mctp" of netns_mctp
    ⨾ "crypto_nlsk" of ptr
    ⨾ "diag_nlsk" of ptr
    ⨾ "smc" of netns_smc
    ⨾ pad 8 64
    ⨾ pad 8 64
    ⨾ pad 8 64
    ⨾ end)
