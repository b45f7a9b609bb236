-- ===== src/Kernel/Types/Entry.antt =====
-- autoscaler/conc_req_monitoring/bpf/vmlinux.h: the registers at the kprobe, namespaces, member by member.
use swarm_autoscaler.Kernel.Layout.{
  CType, int16, int32, int64, struct, union, bits, pad, end, ◌of◌, ◌⨾◌, ptr,
}

abbrev pub fred_cs : CType
fred_cs = struct (bits "cs" 8 16 ⨾ bits "sl" 8 2 ⨾ bits "wfe" 8 1 ⨾ end)

abbrev pub fred_ss : CType
fred_ss = struct (
    bits "ss" 8 16
    ⨾ bits "sti" 8 1
    ⨾ bits "swevent" 8 1
    ⨾ bits "nmi" 8 1
    ⨾ pad 4 13
    ⨾ bits "vector" 8 8
    ⨾ pad 2 8
    ⨾ bits "type" 8 4
    ⨾ pad 1 4
    ⨾ bits "enclave" 8 1
    ⨾ bits "lm" 8 1
    ⨾ bits "nested" 8 1
    ⨾ pad 1 1
    ⨾ bits "insnlen" 8 4
    ⨾ end)

abbrev pub pt_regs : CType
pt_regs = struct (
    "r15" of int64
    ⨾ "r14" of int64
    ⨾ "r13" of int64
    ⨾ "r12" of int64
    ⨾ "bp" of int64
    ⨾ "bx" of int64
    ⨾ "r11" of int64
    ⨾ "r10" of int64
    ⨾ "r9" of int64
    ⨾ "r8" of int64
    ⨾ "ax" of int64
    ⨾ "cx" of int64
    ⨾ "dx" of int64
    ⨾ "si" of int64
    ⨾ "di" of int64
    ⨾ "orig_ax" of int64
    ⨾ "ip" of int64
    ⨾ "" of union ("cs" of int16 ⨾ "csx" of int64 ⨾ "fred_cs" of fred_cs ⨾ end)
    ⨾ "flags" of int64
    ⨾ "sp" of int64
    ⨾ "" of union ("ss" of int16 ⨾ "ssx" of int64 ⨾ "fred_ss" of fred_ss ⨾ end)
    ⨾ end)

abbrev pub atomic_t : CType
atomic_t = struct ("counter" of int32 ⨾ end)

abbrev pub refcount_struct : CType
refcount_struct = struct ("refs" of atomic_t ⨾ end)

abbrev pub nsproxy : CType
nsproxy = struct (
    "count" of refcount_struct
    ⨾ "uts_ns" of ptr
    ⨾ "ipc_ns" of ptr
    ⨾ "mnt_ns" of ptr
    ⨾ "pid_ns_for_children" of ptr
    ⨾ "net_ns" of ptr
    ⨾ "time_ns" of ptr
    ⨾ "time_ns_for_children" of ptr
    ⨾ "cgroup_ns" of ptr
    ⨾ end)

abbrev pub ns_common : CType
ns_common =
    struct ("stashed" of ptr ⨾ "ops" of ptr ⨾ "inum" of int32 ⨾ "count" of refcount_struct ⨾ end)
