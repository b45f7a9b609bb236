-- ===== src/Kernel/Types/Fpu.antt =====
-- autoscaler/conc_req_monitoring/bpf/vmlinux.h: the processor state of a thread, member by member.
use swarm_autoscaler.Kernel.Layout.{
  CType, int8, int16, int32, int64, array, struct, union, bits, pad, end, ◌of◌, ◌⨾◌, ptr,
}
use swarm_autoscaler.Kernel.Types.Tracking.{cpumask, seqcount}

abbrev pub nodemask_t : CType
nodemask_t = struct ("bits" of array 16 int64 ⨾ end)

abbrev pub seqcount_spinlock : CType
seqcount_spinlock = struct ("seqcount" of seqcount ⨾ end)

abbrev pub arch_tlbflush_unmap_batch : CType
arch_tlbflush_unmap_batch = struct ("cpumask" of cpumask ⨾ end)

abbrev pub tlbflush_unmap_batch : CType
tlbflush_unmap_batch =
    struct
      ("arch" of arch_tlbflush_unmap_batch ⨾ "flush_required" of int8 ⨾ "writable" of int8 ⨾ end)

abbrev pub latency_record : CType
latency_record =
    struct
      ("backtrace" of array 12 int64 ⨾ "count" of int32 ⨾ "time" of int64 ⨾ "max" of int64 ⨾ end)

abbrev pub llist_head : CType
llist_head = struct ("first" of ptr ⨾ end)

abbrev pub desc_struct : CType
desc_struct = struct (
    "limit0" of int16
    ⨾ "base0" of int16
    ⨾ bits "base1" 2 8
    ⨾ bits "type" 2 4
    ⨾ bits "s" 2 1
    ⨾ bits "dpl" 2 2
    ⨾ bits "p" 2 1
    ⨾ bits "limit1" 2 4
    ⨾ bits "avl" 2 1
    ⨾ bits "l" 2 1
    ⨾ bits "d" 2 1
    ⨾ bits "g" 2 1
    ⨾ bits "base2" 2 8
    ⨾ end)

abbrev pub fpu_state_perm : CType
fpu_state_perm =
    struct ("__state_perm" of int64 ⨾ "__state_size" of int32 ⨾ "__user_state_size" of int32 ⨾ end)

abbrev pub fregs_state : CType
fregs_state = struct (
    "cwd" of int32
    ⨾ "swd" of int32
    ⨾ "twd" of int32
    ⨾ "fip" of int32
    ⨾ "fcs" of int32
    ⨾ "foo" of int32
    ⨾ "fos" of int32
    ⨾ "st_space" of array 20 int32
    ⨾ "status" of int32
    ⨾ end)

abbrev pub fxregs_state : CType
fxregs_state = struct (
    "cwd" of int16
    ⨾ "swd" of int16
    ⨾ "twd" of int16
    ⨾ "fop" of int16
    ⨾ ""
      of union (
          "" of struct ("rip" of int64 ⨾ "rdp" of int64 ⨾ end)
          ⨾ "" of struct ("fip" of int32 ⨾ "fcs" of int32 ⨾ "foo" of int32 ⨾ "fos" of int32 ⨾ end)
          ⨾ end)
    ⨾ "mxcsr" of int32
    ⨾ "mxcsr_mask" of int32
    ⨾ "st_space" of array 32 int32
    ⨾ "xmm_space" of array 64 int32
    ⨾ "padding" of array 12 int32
    ⨾ "" of union ("padding1" of array 12 int32 ⨾ "sw_reserved" of array 12 int32 ⨾ end)
    ⨾ end)

abbrev pub swregs_state : CType
swregs_state = struct (
    "cwd" of int32
    ⨾ "swd" of int32
    ⨾ "twd" of int32
    ⨾ "fip" of int32
    ⨾ "fcs" of int32
    ⨾ "foo" of int32
    ⨾ "fos" of int32
    ⨾ "st_space" of array 20 int32
    ⨾ "ftop" of int8
    ⨾ "changed" of int8
    ⨾ "lookahead" of int8
    ⨾ "no_update" of int8
    ⨾ "rm" of int8
    ⨾ "alimit" of int8
    ⨾ "info" of ptr
    ⨾ "entry_eip" of int32
    ⨾ end)

abbrev pub xstate_header : CType
xstate_header =
    struct ("xfeatures" of int64 ⨾ "xcomp_bv" of int64 ⨾ "reserved" of array 6 int64 ⨾ end)

abbrev pub xregs_state : CType
xregs_state = struct (
    "i387" of fxregs_state
    ⨾ "header" of xstate_header
    ⨾ "extended_state_area" of array 0 int8
    ⨾ end)

abbrev pub fpregs_state : CType
fpregs_state = union (
    "fsave" of fregs_state
    ⨾ "fxsave" of fxregs_state
    ⨾ "soft" of swregs_state
    ⨾ "xsave" of xregs_state
    ⨾ "__padding" of array 4096 int8
    ⨾ end)

abbrev pub fpstate : CType
fpstate = struct (
    "size" of int32
    ⨾ "user_size" of int32
    ⨾ "xfeatures" of int64
    ⨾ "user_xfeatures" of int64
    ⨾ "xfd" of int64
    ⨾ bits "is_valloc" 4 1
    ⨾ bits "is_guest" 4 1
    ⨾ bits "is_confidential" 4 1
    ⨾ bits "in_use" 4 1
    ⨾ pad 8 64
    ⨾ pad 8 64
    ⨾ pad 8 64
    ⨾ "regs" of fpregs_state
    ⨾ end)

abbrev pub fpu : CType
fpu = struct (
    "last_cpu" of int32
    ⨾ "avx512_timestamp" of int64
    ⨾ "fpstate" of ptr
    ⨾ "__task_fpstate" of ptr
    ⨾ "perm" of fpu_state_perm
    ⨾ "guest_perm" of fpu_state_perm
    ⨾ "__fpstate" of fpstate
    ⨾ end)

abbrev pub thread_struct : CType
thread_struct = struct (
    "tls_array" of array 3 desc_struct
    ⨾ "sp" of int64
    ⨾ "es" of int16
    ⨾ "ds" of int16
    ⨾ "fsindex" of int16
    ⨾ "gsindex" of int16
    ⨾ "fsbase" of int64
    ⨾ "gsbase" of int64
    ⨾ "ptrace_bps" of array 4 ptr
    ⨾ "virtual_dr6" of int64
    ⨾ "ptrace_dr7" of int64
    ⨾ "cr2" of int64
    ⨾ "trap_nr" of int64
    ⨾ "error_code" of int64
    ⨾ "io_bitmap" of ptr
    ⨾ "iopl_emul" of int64
    ⨾ bits "iopl_warn" 4 1
    ⨾ "pkru" of int32
    ⨾ pad 8 64
    ⨾ pad 8 64
    ⨾ pad 8 64
    ⨾ pad 8 64
    ⨾ pad 8 64
    ⨾ "fpu" of fpu
    ⨾ end)
