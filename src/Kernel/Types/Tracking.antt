-- ===== src/Kernel/Types/Tracking.antt =====
-- autoscaler/conc_req_monitoring/bpf/vmlinux.h: statistics, timers and accounting of a task, member by member.
use swarm_autoscaler.Kernel.Layout.{
  CType, int8, int32, int64, array, struct, union, pad, end, ◌of◌, ◌⨾◌, ptr,
}
use swarm_autoscaler.Kernel.Types.Entry.{atomic_t}
use swarm_autoscaler.Kernel.Types.Lists.{
  atomic64_t, callback_head, list_head, raw_spinlock, rb_root,
}

abbrev pub sched_statistics : CType
sched_statistics = struct (
    "wait_start" of int64
    ⨾ "wait_max" of int64
    ⨾ "wait_count" of int64
    ⨾ "wait_sum" of int64
    ⨾ "iowait_count" of int64
    ⨾ "iowait_sum" of int64
    ⨾ "sleep_start" of int64
    ⨾ "sleep_max" of int64
    ⨾ "sum_sleep_runtime" of int64
    ⨾ "block_start" of int64
    ⨾ "block_max" of int64
    ⨾ "sum_block_runtime" of int64
    ⨾ "exec_max" of int64
    ⨾ "slice_max" of int64
    ⨾ "nr_migrations_cold" of int64
    ⨾ "nr_failed_migrations_affine" of int64
    ⨾ "nr_failed_migrations_running" of int64
    ⨾ "nr_failed_migrations_hot" of int64
    ⨾ "nr_forced_migrations" of int64
    ⨾ "nr_wakeups" of int64
    ⨾ "nr_wakeups_sync" of int64
    ⨾ "nr_wakeups_migrate" of int64
    ⨾ "nr_wakeups_local" of int64
    ⨾ "nr_wakeups_remote" of int64
    ⨾ "nr_wakeups_affine" of int64
    ⨾ "nr_wakeups_affine_attempts" of int64
    ⨾ "nr_wakeups_passive" of int64
    ⨾ "nr_wakeups_idle" of int64
    ⨾ "core_forceidle_sum" of int64
    ⨾ pad 8 64
    ⨾ pad 8 64
    ⨾ pad 8 64
    ⨾ end)

abbrev pub hlist_head : CType
hlist_head = struct ("first" of ptr ⨾ end)

abbrev pub cpumask : CType
cpumask = struct ("bits" of array 128 int64 ⨾ end)

abbrev pub rcu_special : CType
rcu_special = union (
    "b"
      of struct
          ("blocked" of int8 ⨾ "need_qs" of int8 ⨾ "exp_hint" of int8 ⨾ "need_mb" of int8 ⨾ end)
    ⨾ "s" of int32
    ⨾ end)

abbrev pub sched_info : CType
sched_info = struct (
    "pcount" of int64
    ⨾ "run_delay" of int64
    ⨾ "last_arrival" of int64
    ⨾ "last_queued" of int64
    ⨾ end)

abbrev pub plist_node : CType
plist_node = struct ("prio" of int32 ⨾ "prio_list" of list_head ⨾ "node_list" of list_head ⨾ end)

abbrev pub restart_block : CType
restart_block = struct (
    "arch_data" of int64
    ⨾ "fn" of ptr
    ⨾ ""
      of union (
          "futex"
            of struct (
                "uaddr" of ptr
                ⨾ "val" of int32
                ⨾ "flags" of int32
                ⨾ "bitset" of int32
                ⨾ "time" of int64
                ⨾ "uaddr2" of ptr
                ⨾ end)
          ⨾ "nanosleep"
            of struct (
                "clockid" of int32
                ⨾ "type" of int32
                ⨾ "" of union ("rmtp" of ptr ⨾ "compat_rmtp" of ptr ⨾ end)
                ⨾ "expires" of int64
                ⨾ end)
          ⨾ "poll"
            of struct (
                "ufds" of ptr
                ⨾ "nfds" of int32
                ⨾ "has_timeout" of int32
                ⨾ "tv_sec" of int64
                ⨾ "tv_nsec" of int64
                ⨾ end)
          ⨾ end)
    ⨾ end)

abbrev pub prev_cputime : CType
prev_cputime = struct ("utime" of int64 ⨾ "stime" of int64 ⨾ "lock" of raw_spinlock ⨾ end)

abbrev pub seqcount : CType
seqcount = struct ("sequence" of int32 ⨾ end)

abbrev pub vtime : CType
vtime = struct (
    "seqcount" of seqcount
    ⨾ "starttime" of int64
    ⨾ "state" of int32
    ⨾ "cpu" of int32
    ⨾ "utime" of int64
    ⨾ "stime" of int64
    ⨾ "gtime" of int64
    ⨾ end)

abbrev pub rb_root_cached : CType
rb_root_cached = struct ("rb_root" of rb_root ⨾ "rb_leftmost" of ptr ⨾ end)

abbrev pub timerqueue_head : CType
timerqueue_head = struct ("rb_root" of rb_root_cached ⨾ end)

abbrev pub posix_cputimer_base : CType
posix_cputimer_base = struct ("nextevt" of int64 ⨾ "tqhead" of timerqueue_head ⨾ end)

abbrev pub posix_cputimers : CType
posix_cputimers = struct (
    "bases" of array 3 posix_cputimer_base
    ⨾ "timers_active" of int32
    ⨾ "expiry_active" of int32
    ⨾ end)

abbrev pub optimistic_spin_queue : CType
optimistic_spin_queue = struct ("tail" of atomic_t ⨾ end)

abbrev pub mutex : CType
mutex = struct (
    "owner" of atomic64_t
    ⨾ "wait_lock" of raw_spinlock
    ⨾ "osq" of optimistic_spin_queue
    ⨾ "wait_list" of list_head
    ⨾ end)

abbrev pub posix_cputimers_work : CType
posix_cputimers_work =
    struct ("work" of callback_head ⨾ "mutex" of mutex ⨾ "scheduled" of int32 ⨾ end)

abbrev pub sysv_sem : CType
sysv_sem = struct ("undo_list" of ptr ⨾ end)

abbrev pub sysv_shm : CType
sysv_shm = struct ("shm_clist" of list_head ⨾ end)

abbrev pub sigset_t : CType
sigset_t = struct ("sig" of array 1 int64 ⨾ end)

abbrev pub sigpending : CType
sigpending = struct ("list" of list_head ⨾ "signal" of sigset_t ⨾ end)

abbrev pub seccomp : CType
seccomp = struct ("mode" of int32 ⨾ "filter_count" of atomic_t ⨾ "filter" of ptr ⨾ end)

abbrev pub syscall_user_dispatch : CType
syscall_user_dispatch =
    struct ("selector" of ptr ⨾ "offset" of int64 ⨾ "len" of int64 ⨾ "on_dispatch" of int8 ⨾ end)

abbrev pub wake_q_node : CType
wake_q_node = struct ("next" of ptr ⨾ end)

abbrev pub task_io_accounting : CType
task_io_accounting = struct (
    "rchar" of int64
    ⨾ "wchar" of int64
    ⨾ "syscr" of int64
    ⨾ "syscw" of int64
    ⨾ "read_bytes" of int64
    ⨾ "write_bytes" of int64
    ⨾ "cancelled_write_bytes" of int64
    ⨾ end)
