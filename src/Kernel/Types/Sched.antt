-- ===== src/Kernel/Types/Sched.antt =====
-- autoscaler/conc_req_monitoring/bpf/vmlinux.h: scheduling entities of a task, member by member.
use swarm_autoscaler.Kernel.Layout.{
  CType, int8, int16, int32, int64, struct, union, bits, pad, end, ◌of◌, ◌⨾◌, ptr,
}
use swarm_autoscaler.Kernel.Types.Entry.{atomic_t}
use swarm_autoscaler.Kernel.Types.Lists.{list_head}

abbrev pub thread_info : CType
thread_info =
    struct ("flags" of int64 ⨾ "syscall_work" of int64 ⨾ "status" of int32 ⨾ "cpu" of int32 ⨾ end)

abbrev pub llist_node : CType
llist_node = struct ("next" of ptr ⨾ end)

abbrev pub __call_single_node : CType
__call_single_node = struct (
    "llist" of llist_node
    ⨾ "" of union ("u_flags" of int32 ⨾ "a_flags" of atomic_t ⨾ end)
    ⨾ "src" of int16
    ⨾ "dst" of int16
    ⨾ end)

abbrev pub load_weight : CType
load_weight = struct ("weight" of int64 ⨾ "inv_weight" of int32 ⨾ end)

abbrev pub rb_node : CType
rb_node = struct ("__rb_parent_color" of int64 ⨾ "rb_right" of ptr ⨾ "rb_left" of ptr ⨾ end)

abbrev pub sched_avg : CType
sched_avg = struct (
    "last_update_time" of int64
    ⨾ "load_sum" of int64
    ⨾ "runnable_sum" of int64
    ⨾ "util_sum" of int32
    ⨾ "period_contrib" of int32
    ⨾ "load_avg" of int64
    ⨾ "runnable_avg" of int64
    ⨾ "util_avg" of int64
    ⨾ "util_est" of int32
    ⨾ end)

abbrev pub sched_entity : CType
sched_entity = struct (
    "load" of load_weight
    ⨾ "run_node" of rb_node
    ⨾ "deadline" of int64
    ⨾ "min_vruntime" of int64
    ⨾ "group_node" of list_head
    ⨾ "on_rq" of int32
    ⨾ "exec_start" of int64
    ⨾ "sum_exec_runtime" of int64
    ⨾ "prev_sum_exec_runtime" of int64
    ⨾ "vruntime" of int64
    ⨾ "vlag" of int64
    ⨾ "slice" of int64
    ⨾ "nr_migrations" of int64
    ⨾ "depth" of int32
    ⨾ "parent" of ptr
    ⨾ "cfs_rq" of ptr
    ⨾ "my_q" of ptr
    ⨾ "runnable_weight" of int64
    ⨾ pad 8 64
    ⨾ pad 8 64
    ⨾ "avg" of sched_avg
    ⨾ end)

abbrev pub sched_rt_entity : CType
sched_rt_entity = struct (
    "run_list" of list_head
    ⨾ "timeout" of int64
    ⨾ "watchdog_stamp" of int64
    ⨾ "time_slice" of int32
    ⨾ "on_rq" of int16
    ⨾ "on_list" of int16
    ⨾ "back" of ptr
    ⨾ end)

abbrev pub timerqueue_node : CType
timerqueue_node = struct ("node" of rb_node ⨾ "expires" of int64 ⨾ end)

abbrev pub hrtimer : CType
hrtimer = struct (
    "node" of timerqueue_node
    ⨾ "_softexpires" of int64
    ⨾ "function" of ptr
    ⨾ "base" of ptr
    ⨾ "state" of int8
    ⨾ "is_rel" of int8
    ⨾ "is_soft" of int8
    ⨾ "is_hard" of int8
    ⨾ end)

abbrev pub sched_dl_entity : CType
sched_dl_entity = struct (
    "rb_node" of rb_node
    ⨾ "dl_runtime" of int64
    ⨾ "dl_deadline" of int64
    ⨾ "dl_period" of int64
    ⨾ "dl_bw" of int64
    ⨾ "dl_density" of int64
    ⨾ "runtime" of int64
    ⨾ "deadline" of int64
    ⨾ "flags" of int32
    ⨾ bits "dl_throttled" 4 1
    ⨾ bits "dl_yielded" 4 1
    ⨾ bits "dl_non_contending" 4 1
    ⨾ bits "dl_overrun" 4 1
    ⨾ bits "dl_server" 4 1
    ⨾ "dl_timer" of hrtimer
    ⨾ "inactive_timer" of hrtimer
    ⨾ "rq" of ptr
    ⨾ "server_has_tasks" of int64
    ⨾ "server_pick" of int64
    ⨾ "pi_se" of ptr
    ⨾ end)
