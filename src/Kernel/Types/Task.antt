-- ===== src/Kernel/Types/Task.antt =====
-- autoscaler/conc_req_monitoring/bpf/vmlinux.h: struct task_struct, member by member.
use swarm_autoscaler.Kernel.Layout.{
  CType, int8, int16, int32, int64, array, struct, bits, pad, ◌of◌, ◌⨾◌, ptr,
}
use swarm_autoscaler.Kernel.Types.Entry.{atomic_t, refcount_struct}
use swarm_autoscaler.Kernel.Types.Lists.{hlist_node, list_head}
use swarm_autoscaler.Kernel.Types.Sched.{
  __call_single_node, rb_node, sched_dl_entity, sched_entity, sched_rt_entity, thread_info,
}
use swarm_autoscaler.Kernel.Types.TaskRest.{task_struct_rest}
use swarm_autoscaler.Kernel.Types.Tracking.{
  cpumask, hlist_head, plist_node, posix_cputimers, posix_cputimers_work, prev_cputime, rcu_special,
  restart_block, sched_info, sched_statistics, sysv_sem, sysv_shm, vtime,
}

abbrev pub task_struct : CType
task_struct = struct (
    "thread_info" of thread_info
    ⨾ "__state" of int32
    ⨾ "saved_state" of int32
    ⨾ "stack" of ptr
    ⨾ "usage" of refcount_struct
    ⨾ "flags" of int32
    ⨾ "ptrace" of int32
    ⨾ "on_cpu" of int32
    ⨾ "wake_entry" of __call_single_node
    ⨾ "wakee_flips" of int32
    ⨾ "wakee_flip_decay_ts" of int64
    ⨾ "last_wakee" of ptr
    ⨾ "recent_used_cpu" of int32
    ⨾ "wake_cpu" of int32
    ⨾ "on_rq" of int32
    ⨾ "prio" of int32
    ⨾ "static_prio" of int32
    ⨾ "normal_prio" of int32
    ⨾ "rt_priority" of int32
    ⨾ "se" of sched_entity
    ⨾ "rt" of sched_rt_entity
    ⨾ "dl" of sched_dl_entity
    ⨾ "dl_server" of ptr
    ⨾ "sched_class" of ptr
    ⨾ "core_node" of rb_node
    ⨾ "core_cookie" of int64
    ⨾ "core_occupation" of int32
    ⨾ "sched_task_group" of ptr
    ⨾ pad 8 64
    ⨾ pad 8 64
    ⨾ pad 8 64
    ⨾ "stats" of sched_statistics
    ⨾ "preempt_notifiers" of hlist_head
    ⨾ "btrace_seq" of int32
    ⨾ "policy" of int32
    ⨾ "nr_cpus_allowed" of int32
    ⨾ "cpus_ptr" of ptr
    ⨾ "user_cpus_ptr" of ptr
    ⨾ "cpus_mask" of cpumask
    ⨾ "migration_pending" of ptr
    ⨾ "migration_disabled" of int16
    ⨾ "migration_flags" of int16
    ⨾ "rcu_read_lock_nesting" of int32
    ⨾ "rcu_read_unlock_special" of rcu_special
    ⨾ "rcu_node_entry" of list_head
    ⨾ "rcu_blocked_node" of ptr
    ⨾ "rcu_tasks_nvcsw" of int64
    ⨾ "rcu_tasks_holdout" of int8
    ⨾ "rcu_tasks_idx" of int8
    ⨾ "rcu_tasks_idle_cpu" of int32
    ⨾ "rcu_tasks_holdout_list" of list_head
    ⨾ "rcu_tasks_exit_cpu" of int32
    ⨾ "rcu_tasks_exit_list" of list_head
    ⨾ "trc_reader_nesting" of int32
    ⨾ "trc_ipi_to_cpu" of int32
    ⨾ "trc_reader_special" of rcu_special
    ⨾ "trc_holdout_list" of list_head
    ⨾ "trc_blkd_node" of list_head
    ⨾ "trc_blkd_cpu" of int32
    ⨾ "sched_info" of sched_info
    ⨾ "tasks" of list_head
    ⨾ "pushable_tasks" of plist_node
    ⨾ "pushable_dl_tasks" of rb_node
    ⨾ "mm" of ptr
    ⨾ "active_mm" of ptr
    ⨾ "faults_disabled_mapping" of ptr
    ⨾ "exit_state" of int32
    ⨾ "exit_code" of int32
    ⨾ "exit_signal" of int32
    ⨾ "pdeath_signal" of int32
    ⨾ "jobctl" of int64
    ⨾ "personality" of int32
    ⨾ bits "sched_reset_on_fork" 4 1
    ⨾ bits "sched_contributes_to_load" 4 1
    ⨾ bits "sched_migrated" 4 1
    ⨾ pad 8 29
    ⨾ bits "sched_remote_wakeup" 4 1
    ⨾ bits "sched_rt_mutex" 4 1
    ⨾ bits "in_execve" 4 1
    ⨾ bits "in_iowait" 4 1
    ⨾ bits "restore_sigmask" 4 1
    ⨾ bits "in_user_fault" 4 1
    ⨾ bits "in_lru_fault" 4 1
    ⨾ bits "no_cgroup_migration" 4 1
    ⨾ bits "frozen" 4 1
    ⨾ bits "use_memdelay" 4 1
    ⨾ bits "in_memstall" 4 1
    ⨾ bits "in_page_owner" 4 1
    ⨾ bits "in_eventfd" 4 1
    ⨾ bits "pasid_activated" 4 1
    ⨾ bits "reported_split_lock" 4 1
    ⨾ bits "in_thrashing" 4 1
    ⨾ "atomic_flags" of int64
    ⨾ "restart_block" of restart_block
    ⨾ "pid" of int32
    ⨾ "tgid" of int32
    ⨾ "stack_canary" of int64
    ⨾ "real_parent" of ptr
    ⨾ "parent" of ptr
    ⨾ "children" of list_head
    ⨾ "sibling" of list_head
    ⨾ "group_leader" of ptr
    ⨾ "ptraced" of list_head
    ⨾ "ptrace_entry" of list_head
    ⨾ "thread_pid" of ptr
    ⨾ "pid_links" of array 4 hlist_node
    ⨾ "thread_node" of list_head
    ⨾ "vfork_done" of ptr
    ⨾ "set_child_tid" of ptr
    ⨾ "clear_child_tid" of ptr
    ⨾ "worker_private" of ptr
    ⨾ "utime" of int64
    ⨾ "stime" of int64
    ⨾ "gtime" of int64
    ⨾ "prev_cputime" of prev_cputime
    ⨾ "vtime" of vtime
    ⨾ "tick_dep_mask" of atomic_t
    ⨾ "nvcsw" of int64
    ⨾ "nivcsw" of int64
    ⨾ "start_time" of int64
    ⨾ "start_boottime" of int64
    ⨾ "min_flt" of int64
    ⨾ "maj_flt" of int64
    ⨾ "posix_cputimers" of posix_cputimers
    ⨾ "posix_cputimers_work" of posix_cputimers_work
    ⨾ "ptracer_cred" of ptr
    ⨾ "real_cred" of ptr
    ⨾ "cred" of ptr
    ⨾ "cached_requested_key" of ptr
    ⨾ "comm" of array 16 int8
    ⨾ "nameidata" of ptr
    ⨾ "sysvsem" of sysv_sem
    ⨾ "sysvshm" of sysv_shm
    ⨾ "last_switch_count" of int64
    ⨾ "last_switch_time" of int64
    ⨾ "fs" of ptr
    ⨾ "files" of ptr
    ⨾ "io_uring" of ptr
    ⨾ "nsproxy" of ptr
    ⨾ task_struct_rest)
