-- ===== src/Kernel/Types/TaskRest.antt =====
-- autoscaler/conc_req_monitoring/bpf/vmlinux.h: struct task_struct from the member `signal` on, member by member.
use swarm_autoscaler.Kernel.Layout.{
  Fields, int8, int16, int32, int64, array, struct, bits, pad, end, ◌of◌, ◌⨾◌, ptr,
}
use swarm_autoscaler.Kernel.Types.Entry.{atomic_t, refcount_struct}
use swarm_autoscaler.Kernel.Types.Fpu.{
  latency_record, llist_head, nodemask_t, seqcount_spinlock, thread_struct, tlbflush_unmap_batch,
}
use swarm_autoscaler.Kernel.Types.Lists.{
  callback_head, kuid_t, list_head, page_frag, raw_spinlock, spinlock, timer_list,
}
use swarm_autoscaler.Kernel.Types.Tracking.{
  mutex, rb_root_cached, seccomp, sigpending, sigset_t, syscall_user_dispatch, task_io_accounting,
  wake_q_node,
}

abbrev pub task_struct_rest : Fields
task_struct_rest =
    "signal" of ptr
    ⨾ "sighand" of ptr
    ⨾ "blocked" of sigset_t
    ⨾ "real_blocked" of sigset_t
    ⨾ "saved_sigmask" of sigset_t
    ⨾ "pending" of sigpending
    ⨾ "sas_ss_sp" of int64
    ⨾ "sas_ss_size" of int64
    ⨾ "sas_ss_flags" of int32
    ⨾ "task_works" of ptr
    ⨾ "audit_context" of ptr
    ⨾ "loginuid" of kuid_t
    ⨾ "sessionid" of int32
    ⨾ "seccomp" of seccomp
    ⨾ "syscall_dispatch" of syscall_user_dispatch
    ⨾ "parent_exec_id" of int64
    ⨾ "self_exec_id" of int64
    ⨾ "alloc_lock" of spinlock
    ⨾ "pi_lock" of raw_spinlock
    ⨾ "wake_q" of wake_q_node
    ⨾ "pi_waiters" of rb_root_cached
    ⨾ "pi_top_task" of ptr
    ⨾ "pi_blocked_on" of ptr
    ⨾ "journal_info" of ptr
    ⨾ "bio_list" of ptr
    ⨾ "plug" of ptr
    ⨾ "reclaim_state" of ptr
    ⨾ "io_context" of ptr
    ⨾ "capture_control" of ptr
    ⨾ "ptrace_message" of int64
    ⨾ "last_siginfo" of ptr
    ⨾ "ioac" of task_io_accounting
    ⨾ "psi_flags" of int32
    ⨾ "acct_rss_mem1" of int64
    ⨾ "acct_vm_mem1" of int64
    ⨾ "acct_timexpd" of int64
    ⨾ "mems_allowed" of nodemask_t
    ⨾ "mems_allowed_seq" of seqcount_spinlock
    ⨾ "cpuset_mem_spread_rotor" of int32
    ⨾ "cpuset_slab_spread_rotor" of int32
    ⨾ "cgroups" of ptr
    ⨾ "cg_list" of list_head
    ⨾ "closid" of int32
    ⨾ "rmid" of int32
    ⨾ "robust_list" of ptr
    ⨾ "compat_robust_list" of ptr
    ⨾ "pi_state_list" of list_head
    ⨾ "pi_state_cache" of ptr
    ⨾ "futex_exit_mutex" of mutex
    ⨾ "futex_state" of int32
    ⨾ "perf_event_ctxp" of ptr
    ⨾ "perf_event_mutex" of mutex
    ⨾ "perf_event_list" of list_head
    ⨾ "mempolicy" of ptr
    ⨾ "il_prev" of int16
    ⨾ "il_weight" of int8
    ⨾ "pref_node_fork" of int16
    ⨾ "numa_scan_seq" of int32
    ⨾ "numa_scan_period" of int32
    ⨾ "numa_scan_period_max" of int32
    ⨾ "numa_preferred_nid" of int32
    ⨾ "numa_migrate_retry" of int64
    ⨾ "node_stamp" of int64
    ⨾ "last_task_numa_placement" of int64
    ⨾ "last_sum_exec_runtime" of int64
    ⨾ "numa_work" of callback_head
    ⨾ "numa_group" of ptr
    ⨾ "numa_faults" of ptr
    ⨾ "total_numa_faults" of int64
    ⨾ "numa_faults_locality" of array 3 int64
    ⨾ "numa_pages_migrated" of int64
    ⨾ "rseq" of ptr
    ⨾ "rseq_len" of int32
    ⨾ "rseq_sig" of int32
    ⨾ "rseq_event_mask" of int64
    ⨾ "mm_cid" of int32
    ⨾ "last_mm_cid" of int32
    ⨾ "migrate_from_cpu" of int32
    ⨾ "mm_cid_active" of int32
    ⨾ "cid_work" of callback_head
    ⨾ "tlb_ubc" of tlbflush_unmap_batch
    ⨾ "splice_pipe" of ptr
    ⨾ "task_frag" of page_frag
    ⨾ "delays" of ptr
    ⨾ "make_it_fail" of int32
    ⨾ "fail_nth" of int32
    ⨾ "nr_dirtied" of int32
    ⨾ "nr_dirtied_pause" of int32
    ⨾ "dirty_paused_when" of int64
    ⨾ "latency_record_count" of int32
    ⨾ "latency_record" of array 32 latency_record
    ⨾ "timer_slack_ns" of int64
    ⨾ "default_timer_slack_ns" of int64
    ⨾ "curr_ret_stack" of int32
    ⨾ "curr_ret_depth" of int32
    ⨾ "ret_stack" of ptr
    ⨾ "ftrace_timestamp" of int64
    ⨾ "trace_overrun" of atomic_t
    ⨾ "tracing_graph_pause" of atomic_t
    ⨾ "trace_recursion" of int64
    ⨾ "memcg_in_oom" of ptr
    ⨾ "memcg_oom_gfp_mask" of int32
    ⨾ "memcg_oom_order" of int32
    ⨾ "memcg_nr_pages_over_high" of int32
    ⨾ "active_memcg" of ptr
    ⨾ "objcg" of ptr
    ⨾ "throttle_disk" of ptr
    ⨾ "utask" of ptr
    ⨾ "sequential_io" of int32
    ⨾ "sequential_io_avg" of int32
    ⨾ "kmap_ctrl" of struct end
    ⨾ "rcu" of callback_head
    ⨾ "rcu_users" of refcount_struct
    ⨾ "pagefault_disabled" of int32
    ⨾ "oom_reaper_list" of ptr
    ⨾ "oom_reaper_timer" of timer_list
    ⨾ "stack_vm_area" of ptr
    ⨾ "stack_refcount" of refcount_struct
    ⨾ "patch_state" of int32
    ⨾ "security" of ptr
    ⨾ "bpf_storage" of ptr
    ⨾ "bpf_ctx" of ptr
    ⨾ "mce_vaddr" of ptr
    ⨾ "mce_kflags" of int64
    ⨾ "mce_addr" of int64
    ⨾ bits "mce_ripv" 8 1
    ⨾ bits "mce_whole_page" 8 1
    ⨾ bits "__mce_reserved" 8 62
    ⨾ "mce_kill_me" of callback_head
    ⨾ "mce_count" of int32
    ⨾ "kretprobe_instances" of llist_head
    ⨾ "rethooks" of llist_head
    ⨾ "l1d_flush_kill" of callback_head
    ⨾ pad 8 64
    ⨾ pad 8 64
    ⨾ "thread" of thread_struct
    ⨾ end
