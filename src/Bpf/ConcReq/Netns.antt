-- ===== src/Bpf/ConcReq/Netns.antt =====
-- How the kprobe of conc_req_monitoring.c finds the namespace of a task, and the offsets that it uses
-- on the kernel of vmlinux.h.
use Prim.Native.String.{String}
use swarm_autoscaler.Base.{ℕ, ◌+◌, ◌≡◌, Option, none, some, arith, ◌==◌, if◌then◌else◌}
use swarm_autoscaler.Kernel.Layout.{CType, member}
use swarm_autoscaler.Kernel.Types.Entry.{nsproxy, ns_common, pt_regs}
use swarm_autoscaler.Kernel.Types.Sock.{sock}
use swarm_autoscaler.Kernel.Types.Lists.{sock_common}
use swarm_autoscaler.Kernel.Types.Task.{task_struct}
use swarm_autoscaler.Kernel.Types.Net.{net}
use swarm_autoscaler.Bpf.Kernel.{Memory, Offsets}
use swarm_autoscaler.Bpf.ConcReq.{get_netns_from_task}

offset_of : String → CType → ℕ
unfolding member
offset_of name t = elim (member name t) [ none ↦ 0 | some p ↦ p.0 ]

-- Member by member along the expressions of the source: `task->nsproxy`, `ns->net_ns`,
-- `net->ns.inum`, `sk->__sk_common.skc_state` and `ctx->di`.
unfoldable pub vmlinux_offsets : Offsets
unfolding offset_of
vmlinux_offsets = record {
  task_nsproxy = offset_of "nsproxy" task_struct;
  nsproxy_net_ns = offset_of "net_ns" nsproxy;
  net_ns_inum = offset_of "ns" net + offset_of "inum" ns_common;
  sock_state = offset_of "__sk_common" sock + offset_of "skc_state" sock_common;
  regs_di = offset_of "di" pt_regs;
}

infixl 5 ◌>>=◌
abbrev pub ◌>>=◌ {ℓ κ} : {A : Type ℓ} {B : Type κ} → Option A → (A → Option B) → Option B
none >>= f = none
some a >>= f = f a

-- A pointer that can be followed.
abbrev pub pointer : Option ℕ → Option ℕ
pointer none = none
pointer (some p) = if p == 0 then none else some p

-- `task->nsproxy->net_ns->ns.inum`, where every pointer on the way can be followed.
abbrev pub inum_of : Offsets → Memory → ℕ → Option ℕ
inum_of o mem task = do
  ns ← pointer (mem (task + o.task_nsproxy) 8)
  net ← pointer (mem (ns + o.nsproxy_net_ns) 8)
  mem (net + o.net_ns_inum) 4

-- The kprobe reads the inode number of the task's network namespace, and 0 where a pointer on the
-- way is null or a read faults.
pub get_netns_from_task-inum_of :
    (o : Offsets) (mem : Memory) (task : ℕ)
    → get_netns_from_task o mem task ≡ elim (inum_of o mem task) [ none ↦ 0 | some n ↦ n ]
unfolding get_netns_from_task
get_netns_from_task-inum_of o mem task = ground arith
