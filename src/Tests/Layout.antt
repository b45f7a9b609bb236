-- ===== src/Tests/Layout.antt =====
-- The layout of `struct sock_common` and of `struct task_struct` of vmlinux.h.
use swarm_autoscaler.Base.{◌+◌, ◌%◌, ◌≤◌, ◌≡◌, refl, ◌⊎◌, some, arith}
use text.Mathlib.TextEquality.{eq_iff}
use mathlib.Core.Bool.{false≢true}
use swarm_autoscaler.Kernel.Layout.{
  CType, Fields, Field, int8, ptr, struct, ◌of◌, size_of, align_of, width_of, end_of, find_field,
  member,
}
use swarm_autoscaler.Kernel.Layout.Bounds.{
  HaveUnits, find_field_bounds, find_field_disjoint, member_bounds,
}
use swarm_autoscaler.Kernel.Types.Lists.{sock_common}
use swarm_autoscaler.Kernel.Types.Task.{task_struct}

abbrev fields_of : CType → Fields
fields_of (struct fs) = fs
fields_of t = Fields.end

abbrev sock_fields : Fields
sock_fields = fields_of sock_common

sock_fields-HaveUnits : HaveUnits sock_fields
sock_fields-HaveUnits = omega arith

state_found : find_field "skc_state" sock_fields 0 ≡ some (144, "skc_state" of int8)
unfolding find_field align_of size_of
state_found = refl

reuse_found : find_field "skc_reuse" sock_fields 0 ≡ some (152, Field.bits "skc_reuse" 1 4)
unfolding find_field align_of size_of
reuse_found = refl

find_field_bounds_example :
    (0 ≤ 144) × (144 + width_of ("skc_state" of int8) ≤ end_of sock_fields 0)
find_field_bounds_example =
    find_field_bounds "skc_state" sock_fields 0 144 ("skc_state" of int8) sock_fields-HaveUnits
      state_found

find_field_disjoint_example :
    (144 + width_of ("skc_state" of int8) ≤ 152)
    ⊎ (152 + width_of (Field.bits "skc_reuse" 1 4) ≤ 144)
find_field_disjoint_example =
    find_field_disjoint "skc_state" "skc_reuse" sock_fields 0 144 152 ("skc_state" of int8)
      (Field.bits "skc_reuse" 1 4) sock_fields-HaveUnits
      (λ p. false≢true ((eq_iff "skc_state" "skc_reuse").1 p)) state_found reuse_found

nsproxy_member : member "nsproxy" task_struct ≡ some (3120, ptr)
unfolding member align_of size_of
nsproxy_member = refl

member_bounds_example :
    (3120 + size_of ptr ≤ size_of (struct (fields_of task_struct))) × (3120 % align_of ptr ≡ 0)
member_bounds_example =
    member_bounds "nsproxy" (fields_of task_struct) 3120 ptr (omega arith) nsproxy_member
