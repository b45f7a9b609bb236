-- ===== src/Daemon/Containers/Namespace.antt =====
-- `GetContainerNamespace` of autoscaler/scale/scale.go: the number of the network namespace of a container.
use Prim.Native.String.{String}
use swarm_autoscaler.Base.{
  ℕ, ◌^◌, ◌%◌, ◌<◌, ◌≡◌, Bool, Option, none, some, arith, if◌then◌else◌, inl, inr, Bool-cases,
  Option-cases,
}

-- The directory of the processes: that of the host where it is mounted.
pub data ProcDir : Type 0 where
  proc : ProcDir
  host_proc : ProcDir

-- What the function asks outside: the client of Docker and the process of a container, whether /host_proc
-- can be read, whether a namespace file is missing, and the number of its inode; `none` is an error.
pub record ProcFiles : Type 0 where
  pub new_client : Bool
  pub pid_of : String → Option ℕ
  pub has_host_proc : Bool
  pub is_missing : ProcDir → ℕ → Bool
  pub inode_of : ProcDir → ℕ → Option ℕ

abbrev pub proc_dir : ProcFiles → ProcDir
proc_dir f = if f.has_host_proc then host_proc else proc

-- `none` is an error.
unfoldable pub get_container_namespace : ProcFiles → String → Option ℕ
get_container_namespace f container_id =
    if f.new_client
    then (elim (f.pid_of container_id) [
      | none ↦ none
      | some pid ↦
          if f.is_missing (proc_dir f) pid then none else (elim (f.inode_of (proc_dir f) pid) [
            | none ↦ none
            | some inode ↦ some (inode % 2 ^ 32)
          ])
    ])
    else none

-- The number is one that the kprobe can count under, and it is that of the process of the container in the
-- directory of the host, where there is one, modulo 2^32.
get_container_namespace-inode_of :
    (f : ProcFiles) (container_id : String) (netns : ℕ)
    → get_container_namespace f container_id ≡ some netns
    → (netns < 2 ^ 32)
      × (pid : ℕ) × (inode : ℕ) × (f.pid_of container_id ≡ some pid)
      × (f.inode_of (proc_dir f) pid ≡ some inode)
      × (netns ≡ inode % 2 ^ 32)
unfolding get_container_namespace
get_container_namespace-inode_of f container_id netns h = elim (Bool-cases f.new_client) [
  | inr a ↦ absurd (ground (arith, rw a at h))
  | inl a ↦ elim (Option-cases (f.pid_of container_id)) [
    | inl b ↦ absurd (ground (arith, rw (a, b) at h))
    | inr (pid, b) ↦ elim (Bool-cases (f.is_missing (proc_dir f) pid)) [
      | inl c ↦ absurd (ground (arith, rw (a, b, c) at h))
      | inr c ↦ elim (Option-cases (f.inode_of (proc_dir f) pid)) [
        | inl d ↦ absurd (ground (arith, rw (a, b, c, d) at h))
        | inr (inode, d) ↦
            let same : netns ≡ inode % 2 ^ 32 = ground (arith, rw (a, b, c, d) at h) in
            (omega (arith, same), pid, inode, b, d, same)
      ]
    ]
  ]
]
