-- ===== src/Daemon/ConcReq.antt =====
-- autoscaler/conc_req_monitoring/conc_req_monitoring.go: the daemon's side of the connection kprobe. The
-- maps are those of the kprobe. The proofs are in the modules below.
pub mod Limits
pub mod Registration
pub mod Decoding
pub mod Listening
use Prim.Native.String.{String}
use swarm_autoscaler.Base.{
  ℕ, zero, suc, Bool, true, false, ◌&&◌, not, ℤ, to_uint32, Option, none, some, List, [], ◌∷◌, ◌++◌,
  ◌==◌, ltb, if◌then◌else◌, or_keep, le_u32, length,
}
use swarm_autoscaler.Bpf.Maps.{BpfMaps, any}
use swarm_autoscaler.Bpf.ConcReq.{Maps, Data}

pub record ConcReqResource : Type 0 where
  pub lower_limit : ℤ
  pub upper_limit : ℤ
  pub buffer_length : ℤ

-- The Go context and the channel of one call of `Monitor`, by identity.
pub record NamespaceContext : Type 0 where
  pub ctx : ℕ
  pub signal : ℕ

-- The maps that are shared with the kernel, and `namespaceToContext`.
pub record Listener (B : BpfMaps) : Type 0 where
  pub kernel : Maps B
  pub contexts : ℕ → Option NamespaceContext

-- `fatal` is `log.Fatalf`: the process ends.
pub data Outcome {ℓ} (A : Type ℓ) : Type ℓ where
  done : A → Outcome A
  fatal : Outcome A

-- `internalMap.Store` and `internalMap.Delete`
abbrev pub set_context :
    (ℕ → Option NamespaceContext) → ℕ → Option NamespaceContext → ℕ → Option NamespaceContext
set_context f n c j = if n == j then c else f j

infixl 5 ◌>>=◌
abbrev ◌>>=◌ {ℓ κ} : {A : Type ℓ} {B : Type κ} → Option A → (A → Outcome B) → Outcome B
none >>= f = fatal
some a >>= f = f a

module _ (B : BpfMaps) where
  -- The three limits at the end of `InitBPFListener`.
  unfoldable pub init_constants : B.Map → ConcReqResource → Outcome B.Map
  init_constants m r = do
    m1 ← B.update m 0 (to_uint32 r.lower_limit) any
    m2 ← B.update m1 1 (to_uint32 r.upper_limit) any
    m3 ← B.update m2 2 (to_uint32 r.buffer_length) any
    done m3

  unfoldable pub add_namespace_to_scaling_map : Listener B → ℕ → Listener B
  add_namespace_to_scaling_map d netns = record d {
    kernel = record d.kernel {
      scaling = or_keep d.kernel.scaling (B.update d.kernel.scaling netns 0 any);
    };
  }

  unfoldable pub add_namespace : Listener B → ℕ → NamespaceContext → Outcome (Listener B)
  unfolding add_namespace_to_scaling_map
  add_namespace d netns c = do
    counts ← B.update d.kernel.conn_count netns 0 any
    valid ← B.update d.kernel.valid_netns netns 1 any
    let d1 = record d { kernel = record d.kernel { conn_count = counts; valid_netns = valid } }
    let d2 = add_namespace_to_scaling_map d1 netns
    done (record d2 { contexts = set_context d2.contexts netns (some c) })

  -- The listener after it, and whether an error is returned.
  unfoldable pub remove_namespace : Listener B → ℕ → Listener B × Bool
  remove_namespace d netns = elim (B.delete d.kernel.conn_count netns) [
    | none ↦ (d, true)
    | some counts ↦
        let d1 = record d { kernel = record d.kernel { conn_count = counts } } in
        elim (B.delete d1.kernel.buffer netns) [
          | none ↦ (d1, true)
          | some buffer ↦
              let d2 = record d1 { kernel = record d1.kernel { buffer = buffer } } in
              elim (B.delete d2.kernel.valid_netns netns) [
                | none ↦ (d2, true)
                | some valid ↦ (
                  record {
                    kernel = record d2.kernel { valid_netns = valid };
                    contexts = set_context d2.contexts netns none;
                  },
                  false,
                )
              ]
        ]
  ]

-- `binary.Read` of a `Data` from a sample; `none` is an error.
unfoldable pub read_data : List ℕ → Option Data
read_data (a ∷ b ∷ c ∷ d ∷ e ∷ f ∷ g ∷ h ∷ i ∷ j ∷ rest) = elim (le_u32 (a ∷ b ∷ c ∷ d ∷ [])) [
  | none ↦ none
  | some n ↦ some (record { netns = n; message = e ∷ f ∷ g ∷ h ∷ i ∷ j ∷ [] })
]
read_data _ = none

-- `strings.Trim(s, "\x00")`
unfoldable pub trim_left : List ℕ → List ℕ
trim_left [] = []
trim_left (b ∷ bs) = let rest = trim_left bs in if b == 0 then rest else b ∷ bs

unfoldable pub trim_right : List ℕ → List ℕ
trim_right [] = []
trim_right (b ∷ bs) = elim (trim_right bs) [
  | [] ↦ (if b == 0 then [] else b ∷ [])
  | c ∷ cs ↦ b ∷ c ∷ cs
]

unfoldable pub bytes_eq : List ℕ → List ℕ → Bool
bytes_eq [] [] = true
bytes_eq (x ∷ xs) (y ∷ ys) = x == y && bytes_eq xs ys
bytes_eq _ _ = false

abbrev pub lower_word : List ℕ
lower_word = b'L' ∷ b'o' ∷ b'w' ∷ b'e' ∷ b'r' ∷ []

abbrev pub upper_word : List ℕ
upper_word = b'U' ∷ b'p' ∷ b'p' ∷ b'e' ∷ b'r' ∷ []

-- The direction that `Monitor` takes from a message; the empty text is the invalid one.
unfoldable pub direction_of : List ℕ → String
unfolding trim_left trim_right bytes_eq
direction_of message =
    let threshold = trim_right (trim_left message) in
    if bytes_eq threshold lower_word
    then "under"
    else (if bytes_eq threshold upper_word then "over" else "")

-- What one sample makes `listenForEvents` do: send a message into the channel of a context that is not
-- cancelled, or nothing.
unfoldable pub dispatch :
    (ℕ → Option NamespaceContext) → (ℕ → Bool) → ℕ → List ℕ → Option (ℕ × List ℕ)
unfolding read_data
dispatch contexts cancelled lost_samples sample =
    if ltb 0 lost_samples then none else elim (read_data sample) [
      | none ↦ none
      | some d ↦ elim (contexts d.netns) [
        | none ↦ none
        | some c ↦ if cancelled c.ctx then none else some (c.signal, d.message)
      ]
    ]
