-- ===== src/Bpf/ConcReq/Frame.antt =====
-- What a firing of the kprobe of conc_req_monitoring.c leaves alone: the other namespaces' entries, and
-- the maps that only the daemon writes.
use mathlib.Core.List.{append-nil}
use swarm_autoscaler.Base.{
  ℕ, ◌≡◌, refl, ◌∙◌, ◌≢◌, Option, none, some, List, [], ◌∷◌, ◌++◌, arith, ◌==◌, if◌then◌else◌,
  or_keep, or_keep_ind, inl, inr, Option-cases,
}
use swarm_autoscaler.Bpf.Maps.{BpfMaps, UpdateFlag, any, noexist}
use swarm_autoscaler.Bpf.ConcReq.{
  Maps, Data, Limits, store, count_connection, next_buffer, track_buffer, trigger, debounce,
  observe, bump, event,
}

-- The messages sent for one namespace, in order.
unfoldable pub messages_of : ℕ → List Data → List (List ℕ)
messages_of n [] = []
messages_of n (d ∷ ds) =
    let rest = messages_of n ds in if d.netns == n then d.message ∷ rest else rest

pub messages_of-append :
    (n : ℕ) (xs ys : List Data) → messages_of n (xs ++ ys) ≡ messages_of n xs ++ messages_of n ys
unfolding messages_of
messages_of-append n [] ys = refl
messages_of-append n (x ∷ xs) ys = ground (arith, messages_of-append n xs ys)

module _ (B : BpfMaps) where
  -- What the maps say of the namespace `j` is the same in both.
  pub record Agrees (s t : Maps B) (j : ℕ) : Type 0 where
    pub same_count : B.lookup t.conn_count j ≡ B.lookup s.conn_count j
    pub same_buffer : B.lookup t.buffer j ≡ B.lookup s.buffer j
    pub same_scaling : B.lookup t.scaling j ≡ B.lookup s.scaling j
    pub same_messages : messages_of j t.events ≡ messages_of j s.events

  update_other :
      (m : B.Map) (k v j : ℕ) (f : UpdateFlag)
      → k ≢ j
      → B.lookup (or_keep m (B.update m k v f)) j ≡ B.lookup m j
  update_other m k v j f h =
      or_keep_ind (λ t. B.lookup t j ≡ B.lookup m j) m (B.update m k v f) refl
        (λ n e. ground (arith, B.lookup-update m k v f n j e))

  store_other :
      (m : B.Map) (n c : ℕ) (v : Option ℕ) (j : ℕ)
      → B.lookup m n ≡ some c
      → n ≢ j
      → B.lookup (store B m n v) j ≡ B.lookup m j
  unfolding store
  store_other m n c none j e h = refl
  store_other m n c (some v) j e h = ground (arith, B.lookup-write m n v c j e)

  count_connection_other :
      (m : B.Map) (n state j : ℕ)
      → n ≢ j
      → B.lookup (count_connection B m n state).0 j ≡ B.lookup m j
  unfolding count_connection store
  count_connection_other m n state j h = elim (Option-cases (B.lookup m n)) [
    | inl e ↦ rw (e, count_connection) (update_other m n 0 j noexist h)
    | inr (c, e) ↦ rw (e, count_connection) (store_other m n c (bump state c).0 j e h)
  ]

  track_buffer_other :
      (m : B.Map) (n : ℕ) (l : Limits) (value j : ℕ)
      → n ≢ j
      → B.lookup (track_buffer B m n l value).0 j ≡ B.lookup m j
  unfolding track_buffer store
  track_buffer_other m n l value j h = elim (Option-cases (B.lookup m n)) [
    | inl e ↦
        rw (e, track_buffer)
          (update_other (or_keep m (B.update m n 0 noexist)) n (next_buffer l value 0) j any h
            ∙ update_other m n 0 j noexist h)
    | inr (b, e) ↦
        rw (e, track_buffer)
          (update_other (B.write m n (next_buffer l value b)) n (next_buffer l value b) j any h
            ∙ store_other m n b (some (next_buffer l value b)) j e h)
  ]

  -- A firing in one namespace does not touch what the maps hold of another, nor sends in its name.
  pub observe-Agrees :
      (s : Maps B) (l : Limits) (n state j : ℕ) → n ≢ j → Agrees s (observe B s l n state) j
  unfolding observe debounce trigger messages_of event
  observe-Agrees s l n state j h =
      let value = (count_connection B s.conn_count n state).1 in
      let m = (track_buffer B s.buffer n l value).0 in
      ground (
        arith,
        count_connection_other s.conn_count n state j h,
        track_buffer_other s.buffer n l value j h,
        update_other s.scaling n 1 j any h,
        update_other m n 0 j any h,
        messages_of-append j s.events (event l n value ∷ []),
        append-nil (messages_of j s.events),
      )

  -- The maps that the daemon writes stay as they are.
  pub observe_constants :
      (s : Maps B) (l : Limits) (n state : ℕ)
      → ((observe B s l n state).constants ≡ s.constants)
        × ((observe B s l n state).valid_netns ≡ s.valid_netns)
  unfolding observe debounce trigger
  observe_constants s l n state = ground arith
