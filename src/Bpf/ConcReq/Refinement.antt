-- ===== src/Bpf/ConcReq/Refinement.antt =====
-- The kprobe of conc_req_monitoring.c implements the abstract monitor.
use mathlib.Core.List.{append-nil}
use swarm_autoscaler.Base.{
  ℕ, ◌≡◌, Option, none, some, [], ◌∷◌, ◌++◌, arith, ◌==◌, if◌then◌else◌, or_keep, to_list,
}
use swarm_autoscaler.Bpf.Maps.{BpfMaps, any}
use swarm_autoscaler.Bpf.ConcReq.{
  Maps, Limits, bump, breaches, store, count_connection, next_buffer, track_buffer, scaling_on,
  trigger, event, debounce, observe,
}
use swarm_autoscaler.Bpf.ConcReq.Frame.{messages_of, messages_of-append}
use swarm_autoscaler.Bpf.ConcReq.Monitor.{Monitor, next_count, step, pressure}

-- In every state of the socket the kprobe stores and reports one count: one more, modulo 2^32, on
-- ESTABLISHED, and on every other state, LAST_ACK or not, one less, but never below 0.
bump-next_count :
    (state count : ℕ)
    → (or_keep count (bump state count).0 ≡ next_count state count)
      × ((bump state count).1 ≡ next_count state count)
unfolding bump next_count
bump-next_count state count = ground arith

module _ (B : BpfMaps) where
  -- The maps hold the monitor `m` for the namespace `n`.
  pub record Tracks (s : Maps B) (n : ℕ) (m : Monitor) : Type 0 where
    pub at_count : B.lookup s.conn_count n ≡ some m.count
    pub at_buffer : B.lookup s.buffer n ≡ some m.buffer
    pub at_scaling : B.lookup s.scaling n ≡ some m.scaling

  -- An entry that is there is replaced, and the others stay.
  pub lookup-or_keep-update :
      (m : B.Map) (k v w j : ℕ)
      → B.lookup m k ≡ some w
      → B.lookup (or_keep m (B.update m k v any)) j ≡ (if k == j then some v else B.lookup m j)
  lookup-or_keep-update m k v w j h =
      let (n, e) = B.update_present m k v w h in rw e (B.lookup-update m k v any n j e)

  lookup-store :
      (m : B.Map) (k c : ℕ) (v : Option ℕ) (j : ℕ)
      → B.lookup m k ≡ some c
      → B.lookup (store B m k v) j ≡ (if k == j then some (or_keep c v) else B.lookup m j)
  unfolding store
  lookup-store m k c none j h = ground arith
  lookup-store m k c (some v) j h = B.lookup-write m k v c j h

  pub lookup-count_connection :
      (m : B.Map) (n c state j : ℕ)
      → B.lookup m n ≡ some c
      → (B.lookup (count_connection B m n state).0 j
          ≡ (if n == j then some (next_count state c) else B.lookup m j))
        × ((count_connection B m n state).1 ≡ next_count state c)
  unfolding count_connection
  lookup-count_connection m n c state j h =
      ground (arith, bump-next_count state c, lookup-store m n c (bump state c).0 j)

  lookup-track_buffer :
      (m : B.Map) (n b value j : ℕ) (l : Limits)
      → B.lookup m n ≡ some b
      → (B.lookup (track_buffer B m n l value).0 j
          ≡ (if n == j then some (next_buffer l value b) else B.lookup m j))
        × ((track_buffer B m n l value).1 ≡ next_buffer l value b)
  unfolding track_buffer
  lookup-track_buffer m n b value j l h =
      let v = next_buffer l value b in
      ground (
        arith,
        B.lookup-write m n v b n,
        B.lookup-write m n v b j,
        lookup-or_keep-update (B.write m n v) n v v j,
      )

  -- The monitor that the maps hold is stepped by the abstract step, whose message is the one sent.
  pub observe-step :
      (s : Maps B) (n state : ℕ) (l : Limits) (m : Monitor)
      → Tracks s n m
      → Tracks (observe B s l n state) n (step l m state).0
        × (messages_of n (observe B s l n state).events
            ≡ messages_of n s.events ++ to_list (step l m state).1)
  unfolding observe debounce trigger step pressure next_buffer scaling_on breaches messages_of event
  observe-step s n state l m t =
      let value = next_count state m.count in
      ground (
        arith,
        lookup-count_connection s.conn_count n m.count state n,
        lookup-track_buffer s.buffer n m.buffer value n l,
        lookup-or_keep-update s.scaling n 1 m.scaling n,
        lookup-or_keep-update (track_buffer B s.buffer n l value).0 n 0
            (next_buffer l value m.buffer) n,
        messages_of-append n s.events (event l n value ∷ []),
        append-nil (messages_of n s.events),
      )
