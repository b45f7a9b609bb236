-- ===== src/Daemon/Scale/Threads/Channels.antt =====
-- The channels of scale.go under every interleaving: whose goroutine a request cancels, and a send that
-- comes too late.
use Prim.Native.String.{String}
use text.Mathlib.TextEquality.{eq_iff}
use swarm_autoscaler.Base.{
  ℕ, ◌<◌, ◌≡◌, refl, ap, true, false, Option, none, some, arith, inl, inr, ◌⊎◌, Bool-cases,
  Option-cases,
}
use swarm_autoscaler.Base.Family.{set_at}
use swarm_autoscaler.Bpf.Maps.{BpfMaps}
use swarm_autoscaler.Daemon.Server.{Network, send_listen_request_to_all_nodes}
use swarm_autoscaler.Daemon.Scale.Client.{Docker, Service}
use swarm_autoscaler.Daemon.Scale.{
  Manager, Outcome, returns, blocks, panics, set_op, get_published_port, set_replicas,
}
use swarm_autoscaler.Daemon.Scale.Threads.{
  Request, Timer, expired, publishing, opening, telling, zeroing, emptying, clearing, ended, off,
  onward, decide, inspected, request_turn, timer_turn, Goroutines, Step, ask, go_on, fire, tick,
  Reach, start, later,
}

-- A request that holds a channel, to send into it.
abbrev pub holds : Request → Option (String × ℕ)
holds (Request.sending id c n) = some (id, c)
holds r = none

-- Every channel in use was issued, and a goroutine that waits at a channel is of the service whose
-- operation has the channel, or whose request holds it.
pub record IsOwned (ops : String → Option ℕ) (waiting : ℕ → Option String) (next : ℕ)
    (request : ℕ → Request) : Type 0 where
  pub op_issued : (id : String) (c : ℕ) → ops id ≡ some c → c < next
  pub op_owned : (id j : String) (c : ℕ) → ops id ≡ some c → waiting c ≡ some j → j ≡ id
  pub waiting_issued : (c : ℕ) (j : String) → waiting c ≡ some j → c < next
  pub held_issued : (i c : ℕ) (id : String) → holds (request i) ≡ some (id, c) → c < next
  pub held_owned :
      (i c : ℕ) (id j : String) → holds (request i) ≡ some (id, c) → waiting c ≡ some j → j ≡ id

module _ (D : Docker) (B : BpfMaps) where
  abbrev pub Owned : Goroutines D B → Type 0
  Owned s = IsOwned s.mem.keep_alive_ops s.mem.waiting s.mem.next_channel s.request

  -- Accesses that change nothing of this, by a request that then holds no channel.
  plain_turn :
      (s : Goroutines D B) (i : ℕ) (r : Request)
      → holds r ≡ none
      → Owned s
      → IsOwned s.mem.keep_alive_ops s.mem.waiting s.mem.next_channel (set_at s.request i r)
  plain_turn s i r e o = record {
    op_issued = o.op_issued;
    op_owned = o.op_owned;
    waiting_issued = o.waiting_issued;
    held_issued = λ j c id h. ground (arith, o.held_issued j c id, e);
    held_owned = λ j c id k h w. ground (arith, o.held_owned j c id k, e);
  }

  decided_holds :
      (id direction : String) (service : Service) (current : ℕ)
      → holds (decide id direction service current) ≡ none
  unfolding decide
  decided_holds id direction service current = ground arith

  holds-inspected :
      (m : Manager D B) (id direction : String) → holds (inspected D B m id direction) ≡ none
  unfolding inspected
  holds-inspected m id direction = ground (arith, decided_holds id direction)

  -- An update of Docker by a request.
  proceeds :
      (s : Goroutines D B) (i : ℕ) (r : Outcome D.World) (next : Request)
      → holds next ≡ none
      → Owned s
      → (x : Manager D B × Request)
      → x ≡ onward D B s.mem r next (Request.answered true) Request.crashed
      → IsOwned x.0.keep_alive_ops x.0.waiting x.0.next_channel (set_at s.request i x.1)
  unfolding onward
  proceeds s i (returns w false) next h o x e = rw e (plain_turn s i next h o)
  proceeds s i (returns w true) next h o x e = rw e (plain_turn s i (Request.answered true) refl o)
  proceeds s i (blocks w) next h o x e = rw e (plain_turn s i (Request.answered true) refl o)
  proceeds s i panics next h o x e = rw e (plain_turn s i Request.crashed refl o)

  request-Owned :
      (s : Goroutines D B) (i : ℕ) (p : Request)
      → s.request i ≡ p
      → Owned s
      → IsOwned
          (request_turn D B s.mem p).0.keep_alive_ops
          (request_turn D B s.mem p).0.waiting
          (request_turn D B s.mem p).0.next_channel
          (set_at s.request i (request_turn D B s.mem p).1)
  unfolding request_turn
  request-Owned s i Request.idle e o = plain_turn s i Request.idle refl o
  request-Owned s i (Request.asked id direction) e o =
      plain_turn s i (inspected D B s.mem id direction) (holds-inspected s.mem id direction) o
  request-Owned s i (Request.unpinning id service n) e o =
      proceeds s i _ (Request.looking id n) refl o _ refl
  request-Owned s i (Request.looking id n) e o = elim (Option-cases (s.mem.keep_alive_ops id)) [
    | inl f ↦ rw (f, request_turn) (plain_turn s i (Request.scaling id n) refl o)
    | inr (c, f) ↦
        rw (f, request_turn)
          (record {
            op_issued = o.op_issued;
            op_owned = o.op_owned;
            waiting_issued = o.waiting_issued;
            held_issued = λ j d k h. ground (arith, o.held_issued j d k, o.op_issued id c f, h);
            held_owned =
                λ j d k l h w. ground (arith, o.held_owned j d k l, o.op_owned id l c f, h, w);
          })
  ]
  request-Owned s i (Request.sending id c n) e o = elim (Option-cases (s.mem.waiting c)) [
    | inl f ↦
        rw (f, request_turn)
          (record {
            op_issued = o.op_issued;
            op_owned = o.op_owned;
            waiting_issued = o.waiting_issued;
            held_issued = λ k d l h.
                ground (arith, o.held_issued k d l, o.held_issued i c id (ap holds e), h);
            held_owned = λ k d l x h w.
                ground (arith, o.held_owned k d l x, o.held_owned i c id x (ap holds e), h, w);
          })
    | inr (j, f) ↦
        rw (f, request_turn)
          (record {
            op_issued = o.op_issued;
            op_owned = λ k l d h w. ground (arith, o.op_owned k l d, h, w);
            waiting_issued = λ d l w. ground (arith, o.waiting_issued d l, w);
            held_issued = λ k d l h. ground (arith, o.held_issued k d l, h);
            held_owned = λ k d l x h w. ground (arith, o.held_owned k d l x, h, w);
          })
  ]
  request-Owned s i (Request.deleting id n) e o = record {
    op_issued = λ k c h. ground (arith, o.op_issued k c, h);
    op_owned = λ k l c h w. ground (arith, o.op_owned k l c, h, w);
    waiting_issued = o.waiting_issued;
    held_issued = λ k d l h. ground (arith, o.held_issued k d l, h);
    held_owned = λ k d l x h w. ground (arith, o.held_owned k d l x, h, w);
  }
  request-Owned s i (Request.pinning id service n) e o =
      proceeds s i _ (Request.scaling id n) refl o _ refl
  request-Owned s i (Request.scaling id n) e o = elim (Option-cases (D.inspect s.mem.world id)) [
    | inl f ↦ rw (f, request_turn) (plain_turn s i (Request.answered true) refl o)
    | inr (t, f) ↦ rw (f, request_turn) (plain_turn s i (Request.updating id t n) refl o)
  ]
  request-Owned s i (Request.updating id service n) e o =
      proceeds s i _ (Request.answered false) refl o _ refl
  request-Owned s i (Request.testing id) e o = elim (Option-cases (s.mem.keep_alive_ops id)) [
    | inl f ↦ rw (f, request_turn) (plain_turn s i (Request.starting id) refl o)
    | inr (c, f) ↦ rw (f, request_turn) (plain_turn s i (Request.answered false) refl o)
  ]
  request-Owned s i (Request.starting id) e o = record {
    op_issued = λ k c h. ground (arith, o.op_issued k c, h);
    op_owned = λ k l c h w.
        ground (arith, o.op_owned k l c, o.op_issued k c, o.waiting_issued c l, eq_iff id k, h, w);
    waiting_issued = λ c l w. ground (arith, o.waiting_issued c l, w);
    held_issued = λ k d l h. ground (arith, o.held_issued k d l, h);
    held_owned = λ k d l x h w. ground (arith, o.held_owned k d l x, o.held_issued k d l, h, w);
  }
  request-Owned s i (Request.answered failed) e o = plain_turn s i (Request.answered failed) refl o
  request-Owned s i Request.crashed e o = plain_turn s i Request.crashed refl o

  pub onward_fields :
      {P : Type 0} (m : Manager D B) (r : Outcome D.World) (a b c : P)
      → ((onward D B m r a b c).0.keep_alive_ops ≡ m.keep_alive_ops)
        × ((onward D B m r a b c).0.waiting ≡ m.waiting)
        × ((onward D B m r a b c).0.next_channel ≡ m.next_channel)
  unfolding onward
  onward_fields m (returns w false) a b c = (refl, refl, refl)
  onward_fields m (returns w true) a b c = (refl, refl, refl)
  onward_fields m (blocks w) a b c = (refl, refl, refl)
  onward_fields m panics a b c = (refl, refl, refl)

  -- The goroutine of a fired timer deletes an operation at most.
  pub timer_fields :
      (net : Network) (m : Manager D B) (t : Timer)
      → (((timer_turn D B net m t).0.keep_alive_ops ≡ m.keep_alive_ops)
          ⊎ ((id : String) × ((timer_turn D B net m t).0.keep_alive_ops
                ≡ set_op m.keep_alive_ops id none)))
        × ((timer_turn D B net m t).0.waiting ≡ m.waiting)
        × ((timer_turn D B net m t).0.next_channel ≡ m.next_channel)
  unfolding timer_turn
  timer_fields net m off = (inl refl, refl, refl)
  timer_fields net m (expired id) = elim (Option-cases (m.keep_alive_ops id)) [
    | inl e ↦ rw (e, timer_turn) (inl refl, refl, refl)
    | inr (c, e) ↦ rw (e, timer_turn) (inl refl, refl, refl)
  ]
  timer_fields net m (publishing id) = elim (Option-cases (get_published_port D m.world id)) [
    | inl e ↦ rw (e, timer_turn) (inl refl, refl, refl)
    | inr (port, e) ↦ rw (e, timer_turn) (inl refl, refl, refl)
  ]
  timer_fields net m (opening id port) = (inl refl, refl, refl)
  timer_fields net m (telling id port) =
      elim (Bool-cases (send_listen_request_to_all_nodes net m.node_info port id).1) [
        | inl e ↦ rw e (inl refl, refl, refl)
        | inr e ↦ rw e (inl refl, refl, refl)
      ]
  timer_fields net m (zeroing id) = elim (Option-cases (D.inspect m.world id)) [
    | inl e ↦ rw (e, timer_turn) (inl refl, refl, refl)
    | inr (t, e) ↦ rw (e, timer_turn) (inl refl, refl, refl)
  ]
  timer_fields net m (emptying id service) =
      let (a, b, c) =
        onward_fields m (set_replicas D m.world id service 0) (clearing id) (ended true)
          Timer.crashed in
      (inl a, b, c)
  timer_fields net m (clearing id) = (inr (id, refl), refl, refl)
  timer_fields net m (ended failed) = (inl refl, refl, refl)
  timer_fields net m Timer.crashed = (inl refl, refl, refl)

  timer-Owned :
      (net : Network) (s : Goroutines D B) (t : Timer)
      → Owned s
      → IsOwned
          (timer_turn D B net s.mem t).0.keep_alive_ops
          (timer_turn D B net s.mem t).0.waiting
          (timer_turn D B net s.mem t).0.next_channel
          s.request
  timer-Owned net s t o =
      let (ops, waiting, next) = timer_fields net s.mem t in
      elim ops [
        | inl e ↦ rw (e, waiting, next) o
        | inr (id, e) ↦
            rw (e, waiting, next)
              (record {
                op_issued = λ k c h. ground (arith, o.op_issued k c, h);
                op_owned = λ k l c h w. ground (arith, o.op_owned k l c, h, w);
                waiting_issued = o.waiting_issued;
                held_issued = o.held_issued;
                held_owned = o.held_owned;
              })
      ]

module _ (D : Docker) (B : BpfMaps) (net : Network) where
  Step-Owned : (s t : Goroutines D B) → Step D B net s t → Owned D B s → Owned D B t
  Step-Owned s t (ask i id direction e) o = plain_turn D B s i (Request.asked id direction) refl o
  Step-Owned s t (go_on i) o = request-Owned D B s i (s.request i) refl o
  Step-Owned s t (fire c id e) o = record {
    op_issued = o.op_issued;
    op_owned = λ k l d h w. ground (arith, o.op_owned k l d, h, w);
    waiting_issued = λ d l w. ground (arith, o.waiting_issued d l, w);
    held_issued = o.held_issued;
    held_owned = λ k d l x h w. ground (arith, o.held_owned k d l x, h, w);
  }
  Step-Owned s t (tick c) o = timer-Owned D B net s (s.timer c) o

  Reach-Owned : (s t : Goroutines D B) → Reach D B net s t → Owned D B s → Owned D B t
  Reach-Owned s t start o = o
  Reach-Owned s t (later {t = u} r e) o = Step-Owned u t e (Reach-Owned s u r o)

  -- `initScaler`, and no call has begun.
  pub record IsInitial (s : Goroutines D B) : Type 0 where
    pub no_ops : (id : String) → s.mem.keep_alive_ops id ≡ none
    pub no_waiting : (c : ℕ) → s.mem.waiting c ≡ none
    pub no_requests : (i : ℕ) → s.request i ≡ Request.idle

  initial-Owned : (s : Goroutines D B) → IsInitial s → Owned D B s
  initial-Owned s i = record {
    op_issued = λ id c e. ground (arith, i.no_ops id, e);
    op_owned = λ id j c e w. ground (arith, i.no_ops id, e);
    waiting_issued = λ c j e. ground (arith, i.no_waiting c, e);
    held_issued = λ k c id h. ground (arith, i.no_requests k, h);
    held_owned = λ k c id j h w. ground (arith, i.no_requests k, h);
  }

  -- However requests and timers are interleaved since the start: a goroutine that waits at the channel
  -- into which a request is about to send is one of the request's own service, so that no request
  -- cancels the keep-alive of another.
  pub cancels_own :
      (s t : Goroutines D B) (i c n : ℕ) (id j : String)
      → IsInitial s
      → Reach D B net s t
      → t.request i ≡ Request.sending id c n
      → t.mem.waiting c ≡ some j
      → j ≡ id
  cancels_own s t i c n id j init r e w =
      (Reach-Owned s t r (initial-Owned s init)).held_owned i c id j (ap holds e) w
