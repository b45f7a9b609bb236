-- ===== src/Daemon/Main/Startup.antt =====
-- What `main` has set up when its loops and servers run, and when it does not come so far.
use Prim.Native.String.{String}
use mathlib.Core.Path.{subst}
use swarm_autoscaler.Base.{
  ◌+◌, if◌then◌else◌, Bool-cases, inr, ℕ, ◌≡◌, ◌∙◌, refl, sym, ap, true, Option, none, some, List,
  [], ◌∷◌, arith, ◌↔◌, inl, inr, Option-cases,
}
use swarm_autoscaler.Bpf.Maps.{BpfMaps}
use swarm_autoscaler.Bpf.ConcReq.{limits}
use swarm_autoscaler.Daemon.Float.{Float}
use swarm_autoscaler.Daemon.Server.{SwarmNodeInfo}
use swarm_autoscaler.Daemon.ConcReq.{ConcReqResource, Listener}
use swarm_autoscaler.Daemon.ConcReq.Limits.{stored}
use swarm_autoscaler.Daemon.Ports.Consistency.{IsConsistent, has}
use swarm_autoscaler.Daemon.Scale.Client.{Docker}
use swarm_autoscaler.Daemon.Config.{
  Choice, chosen, exits as gives_up, cpu_enabled, memory_enabled, conc_req_enabled, Config,
  Resource, conc_req, nothing, load_config, choose_resource, create_swarm_node_info,
}
use swarm_autoscaler.Daemon.Containers.{
  Supervisor, start_all, check_owned_container, get_running_containers,
}
use swarm_autoscaler.Daemon.Containers.Ownership.{is_in, get_running_containers-is_in}
use swarm_autoscaler.Daemon.Containers.Lifecycle.{IsSound}
use swarm_autoscaler.Daemon.Main.{
  Launch, exits, panics, serves, no_monitors, Environment, Running, init_bpf_port_listener,
  init_scaler, after_start, set_up, start_monitors, start_daemon, main,
}
use swarm_autoscaler.Daemon.Main.Monitors.{start_all-IsSound, no_monitors-IsSound, start_all-has}
use swarm_autoscaler.Daemon.Main.Listeners.{
  IsLoadedEmpty, init_bpf_port_listener-IsConsistent, chosen-limits,
}

module _ (D : Docker) (B : BpfMaps) {F : Type 0} (fl : Float F) where
  -- A container that Docker lists as running on this node and that the node owns.
  abbrev pub IsTaken : Environment D B F → D.World → String → Type 0
  IsTaken e w k =
      (ids : List String) × (D.container_list w ≡ some ids)
      × (is_in k ids ≡ true)
      × (check_owned_container D w e.hostname k ≡ some true)

  -- What the other parts of the daemon rely on.
  pub record Ready (e : Environment D B F) (d : Running D B F) : Type 0 where
    pub no_operations : (id : String) → d.manager.keep_alive_ops id ≡ none
    pub no_waiting : (c : ℕ) → d.manager.waiting c ≡ none
    pub ports_agree : IsConsistent B d.manager.ports
    pub one_each : IsSound d.supervisor
    pub has_owned :
        (k : String) → (has (d.supervisor.monitored k) ≡ true) ↔ IsTaken e d.manager.world k
    pub limits_stored :
        (r : ConcReqResource)
        → d.resource ≡ some (conc_req r)
        → (l : Listener B) × (d.kprobe ≡ some l) × (limits B l.kernel.constants ≡ some (stored r))

  -- The steps of `main` that have gone through.
  record Launched (e : Environment D B F) (d : Running D B F) : Type 0 where
    config : Config F
    loaded : load_config fl e.file e.unmarshal ≡ some config
    taken : List String
    ports_open : init_bpf_port_listener D B fl e config.iface ≡ some d.manager.ports
    containers : get_running_containers D d.manager.world e.hostname ≡ some taken
    monitors : start_monitors D B fl d.resource taken ≡ serves d.supervisor
    resource_ready : set_up D B fl e config ≡ some (d.resource, d.kprobe)
    no_ops : (id : String) → d.manager.keep_alive_ops id ≡ none
    no_waiting : (c : ℕ) → d.manager.waiting c ≡ none

  after_start-serves :
      (f : Supervisor → Running D B F) (o : Launch Supervisor) (d : Running D B F)
      → after_start D B fl f o ≡ serves d
      → (s : Supervisor) × (o ≡ serves s) × (f s ≡ d)
  unfolding after_start
  after_start-serves f exits d h = absurd (ground (arith, h))
  after_start-serves f panics d h = absurd (ground (arith, h))
  after_start-serves f (serves s) d h = (s, refl, ground (arith, h))

  start_daemon-Launched :
      (e : Environment D B F) (config : Config F) (period : ℕ) (info : SwarmNodeInfo)
      (resource : Option (Resource F)) (kprobe : Option (Listener B)) (d : Running D B F)
      → load_config fl e.file e.unmarshal ≡ some config
      → set_up D B fl e config ≡ some (resource, kprobe)
      → start_daemon D B fl e config period info resource kprobe ≡ serves d
      → Launched e d
  unfolding start_daemon init_scaler
  start_daemon-Launched e config period info resource kprobe d loaded ready h =
      elim (Option-cases e.new_client) [
        | inl f ↦ absurd (ground (arith, h))
        | inr (world, f) ↦ elim (Option-cases (init_bpf_port_listener D B fl e config.iface)) [
          | inl g ↦ absurd (ground (arith, h))
          | inr (ports, g) ↦ elim (Option-cases (get_running_containers D world e.hostname)) [
            | inl k ↦ absurd (ground (arith, h))
            | inr (ids, k) ↦
                let (s, started, same) =
                  after_start-serves _ (start_monitors D B fl resource ids) d (rw (f, g, k) at h) in
                subst (Launched e) same (record {
                  config = config;
                  loaded = loaded;
                  taken = ids;
                  ports_open = g;
                  containers = k;
                  monitors = started;
                  resource_ready = ready;
                  no_ops = λ id. refl;
                  no_waiting = λ c. refl;
                })
          ]
        ]
      ]

  main-Launched :
      (e : Environment D B F) (d : Running D B F) → main D B fl e ≡ serves d → Launched e d
  unfolding main
  main-Launched e d h = elim (Option-cases (load_config fl e.file e.unmarshal)) [
    | inl f ↦ absurd (ground (arith, h))
    | inr (config, f) ↦ elim (Option-cases (e.parse_duration config.collection_period)) [
      | inl g ↦ absurd (ground (arith, h))
      | inr (period, g) ↦
          elim (Option-cases (create_swarm_node_info fl e.hostname e.parse_duration config)) [
            | inl k ↦ absurd (ground (arith, h))
            | inr (info, k) ↦ elim (Option-cases (set_up D B fl e config)) [
              | inl l ↦ absurd (ground (arith, h))
              | inr ((resource, kprobe), l) ↦
                  start_daemon-Launched e config period info resource kprobe d f l
                    (rw (f, g, k, l) at h)
            ]
          ]
    ]
  ]

  start_monitors-start_all :
      (resource : Option (Resource F)) (ids : List String) (s : Supervisor)
      → start_monitors D B fl resource ids ≡ serves s
      → start_all no_monitors ids ≡ s
  unfolding start_monitors start_all
  start_monitors-start_all (some r) ids s h = ground (arith, h)
  start_monitors-start_all none [] s h = ground (arith, h)
  start_monitors-start_all none (k ∷ ks) s h = absurd (ground (arith, h))

  owned-IsTaken :
      (e : Environment D B F) (w : D.World) (taken : List String) (k : String)
      → get_running_containers D w e.hostname ≡ some taken
      → (is_in k taken ≡ true) ↔ IsTaken e w k
  unfolding get_running_containers
  owned-IsTaken e w taken k h = elim (Option-cases (D.container_list w)) [
    | inl f ↦ absurd (ground (arith, h))
    | inr (ids, f) ↦
        let (forth, back) = get_running_containers-is_in D w e.hostname ids taken k f h in
        (
          λ x. let (listed, owned) = forth x in (ids, f, listed, owned),
          λ (ids', f', listed, owned). back (ground (arith, f, f', listed), owned),
        )
  ]

  -- Once its loops and servers run, `main` has set up what the other parts rely on, if the map of the
  -- classifier was empty when it was loaded: there are no keep-alive operations and no goroutines of such,
  -- the tables of ports agree, each running container that this node owns has exactly one monitor and no
  -- other container has one, and where requests are monitored, the kprobe finds the limits of the
  -- configuration, each modulo 2^32.
  pub main-Ready :
      (e : Environment D B F) (d : Running D B F)
      → IsLoadedEmpty D B fl e
      → main D B fl e ≡ serves d
      → Ready e d
  main-Ready e d fresh h =
      let l = main-Launched e d h in
      let started : start_all no_monitors l.taken ≡ d.supervisor =
        start_monitors-start_all d.resource l.taken d.supervisor l.monitors in
      record {
        no_operations = l.no_ops;
        no_waiting = l.no_waiting;
        ports_agree =
            init_bpf_port_listener-IsConsistent D B fl e l.config.iface d.manager.ports fresh
              l.ports_open;
        one_each =
            subst IsSound started (start_all-IsSound no_monitors l.taken no_monitors-IsSound);
        has_owned = λ k.
            let (forth, back) = owned-IsTaken e d.manager.world l.taken k l.containers in
            let same : has (d.supervisor.monitored k) ≡ is_in k l.taken =
              ap (λ s. has (s.monitored k)) (sym started)
              ∙ (start_all-has no_monitors l.taken k ∙ ground arith) in
            (λ x. forth (sym same ∙ x), λ x. same ∙ back x);
        limits_stored = λ r q.
            chosen-limits D B fl e l.config r d.kprobe (choose_resource fl l.config) refl
              (l.resource_ready ∙ ap (λ x. some (x, d.kprobe)) q);
      }

  monitors_need :
      (resource : Option (Resource F)) (ids : List String) (s : Supervisor) (k : String)
      → start_monitors D B fl resource ids ≡ serves s
      → is_in k ids ≡ true
      → (r : Resource F) × (resource ≡ some r)
  unfolding start_monitors
  monitors_need (some r) ids s k h e = (r, refl)
  monitors_need none [] s k h e = absurd (ground (arith, e))
  monitors_need none (c ∷ cs) s k h e = absurd (ground (arith, h))

  -- How many of the three kinds of limits a configuration sets.
  abbrev pub kinds_set : Config F → ℕ
  kinds_set c =
      (if cpu_enabled fl c then 1 else 0)
      + ((if memory_enabled fl c then 1 else 0) + (if conc_req_enabled fl c then 1 else 0))

  chosen-kinds_set :
      (c : Config F) (r : Resource F) → choose_resource fl c ≡ chosen r → kinds_set c ≡ 1
  unfolding choose_resource
  chosen-kinds_set c r h = elim (Bool-cases (cpu_enabled fl c)) [
    | inl a ↦ elim (Bool-cases (memory_enabled fl c)) [
      | inl b ↦ absurd (ground (arith, rw (a, b) at h))
      | inr b ↦ elim (Bool-cases (conc_req_enabled fl c)) [
        | inl g ↦ absurd (ground (arith, rw (a, b, g) at h))
        | inr g ↦ rw (a, b, g) refl
      ]
    ]
    | inr a ↦ elim (Bool-cases (memory_enabled fl c)) [
      | inl b ↦ elim (Bool-cases (conc_req_enabled fl c)) [
        | inl g ↦ absurd (ground (arith, rw (a, b, g) at h))
        | inr g ↦ rw (a, b, g) refl
      ]
      | inr b ↦ elim (Bool-cases (conc_req_enabled fl c)) [
        | inl g ↦ rw (a, b, g) refl
        | inr g ↦ absurd (ground (arith, rw (a, b, g) at h))
      ]
    ]
  ]

  set_up-kinds_set :
      (e : Environment D B F) (c : Config F) (r : Resource F) (kprobe : Option (Listener B))
      (x : Choice F)
      → choose_resource fl c ≡ x
      → set_up D B fl e c ≡ some (some r, kprobe)
      → kinds_set c ≡ 1
  unfolding set_up
  set_up-kinds_set e c r kprobe gives_up f h = absurd (ground (arith, h, f))
  set_up-kinds_set e c r kprobe nothing f h = absurd (ground (arith, h, f))
  set_up-kinds_set e c r kprobe (chosen x) f h = chosen-kinds_set c x f

  -- If a daemon comes to run its loops and servers while it owns a running container, the configuration that
  -- it has loaded sets limits of exactly one of the three kinds, CPU, memory and requests: with no limit
  -- set, or with limits of two kinds, `main` does not come so far.
  pub serves-kinds_set :
      (e : Environment D B F) (d : Running D B F) (config : Config F) (k : String)
      → main D B fl e ≡ serves d
      → load_config fl e.file e.unmarshal ≡ some config
      → IsTaken e d.manager.world k
      → kinds_set config ≡ 1
  serves-kinds_set e d config k h loaded taken =
      let l = main-Launched e d h in
      let (_, back) = owned-IsTaken e d.manager.world l.taken k l.containers in
      let (r, has_resource) =
        monitors_need d.resource l.taken d.supervisor k l.monitors (back taken) in
      let same : l.config ≡ config = ground (arith, sym l.loaded ∙ loaded) in
      subst (λ c. kinds_set c ≡ 1) same
        (set_up-kinds_set e l.config r d.kprobe (choose_resource fl l.config) refl
          (l.resource_ready ∙ ap (λ x. some (x, d.kprobe)) has_resource))
