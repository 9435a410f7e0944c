-- ===== src/Start.antt =====
-- src/main.rs: the start of the process. What figment, the environment and the registry give are
-- parameters; what is spawned is data, in the order of the code.
pub mod Probes
pub mod Wired
pub mod Running
pub mod Ends
use rpc_latency_monitor.Prelude.{
  ℕ, ◌≡◌, refl, String, Bool, true, false, not, ◌||◌, Option, none, some, List, [], ◌∷◌, ◌++◌, ◌==◌,
  string_eq, ltb, is_empty, length, map, if◌then◌else◌,
}
use rpc_latency_monitor.Prelude.Fallible.{Result, ok, err, ◌>>=◌, ok_or}
use rpc_latency_monitor.Crates.{Crates}
use rpc_latency_monitor.Config.{
  Config, ReferenceCheckConfig, ReferenceSlotConfig, GpaDeriveConfig, ReferenceSource, max_observed,
  endpoint,
}
use rpc_latency_monitor.Config.Load.{ConfigDocument, LoadError, load}
use rpc_latency_monitor.Providers.{
  ProviderEndpoint, ResolveError, geo_for, validate_geos, resolve_endpoints, resolve_url,
}
use rpc_latency_monitor.Metrics.{Metrics}
use rpc_latency_monitor.Metrics.Families.{Registry, new_metrics}
use rpc_latency_monitor.Rpc.Client.{RpcClient, new_rpc_client}
use rpc_latency_monitor.ReferenceSlot as Slot
use rpc_latency_monitor.ReferenceSlot.{ArchivalAnchor}
use rpc_latency_monitor.ReferenceCheck.Archival.{archival_min_quorum}
use rpc_latency_monitor.ReferenceCheck.Sink.{ClaimSink}
use rpc_latency_monitor.ReferenceCheck.Tick.{claim_sink, judged_providers}
use rpc_latency_monitor.SampleLog.{SampleLogger}
use rpc_latency_monitor.SampleLog.Opened.{FlushTask, from_env}
use rpc_latency_monitor.Scheduler.{Board}
use rpc_latency_monitor.Scheduler.Spawn.{ProviderThread, spawn_checks, default_shared}

pub data StartError : Type 0 where
  not_loaded : LoadError → StartError
  unknown_geo : String × String → StartError
  unresolved : ResolveError → StartError
  no_registry : String → StartError
  no_http_client out_of_fuel : StartError

-- `map_err(f)?`
abbrev pub mapped : {A E : Type 0} → (E → StartError) → Result E A → Result StartError A
mapped f (ok a) = ok a
mapped f (err e) = err (f e)

-- The loop of `substitute`, which runs on fuel.
abbrev pub run_out : {A : Type 0} → Option (Result ResolveError A) → Result StartError A
run_out none = err out_of_fuel
run_out (some r) = mapped unresolved r

-- What `main` knows before it starts anything: the configuration with its urls resolved.
pub record Plan : Type 0 where
  pub config : Config
  pub endpoints : List ProviderEndpoint
  pub gpa_derive : Option GpaDeriveConfig
  pub metrics : Metrics

module _ ⦃c : Crates⦄ where
  open c use {World}

  pub data Task : Type 0 where
    poll_reference : RpcClient → String → ℕ → Task
    check_claims : RpcClient → ReferenceCheckConfig → ClaimSink → Task
    flush_samples : FlushTask → Task
    derive_targets : RpcClient → GpaDeriveConfig → Task
    probe : RpcClient → ProviderThread → Task
    check_blocks : RpcClient → ReferenceCheckConfig → List ProviderEndpoint → Task
    check_archive : RpcClient → List ProviderEndpoint → ℕ → Task
    serve : String → Task

  module _ (env : String → Option String) where
    abbrev pub resolved_derive : Option GpaDeriveConfig → Result StartError (Option GpaDeriveConfig)
    resolved_derive none = ok none
    resolved_derive (some d) = do
      url ← run_out (resolve_url env "gpa_derive.endpoint" d.endpoint)
      ok (some (record d { endpoint = url }))

    abbrev pub resolved_slot : ReferenceSlotConfig → Result StartError ReferenceSlotConfig
    resolved_slot r = elim r.endpoint [
      | none ↦ ok r
      | some e ↦ run_out (resolve_url env "reference_slot.endpoint" e) >>= λ url.
          ok (record r { endpoint = some url })
    ]

    abbrev pub resolved_check : ReferenceCheckConfig → Result StartError ReferenceCheckConfig
    resolved_check r =
        if r.rpc_url == ""
        then ok r
        else (run_out (resolve_url env "reference_check.rpc_url" r.rpc_url) >>= λ url.
            ok (record r { rpc_url = url }))

    module _ (extract : String → Option ConfigDocument) (register : Registry) where
      -- `main` up to its metrics.
      unfoldable pub prepare : String → Result StartError Plan
      prepare path = do
        config ← mapped not_loaded (load extract path)
        known ← mapped unknown_geo (validate_geos config.providers)
        endpoints ← run_out (resolve_endpoints env config.providers config.region)
        gpa_derive ← resolved_derive config.gpa_derive
        reference_slot ← resolved_slot config.reference_slot
        reference_check ← resolved_check config.reference_check
        metrics ← mapped no_registry (new_metrics register config.region (geo_for config.region))
        ok (record {
          config = record config {
            reference_slot = reference_slot;
            reference_check = reference_check;
          };
          endpoints = endpoints;
          gpa_derive = gpa_derive;
          metrics = metrics;
        })

  -- Code with `?` that builds clients. A start that fails ends the process, with what it has started.
  abbrev pub Boot : Type 0 → Type 0
  Boot A = World → Result StartError A × World

  module _ {A B : Type 0} where
    abbrev pub after : (A → Boot B) → Result StartError A → Boot B
    after f (ok a) w = f a w
    after f (err e) w = (err e, w)

    unfoldable pub then_boot : Boot A → (A → Boot B) → Boot B
    then_boot m f w = after f (m w).0 (m w).1

    -- To go on with what a step returned.
    pub boot_ok {ν} :
        {P : Type ν} (m : Boot A) (f : A → Boot B) (w : World) (b : B)
        → (then_boot m f w).0 ≡ ok b
        → ((a : A) (w' : World) → (m w).0 ≡ ok a → (f a w').0 ≡ ok b → P)
        → P
    unfolding then_boot
    boot_ok {P = P} m f w b h k = by_result (m w).0 (m w).1 h k
      where
        by_result :
            (r : Result StartError A) (w' : World)
            → (after f r w').0 ≡ ok b
            → ((a : A) (w' : World) → r ≡ ok a → (f a w').0 ≡ ok b → P)
            → P
        by_result (ok a) w' e go = go a w' refl e
        by_result (err x) w' e go = absurd (cc)

  abbrev pub returned : {A : Type 0} → A → Boot A
  returned a w = (ok a, w)

  -- `RpcClient::new(limit)?`
  abbrev pub new_client : ℕ → Boot RpcClient
  new_client limit w = let (built, w') = new_rpc_client limit w in (ok_or built no_http_client, w')

  unfoldable pub poll_endpoint : Config → Option String → Boot (List Task)
  poll_endpoint config none = returned []
  poll_endpoint config (some url) =
      then_boot (new_client config.request_timeout)
        λ client. returned (poll_reference client url config.reference_slot.poll_interval ∷ [])

  abbrev pub poller_for : ReferenceSource → Config → Boot (List Task)
  poller_for max_observed config = returned []
  poller_for endpoint config = poll_endpoint config config.reference_slot.endpoint

  unfoldable pub spawn_reference_poller : Config → Boot (List Task)
  unfolding poll_endpoint
  spawn_reference_poller config = poller_for config.reference_slot.source config

  abbrev pub spawn_claim_checker : RpcClient → ReferenceCheckConfig → Option ClaimSink → List Task
  spawn_claim_checker client config none = []
  spawn_claim_checker client config (some sink) = check_claims client config sink ∷ []

  abbrev pub spawn_flush : Option (SampleLogger × FlushTask) → List Task
  spawn_flush none = []
  spawn_flush (some (logger, task)) = flush_samples task ∷ []

  abbrev logger_of : Option (SampleLogger × FlushTask) → Option SampleLogger
  logger_of none = none
  logger_of (some (logger, task)) = some logger

  abbrev pub spawn_derive : RpcClient → Option GpaDeriveConfig → List Task
  spawn_derive client none = []
  spawn_derive client (some d) = derive_targets client d ∷ []

  abbrev pub spawn_reference_check :
      RpcClient → ReferenceCheckConfig → Bool → List ProviderEndpoint → List Task
  spawn_reference_check client config enabled endpoints =
      let judged = judged_providers config enabled endpoints in
      if is_empty judged then [] else check_blocks client config judged ∷ []

  abbrev pub spawn_archival_check : RpcClient → List ProviderEndpoint → ℕ → List Task
  spawn_archival_check client endpoints interval =
      if ltb (length endpoints) archival_min_quorum
      then []
      else check_archive client endpoints interval ∷ []

  -- What the tasks share, and the tasks in the order in which they are spawned.
  pub record Started : Type 0 where
    pub board : Board
    pub anchor : ArchivalAnchor
    pub tasks : List Task

  module _ (env : String → Option String) where
    -- The tasks after the poller of the reference slot.
    abbrev pub tasks_for : Plan → RpcClient → RpcClient → List Task
    tasks_for plan client archival =
        spawn_claim_checker client plan.config.reference_check
          (claim_sink plan.config.reference_check plan.config.claim_checks)
        ++ (spawn_flush (from_env env plan.config.region)
            ++ (spawn_derive client plan.gpa_derive
                ++ (map (probe client) (
                      spawn_checks plan.endpoints plan.config.checks plan.config.max_slot_lag
                        plan.config.gpa_targets)
                    ++ (spawn_reference_check client plan.config.reference_check
                          plan.config.claim_checks plan.endpoints
                        ++ (spawn_archival_check archival plan.endpoints
                              plan.config.archival_interval
                            ++ serve plan.config.server.bind ∷ [])))))

    abbrev pub started : Plan → RpcClient → List Task → RpcClient → Started
    started plan client poller archival = record {
      board = record {
        metrics = plan.metrics;
        reference = Slot.new;
        shared = default_shared;
        claims = claim_sink plan.config.reference_check plan.config.claim_checks;
        samples = logger_of (from_env env plan.config.region);
      };
      anchor = record { inner = none };
      tasks = poller ++ tasks_for plan client archival;
    }

    -- `main` from its client on.
    unfoldable pub launch : Plan → Boot Started
    unfolding spawn_reference_poller
    launch plan = then_boot (new_client plan.config.request_timeout) λ client.
        then_boot (spawn_reference_poller plan.config) λ poller.
          then_boot (new_client plan.config.archival_timeout)
            λ archival. returned (started plan client poller archival)

    unfoldable pub main : (String → Option ConfigDocument) → Registry → String → Boot Started
    unfolding prepare launch
    main extract register path = then_boot (λ w. (prepare env extract register path, w)) launch
