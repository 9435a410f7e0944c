-- ===== src/Start/Running.antt =====
-- What runs when `main` of src/main.rs has started.
use mathlib.Core.Path.{subst}
use rpc_latency_monitor.Prelude.{
  ◌≡◌, refl, sym, ap, ◌∙◌, String, true, Option, none, some, Elem, Distinct,
}
use rpc_latency_monitor.Prelude.Fallible.{ok, bind_ok, ok_injective}
use rpc_latency_monitor.Crates.{Crates}
use rpc_latency_monitor.Config.{Config, Checked, bail, CheckConfig, ProviderConfig, validate}
use rpc_latency_monitor.Config.Valid.{IsValid, validate-IsValid}
use rpc_latency_monitor.Config.Load.{ConfigDocument, filled, validated, extracted, load}
use rpc_latency_monitor.Metrics.Families.{Registry}
use rpc_latency_monitor.Providers.{serves_region, substitute}
use rpc_latency_monitor.Providers.Resolved.{IsResolution, url_in, resolve_endpoints-IsResolution}
use rpc_latency_monitor.Scheduler.{CheckTask}
use rpc_latency_monitor.Scheduler.Spawn.{check_task, spawn_checks}
use rpc_latency_monitor.Start.{Plan, Started, boot_ok, prepare, main}
use rpc_latency_monitor.Start.Probes.{IsProbed, tasks_of, thread_names, tasks_iff}
use rpc_latency_monitor.Start.Wired.{
  mapped_ok, run_out_ok, keep-Distinct, thread_names-Distinct, threads_of, launch_ok,
}

module _ ⦃c : Crates⦄ where
  open c use {World}

  load-IsValid :
      (extract : String → Option ConfigDocument) (path : String) (config : Config)
      → load extract path ≡ ok config
      → IsValid config
  unfolding load
  load-IsValid extract path config h = by_document (extract path) h
    where
      by_check :
          (made : Config) (checked : Checked)
          → validate made ≡ checked
          → validated made checked ≡ ok config
          → IsValid config
      by_check made Checked.ok e same =
          subst IsValid (ok_injective made config same) (validate-IsValid made e)
      by_check made (bail x) e same = cc

      by_document :
          (o : Option ConfigDocument) → extracted extract path o ≡ ok config → IsValid config
      by_document none e = cc
      by_document (some d) e = by_check (filled d) (validate (filled d)) refl e

  module _ (env : String → Option String) where
    -- A task for a check of a provider: its name, the url for the region with the placeholders
    -- filled, and the check.
    abbrev pub Probes : Config → ProviderConfig → CheckConfig → CheckTask → Type 0
    Probes config p k t =
        (t.provider ≡ p.name)
        × (substitute env (url_in env p config.region) ≡ some (ok t.url))
        × (t.check ≡ k)

    -- What has been started, for a configuration.
    pub record IsRunning (config : Config) (s : Started) : Type 0 where
      pub valid : IsValid config
      pub threads : Distinct (thread_names (threads_of s.tasks))
      pub sound :
          (t : CheckTask)
          → Elem t (tasks_of (threads_of s.tasks))
          → (p : ProviderConfig) × (k : CheckConfig) × Elem p config.providers
            × (serves_region p config.region ≡ true)
            × Elem k config.checks
            × (IsProbed k.method)
            × (Probes config p k t)
      pub complete :
          (p : ProviderConfig) (k : CheckConfig)
          → Elem p config.providers
          → serves_region p config.region ≡ true
          → Elem k config.checks
          → IsProbed k.method
          → (t : CheckTask) × Elem t (tasks_of (threads_of s.tasks)) × (Probes config p k t)

    -- The plan keeps the checks and the providers of the configuration.
    record IsPlan (config : Config) (plan : Plan) : Type 0 where
      checks : plan.config.checks ≡ config.checks
      resolution : IsResolution env config.region config.providers plan.endpoints

    module _ (extract : String → Option ConfigDocument) (register : Registry) where
      prepare-IsPlan :
          (path : String) (plan : Plan)
          → prepare env extract register path ≡ ok plan
          → (config : Config) × (load extract path ≡ ok config) × (IsPlan config plan)
      unfolding prepare
      prepare-IsPlan path plan h = bind_ok _ _ _ h λ config loaded h1.
          bind_ok _ _ _ h1 λ known geos h2. bind_ok _ _ _ h2 λ endpoints resolved h3.
            bind_ok _ _ _ h3 λ derive e4 h4. bind_ok _ _ _ h4 λ slot e5 h5.
              bind_ok _ _ _ h5 λ check e6 h6. bind_ok _ _ _ h6 λ metrics e7 h7.
                let same = ok_injective _ _ h7 in
                (
                  config,
                  mapped_ok _ _ _ loaded,
                  record {
                    checks = ap (λ (x : Plan). x.config.checks) (sym same);
                    resolution =
                        subst
                          (λ (x : Plan).
                            IsResolution env config.region config.providers x.endpoints)
                          same
                          (resolve_endpoints-IsResolution env config.region config.providers
                            endpoints (run_out_ok _ _ resolved));
                  },
                )

      module _ (plan : Plan) (config : Config) (planned : IsPlan config plan) (s : Started)
          (threads : threads_of s.tasks
            ≡ spawn_checks plan.endpoints plan.config.checks plan.config.max_slot_lag
                plan.config.gpa_targets) where
        Probes-sound :
            (t : CheckTask)
            → Elem t (tasks_of (threads_of s.tasks))
            → (p : ProviderConfig) × (k : CheckConfig) × Elem p config.providers
              × (serves_region p config.region ≡ true)
              × Elem k config.checks
              × (IsProbed k.method)
              × (Probes config p k t)
        Probes-sound t m =
            let (e, found, (k, listed, scheduled, same)) =
              (tasks_iff plan.config.checks plan.config.max_slot_lag plan.config.gpa_targets
                  plan.endpoints t).0
                (subst (λ ts. Elem t (tasks_of ts)) threads m) in
            let (p, member, serves, (name, url)) = planned.resolution.sound e found in
            (
              p,
              k,
              member,
              serves,
              subst (λ ks. Elem k ks) planned.checks listed,
              scheduled,
              (
                ap (λ (x : CheckTask). x.provider) same ∙ name,
                url ∙ ap (λ (x : CheckTask). some (ok x.url)) (sym same),
                ap (λ (x : CheckTask). x.check) same,
              ),
            )

        Probes-complete :
            (p : ProviderConfig) (k : CheckConfig)
            → Elem p config.providers
            → serves_region p config.region ≡ true
            → Elem k config.checks
            → IsProbed k.method
            → (t : CheckTask) × Elem t (tasks_of (threads_of s.tasks)) × (Probes config p k t)
        Probes-complete p k member serves listed scheduled =
            let (e, found, (name, url)) = planned.resolution.complete p member serves in
            let t = check_task plan.config.max_slot_lag plan.config.gpa_targets e k in
            let started =
              (tasks_iff plan.config.checks plan.config.max_slot_lag plan.config.gpa_targets
                  plan.endpoints t).1
                (
                  e,
                  found,
                  (k, subst (λ ks. Elem k ks) (sym planned.checks) listed, scheduled, refl),
                ) in
            (t, subst (λ ts. Elem t (tasks_of ts)) (sym threads) started, (name, url, refl))

      -- If `main` starts, its configuration is one that `load` gives and is valid; the provider
      -- threads have different names; every probe is that of a configured provider that serves the
      -- region, at its url for the region with all placeholders filled, and of a configured check
      -- whose method is not one of the archival round; and every such provider has a probe for
      -- every such check.
      pub main-IsRunning :
          (path : String) (w : World) (s : Started)
          → (main env extract register path w).0 ≡ ok s
          → (config : Config) × (load extract path ≡ ok config) × (IsRunning config s)
      unfolding main
      main-IsRunning path w s h = boot_ok _ _ w s h λ plan w1 prepared h1.
          let (config, loaded, planned) = prepare-IsPlan path plan prepared in
          let threads = launch_ok env plan w1 s h1 in
          let valid = load-IsValid extract path config loaded in
          (
            config,
            loaded,
            record {
              valid = valid;
              threads =
                  subst (λ ts. Distinct (thread_names ts)) (sym threads)
                    (thread_names-Distinct _ _ _ plan.endpoints (
                      subst Distinct (sym planned.resolution.names)
                        (keep-Distinct _ config.providers valid.distinct_providers)));
              sound = Probes-sound plan config planned s threads;
              complete = Probes-complete plan config planned s threads;
            },
          )
