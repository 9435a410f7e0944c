-- ===== src/Start/Wired.antt =====
-- The provider threads among the tasks that `main` of src/main.rs starts.
use mathlib.Core.Path.{subst}
use rpc_latency_monitor.Prelude.{
  ℕ, ◌≡◌, refl, sym, ap, ◌∙◌, String, Bool, true, false, Option, none, some, List, [], ◌∷◌, ◌++◌,
  map, keep, Elem, elem_keep, elem_map, Distinct, ◌<>◌, if◌then◌else◌,
}
use rpc_latency_monitor.Prelude.Fallible.{Result, ok, err, ok_injective}
use rpc_latency_monitor.Crates.{Crates}
use rpc_latency_monitor.Config.{
  Config, ReferenceSource, CheckConfig, ProviderConfig, endpoint, max_observed,
  ReferenceCheckConfig, GpaDeriveConfig,
}
use rpc_latency_monitor.Target.{GpaTarget}
use rpc_latency_monitor.Config.Valid.{names_of}
use rpc_latency_monitor.Providers.{ProviderEndpoint, ResolveError}
use rpc_latency_monitor.ReferenceCheck.Sink.{ClaimSink}
use rpc_latency_monitor.ReferenceCheck.Tick.{claim_sink}
use rpc_latency_monitor.Rpc.Client.{RpcClient}
use rpc_latency_monitor.SampleLog.{SampleLogger}
use rpc_latency_monitor.SampleLog.Opened.{FlushTask, from_env}
use rpc_latency_monitor.Scheduler.Spawn.{ProviderThread, spawn_checks}
use rpc_latency_monitor.Start.{
  StartError, mapped, run_out, Plan, Task, poll_reference, check_claims, flush_samples,
  derive_targets, probe, check_blocks, check_archive, serve, boot_ok, poll_endpoint, poller_for,
  spawn_reference_poller, spawn_claim_checker, spawn_flush, spawn_derive, spawn_reference_check,
  spawn_archival_check, Started, tasks_for, started, launch,
}
use rpc_latency_monitor.Start.Probes.{thread_names, endpoint_names, names_of_threads}

pub mapped_ok :
    {A E : Type 0} (f : E → StartError) (r : Result E A) (a : A) → mapped f r ≡ ok a → r ≡ ok a
mapped_ok f (ok b) a h = cc
mapped_ok f (err e) a h = cc

pub run_out_ok :
    {A : Type 0} (o : Option (Result ResolveError A)) (a : A) → run_out o ≡ ok a → o ≡ some (ok a)
run_out_ok none a h = cc
run_out_ok (some r) a h = ap some (mapped_ok _ r a h)

-- Distinct names stay so for some of the providers, and with one more word before each.
pub keep-Distinct :
    (p : ProviderConfig → Bool) (ps : List ProviderConfig)
    → Distinct (names_of ps)
    → Distinct (names_of (keep p ps))
keep-Distinct p [] d = tt
keep-Distinct p (x ∷ xs) (fresh, d) = by_test (p x) (keep-Distinct p xs d)
  where
    still : Elem x.name (names_of (keep p xs)) → Elem x.name (names_of xs)
    still e =
        let (q, m, same) = (elem_map (λ (y : ProviderConfig). y.name) x.name (keep p xs)).0 e in
        (elem_map (λ (y : ProviderConfig). y.name) x.name xs).1
          (q, ((elem_keep p q xs).0 m).0, same)

    by_test :
        (b : Bool)
        → Distinct (names_of (keep p xs))
        → Distinct (names_of (if b then x ∷ keep p xs else keep p xs))
    by_test true rest = ((λ e. fresh (still e)), rest)
    by_test false rest = rest

tail_of : String → String
tail_of String.[] = ""
tail_of (String.◌∷◌ c s) = s

unprefix : (p s t : String) → p <> s ≡ p <> t → s ≡ t
unfolding tail_of
unprefix String.[] s t e = e
unprefix (String.◌∷◌ c p) s t e = unprefix p s t (ap tail_of e)

prefix-Distinct :
    (names : List String) → Distinct names → Distinct (map (λ s. "checks-" <> s) names)
prefix-Distinct [] d = tt
prefix-Distinct (n ∷ ns) (fresh, d) = (
  λ e.
      let (m, found, same) = (elem_map (λ s. "checks-" <> s) ("checks-" <> n) ns).0 e in
      fresh (subst (λ x. Elem x ns) (sym (unprefix "checks-" n m same)) found),
  prefix-Distinct ns d,
)

-- The names of the threads, from those of the providers.
pub thread_names-Distinct :
    (checks : List CheckConfig) (lag : ℕ) (targets : List GpaTarget) (ps : List ProviderEndpoint)
    → Distinct (endpoint_names ps)
    → Distinct (thread_names (spawn_checks ps checks lag targets))
thread_names-Distinct checks lag targets ps d =
    subst Distinct (sym (names_of_threads checks lag targets ps ∙ prefixed ps))
      (prefix-Distinct (endpoint_names ps) d)
  where
    prefixed :
        (ps : List ProviderEndpoint)
        → map (λ (p : ProviderEndpoint). "checks-" <> p.name) ps
          ≡ map (λ s. "checks-" <> s) (endpoint_names ps)
    prefixed [] = refl
    prefixed (p ∷ ps) = ap (λ names. ("checks-" <> p.name) ∷ names) (prefixed ps)

module _ ⦃c : Crates⦄ where
  open c use {World}

  -- The provider threads among the tasks.
  abbrev pub threads_of : List Task → List ProviderThread
  threads_of [] = []
  threads_of (probe client thread ∷ ts) = thread ∷ threads_of ts
  threads_of (t ∷ ts) = threads_of ts

  threads_of-append : (xs ys : List Task) → threads_of (xs ++ ys) ≡ threads_of xs ++ threads_of ys
  threads_of-append [] ys = refl
  threads_of-append (probe client thread ∷ xs) ys = ap (λ ts. thread ∷ ts) (threads_of-append xs ys)
  threads_of-append (poll_reference client url n ∷ xs) ys = threads_of-append xs ys
  threads_of-append (check_claims client config sink ∷ xs) ys = threads_of-append xs ys
  threads_of-append (flush_samples task ∷ xs) ys = threads_of-append xs ys
  threads_of-append (derive_targets client d ∷ xs) ys = threads_of-append xs ys
  threads_of-append (check_blocks client config ps ∷ xs) ys = threads_of-append xs ys
  threads_of-append (check_archive client ps n ∷ xs) ys = threads_of-append xs ys
  threads_of-append (serve bind ∷ xs) ys = threads_of-append xs ys

  after_none : (xs ys : List Task) → threads_of xs ≡ [] → threads_of (xs ++ ys) ≡ threads_of ys
  after_none xs ys h = threads_of-append xs ys ∙ ap (λ ts. ts ++ threads_of ys) h

  only_threads :
      (client : RpcClient) (threads : List ProviderThread) (ys : List Task)
      → threads_of ys ≡ []
      → threads_of (map (probe client) threads ++ ys) ≡ threads
  only_threads client [] ys h = h
  only_threads client (t ∷ ts) ys h = ap (λ rest. t ∷ rest) (only_threads client ts ys h)

  claims_none :
      (client : RpcClient) (config : ReferenceCheckConfig) (o : Option ClaimSink)
      → threads_of (spawn_claim_checker client config o) ≡ []
  claims_none client config none = refl
  claims_none client config (some sink) = refl

  flush_none : (o : Option (SampleLogger × FlushTask)) → threads_of (spawn_flush o) ≡ []
  flush_none none = refl
  flush_none (some (logger, task)) = refl

  derive_none :
      (client : RpcClient) (o : Option GpaDeriveConfig) → threads_of (spawn_derive client o) ≡ []
  derive_none client none = refl
  derive_none client (some d) = refl

  if_none :
      (b : Bool) (t : Task) → threads_of (t ∷ []) ≡ [] → threads_of (if b then [] else t ∷ []) ≡ []
  if_none true t h = refl
  if_none false t h = h

  arranged :
      (client : RpcClient) (claims flushes derives : List Task) (threads : List ProviderThread)
      (blocks archive : List Task) (bind : String)
      → threads_of claims ≡ []
      → threads_of flushes ≡ []
      → threads_of derives ≡ []
      → threads_of blocks ≡ []
      → threads_of archive ≡ []
      → threads_of (
          claims
          ++ (flushes
              ++ (derives
                  ++ (map (probe client) threads ++ (blocks ++ (archive ++ serve bind ∷ []))))))
        ≡ threads
  arranged client claims flushes derives threads blocks archive bind h1 h2 h3 h4 h5 =
      let last = archive ++ serve bind ∷ [] in
      let later = map (probe client) threads ++ (blocks ++ last) in
      after_none claims (flushes ++ (derives ++ later)) h1
      ∙ after_none flushes (derives ++ later) h2
      ∙ after_none derives later h3
      ∙ only_threads client threads (blocks ++ last)
          (after_none blocks last h4 ∙ after_none archive (serve bind ∷ []) h5)

  endpoint_none :
      (config : Config) (o : Option String) (w : World) (poller : List Task)
      → (poll_endpoint config o w).0 ≡ ok poller
      → threads_of poller ≡ []
  unfolding poll_endpoint
  endpoint_none config none w poller h = ap threads_of (sym (ok_injective _ _ h))
  endpoint_none config (some url) w poller h =
      boot_ok _ _ w poller h λ client w' built same. ap threads_of (sym (ok_injective _ _ same))

  source_none :
      (source : ReferenceSource) (config : Config) (w : World) (poller : List Task)
      → (poller_for source config w).0 ≡ ok poller
      → threads_of poller ≡ []
  source_none max_observed config w poller h = ap threads_of (sym (ok_injective _ _ h))
  source_none endpoint config w poller h =
      endpoint_none config config.reference_slot.endpoint w poller h

  poller_none :
      (config : Config) (w : World) (poller : List Task)
      → (spawn_reference_poller config w).0 ≡ ok poller
      → threads_of poller ≡ []
  unfolding spawn_reference_poller
  poller_none config w poller h = source_none config.reference_slot.source config w poller h

  module _ (env : String → Option String) where
    -- The threads that `main` starts are those of `spawn_checks`.
    threads_of-started :
        (plan : Plan) (client : RpcClient) (poller : List Task) (archival : RpcClient)
        → threads_of poller ≡ []
        → threads_of (started env plan client poller archival).tasks
          ≡ spawn_checks plan.endpoints plan.config.checks plan.config.max_slot_lag
              plan.config.gpa_targets
    threads_of-started plan client poller archival h =
        let config = plan.config in
        let claims = claim_sink config.reference_check config.claim_checks in
        after_none poller (tasks_for env plan client archival) h
        ∙ arranged client (spawn_claim_checker client config.reference_check claims)
            (spawn_flush (from_env env config.region)) (spawn_derive client plan.gpa_derive)
            (spawn_checks plan.endpoints config.checks config.max_slot_lag config.gpa_targets)
            (spawn_reference_check client config.reference_check config.claim_checks plan.endpoints)
            (spawn_archival_check archival plan.endpoints config.archival_interval)
            config.server.bind (claims_none client config.reference_check claims)
            (flush_none (from_env env config.region)) (derive_none client plan.gpa_derive)
            (if_none _ _ refl) (if_none _ _ refl)

    pub launch_ok :
        (plan : Plan) (w : World) (s : Started)
        → (launch env plan w).0 ≡ ok s
        → threads_of s.tasks
          ≡ spawn_checks plan.endpoints plan.config.checks plan.config.max_slot_lag
              plan.config.gpa_targets
    unfolding launch
    launch_ok plan w s h = boot_ok _ _ w s h λ client w1 e1 h1.
        boot_ok _ _ w1 s h1 λ poller w2 e2 h2. boot_ok _ _ w2 s h2 λ archival w3 e3 h3.
          ap (λ (x : Started). threads_of x.tasks) (sym (ok_injective _ _ h3))
          ∙ threads_of-started plan client poller archival (poller_none plan.config w1 poller e2)
