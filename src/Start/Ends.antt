-- ===== src/Start/Ends.antt =====
-- `main` of src/main.rs comes to an end: no loop over a text runs out of fuel.
use rpc_latency_monitor.Prelude.{
  ℕ, ◌≡◌, ◌≢◌, ap, String, Bool-cases, Option, none, some, [], ◌==◌, string_eq, inl, inr,
}
use rpc_latency_monitor.Prelude.Fallible.{Result, ok, err, ◌>>=◌, ok_or}
use rpc_latency_monitor.Crates.{Crates}
use rpc_latency_monitor.Config.{
  Config, GpaDeriveConfig, ReferenceSlotConfig, ReferenceCheckConfig, ReferenceSource, endpoint,
  max_observed,
}
use rpc_latency_monitor.Config.Load.{ConfigDocument}
use rpc_latency_monitor.Metrics.Families.{Registry}
use rpc_latency_monitor.Providers.{ResolveError, resolve_url}
use rpc_latency_monitor.Providers.Resolved.{Returns, resolve_endpoints-Returns, resolve_url-Returns}
use rpc_latency_monitor.Rpc.Client.{RpcClient, new_rpc_client}
use rpc_latency_monitor.Start.{
  StartError, out_of_fuel, no_http_client, mapped, run_out, Plan, prepare, Boot, then_boot,
  poll_endpoint, poller_for, spawn_reference_poller, launch, main, resolved_derive, resolved_slot,
  resolved_check, new_client, after,
}

err_injective : {A : Type 0} (e f : StartError) → Path (Result StartError A) (err e) (err f) → e ≡ f
err_injective e f h = cc

module _ {A : Type 0} where
  abbrev pub Ends : Result StartError A → Type 0
  Ends r = r ≢ err out_of_fuel

  ok-Ends : (a : A) → Ends (ok a)
  ok-Ends a h = cc

  run_out-Ends : (o : Option (Result ResolveError A)) → Returns o → Ends (run_out o)
  run_out-Ends none (r, e) h = cc
  run_out-Ends (some (ok a)) e h = cc
  run_out-Ends (some (err x)) e h = cc

  mapped-Ends :
      {E : Type 0} (f : E → StartError) (r : Result E A)
      → ((e : E) → f e ≢ out_of_fuel)
      → Ends (mapped f r)
  mapped-Ends f (ok a) other h = cc
  mapped-Ends f (err e) other h = other e (err_injective _ _ h)

module _ {A B : Type 0} where
  bind-Ends :
      (m : Result StartError A) (f : A → Result StartError B)
      → Ends m
      → ((a : A) → Ends (f a))
      → Ends (m >>= f)
  unfolding ◌>>=◌
  bind-Ends (ok a) f h k = k a
  bind-Ends (err e) f h k = λ x. h (ap err (err_injective _ _ x))

module _ ⦃c : Crates⦄ where
  open c use {World}

  module _ {A B : Type 0} where
    then-Ends :
        (m : Boot A) (f : A → Boot B) (w : World)
        → Ends (m w).0
        → ((a : A) (w' : World) → Ends (f a w').0)
        → Ends (then_boot m f w).0
    unfolding then_boot
    then-Ends m f w h k = by_result (m w).0 (m w).1 h
      where
        by_result : (r : Result StartError A) (w' : World) → Ends r → Ends (after f r w').0
        by_result (ok a) w' e = k a w'
        by_result (err x) w' e = λ y. e (ap err (err_injective _ _ y))

  new_client-Ends : (limit : ℕ) (w : World) → Ends (new_client limit w).0
  new_client-Ends limit w = by_built (new_rpc_client limit w).0
    where
      by_built : (o : Option RpcClient) → Ends (ok_or o no_http_client)
      by_built none h = cc
      by_built (some client) h = cc

  module _ (env : String → Option String) where
    resolved_derive-Ends : (o : Option GpaDeriveConfig) → Ends (resolved_derive env o)
    resolved_derive-Ends none = ok-Ends none
    resolved_derive-Ends (some d) =
        bind-Ends _ _ (run_out-Ends _ (resolve_url-Returns env _ d.endpoint)) λ url. ok-Ends _

    resolved_slot-Ends : (r : ReferenceSlotConfig) → Ends (resolved_slot env r)
    resolved_slot-Ends r = by_endpoint r.endpoint
      where
        by_endpoint :
            (o : Option String)
            → Ends (elim o as (λ x. Result StartError ReferenceSlotConfig) [
              | none ↦ ok r
              | some e ↦ run_out (resolve_url env "reference_slot.endpoint" e) >>= λ url.
                  ok (record r { endpoint = some url })
            ])
        by_endpoint none = ok-Ends r
        by_endpoint (some e) =
            bind-Ends _ _ (run_out-Ends _ (resolve_url-Returns env _ e)) λ url. ok-Ends _

    resolved_check-Ends : (r : ReferenceCheckConfig) → Ends (resolved_check env r)
    resolved_check-Ends r = elim (Bool-cases (r.rpc_url == "")) [
      | inl e ↦ rw e (ok-Ends r)
      | inr e ↦
          rw e
            (bind-Ends _ _ (run_out-Ends _ (resolve_url-Returns env _ r.rpc_url)) λ url. ok-Ends _)
    ]

    poll_endpoint-Ends :
        (config : Config) (o : Option String) (w : World) → Ends (poll_endpoint config o w).0
    unfolding poll_endpoint
    poll_endpoint-Ends config none w = ok-Ends []
    poll_endpoint-Ends config (some url) w =
        then-Ends _ _ w (new_client-Ends config.request_timeout w) λ client w'. ok-Ends _

    poller_for-Ends :
        (source : ReferenceSource) (config : Config) (w : World)
        → Ends (poller_for source config w).0
    poller_for-Ends max_observed config w = ok-Ends []
    poller_for-Ends endpoint config w = poll_endpoint-Ends config config.reference_slot.endpoint w

    launch-Ends : (plan : Plan) (w : World) → Ends (launch env plan w).0
    unfolding launch spawn_reference_poller
    launch-Ends plan w =
        then-Ends _ _ w (new_client-Ends plan.config.request_timeout w) λ client w1.
          then-Ends _ _ w1 (poller_for-Ends plan.config.reference_slot.source plan.config w1)
            λ poller w2.
              then-Ends _ _ w2 (new_client-Ends plan.config.archival_timeout w2)
                λ archival w3. ok-Ends _

    module _ (extract : String → Option ConfigDocument) (register : Registry) where
      prepare-Ends : (path : String) → Ends (prepare env extract register path)
      unfolding prepare
      prepare-Ends path = bind-Ends _ _ (mapped-Ends _ _ (λ e h. cc)) λ config.
          bind-Ends _ _ (mapped-Ends _ _ (λ e h. cc)) λ known.
            bind-Ends _ _
              (run_out-Ends _ (resolve_endpoints-Returns env config.providers config.region))
              λ endpoints. bind-Ends _ _ (resolved_derive-Ends config.gpa_derive) λ derive.
                bind-Ends _ _ (resolved_slot-Ends config.reference_slot) λ slot.
                  bind-Ends _ _ (resolved_check-Ends config.reference_check)
                    λ check. bind-Ends _ _ (mapped-Ends _ _ (λ e h. cc)) λ metrics. ok-Ends _

      -- `main` never runs out of fuel: the loop of `substitute` ends on every url, whatever it
      -- contains, so that `main` starts or has an error of the code.
      pub main-Ends :
          (path : String) (w : World) → (main env extract register path w).0 ≢ err out_of_fuel
      unfolding main
      main-Ends path w = then-Ends _ _ w (prepare-Ends path) λ plan w1. launch-Ends plan w1
