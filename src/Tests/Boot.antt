-- ===== src/Tests/Boot.antt =====
-- Runs of main.rs.
use rpc_latency_monitor.Prelude.{
  ℕ, ◌≡◌, ◌≢◌, refl, String, true, Option, none, some, [], ◌∷◌, ◌==◌, string_eq, if◌then◌else◌,
}
use rpc_latency_monitor.Prelude.Fallible.{ok, err, ◌>>=◌}
use rpc_latency_monitor.Method.{get_slot, get_block_archival}
use rpc_latency_monitor.Config.{Config, endpoint, validate}
use rpc_latency_monitor.Config.Load.{ConfigDocument, filled, load}
use rpc_latency_monitor.Metrics.{new}
use rpc_latency_monitor.Providers.{
  geo_for, validate_geos, resolve_endpoints, resolve_url, substitute,
}
use rpc_latency_monitor.Metrics.Families.{Registry, new_metrics}
use rpc_latency_monitor.Rpc.Client.{RpcClient, new_rpc_client}
use rpc_latency_monitor.ReferenceCheck.Tick.{claim_sink}
use rpc_latency_monitor.SampleLog.Opened.{from_env}
use rpc_latency_monitor.Start.{
  out_of_fuel, Plan, poll_reference, Started, then_boot, prepare, started, spawn_reference_poller,
  launch, main,
}
use rpc_latency_monitor.Start.Running.{IsRunning, main-IsRunning}
use rpc_latency_monitor.Start.Ends.{main-Ends}
use rpc_latency_monitor.Tests.Toy.{toy}

-- Two providers, of which one serves Europe only, and a check that the archival round makes.
abbrev document : ConfigDocument
document = record {
  region = "fra";
  server = record { bind = "0.0.0.0:9090" };
  reference_slot =
      some (record { source = endpoint; endpoint = some "https://n/${KEY}"; poll_interval = none });
  providers =
      record { name = "p"; url = "https://p/${KEY}"; geos = none; region_urls = none }
      ∷ record { name = "q"; url = "u"; geos = some ("us-east" ∷ []); region_urls = none }
      ∷ [];
  checks =
      record { method = get_slot; interval = 1; jitter = none; timeout = none }
      ∷ record { method = get_block_archival; interval = 1; jitter = none; timeout = none }
      ∷ [];
  gpa_targets = some [];
  gpa_derive = none;
  request_timeout = none;
  archival_interval = none;
  archival_timeout = none;
  max_slot_lag = none;
  reference_check = none;
  claim_checks = some true;
}

abbrev environment : String → Option String
environment name = if name == "KEY" then some "k1" else none

abbrev files : String → Option ConfigDocument
files path = if path == "config.yaml" then some document else none

abbrev accepts : Registry
accepts labels families = ok tt

abbrev plan : Plan
plan = record {
  config = record (filled document) {
    reference_slot = record {
      source = endpoint;
      endpoint = some "https://n/k1";
      poll_interval = 1000000000;
    };
  };
  endpoints = record { name = "p"; url = "https://p/k1" } ∷ [];
  gpa_derive = none;
  metrics = new;
}

abbrev client_of : ℕ → RpcClient ⦃c = toy⦄
client_of limit = record { request_timeout = limit; fallback = limit; clients = []; next_id = 1 }

abbrev running : Started ⦃c = toy⦄
running =
    started ⦃c = toy⦄ environment plan (client_of 10000000000)
      (poll_reference (client_of 10000000000) "https://n/k1" 1000000000 ∷ [])
      (client_of 30000000000)

main-IsRunning_example :
    (config : Config) × (load ⦃c = toy⦄ files "config.yaml" ≡ ok config)
    × (IsRunning ⦃c = toy⦄ environment config running)
unfolding main launch prepare load validate validate_geos resolve_endpoints resolve_url substitute
    new_metrics spawn_reference_poller new_rpc_client from_env claim_sink ◌>>=◌ then_boot geo_for
main-IsRunning_example =
    main-IsRunning ⦃c = toy⦄ environment files accepts "config.yaml" 0 running refl

main-Ends_example : (main ⦃c = toy⦄ environment files accepts "config.yaml" 0).0 ≢ err out_of_fuel
main-Ends_example = main-Ends ⦃c = toy⦄ environment files accepts "config.yaml" 0
