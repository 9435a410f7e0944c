-- ===== src/Tests/Storage.antt =====
-- Runs of the settings and of the database of raw_api.rs.
use rpc_latency_monitor.Prelude.{
  ◌≡◌, ◌↔◌, refl, String, Option, none, some, ◌==◌, string_eq, if◌then◌else◌,
}
use rpc_latency_monitor.RawApi.App.{RawApiConfig}
use rpc_latency_monitor.RawApi.Settings.{IsComplete}
use rpc_latency_monitor.RawApi.Settings.Complete.{MadeWell, from_env_iff}
use rpc_latency_monitor.RawApi.Database.{retaining, schema_then_retention}
use rpc_latency_monitor.RawApi.Database.Applied.{History, schema_then_retention-History}
use rpc_latency_monitor.Tests.Api.{server}
use rpc_latency_monitor.Tests.Toy.{toy}

-- One of the two tokens is set.
abbrev settings : String → Option String
settings name =
    if name == "RAW_API_JWT_SECRET"
    then some "secret"
    else if name == "GRAFANA_API_URL"
    then some "https://g//"
    else if name == "GRAFANA_API_TOKEN"
    then some "token"
    else if name == "SAMPLES_DATABASE_URL"
    then some "db"
    else none

from_env_iff_example :
    ((config : RawApiConfig) × MadeWell ⦃c = toy⦄ settings config) ↔ IsComplete ⦃c = toy⦄ settings
from_env_iff_example = from_env_iff ⦃c = toy⦄ settings

schema_then_retention-History_example :
    History ⦃c = toy⦄ server
      (λ w. w)
      (schema_then_retention ⦃c = toy⦄ server (λ w. w) 4 0).0
      4
      0
      (schema_then_retention ⦃c = toy⦄ server (λ w. w) 4 0).1
schema_then_retention-History_example = schema_then_retention-History ⦃c = toy⦄ server (λ w. w) 4 0

-- The third attempt applies the schema.
third : (schema_then_retention ⦃c = toy⦄ server (λ w. w) 3 0).0 ≡ retaining
unfolding schema_then_retention rpc_latency_monitor.RawApi.Database.ensure_schema
    rpc_latency_monitor.RawApi.App.◌>>=◌ rpc_latency_monitor.RawApi.App.named
third = refl
