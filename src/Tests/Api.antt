-- ===== src/Tests/Api.antt =====
-- Runs of the modules about the raw API: raw_api.rs.
use mathlib.Core.Option.{some-injective}
use rpc_latency_monitor.Prelude.{
  All, ◌≡◌, ◌≢◌, ◌⊎◌, ◌↔◌, inl, inr, refl, ℕ, suc, ◌+◌, ◌-◌, ◌*◌, ◌/◌, ◌≤◌, ◌<◌, String, Bool, true,
  false, Option, none, some, List, [], ◌∷◌, ◌++◌, map, Elem, All, ap, texts_differ, arith, lookup,
  leb, string_eq, nat_eq, ◌<>◌, decimal, ==_iff,
}
use rpc_latency_monitor.Prelude.Fallible.{ok, ◌>>=◌}
use rpc_latency_monitor.RawApi.App.{AppState, max_upstream_concurrency}
use rpc_latency_monitor.RawApi.Csv.{to_csv, csv_rows}
use rpc_latency_monitor.RawApi.Csv.Reader.{read_csv}
use rpc_latency_monitor.RawApi.Csv.RoundTrip.{HasNoReturn, read_csv-to_csv}
use rpc_latency_monitor.RawApi.Handler.{admit, release, inserted, ingest_handler}
use rpc_latency_monitor.RawApi.Handler.Admitted.{
  IsAdmitted, admit-IsAdmitted, Serves, starts, comes, ends, permits-Serves,
}
use rpc_latency_monitor.RawApi.Handler.Ingested.{IsIngest, Refused, ingest_handler-checked}
use rpc_latency_monitor.RawApi.Prom.{PromResponse, run_query}
use rpc_latency_monitor.RawApi.Prom.Handled.{IsHandled, run_query-IsHandled}
use rpc_latency_monitor.RawApi.Query.{QueryError, RawQuery, Params, parse_query}
use rpc_latency_monitor.RawApi.Query.Valid.{IsValidQuery, parse_query-IsValidQuery}
use rpc_latency_monitor.RawApi.RateLimit.{RateWindows, take_rate_limit_slot}
use rpc_latency_monitor.RawApi.RateLimit.Retry.{take_all, take_rate_limit_slot-retry}
use rpc_latency_monitor.RawApi.RateLimit.Windows.{
  admissions, within, take_rate_limit_slot-admissions,
}
use rpc_latency_monitor.RawApi.Samples.{
  IngestRow, insert_samples, samples_statement, select_samples,
}
use rpc_latency_monitor.RawApi.Samples.Placeholders.{
  columns, conditions, asked, texts, samples_statement-placeholders,
}
use rpc_latency_monitor.RawApi.Selector.{build_selector}
use rpc_latency_monitor.RawApi.Selector.Reader.{read_selector}
use rpc_latency_monitor.RawApi.Selector.Injection.{all_asked, build_selector-reads}
use rpc_latency_monitor.RawApi.Token.{verify_token}
use rpc_latency_monitor.RawApi.Token.Signed.{IsToken, verify_token_iff}
use rpc_latency_monitor.RawApi.WinRate.{winners_of}
use rpc_latency_monitor.RawApi.WinRate.Fastest.{at_time, winners_of-least}
use rpc_latency_monitor.Tests.Toy.{toy, Json}

-- One series with a comma in its label.
abbrev series : List Json
series =
    Json.field "labels" (Json.field "provider" (Json.text "a,\"b\"") Json.end) (
      Json.field "points"
        (Json.item (Json.item (Json.number 1) (Json.item (Json.number 2) Json.end)) Json.end)
        Json.end)
    ∷ []

series-HasNoReturn : All HasNoReturn (csv_rows ⦃c = toy⦄ series)
unfolding csv_rows
series-HasNoReturn = ((refl, (refl, (refl, tt))), ((refl, (refl, (refl, tt))), tt))

read_csv-to_csv_example : read_csv (to_csv ⦃c = toy⦄ series) ≡ some (csv_rows ⦃c = toy⦄ series)
read_csv-to_csv_example = read_csv-to_csv ⦃c = toy⦄ series series-HasNoReturn

abbrev full : RateWindows
full = ("fleet", (1000000000, 60)) ∷ []

take_rate_limit_slot-retry_example :
    (0 < 40)
    × (40 ≤ 60)
    × ((take_rate_limit_slot 61500000000 "fleet" (
          take_all ((30000000000, "web") ∷ []) (take_rate_limit_slot 21500000000 "fleet" full).1)).0
        ≡ none)
unfolding take_rate_limit_slot
take_rate_limit_slot-retry_example =
    take_rate_limit_slot-retry 21500000000 61500000000 40 "fleet" full ((30000000000, "web") ∷ [])
      refl
      (λ start count known.
        omega
          (arith, ap (λ (w : ℕ × ℕ). w.0) (some-injective (1000000000, 60) (start, count) known)))
      (texts_differ "web" "fleet" refl, tt) (omega arith)

abbrev requests : List (ℕ × String)
requests = (1000000000, "fleet") ∷ (2000000000, "web") ∷ (62000000000, "fleet") ∷ []

take_rate_limit_slot-admissions_example : within 1500000000 (admissions "fleet" requests []) ≤ 120
take_rate_limit_slot-admissions_example =
    take_rate_limit_slot-admissions requests "fleet" 1500000000
      (omega arith, (omega arith, (omega arith, tt)))

abbrev pub params : Params
params =
    ("provider", "acme")
    ∷ ("infra", "aws")
    ∷ ("region", "eu-1")
    ∷ ("start", "1000")
    ∷ ("end", "9000")
    ∷ ("q", "0.5,0.99,0.5")
    ∷ ("format", "csv")
    ∷ []

abbrev pub query : RawQuery
query = record {
  template = "latency";
  provider = some "acme";
  method = none;
  infra = some "aws";
  region = some "eu-1";
  status = none;
  start = 1000;
  end = 9000;
  step = 60;
  quantiles = "0.5" ∷ "0.99" ∷ [];
  by = "status";
  format = "csv";
  limit = 1000;
}

pub read : parse_query ⦃c = toy⦄ 50000 "latency" params ≡ ok query
unfolding parse_query ◌>>=◌
read = refl

parse_query-IsValidQuery_example : IsValidQuery query
parse_query-IsValidQuery_example =
    parse_query-IsValidQuery ⦃c = toy⦄ 50000 "latency" params query read

abbrev success : List (String × String)
success = ("status", "success") ∷ []

build_selector-reads_example :
    read_selector (build_selector query ("status=\"success\"" ∷ []))
    ≡ some (all_asked query success)
build_selector-reads_example =
    build_selector-reads ⦃c = toy⦄ 50000 "latency" params query success read
      ((refl, refl, refl), tt)

verify_token_iff_example :
    (verify_token ⦃c = toy⦄ 3000000000 "head.body.sign" "secret" ≡ some "fleet")
    ↔ IsToken ⦃c = toy⦄ 3000000000 "head.body.sign" "secret" "fleet"
verify_token_iff_example = verify_token_iff ⦃c = toy⦄ 3000000000 "head.body.sign" "secret" "fleet"

abbrev points : List (String × ℕ × ℕ)
points = ("p", 1, 7) ∷ ("q", 1, 4) ∷ ("q", 2, 9) ∷ ("r", 1, 4) ∷ []

winners_of-least_example :
    (q : String) × (w : ℕ) × (lookup 1 (winners_of ⦃c = toy⦄ points []) ≡ some (q, w))
    × (leb w 7 ≡ true)
    × Elem (q, w) (at_time ⦃c = toy⦄ 1 points)
winners_of-least_example =
    winners_of-least ⦃c = toy⦄ (λ a b n m h. ground arith) (λ a b d n m l h k. ground arith) 1
      points ("p", 7) (refl, (refl, (refl, (refl, tt)))) (inl refl)

samples_statement-placeholders_example :
    ((samples_statement ⦃c = toy⦄ query).sql
      ≡ select_samples ⦃c = toy⦄
        <> conditions 3 (asked (columns ⦃c = toy⦄ query))
        <> " ORDER BY ts DESC LIMIT "
        <> decimal 1000)
    × ((samples_statement ⦃c = toy⦄ query).params
        ≡ Json.number 1000 ∷ Json.number 9000 ∷ texts ⦃c = toy⦄ (asked (columns ⦃c = toy⦄ query)))
samples_statement-placeholders_example = samples_statement-placeholders ⦃c = toy⦄ query

abbrev pub server : AppState ⦃c = toy⦄
server = record {
  config = record {
    bind = "0.0.0.0:8080";
    jwt_secret = "secret";
    grafana_url = "grafana";
    grafana_token = "token";
    datasource_uid = "prom";
    database_url = "db";
  };
  http = 0;
  windows = [];
  permits = 8;
}

abbrev message : QueryError → String
message e = "error"

abbrev bearer : String
bearer = "Bearer head.body.sign"

abbrev busy : AppState ⦃c = toy⦄
busy = record server { windows = ("fleet", (3000000000, 1)) ∷ []; permits = 7 }

admit-IsAdmitted_example :
    IsAdmitted ⦃c = toy⦄ message "latency" (some bearer) params 3000000000 server busy query
unfolding admit parse_query verify_token take_rate_limit_slot ◌>>=◌
    rpc_latency_monitor.Prelude.Steps.◌>>=◌
admit-IsAdmitted_example =
    admit-IsAdmitted ⦃c = toy⦄ message "latency" (some bearer) params 3000000000 server busy query
      refl

-- A request that gets a permit and one that has no token; then the first ends.
served : Serves ⦃c = toy⦄ message server (release ⦃c = toy⦄ busy) 0
unfolding admit parse_query verify_token take_rate_limit_slot ◌>>=◌
    rpc_latency_monitor.Prelude.Steps.◌>>=◌
served = ends (
    comes "latency" none params 3000000000 (comes "latency" (some bearer) params 3000000000 starts))

permits-Serves_example :
    ((release ⦃c = toy⦄ busy).permits + 0 ≡ max_upstream_concurrency)
    × (0 ≤ max_upstream_concurrency)
permits-Serves_example =
    permits-Serves ⦃c = toy⦄ message server (release ⦃c = toy⦄ busy) 0 refl served

abbrev row : IngestRow ⦃c = toy⦄
row = record {
  ts = 1;
  provider = "acme";
  method = "getSlot";
  infra = "aws";
  region = "eu-1";
  target = "";
  status = "success";
  error_kind = "none";
  latency_ms = 12;
  slot = some 7;
  endpoint_ip = none;
}

ingest_handler-checked_example :
    (IsIngest ⦃c = toy⦄ (some bearer) (row ∷ []) server 3000000000
      × (ingest_handler ⦃c = toy⦄ (some bearer) (row ∷ []) server 3000000000
          ≡ inserted ⦃c = toy⦄ (insert_samples ⦃c = toy⦄ server (row ∷ []) 3000000000)))
    ⊎ Refused ⦃c = toy⦄ 3000000000
        (ingest_handler ⦃c = toy⦄ (some bearer) (row ∷ []) server 3000000000)
ingest_handler-checked_example =
    ingest_handler-checked ⦃c = toy⦄ (some bearer) (row ∷ []) server 3000000000

abbrev decode : List ℕ → Option (PromResponse ⦃c = toy⦄)
decode bytes = some (record { status = "success"; result = some []; error = none })

run_query-IsHandled_example : IsHandled (run_query ⦃c = toy⦄ decode server query 0).0
run_query-IsHandled_example =
    run_query-IsHandled ⦃c = toy⦄ decode server query 0 parse_query-IsValidQuery_example
      (texts_differ "latency" "samples" refl)
