-- ===== src/RawApi/Handler.antt =====
-- `raw_handler` and `ingest_handler` of src/raw_api.rs. The permit of `raw_handler` is taken by
-- `admit` and given back by `release`, and other requests may come between them.
pub mod Admitted
pub mod Ingested
use rpc_latency_monitor.Prelude.{
  ℕ, zero, suc, ◌/◌, String, Bool, true, false, not, ◌&&◌, ◌||◌, Option, none, some, List, [], ◌∷◌,
  ◌==◌, string_eq, any, is_empty, leb, ltb, length, strip_prefix, trim, decimal, is_blank_text,
  if◌then◌else◌,
}
use rpc_latency_monitor.Prelude.Maybe.{◌>>=◌}
use rpc_latency_monitor.Prelude.Fallible.{Result, ok, err}
use rpc_latency_monitor.Crates.{Crates}
use rpc_latency_monitor.RawApi.App.{
  AppState, RawApiConfig, Reply, json, text, no_store, error_response, UpstreamError,
}
use rpc_latency_monitor.RawApi.Csv.{to_csv, rows_to_csv}
use rpc_latency_monitor.RawApi.Prom.{PromResponse, run_query}
use rpc_latency_monitor.RawApi.Query.{
  RawQuery, QueryError, Params, parse_query, is_valid_label_value,
}
use rpc_latency_monitor.RawApi.RateLimit.{take_rate_limit_slot, RateWindows}
use rpc_latency_monitor.RawApi.Samples.{query_samples, insert_samples, IngestRow}
use rpc_latency_monitor.RawApi.Token.{verify_token}

abbrev pub max_ingest_rows : ℕ
max_ingest_rows = 10000

module _ ⦃c : Crates⦄ where
  open c use {
    Value, of_bool, of_str, of_array, of_object, is_finite, now, unix_time, World, format_rfc3339,
  }

  -- The subject of the token of the header `authorization`.
  unfoldable pub authorize : AppState → Option String → World → Option String
  authorize state authorization w = do
    header ← authorization
    token ← strip_prefix "Bearer " header
    verify_token (unix_time w) (trim token) state.config.jwt_secret

  -- A reply, or a query with its permit.
  pub data Admission : Type 0 where
    replied : Reply → Admission
    admitted : RawQuery → Admission

  abbrev error_body : String → Value
  error_body message = of_object (("error", of_str message) ∷ [])

  abbrev retry_reply : ℕ → String → String → Reply
  retry_reply status after message = record {
    status = status;
    headers = ("Retry-After", after) ∷ [];
    body = json (error_body message);
  }

  -- `state.upstream.try_acquire()`
  abbrev pub acquire : RawQuery → ℕ → AppState → Admission × AppState
  acquire query zero state = (replied (retry_reply 503 "5" "server busy, retry shortly"), state)
  acquire query (suc left) state = (admitted query, record state { permits = left })

  abbrev pub release : AppState → AppState
  release state = record state { permits = suc state.permits }

  -- The text of an error is that of `parse_query`.
  module _ (message : QueryError → String) where
    abbrev pub admit_query : Result QueryError RawQuery → AppState → Admission × AppState
    admit_query (ok query) state = acquire query state.permits state
    admit_query (err e) state = (replied (error_response 400 (message e)), state)

    abbrev pub admit_limited :
        Option ℕ × RateWindows → Result QueryError RawQuery → AppState → Admission × AppState
    admit_limited (some retry, windows) parsed state = (
      replied (retry_reply 429 (decimal retry) "rate limit exceeded"),
      record state { windows = windows },
    )
    admit_limited (none, windows) parsed state =
        admit_query parsed (record state { windows = windows })

    abbrev pub admit_subject :
        Option String → String → Params → World → AppState → Admission × AppState
    admit_subject none template params w state =
        (replied (error_response 401 "invalid, expired, or missing token"), state)
    admit_subject (some sub) template params w state =
        admit_limited (take_rate_limit_slot (now w) sub state.windows)
          (parse_query (unix_time w / 1000000000) template params) state

    -- The first half of `raw_handler`.
    unfoldable pub admit : String → Option String → Params → World → AppState → Admission × AppState
    unfolding authorize
    admit template authorization params w state =
        admit_subject (authorize state authorization w) template params w state

    csv_reply : String → Reply
    csv_reply body = record {
      status = 200;
      headers = ("Content-Type", "text/csv; charset=utf-8") ∷ no_store ∷ [];
      body = text body;
    }

    json_reply : String → List Value → RawQuery → World → Reply
    json_reply key values query w = record {
      status = 200;
      headers = no_store ∷ [];
      body = json (
          of_object (
            ("generatedAt", of_str (format_rfc3339 (unix_time w)))
            ∷ ("template", of_str query.template)
            ∷ (key, of_array values)
            ∷ []));
    }

    reply_with :
        (List Value → String)
        → String
        → RawQuery
        → Result UpstreamError (List Value) × World
        → Reply × World
    unfolding csv_reply json_reply
    reply_with csv key query (err e, w) = (error_response 502 "upstream query failed", w)
    reply_with csv key query (ok values, w) =
        if query.format == "csv"
        then (csv_reply (csv values), w)
        else (json_reply key values query w, w)

    module _ (decode : List ℕ → Option PromResponse) where
      -- The second half, with the permit.
      unfoldable pub answer : AppState → RawQuery → World → Reply × World
      unfolding reply_with
      answer state query w =
          if query.template == "samples"
          then reply_with rows_to_csv "rows" query (query_samples state query w)
          else reply_with to_csv "series" query (run_query decode state query w)

      abbrev answer_admitted : Admission × AppState → World → Reply × AppState × World
      answer_admitted (replied reply, state) w = (reply, state, w)
      answer_admitted (admitted query, state) w =
          let answered = answer state query w in (answered.0, release state, answered.1)

      unfoldable pub raw_handler :
          String → Option String → Params → AppState → World → Reply × AppState × World
      unfolding admit answer
      raw_handler template authorization params state w =
          answer_admitted (admit template authorization params w state) w

  abbrev row_labels : IngestRow → List String
  row_labels row =
      row.provider ∷ row.method ∷ row.infra ∷ row.region ∷ row.status ∷ row.error_kind ∷ []

  unfoldable pub bad_row : IngestRow → Bool
  bad_row row =
      any (λ v. not (is_valid_label_value v)) (row_labels row)
      || not (is_blank_text row.target || is_valid_label_value row.target)
      || not (is_finite row.ts)
      || not (is_finite row.latency_ms)

  unfoldable pub inserted : Result {0, 0} UpstreamError Unit × World → Reply × World
  inserted (ok u, w) = (
    record { status = 200; headers = []; body = json (of_object (("ok", of_bool true) ∷ [])) },
    w,
  )
  inserted (err e, w) = (error_response 502 "storage insert failed", w)

  unfoldable pub ingest_rows : AppState → List IngestRow → World → Reply × World
  unfolding bad_row inserted
  ingest_rows state rows w =
      if is_empty rows || ltb max_ingest_rows (length rows)
      then (error_response 400 "rows must contain 1..=10000 entries", w)
      else if any bad_row rows
      then (error_response 400 "invalid row values", w)
      else inserted (insert_samples state rows w)

  abbrev pub ingest_by : Option String → AppState → List IngestRow → World → Reply × World
  ingest_by none state rows w = (error_response 401 "invalid, expired, or missing token", w)
  ingest_by (some sub) state rows w =
      if sub == "fleet"
      then ingest_rows state rows w
      else (error_response 403 "ingest requires the fleet token", w)

  unfoldable pub ingest_handler : Option String → List IngestRow → AppState → World → Reply × World
  unfolding authorize ingest_rows
  ingest_handler authorization rows state w =
      ingest_by (authorize state authorization w) state rows w
