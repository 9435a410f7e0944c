-- ===== src/RawApi/Prom.antt =====
-- `query_range`, `run_query` and `to_series` of src/raw_api.rs: the queries of Prometheus through
-- Grafana. The decoder of the answer that serde derives is a parameter.
pub mod Handled
use rpc_latency_monitor.Prelude.{
  ℕ, String, Bool, true, false, not, ◌&&◌, Option, none, some, List, [], ◌∷◌, ◌++◌, map, ◌==◌,
  string_eq, Map, lookup, insert, filter_map, collect, unwrap_or, leb, when, ◌<>◌, decimal,
  if◌then◌else◌,
}
use rpc_latency_monitor.Prelude.Maybe.{◌>>=◌ as ◌and_then◌}
use rpc_latency_monitor.Crates.{Crates}
use rpc_latency_monitor.RawApi.App.{
  AppState, UpstreamError, not_sent, no_document, http_status, prometheus, unhandled_template,
  Upstream, ◌>>=◌, returned, raised, named,
}
use rpc_latency_monitor.RawApi.Query.{RawQuery}
use rpc_latency_monitor.RawApi.Selector.{build_selector}
use rpc_latency_monitor.RawApi.WinRate.{compute_win_rates}

module _ ⦃c : Crates⦄ where
  open c use {
    Value, of_u64, of_str, of_array, of_object, of_f64, F64, parse_f64, is_finite, f64_to_u64,
    get_request, status, bytes,
  }

  pub record PromSeries : Type 0 where
    pub metric : Map String String
    pub values : List (F64 × String)

  -- `result` is that of `data`, a `PromData`.
  pub record PromResponse : Type 0 where
    pub status : String
    pub result : Option (List PromSeries)
    pub error : Option String

  -- A value that is no number, or no finite one, is left out.
  unfoldable pub to_point : F64 × String → Option Value
  to_point (ts, text) = parse_f64 text and_then λ value.
      when (is_finite value) (of_array (of_u64 (f64_to_u64 ts) ∷ of_f64 value ∷ []))

  abbrev add_extra : List (String × String) → Map String Value → Map String Value
  add_extra [] labels = labels
  add_extra ((key, value) ∷ extra) labels = add_extra extra (insert key (of_str value) labels)

  -- `series.metric.get(*key)?`
  abbrev add_labels : Map String String → List String → Map String Value → Option (Map String Value)
  add_labels metric [] labels = some labels
  add_labels metric (key ∷ keys) labels =
      lookup key metric and_then λ value. add_labels metric keys (insert key (of_str value) labels)

  unfoldable pub series_of : List String → List (String × String) → PromSeries → Option Value
  unfolding to_point
  series_of keys extra series =
      add_labels series.metric keys (add_extra extra []) and_then λ labels. some (
        of_object (
          ("labels", of_object labels)
          ∷ ("points", of_array (filter_map to_point series.values))
          ∷ []))

  unfoldable pub to_series : List PromSeries → List String → List (String × String) → List Value
  unfolding series_of
  to_series results keys extra = filter_map (series_of keys extra) results

  abbrev pub is_http_success : ℕ → Bool
  is_http_success code = leb 200 code && leb code 299

  abbrev pub payload : PromResponse → Upstream (List PromSeries)
  payload response =
      if response.status == "success"
      then returned (unwrap_or response.result [])
      else raised (prometheus (unwrap_or response.error "invalid payload"))

  module _ (decode : List ℕ → Option PromResponse) where
    unfoldable pub query_range : AppState → String → RawQuery → Upstream (List PromSeries)
    query_range state promql query = do
      response ← named not_sent (
          get_request state.http
            (state.config.grafana_url <> "/api/datasources/proxy/uid/"
              <> state.config.datasource_uid <> "/api/v1/query_range")
            state.config.grafana_token
            (("query", promql)
              ∷ ("start", decimal query.start)
              ∷ ("end", decimal query.end)
              ∷ ("step", decimal query.step)
              ∷ []))
      if is_http_success (status response)
          then (do
            body ← named no_document (bytes response)
            document ← named no_document (λ w. (decode body, w))
            payload document)
          else raised (http_status (status response))

    abbrev success_only : List String
    success_only = "status=\"success\"" ∷ []

    -- The query and the labels of one template.
    unfoldable pub series_query :
        AppState → RawQuery → List String → List (String × String) → String → Upstream (List Value)
    unfolding query_range to_series
    series_query state query keys extra promql = do
      results ← query_range state promql query
      returned (to_series results keys extra)

    abbrev window : RawQuery → String → String
    window query selector = selector <> "[" <> decimal query.step <> "s]"

    -- One query for each quantile, up to the first that fails.
    unfoldable pub latency_series : AppState → RawQuery → List String → Upstream (List Value)
    unfolding series_query
    latency_series state query [] = returned []
    latency_series state query (quantile ∷ quantiles) = do
      series ← series_query state query ("provider" ∷ []) (("quantile", quantile) ∷ []) (
          "1000 * histogram_quantile("
          <> quantile
          <> ", sum by (le, provider)(rate(rpc_latency_seconds_bucket"
          <> window query (build_selector query success_only)
          <> ")))")
      rest ← latency_series state query quantiles
      returned (series ++ rest)

    unfoldable pub latency_buckets_series : AppState → RawQuery → Upstream (List Value)
    unfolding series_query
    latency_buckets_series state query = series_query state query ("provider" ∷ "le" ∷ []) [] (
        "sum by (provider, le)(increase(rpc_latency_seconds_bucket"
        <> window query (build_selector query success_only)
        <> "))")

    unfoldable pub requests_series : AppState → RawQuery → Upstream (List Value)
    unfolding series_query
    requests_series state query =
        let extra = if query.by == "error_kind" then "status=\"error\"" ∷ [] else [] in
        series_query state query ("provider" ∷ query.by ∷ []) [] (
          "sum by (provider, "
          <> query.by
          <> ")(increase(rpc_requests_total"
          <> window query (build_selector query extra)
          <> "))")

    unfoldable pub win_rate_series : AppState → RawQuery → Upstream (List Value)
    unfolding series_query
    win_rate_series state query = do
      series ← series_query state query ("provider" ∷ []) [] (
          "1000 * sum by (provider)(rate(rpc_latency_seconds_sum"
          <> window query (build_selector query success_only)
          <> ")) / sum by (provider)(rate(rpc_latency_seconds_count"
          <> window query (build_selector query success_only)
          <> "))")
      returned (compute_win_rates series)

    unfoldable pub claim_checks_series : AppState → RawQuery → Upstream (List Value)
    unfolding series_query
    claim_checks_series state query =
        series_query state query ("provider" ∷ "method" ∷ "result" ∷ []) [] (
          "sum by (provider, method, result)(increase(rpc_claim_check_total"
          <> window query (build_selector query [])
          <> "))")

    -- `match query.template.as_str()`
    unfoldable pub run_template : AppState → RawQuery → String → Upstream (List Value)
    unfolding latency_series latency_buckets_series requests_series win_rate_series
        claim_checks_series
    run_template state query template =
        if template == "latency"
        then latency_series state query query.quantiles
        else if template == "latency_buckets"
        then latency_buckets_series state query
        else if template == "requests"
        then requests_series state query
        else if template == "win_rate"
        then win_rate_series state query
        else if template == "claim_checks"
        then claim_checks_series state query
        else raised (unhandled_template template)

    unfoldable pub run_query : AppState → RawQuery → Upstream (List Value)
    unfolding run_template
    run_query state query = run_template state query query.template
