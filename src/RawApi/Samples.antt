-- ===== src/RawApi/Samples.antt =====
-- `query_samples` and `insert_samples` of src/raw_api.rs: the statements for the database of samples.
pub mod Placeholders
use rpc_latency_monitor.Prelude.{
  ℕ, suc, ◌+◌, String, Bool, true, false, Option, none, some, List, [], ◌∷◌, ◌++◌, map, unwrap_or,
  length, ◌<>◌, decimal,
}
use rpc_latency_monitor.Crates.{Crates}
use rpc_latency_monitor.RawApi.App.{
  AppState, UpstreamError, connection_failed, statement_failed, Upstream, ◌>>=◌, returned, named,
}
use rpc_latency_monitor.RawApi.Query.{RawQuery}

module _ ⦃c : Crates⦄ where
  open c use {
    Value, null, of_u64, of_i64, of_str, of_array, of_object, F64, of_f64, f64_of, pg_connect,
    pg_query, Row, column,
  }

  -- A statement and its parameters, `$1` first.
  pub record Statement : Type 0 where
    pub sql : String
    pub params : List Value

  -- ` AND {name} = ${}` with the number of parameters, once the value is one of them.
  abbrev pub add_filter : String → Option String → Statement → Statement
  add_filter name none s = s
  add_filter name (some value) s = record {
    sql = s.sql <> " AND " <> name <> " = $" <> decimal (suc (length s.params));
    params = s.params ++ of_str value ∷ [];
  }

  abbrev pub add_filters : List (String × Option String) → Statement → Statement
  add_filters [] s = s
  add_filters ((name, value) ∷ filters) s = add_filters filters (add_filter name value s)

  abbrev pub sample_filters : RawQuery → List (String × Option String)
  sample_filters query =
      ("provider", query.provider)
      ∷ ("method", query.method)
      ∷ ("infra", query.infra)
      ∷ ("region", query.region)
      ∷ ("status", query.status)
      ∷ []

  abbrev pub select_samples : String
  select_samples =
      "SELECT extract(epoch from ts)::float8 AS ts, provider, method, infra, region, target, status, error_kind, latency_ms, slot, endpoint_ip "
      <> "FROM probe_samples WHERE ts >= to_timestamp($1) AND ts < to_timestamp($2)"

  abbrev pub time_range : RawQuery → Statement
  time_range query = record {
    sql = select_samples;
    params = of_f64 (f64_of query.start) ∷ of_f64 (f64_of query.end) ∷ [];
  }

  unfoldable pub samples_statement : RawQuery → Statement
  samples_statement query =
      let s = add_filters (sample_filters query) (time_range query) in
      record { sql = s.sql <> " ORDER BY ts DESC LIMIT " <> decimal query.limit; params = s.params }

  -- A row as JSON, column by column.
  abbrev sample_row : Row → Value
  sample_row row = of_object (
      map (λ (name : String). (name, column row name))
        ("ts" ∷ "provider" ∷ "method" ∷ "infra" ∷ "region" ∷ "target" ∷ "status" ∷ "error_kind"
          ∷ "latency_ms" ∷ "slot" ∷ "endpoint_ip" ∷ []))

  unfoldable pub query_samples : AppState → RawQuery → Upstream (List Value)
  unfolding samples_statement
  query_samples state query = do
    client ← named connection_failed (pg_connect state.config.database_url)
    rows ←
        named statement_failed
          (pg_query client (samples_statement query).sql (samples_statement query).params)
    returned (map sample_row rows)

  -- A row of the body of an ingest request.
  pub record IngestRow : Type 0 where
    pub ts : F64
    pub provider : String
    pub method : String
    pub infra : String
    pub region : String
    pub target : String
    pub status : String
    pub error_kind : String
    pub latency_ms : F64
    pub slot : Option ℕ
    pub endpoint_ip : Option String

  abbrev or_null : (ℕ → Value) → Option ℕ → Value
  or_null f none = null
  or_null f (some n) = f n

  abbrev text_or_null : Option String → Value
  text_or_null none = null
  text_or_null (some s) = of_str s

  abbrev column_of : (IngestRow → Value) → List IngestRow → Value
  column_of f rows = of_array (map f rows)

  -- One array for each column.
  unfoldable pub columns : List IngestRow → List Value
  columns rows =
      column_of (λ r. of_f64 r.ts) rows
      ∷ column_of (λ r. of_str r.provider) rows
      ∷ column_of (λ r. of_str r.method) rows
      ∷ column_of (λ r. of_str r.infra) rows
      ∷ column_of (λ r. of_str r.region) rows
      ∷ column_of (λ r. of_str r.target) rows
      ∷ column_of (λ r. of_str r.status) rows
      ∷ column_of (λ r. of_str r.error_kind) rows
      ∷ column_of (λ r. of_f64 r.latency_ms) rows
      ∷ column_of (λ r. or_null of_i64 r.slot) rows
      ∷ column_of (λ r. text_or_null r.endpoint_ip) rows
      ∷ []

  abbrev pub insert_sql : String
  insert_sql =
      "INSERT INTO probe_samples (ts, provider, method, infra, region, target, status, error_kind, latency_ms, slot, endpoint_ip) "
      <> "SELECT to_timestamp(t), p, m, i, r, tg, st, e, l, sl, ip "
      <> "FROM UNNEST($1::float8[], $2::text[], $3::text[], $4::text[], $5::text[], $6::text[], $7::text[], $8::text[], $9::float8[], $10::int8[], $11::inet[]) "
      <> "AS x(t, p, m, i, r, tg, st, e, l, sl, ip)"

  unfoldable pub insert_samples : AppState → List IngestRow → Upstream Unit
  unfolding columns
  insert_samples state rows = do
    client ← named connection_failed (pg_connect state.config.database_url)
    done ← named statement_failed (pg_query client insert_sql (columns rows))
    returned tt
