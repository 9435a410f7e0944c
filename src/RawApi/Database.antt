-- ===== src/RawApi/Database.antt =====
-- The schema and the retention of the database of samples, of src/raw_api.rs: `ensure_schema`,
-- `schema_then_retention` and `retention_loop`. A round is an attempt at the schema, or a tick of
-- the retention; what goes on outside until the next round is a parameter.
pub mod Applied
use rpc_latency_monitor.Prelude.{ℕ, zero, suc, String, List, [], ◌∷◌, ◌<>◌}
use rpc_latency_monitor.Prelude.Fallible.{Result, ok, err}
use rpc_latency_monitor.Crates.{Crates}
use rpc_latency_monitor.RawApi.App.{
  AppState, UpstreamError, connection_failed, statement_failed, Upstream, ◌>>=◌, returned, named,
}

-- deploy/migrations/0001_probe_samples.sql, without comments and line breaks
abbrev probe_samples : String
probe_samples =
    "CREATE TABLE IF NOT EXISTS probe_samples ( ts timestamptz NOT NULL, provider text NOT NULL, "
    <> "method text NOT NULL, infra text NOT NULL, region text NOT NULL, "
    <> "target text NOT NULL DEFAULT '', status text NOT NULL, error_kind text NOT NULL, "
    <> "latency_ms double precision NOT NULL, slot bigint ); "
    <> "CREATE INDEX IF NOT EXISTS probe_samples_ts ON probe_samples USING brin (ts); "
    <> "CREATE INDEX IF NOT EXISTS probe_samples_provider_method_ts "
    <> "ON probe_samples (provider, method, ts DESC);"

-- deploy/migrations/0002_probe_samples_endpoint_ip.sql, without comments and line breaks
abbrev probe_samples_endpoint_ip : String
probe_samples_endpoint_ip = "ALTER TABLE probe_samples ADD COLUMN IF NOT EXISTS endpoint_ip inet;"

abbrev pub migrations : List String
migrations = probe_samples ∷ probe_samples_endpoint_ip ∷ []

abbrev pub delete_sql : String
delete_sql = "DELETE FROM probe_samples WHERE ts < now() - interval '400 days'"

-- The two loops of `schema_then_retention`.
pub data Phase : Type 0 where
  applying retaining : Phase

abbrev pub after_schema : Result {0, 0} UpstreamError Unit → Phase
after_schema (ok done) = retaining
after_schema (err e) = applying

module _ ⦃c : Crates⦄ where
  open c use {World, Connection, pg_connect, pg_query, batch_execute}

  unfoldable pub run_migrations : Connection → List String → Upstream Unit
  run_migrations client [] = returned tt
  run_migrations client (migration ∷ rest) = do
    done ← named statement_failed (batch_execute client migration)
    run_migrations client rest

  unfoldable pub ensure_schema : AppState → Upstream Unit
  unfolding run_migrations
  ensure_schema state = do
    client ← named connection_failed (pg_connect state.config.database_url)
    run_migrations client migrations

  -- A tick of `retention_loop`, whose failures are only logged.
  unfoldable pub delete_old : AppState → Upstream Unit
  delete_old state = do
    client ← named connection_failed (pg_connect state.config.database_url)
    done ← named statement_failed (pg_query client delete_sql [])
    returned tt

  module _ (state : AppState) (meanwhile : World → World) where
    -- One round.
    unfoldable pub maintain : Phase × World → Phase × World
    maintain (applying, w) =
        let (done, w') = ensure_schema state w in (after_schema done, meanwhile w')
    maintain (retaining, w) = (retaining, meanwhile (delete_old state w).1)

    -- After so many rounds, from the start of the server.
    unfoldable pub schema_then_retention : ℕ → World → Phase × World
    unfolding maintain
    schema_then_retention zero w = (applying, w)
    schema_then_retention (suc n) w = maintain (schema_then_retention n w)
