-- ===== src/RawApi/Database/Applied.antt =====
-- What the rounds of the database of src/raw_api.rs send to it, and in which order.
use rpc_latency_monitor.Prelude.{
  ℕ, zero, suc, ◌+◌, ◌≡◌, refl, Option, none, some, List, [], ◌∷◌, arith,
}
use rpc_latency_monitor.Prelude.Fallible.{Result, ok, err, ok_or}
use rpc_latency_monitor.Crates.{Crates}
use rpc_latency_monitor.RawApi.App.{
  AppState, UpstreamError, connection_failed, statement_failed, after, ◌>>=◌, returned, named,
}
use rpc_latency_monitor.RawApi.Database.{
  probe_samples, probe_samples_endpoint_ip, delete_sql, migrations, Phase, applying, retaining,
  after_schema, run_migrations, ensure_schema, delete_old, maintain, schema_then_retention,
}

module _ ⦃c : Crates⦄ (state : AppState) where
  open c use {World, Connection, pg_connect, pg_query, batch_execute, Row}

  -- The database is reached or not, and the world behind the attempt.
  abbrev Unreached : World → World → Type 0
  Unreached w w' = pg_connect state.config.database_url w ≡ (none, w')

  abbrev Reached : World → Connection → World → Type 0
  Reached w client w' = pg_connect state.config.database_url w ≡ (some client, w')

  -- An attempt at the schema that ends early: without the database, at the first statement, or at
  -- the second, behind the first.
  pub data Fails (w w' : World) : Type 0 where
    unconnected : Unreached w w' → Fails w w'
    first_refused :
        (client : Connection) (w₁ : World)
        → Reached w client w₁
        → batch_execute client probe_samples w₁ ≡ (none, w')
        → Fails w w'
    second_refused :
        (client : Connection) (w₁ w₂ : World)
        → Reached w client w₁
        → batch_execute client probe_samples w₁ ≡ (some tt, w₂)
        → batch_execute client probe_samples_endpoint_ip w₂ ≡ (none, w')
        → Fails w w'

  -- An attempt that sends both statements, the second behind the first, and neither is refused.
  pub data Applies (w w' : World) : Type 0 where
    applied :
        (client : Connection) (w₁ w₂ : World)
        → Reached w client w₁
        → batch_execute client probe_samples w₁ ≡ (some tt, w₂)
        → batch_execute client probe_samples_endpoint_ip w₂ ≡ (some tt, w')
        → Applies w w'

  -- A tick of the retention: the one statement that deletes is sent, if the database is reached.
  pub data Deletes (w w' : World) : Type 0 where
    unreached : Unreached w w' → Deletes w w'
    sent :
        (client : Connection) (w₁ : World)
        → Reached w client w₁
        → (pg_query client "DELETE FROM probe_samples WHERE ts < now() - interval '400 days'" []
            w₁).1
          ≡ w'
        → Deletes w w'

  module _ (meanwhile : World → World) where
    -- So many attempts that all failed.
    pub data Tried : ℕ → World → World → Type 0 where
      begun : {w : World} → Tried zero w w
      again :
          {n : ℕ} {w w₁ w₂ : World} → Tried n w w₁ → Fails w₁ w₂ → Tried (suc n) w (meanwhile w₂)

    -- So many ticks.
    pub data Retained : ℕ → World → World → Type 0 where
      begun : {w : World} → Retained zero w w
      again :
          {n : ℕ} {w w₁ w₂ : World}
          → Retained n w w₁
          → Deletes w₁ w₂
          → Retained (suc n) w (meanwhile w₂)

    -- What n rounds have done in their order.
    abbrev pub History : Phase → ℕ → World → World → Type 0
    History applying n w w' = Tried n w w'
    History retaining n w w' =
        (k m : ℕ) × (k + suc m ≡ n)
        × (w₁ w₂ : World) × Tried k w w₁
        × Applies w₁ w₂
        × Retained m (meanwhile w₂) w'

    -- An attempt, from the answers of the database.
    abbrev Attempt : World → Result {0, 0} UpstreamError Unit → World → Type 0
    Attempt w (ok done) w' = Applies w w'
    Attempt w (err e) w' = Fails w w'

    attempt : (w : World) → Attempt w (ensure_schema state w).0 (ensure_schema state w).1
    unfolding ensure_schema run_migrations ◌>>=◌ named
    attempt w = by_connect (pg_connect state.config.database_url w) refl
      where
        by_second :
            (client : Connection) (w₁ w₂ : World)
            → Reached w client w₁
            → batch_execute client probe_samples w₁ ≡ (some tt, w₂)
            → (o : Option Unit × World) → batch_execute client probe_samples_endpoint_ip w₂ ≡ o
            → Attempt w
                (after (λ done. returned tt) (ok_or o.0 statement_failed) o.1).0
                (after (λ done. returned tt) (ok_or o.0 statement_failed) o.1).1
        by_second client w₁ w₂ reached first (none, w') h =
            second_refused client w₁ w₂ reached first h
        by_second client w₁ w₂ reached first (some done, w') h =
            applied client w₁ w₂ reached first h

        by_first :
            (client : Connection) (w₁ : World)
            → Reached w client w₁
            → (o : Option Unit × World) → batch_execute client probe_samples w₁ ≡ o
            → Attempt w
                (after
                  (λ done. run_migrations client (probe_samples_endpoint_ip ∷ []))
                  (ok_or o.0 statement_failed)
                  o.1).0
                (after
                  (λ done. run_migrations client (probe_samples_endpoint_ip ∷ []))
                  (ok_or o.0 statement_failed)
                  o.1).1
        by_first client w₁ reached (none, w') h = first_refused client w₁ reached h
        by_first client w₁ reached (some done, w₂) h =
            by_second client w₁ w₂ reached h (batch_execute client probe_samples_endpoint_ip w₂)
              refl

        by_connect :
            (o : Option Connection × World)
            → pg_connect state.config.database_url w ≡ o
            → Attempt w
                (after
                  (λ client. run_migrations client migrations)
                  (ok_or o.0 connection_failed)
                  o.1).0
                (after
                  (λ client. run_migrations client migrations)
                  (ok_or o.0 connection_failed)
                  o.1).1
        by_connect (none, w') h = unconnected h
        by_connect (some client, w₁) h =
            by_first client w₁ h (batch_execute client probe_samples w₁) refl

    tick : (w : World) → Deletes w (delete_old state w).1
    unfolding delete_old ◌>>=◌ named
    tick w = by_connect (pg_connect state.config.database_url w) refl
      where
        by_answer :
            (client : Connection) (w₁ : World)
            → Reached w client w₁
            → (o : Option (List Row))
            → Deletes w
                (after
                  (λ (rows : List Row). returned tt)
                  (ok_or o statement_failed)
                  (pg_query client delete_sql [] w₁).1).1
        by_answer client w₁ reached none = sent client w₁ reached refl
        by_answer client w₁ reached (some rows) = sent client w₁ reached refl

        by_connect :
            (o : Option Connection × World)
            → pg_connect state.config.database_url w ≡ o
            → Deletes w
                (after
                  (λ client.
                    named statement_failed (pg_query client delete_sql []) >>= λ (rows : List Row).
                    returned tt)
                  (ok_or o.0 connection_failed)
                  o.1).1
        by_connect (none, w') h = unreached h
        by_connect (some client, w₁) h = by_answer client w₁ h (pg_query client delete_sql [] w₁).0

    one_more :
        (n : ℕ) (s : Phase × World) (w : World)
        → History s.0 n w s.1
        → History (maintain state meanwhile s).0 (suc n) w (maintain state meanwhile s).1
    unfolding maintain
    one_more n (retaining, w₁) w (k, m, e, before, after, tried, applies, retained) =
        (k, suc m, omega arith, before, after, tried, applies, Retained.again retained (tick w₁))
    one_more n (applying, w₁) w tried =
        by_result (ensure_schema state w₁).0 (ensure_schema state w₁).1 (attempt w₁)
      where
        by_result :
            (r : Result {0, 0} UpstreamError Unit) (w₂ : World)
            → Attempt w₁ r w₂
            → History (after_schema r) (suc n) w (meanwhile w₂)
        by_result (ok done) w₂ applies = (n, 0, omega arith, w₁, w₂, tried, applies, Retained.begun)
        by_result (err e) w₂ fails = Tried.again tried fails

    -- While the rounds are in their first phase, all of them were attempts at the schema that failed.
    -- In the second phase they were attempts that failed, then one that connected and sent the two
    -- statements of the schema, both without an error, and then ticks of the retention, which are the
    -- only ones to send the statement that deletes samples older than 400 days; each of them sends it
    -- if the database is reached.
    pub schema_then_retention-History :
        (n : ℕ) (w : World)
        → History
            (schema_then_retention state meanwhile n w).0
            n
            w
            (schema_then_retention state meanwhile n w).1
    unfolding schema_then_retention
    schema_then_retention-History zero w = Tried.begun
    schema_then_retention-History (suc n) w =
        one_more n (schema_then_retention state meanwhile n w) w (schema_then_retention-History n w)
