-- ===== src/RawApi/Samples/Placeholders.antt =====
-- The statement that `query_samples` of src/raw_api.rs builds has the filters as parameters.
use mathlib.Core.List.{append_assoc, append-nil}
use rpc_latency_monitor.Prelude.{
  ℕ, suc, ◌≡◌, sym, ap, ◌∙◌, String, Option, none, some, List, [], ◌∷◌, ◌++◌, map, length,
  length-append, ◌<>◌, text-append_assoc, text-append-nil, decimal, arith,
}
use rpc_latency_monitor.Crates.{Crates}
use rpc_latency_monitor.RawApi.Query.{RawQuery}
use rpc_latency_monitor.RawApi.Samples.{
  Statement, add_filter, add_filters, select_samples, time_range, samples_statement,
}

-- The filters that are asked for: a column and a text.
abbrev pub asked : List (String × Option String) → List (String × String)
asked [] = []
asked ((name, none) ∷ filters) = asked filters
asked ((name, some value) ∷ filters) = (name, value) ∷ asked filters

-- One condition for each, with the number of its parameter.
abbrev pub conditions : ℕ → List (String × String) → String
conditions n [] = ""
conditions n ((name, value) ∷ filters) =
    " AND " <> name <> " = $" <> decimal n <> conditions (suc n) filters

module _ ⦃c : Crates⦄ where
  open c use {Value, of_f64, f64_of, of_str}

  -- The columns that can be filtered on, in their order, and what the query asks of each.
  abbrev pub columns : RawQuery → List (String × Option String)
  columns query =
      ("provider", query.provider)
      ∷ ("method", query.method)
      ∷ ("infra", query.infra)
      ∷ ("region", query.region)
      ∷ ("status", query.status)
      ∷ []

  abbrev pub texts : List (String × String) → List Value
  texts filters = map (λ (f : String × String). of_str f.1) filters

  abbrev extended : Statement → List (String × String) → Statement
  extended s filters = record {
    sql = s.sql <> conditions (suc (length s.params)) filters;
    params = s.params ++ texts filters;
  }

  length_one_more :
      (params : List Value) (v : Value) → length (params ++ v ∷ []) ≡ suc (length params)
  length_one_more params v = omega (arith, length-append params (v ∷ []))

  one_more_sql :
      (sql name value : String) (n m : ℕ) (filters : List (String × String))
      → m ≡ suc n
      → (sql <> (" AND " <> name <> " = $" <> decimal n)) <> conditions m filters
        ≡ sql <> conditions n ((name, value) ∷ filters)
  one_more_sql sql name value n m filters e =
      ap (λ k. (sql <> (" AND " <> name <> " = $" <> decimal n)) <> conditions k filters) e
      ∙ text-append_assoc sql (" AND " <> name <> " = $" <> decimal n) (conditions (suc n) filters)
      ∙ ap (λ t. sql <> " AND " <> t)
          (text-append_assoc name (" = $" <> decimal n) (conditions (suc n) filters))

  one_more :
      (s : Statement) (name value : String) (filters : List (String × String))
      → extended (add_filter name (some value) s) filters ≡ extended s ((name, value) ∷ filters)
  one_more s name value filters =
      let n = suc (length s.params) in
      let m = suc (length (s.params ++ of_str value ∷ [])) in
      ap (λ t. record { sql = t; params = (s.params ++ of_str value ∷ []) ++ texts filters })
        (one_more_sql s.sql name value n m filters
          (ap suc (length_one_more s.params (of_str value))))
      ∙ ap (λ p. record { sql = s.sql <> conditions n ((name, value) ∷ filters); params = p })
          (append_assoc s.params (of_str value ∷ []) (texts filters))

  nothing_more : (s : Statement) → s ≡ extended s []
  nothing_more s =
      ap (λ t. record { sql = t; params = s.params }) (sym (text-append-nil s.sql))
      ∙ ap (λ p. record { sql = s.sql <> ""; params = p }) (sym (append-nil s.params))

  add_filters-extended :
      (filters : List (String × Option String)) (s : Statement)
      → add_filters filters s ≡ extended s (asked filters)
  add_filters-extended [] s = nothing_more s
  add_filters-extended ((name, none) ∷ filters) s = add_filters-extended filters s
  add_filters-extended ((name, some value) ∷ filters) s =
      add_filters-extended filters (add_filter name (some value) s)
      ∙ one_more s name value (asked filters)

  -- Of the columns provider, method, infra, region and status, in this order, the statement has a
  -- condition for each that the query gives a text for, numbered from 3 on without a gap, and then
  -- the limit; the parameters are the start and the end of the query, then those texts in the same
  -- order, so that the number of each column's condition is the place of the query's text for it.
  pub samples_statement-placeholders :
      (query : RawQuery)
      → ((samples_statement query).sql
          ≡ select_samples
            <> conditions 3 (asked (columns query))
            <> " ORDER BY ts DESC LIMIT "
            <> decimal query.limit)
        × ((samples_statement query).params
            ≡ of_f64 (f64_of query.start)
              ∷ of_f64 (f64_of query.end)
              ∷ texts (asked (columns query)))
  unfolding samples_statement
  samples_statement-placeholders query =
      let built = add_filters-extended (columns query) (time_range query) in
      (
        ap (λ (s : Statement). s.sql <> " ORDER BY ts DESC LIMIT " <> decimal query.limit) built
            ∙ text-append_assoc select_samples (conditions 3 (asked (columns query))) _,
        ap (λ (s : Statement). s.params) built,
      )
