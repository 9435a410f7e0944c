-- ===== src/RawApi/Prom/Handled.antt =====
-- Every template that `parse_query` lets through has its query in `run_query` of src/raw_api.rs, or is
-- that of the samples.
use mathlib.Core.Path.{subst}
use rpc_latency_monitor.Prelude.{
  ℕ, ◌≢◌, sym, String, Bool, true, false, Option, none, some, List, [], ◌∷◌, Elem, inl, inr, ◌==◌,
  string_eq, if◌then◌else◌,
}
use rpc_latency_monitor.Prelude.Fallible.{Result, ok, err, ok_or}
use rpc_latency_monitor.Crates.{Crates}
use rpc_latency_monitor.RawApi.App.{
  AppState, UpstreamError, not_sent, no_document, unhandled_template, Upstream, ◌>>=◌, named, after,
}
use rpc_latency_monitor.RawApi.Prom.{
  PromResponse, query_range, is_http_success, series_query, latency_series, latency_buckets_series,
  requests_series, win_rate_series, claim_checks_series, run_query, run_template,
}
use rpc_latency_monitor.RawApi.Query.{RawQuery, templates}
use rpc_latency_monitor.RawApi.Query.Valid.{IsValidQuery}

-- An error that is not that of a template.
abbrev pub IsKnown : UpstreamError → Type 0
IsKnown (unhandled_template t) = ⊥
IsKnown _ = Unit

abbrev pub IsHandled {ℓ} : {A : Type ℓ} → Result UpstreamError A → Type 0
IsHandled (ok a) = Unit
IsHandled (err e) = IsKnown e

module _ ⦃c : Crates⦄ where
  open c use {Value, World, Response, status, bytes}

  module _ {A : Type 0} where
    named-IsHandled :
        (e : UpstreamError) (call : World → Option A × World) (w : World)
        → IsKnown e
        → IsHandled (named e call w).0
    unfolding named
    named-IsHandled e call w h = by_answer (call w).0
      where
        by_answer : (o : Option A) → IsHandled (ok_or o e)
        by_answer none = h
        by_answer (some a) = tt

    then-IsHandled :
        {B : Type 0} (m : Upstream A) (f : A → Upstream B) (w : World)
        → IsHandled (m w).0
        → ((a : A) (v : World) → IsHandled (f a v).0)
        → IsHandled ((m >>= f) w).0
    unfolding ◌>>=◌
    then-IsHandled m f w h k = by_result (m w).0 (m w).1 h
      where
        by_result :
            (r : Result UpstreamError A) (v : World) → IsHandled r → IsHandled (after f r v).0
        by_result (ok a) v h = k a v
        by_result (err e) v h = h

    either :
        (b : Bool) (m k : Upstream A) (w : World)
        → IsHandled (m w).0
        → IsHandled (k w).0
        → IsHandled ((if b then m else k) w).0
    either true m k w h g = h
    either false m k w h g = g

  module _ (decode : List ℕ → Option PromResponse) where
    query_range-IsHandled :
        (state : AppState) (promql : String) (query : RawQuery) (w : World)
        → IsHandled (query_range decode state promql query w).0
    unfolding query_range
    query_range-IsHandled state promql query w =
        then-IsHandled _ _ w (named-IsHandled not_sent _ w tt) λ response v.
          either (is_http_success (status response)) _ _ v
            (then-IsHandled _ _ v (named-IsHandled no_document _ v tt) λ body u.
              then-IsHandled _ _ u (named-IsHandled no_document _ u tt)
                λ document t. either (document.status == "success") _ _ t tt tt)
            tt

    series_query-IsHandled :
        (state : AppState) (query : RawQuery) (keys : List String) (extra : List (String × String))
        (promql : String) (w : World)
        → IsHandled (series_query decode state query keys extra promql w).0
    unfolding series_query
    series_query-IsHandled state query keys extra promql w =
        then-IsHandled _ _ w (query_range-IsHandled state promql query w) λ results v. tt

    latency-IsHandled :
        (state : AppState) (query : RawQuery) (quantiles : List String) (w : World)
        → IsHandled (latency_series decode state query quantiles w).0
    unfolding latency_series
    latency-IsHandled state query [] w = tt
    latency-IsHandled state query (quantile ∷ quantiles) w =
        then-IsHandled _ _ w
          (series_query-IsHandled state query ("provider" ∷ []) (("quantile", quantile) ∷ []) _ w)
          λ series v. then-IsHandled _ _ v (latency-IsHandled state query quantiles v) λ rest u. tt

    others-IsHandled :
        (state : AppState) (query : RawQuery) (w : World)
        → IsHandled (latency_buckets_series decode state query w).0
          × IsHandled (requests_series decode state query w).0
          × IsHandled (win_rate_series decode state query w).0
          × IsHandled (claim_checks_series decode state query w).0
    unfolding latency_buckets_series requests_series win_rate_series claim_checks_series
    others-IsHandled state query w = (
      series_query-IsHandled state query ("provider" ∷ "le" ∷ []) [] _ w,
      series_query-IsHandled state query ("provider" ∷ query.by ∷ []) [] _ w,
      then-IsHandled _ _ w (series_query-IsHandled state query ("provider" ∷ []) [] _ w)
          (λ series v. tt),
      series_query-IsHandled state query ("provider" ∷ "method" ∷ "result" ∷ []) [] _ w,
    )

    -- The query of a request that `parse_query` lets through, and that is not for samples, is never
    -- refused because of its template: whatever the services answer, each such template has its
    -- query.
    pub run_query-IsHandled :
        (state : AppState) (query : RawQuery) (w : World)
        → IsValidQuery query
        → query.template ≢ "samples"
        → IsHandled (run_query decode state query w).0
    unfolding run_query run_template
    run_query-IsHandled state query w valid other = by_template query.template valid.known other
      where
        handled : String → Type 0
        handled t = IsHandled (run_template decode state query t w).0

        by_template : (t : String) → Elem t templates → t ≢ "samples" → handled t
        by_template t (inl e) h =
            subst handled (sym e) (latency-IsHandled state query query.quantiles w)
        by_template t (inr (inl e)) h = subst handled (sym e) (others-IsHandled state query w).0
        by_template t (inr (inr (inl e))) h =
            subst handled (sym e) (others-IsHandled state query w).1
        by_template t (inr (inr (inr (inl e)))) h =
            subst handled (sym e) (others-IsHandled state query w).2
        by_template t (inr (inr (inr (inr (inl e))))) h =
            subst handled (sym e) (others-IsHandled state query w).3
        by_template t (inr (inr (inr (inr (inr (inl e)))))) h = absurd (h e)
        by_template t (inr (inr (inr (inr (inr (inr never)))))) h = absurd never
