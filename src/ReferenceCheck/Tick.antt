-- ===== src/ReferenceCheck/Tick.antt =====
-- `run_verify_tick`, `run_round` and what `spawn_claim_checker` and `spawn_reference_check` decide, of
-- src/reference_check.rs.
pub mod Counted
use rpc_latency_monitor.Prelude.{
  ℕ, String, Bool, true, not, ◌||◌, Option, none, some, List, [], ◌∷◌, ◌==◌, string_eq, checked_sub,
  is_empty, keep, if◌then◌else◌,
}
use rpc_latency_monitor.Prelude.Maybe
use rpc_latency_monitor.Prelude.State.{State, pure, ◌>>=◌}
use rpc_latency_monitor.Crates.{Crates}
use rpc_latency_monitor.Config.{ReferenceCheckConfig}
use rpc_latency_monitor.Metrics.{
  Metrics, record_claim_check, record_reference_check, set_reference_node_lag,
}
use rpc_latency_monitor.Rpc.{ClaimPayload, accounts}
use rpc_latency_monitor.Rpc.Client.{Env, raw_call}
use rpc_latency_monitor.ReferenceSlot.{ReferenceSlot}
use rpc_latency_monitor.Methods.Values.{non_empty_string}
use rpc_latency_monitor.Methods.Params.{block_params_with}
use rpc_latency_monitor.ReferenceCheck.Sink.{
  Claim, ClaimSink, new, set_node_tip, node_lag, node_stale, effective_tip, drain_due,
}
use rpc_latency_monitor.Providers.{ProviderEndpoint}
use rpc_latency_monitor.ReferenceCheck.Node.{node_slot}
use rpc_latency_monitor.ReferenceCheck.Judge.{
  Verdict, skip, implausible, verdict_label, Judging, judge_claim,
}

abbrev pub target_of : Option ClaimPayload → String
target_of (some (accounts slot n sample target)) = target.name
target_of _ = ""

-- No checker runs if it is switched off or has no node.
unfoldable pub claim_sink : ReferenceCheckConfig → Bool → Option ClaimSink
claim_sink config enabled =
    if not enabled || config.rpc_url == ""
    then none
    else some (new config.claim_margin config.node_stale_slots)

abbrev not_excluded : Option String → ProviderEndpoint → Bool
not_excluded none p = true
not_excluded (some name) p = not (name == p.name)

-- The providers that `spawn_reference_check` judges; no task runs without one.
unfoldable pub judged_providers :
    ReferenceCheckConfig → Bool → List ProviderEndpoint → List ProviderEndpoint
judged_providers config enabled endpoints =
    if not enabled || config.rpc_url == ""
    then []
    else keep (not_excluded config.exclude_provider) endpoints

unfoldable pub classify : Option String → String → String
classify none truth = "missing"
classify (some h) truth = if h == truth then "match" else "mismatch"

module _ ⦃c : Crates⦄ where
  open c use {Value, get, as_u64, of_str, of_array, of_object, now}

  -- The state of the checker's task.
  pub record Checker : Type 0 where
    pub judging : Judging
    pub metrics : Metrics
    pub sink : ClaimSink

  unfoldable pub judge_due : ReferenceCheckConfig → Bool → Claim → State Judging Verdict
  judge_due config stale claim =
      if claim.implausible
      then pure implausible
      else if stale
      then pure skip
      else judge_claim config claim

  unfoldable pub judge_all :
      ReferenceCheckConfig → Bool → List Claim → State (Judging × Metrics) (Unit {0})
  unfolding judge_due
  judge_all config stale [] s = (tt, s)
  judge_all config stale (claim ∷ due) (j, metrics) =
      let (verdict, j') = judge_due config stale claim j in
      judge_all config stale due (
        j',
        record_claim_check claim.provider claim.method (target_of claim.payload)
            (verdict_label verdict) metrics,
      )

  abbrev pub polled : Option ℕ → ℕ → ClaimSink → ClaimSink
  polled none time sink = sink
  polled (some slot) time sink = set_node_tip time slot sink

  abbrev pub lag_recorded : Option ℕ → Metrics → Metrics
  lag_recorded none metrics = metrics
  lag_recorded (some lag) metrics = set_reference_node_lag lag metrics

  -- The claims that are due, judged with an empty block cache.
  unfoldable pub verify_due : ReferenceCheckConfig → ReferenceSlot → ℕ → ℕ → Checker → Checker
  unfolding judge_all
  verify_due config fleet time tip k =
      let (due, sink) = drain_due tip config.claim_delay_slots k.sink in
      let stale = node_stale time fleet sink in
      let (j, metrics) =
        (judge_all config stale due (record k.judging { blocks = [] }, k.metrics)).1 in
      if is_empty due
      then record k { sink = sink }
      else record { judging = j; metrics = metrics; sink = sink }

  unfoldable pub run_verify_tick : ReferenceCheckConfig → ReferenceSlot → Checker → Checker
  unfolding verify_due
  run_verify_tick config fleet k =
      let (slot, env) = node_slot config.rpc_url k.judging.env in
      let time = now env.world in
      let sink = polled slot time k.sink in
      let k' : Checker = record {
        judging = record k.judging { env = env };
        metrics = lag_recorded (node_lag time fleet sink) k.metrics;
        sink = sink;
      } in
      elim (effective_tip time fleet sink) [
        | none ↦ k'
        | some tip ↦ verify_due config fleet time tip k'
      ]

  unfoldable pub finalized_slot : String → State Env (Option ℕ)
  finalized_slot url = do
    answer ←
        raw_call url "getSlot" (of_array (of_object (("commitment", of_str "finalized") ∷ []) ∷ []))
    pure (Maybe.◌>>=◌ answer as_u64)

  unfoldable pub block_hash : String → ℕ → State Env (Option String)
  block_hash url slot = do
    answer ← raw_call url "getBlock" (block_params_with "none" "finalized" slot)
    pure (Maybe.◌>>=◌ answer (λ block. non_empty_string (get block "blockhash")))

  judge_each : String → ℕ → List ProviderEndpoint → State (Env × Metrics) (Unit {0})
  unfolding block_hash classify
  judge_each truth slot [] s = (tt, s)
  judge_each truth slot (p ∷ ps) (e, metrics) =
      let (observed, e') = block_hash p.url slot e in
      judge_each truth slot ps (e', record_reference_check p.name (classify observed truth) metrics)

  judge_round : Option String → ℕ → List ProviderEndpoint → State (Env × Metrics) (Unit {0})
  unfolding judge_each
  judge_round none slot ps s = (tt, s)
  judge_round (some truth) slot ps s = judge_each truth slot ps s

  round_at :
      Option ℕ → ReferenceCheckConfig → List ProviderEndpoint → State (Env × Metrics) (Unit {0})
  unfolding judge_round
  round_at none config ps s = (tt, s)
  round_at (some slot) config ps (e, metrics) =
      let (truth, e') = block_hash config.rpc_url slot e in judge_round truth slot ps (e', metrics)

  unfoldable pub run_round :
      ReferenceCheckConfig → List ProviderEndpoint → State (Env × Metrics) (Unit {0})
  unfolding finalized_slot round_at
  run_round config ps (e, metrics) =
      let (tip, e') = finalized_slot config.rpc_url e in
      round_at (Maybe.◌>>=◌ tip (λ t. checked_sub t config.depth)) config ps (e', metrics)
