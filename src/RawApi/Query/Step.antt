-- ===== src/RawApi/Query/Step.antt =====
-- The step that `parse_query` of src/raw_api.rs takes when none is given.
use rpc_latency_monitor.Prelude.{
  ℕ, ◌+◌, ◌*◌, ◌/◌, ◌≤◌, ◌<◌, ◌≡◌, refl, none, arith, lookup, string_eq, ltb, false,
}
use rpc_latency_monitor.Prelude.Fallible.{ok, ◌>>=◌}
use rpc_latency_monitor.RawApi.Query.{Params, default_step, parse_step, step_of, max_points}

-- The step chosen covers the range in at most 500 steps, in whole minutes.
pub step_covers : (range : ℕ) → (60 ≤ default_step range) × (range ≤ 500 * default_step range)
unfolding default_step
step_covers range = (omega arith, omega arith)

few_points : (range step : ℕ) → 0 < step → range ≤ 500 * step → range / step ≤ 500
few_points range step h k = grind arith

not_too_many : (n : ℕ) → n ≤ 500 → ltb max_points (n + 1) ≡ false
not_too_many n h = ground arith

-- Where no step is given, one is always chosen, whatever the range: at least a minute, and with at
-- most 501 points, so that a query is never refused for its number of points.
pub parse_step-default :
    (range : ℕ) (params : Params)
    → lookup "step" params ≡ none
    → (parse_step range params ≡ ok (default_step range))
      × (60 ≤ default_step range)
      × (range / default_step range + 1 ≤ 501)
unfolding parse_step step_of ◌>>=◌
parse_step-default range params absent =
    let (least, covers) = step_covers range in
    let few = few_points range (default_step range) (omega arith) covers in
    (rw (absent, not_too_many (range / default_step range) few) refl, least, omega arith)
