-- ===== src/RawApi/Query.antt =====
-- `parse_query`, `is_valid_label_value` and `parse_time` of src/raw_api.rs. A message is the
-- constructor that says which test failed, and the clock is an argument, in seconds.
pub mod Valid
pub mod Printed
pub mod Step
use rpc_latency_monitor.Prelude.{
  ℕ, ◌+◌, ◌-◌, ◌*◌, ◌/◌, max, String, Bool, true, false, not, ◌&&◌, ◌||◌, Option, none, some, List,
  [], ◌∷◌, ◌++◌, ◌==◌, nat_eq, string_eq, ltb, leb, unwrap_or, is_some, is_none, filter_option,
  contains, Map, lookup, len, is_blank_text, all_chars, is_ascii_digit, is_ascii_alphanumeric,
  parse_u64, split_at, if◌then◌else◌,
}
use rpc_latency_monitor.Prelude.Fallible.{Result, ok, err, ◌>>=◌, ◌>>◌, ok_or, refuse}
use rpc_latency_monitor.Crates.{Crates}

pub data QueryError : Type 0 where
  unknown_template : String → QueryError
  invalid_label : String → String → QueryError
  region_without_infra claim_checks_with_infra : QueryError
  invalid_time : String → QueryError
  start_not_before_end range_too_long : QueryError
  invalid_step : String → QueryError
  step_too_small too_many_points : QueryError
  invalid_quantile invalid_by invalid_format invalid_limit : String → QueryError
  limit_out_of_range : QueryError

pub record RawQuery : Type 0 where
  pub template : String
  pub provider : Option String
  pub method : Option String
  pub infra : Option String
  pub region : Option String
  pub status : Option String
  pub start : ℕ
  pub end : ℕ
  pub step : ℕ
  pub quantiles : List String
  pub by : String
  pub format : String
  pub limit : ℕ

abbrev pub Params : Type 0
Params = Map String String

abbrev pub max_points : ℕ
max_points = 5000

abbrev pub max_range_seconds : ℕ
max_range_seconds = 400 * 24 * 60 * 60

abbrev pub min_step_seconds : ℕ
min_step_seconds = 60

abbrev pub default_range_seconds : ℕ
default_range_seconds = 24 * 60 * 60

abbrev pub default_target_points : ℕ
default_target_points = 500

abbrev pub allowed_quantiles : List String
allowed_quantiles = "0.5" ∷ "0.9" ∷ "0.95" ∷ "0.99" ∷ []

abbrev pub default_quantiles : List String
default_quantiles = "0.5" ∷ "0.95" ∷ "0.99" ∷ []

abbrev pub templates : List String
templates =
    "latency" ∷ "latency_buckets" ∷ "requests" ∷ "win_rate" ∷ "claim_checks" ∷ "samples" ∷ []

abbrev pub default_sample_limit : ℕ
default_sample_limit = 1000

abbrev pub max_sample_limit : ℕ
max_sample_limit = 10000

abbrev label_char : ℕ → Bool
label_char n = is_ascii_alphanumeric n || n == b'_' || n == b'-' || n == b'.'

unfoldable pub is_valid_label_value : String → Bool
is_valid_label_value value =
    not (is_blank_text value) && leb (len value) 64 && all_chars label_char value

-- `label` of `parse_query`
checked_label : String → Option String → Result QueryError (Option String)
unfolding is_valid_label_value
checked_label key none = ok none
checked_label key (some v) =
    if is_valid_label_value v then ok (some v) else err (invalid_label key v)

unfoldable pub label : Params → String → Result QueryError (Option String)
unfolding checked_label
label params key =
    checked_label key (filter_option (λ v. not (is_blank_text v)) (lookup key params))

abbrev pub div_ceil : ℕ → ℕ → ℕ
div_ceil a b = (a + (b - 1)) / b

unfoldable pub default_step : ℕ → ℕ
default_step range =
    max (div_ceil (div_ceil range default_target_points) min_step_seconds * min_step_seconds)
      min_step_seconds

step_of : ℕ → Option String → Result QueryError ℕ
unfolding default_step
step_of range none = ok (default_step range)
step_of range (some v) = do
  step ← ok_or (parse_u64 v) (invalid_step v)
  refuse (ltb step min_step_seconds) step_too_small
  ok step

-- The step and the test on the number of points.
unfoldable pub parse_step : ℕ → Params → Result QueryError ℕ
unfolding step_of
parse_step range params = do
  step ← step_of range (lookup "step" params)
  refuse (ltb max_points (range / step + 1)) too_many_points
  ok step

-- The loop over the quantiles, with those that are kept.
add_quantiles : List String → List String → Result QueryError (List String)
add_quantiles kept [] = ok kept
add_quantiles kept (q ∷ qs) = do
  refuse (not (contains allowed_quantiles q)) (invalid_quantile q)
  add_quantiles (if contains kept q then kept else kept ++ q ∷ []) qs

quantiles_of : Option String → Result QueryError (List String)
unfolding add_quantiles
quantiles_of none = ok default_quantiles
quantiles_of (some v) = add_quantiles [] (split_at b',' v)

limit_of : Option String → Result QueryError ℕ
limit_of none = ok default_sample_limit
limit_of (some v) = do
  limit ← ok_or (parse_u64 v) (invalid_limit v)
  refuse (limit == 0 || ltb max_sample_limit limit) limit_out_of_range
  ok limit

module _ ⦃c : Crates⦄ where
  open c use {parse_rfc3339}

  time_of : ℕ → Option String → Result QueryError ℕ
  time_of fallback none = ok fallback
  time_of fallback (some v) =
      if all_chars is_ascii_digit v
      then ok_or (parse_u64 v) (invalid_time v)
      else (do at ← ok_or (parse_rfc3339 v) (invalid_time v); ok_or at (invalid_time v))

  unfoldable pub parse_time : Option String → ℕ → Result QueryError ℕ
  unfolding time_of
  parse_time value fallback = time_of fallback (filter_option (λ v. not (is_blank_text v)) value)

  unfoldable pub parse_query : ℕ → String → Params → Result QueryError RawQuery
  unfolding label parse_time parse_step quantiles_of limit_of
  parse_query now template params = do
    refuse (not (contains templates template)) (unknown_template template)
    provider ← label params "provider"
    method ← label params "method"
    infra ← label params "infra"
    region ← label params "region"
    status ← label params "status"
    refuse (is_some region && is_none infra) region_without_infra
    refuse (template == "claim_checks" && (is_some infra || is_some region)) claim_checks_with_infra
    end ← parse_time (lookup "end" params) now
    start ← parse_time (lookup "start" params) (end - default_range_seconds)
    refuse (leb end start) start_not_before_end
    refuse (ltb max_range_seconds (end - start)) range_too_long
    step ← parse_step (end - start) params
    quantiles ← quantiles_of (lookup "q" params)
    refuse
        (not (unwrap_or (lookup "by" params) "status" == "status")
          && not (unwrap_or (lookup "by" params) "status" == "error_kind"))
        (invalid_by (unwrap_or (lookup "by" params) "status"))
    refuse
        (not (unwrap_or (lookup "format" params) "json" == "json")
          && not (unwrap_or (lookup "format" params) "json" == "csv"))
        (invalid_format (unwrap_or (lookup "format" params) "json"))
    limit ← limit_of (lookup "limit" params)
    ok (record {
      template = template;
      provider = provider;
      method = method;
      infra = infra;
      region = region;
      status = status;
      start = start;
      end = end;
      step = step;
      quantiles = quantiles;
      by = unwrap_or (lookup "by" params) "status";
      format = unwrap_or (lookup "format" params) "json";
      limit = limit;
    })
