-- ===== src/RawApi/WinRate.antt =====
-- `compute_win_rates` of src/raw_api.rs: who was the fastest at each time.
pub mod Fastest
use rpc_latency_monitor.Prelude.{
  ℕ, ◌/◌, String, Bool, true, false, Option, none, some, List, [], ◌∷◌, ◌++◌, map, ◌==◌, string_eq,
  nat_eq, Map, lookup, insert, length, keep, is_some_and, unwrap_or, ltb, get_elem?, if◌then◌else◌,
}
use rpc_latency_monitor.Prelude.Maybe.{◌>>=◌}
use rpc_latency_monitor.Crates.{Crates}
use rpc_latency_monitor.RawApi.Csv.{at_key, value_at, elements}

module _ ⦃c : Crates⦄ where
  open c use {
    Value, as_str, as_u64, as_array, of_u64, of_f64, of_object, F64, as_f64, f64_le, f64_of,
    f64_mul, f64_div, f64_round, f64_max,
  }

  -- `HashMap<u64, (String, f64)>`
  abbrev pub Winners : Type 0
  Winners = Map ℕ (String × F64)

  -- A point: its provider, its time and its value.
  abbrev pub Point : Type 0
  Point = String × ℕ × F64

  -- `Some((_, best)) if *best <= value` keeps the winner.
  abbrev better : Point → Option (String × F64) → Winners → Winners
  better (provider, ts, value) none winners = insert ts (provider, value) winners
  better (provider, ts, value) (some (first, best)) winners =
      if f64_le best value then winners else insert ts (provider, value) winners

  unfoldable pub take_point : Point → Winners → Winners
  take_point (provider, ts, value) winners =
      better (provider, ts, value) (lookup ts winners) winners

  unfoldable pub winners_of : List Point → Winners → Winners
  unfolding take_point
  winners_of [] winners = winners
  winners_of (p ∷ ps) winners = winners_of ps (take_point p winners)

  abbrev provider_of : Value → String
  provider_of entry = unwrap_or (as_str (at_key (at_key entry "labels") "provider")) ""

  abbrev point_time : Value → ℕ
  point_time point = unwrap_or (as_u64 (value_at point 0)) 0

  abbrev entry_points : Value → List Point
  entry_points entry =
      map
        (λ point.
          (provider_of entry, point_time point, unwrap_or (as_f64 (value_at point 1)) f64_max))
        (elements (at_key entry "points"))

  abbrev pub all_points : List Value → List Point
  all_points [] = []
  all_points (entry ∷ series) = entry_points entry ++ all_points series

  abbrev pub is_win : Winners → String → Value → Bool
  is_win winners provider point =
      is_some_and (lookup (point_time point) winners) (λ w. w.0 == provider)

  -- `(10000.0 * wins as f64 / total as f64).round() / 100.0`
  abbrev win_pct : ℕ → ℕ → F64
  win_pct wins total =
      if ltb 0 total
      then f64_div (f64_round (f64_div (f64_mul (f64_of 10000) (f64_of wins)) (f64_of total)))
          (f64_of 100)
      else f64_of 0

  abbrev win_entry : Winners → Value → Value
  win_entry winners entry =
      let points = elements (at_key entry "points") in
      let wins = length (keep (is_win winners (provider_of entry)) points) in
      of_object (
        ("labels", at_key entry "labels")
        ∷ ("wins", of_u64 wins)
        ∷ ("samples", of_u64 (length points))
        ∷ ("totalTimestamps", of_u64 (length winners))
        ∷ ("winPct", of_f64 (win_pct wins (length winners)))
        ∷ [])

  unfoldable pub compute_win_rates : List Value → List Value
  unfolding winners_of
  compute_win_rates series = map (win_entry (winners_of (all_points series) [])) series
