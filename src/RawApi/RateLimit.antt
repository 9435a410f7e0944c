-- ===== src/RawApi/RateLimit.antt =====
-- `take_rate_limit_slot` of src/raw_api.rs: a window of 60 requests for each subject. The mutex is a
-- state, and the time is an argument, in nanoseconds.
pub mod Retry
pub mod Windows
use rpc_latency_monitor.Prelude.{
  ℕ, suc, ◌+◌, ◌-◌, ◌/◌, String, Option, none, some, ltb, leb, Map, lookup, insert, string_eq,
  if◌then◌else◌,
}

abbrev pub rate_limit_per_minute : ℕ
rate_limit_per_minute = 60

abbrev pub rate_window_seconds : ℕ
rate_window_seconds = 60

-- The start of each subject's window, and its requests so far.
abbrev pub RateWindows : Type 0
RateWindows = Map String (ℕ × ℕ)

-- `now.duration_since(start).as_secs()`
abbrev pub seconds_since : ℕ → ℕ → ℕ
seconds_since start now = (now - start) / 1000000000

abbrev open_window : ℕ → String → RateWindows → Option ℕ × RateWindows
open_window now sub windows = (none, insert sub (now, 1) windows)

take_in : ℕ → String → Option (ℕ × ℕ) → RateWindows → Option ℕ × RateWindows
take_in now sub none windows = open_window now sub windows
take_in now sub (some (start, count)) windows =
    if ltb (seconds_since start now) rate_window_seconds
    then (if leb rate_limit_per_minute count
        then (some (rate_window_seconds - seconds_since start now), windows)
        else (none, insert sub (start, suc count) windows))
    else open_window now sub windows

-- None if the request is admitted, otherwise the seconds after which to try again.
unfoldable pub take_rate_limit_slot : ℕ → String → RateWindows → Option ℕ × RateWindows
unfolding take_in
take_rate_limit_slot now sub windows = take_in now sub (lookup sub windows) windows
