-- ===== src/RawApi/RateLimit/Retry.antt =====
-- A subject that is refused is admitted after the time that it is told.
use rpc_latency_monitor.Prelude.{
  ℕ, suc, ◌+◌, ◌*◌, ◌≤◌, ◌<◌, ◌≡◌, ◌≢◌, refl, ap, ◌∙◌, String, Option, none, some, List, [], ◌∷◌,
  ==_iff, string_eq, lookup, lookup-insert, All, arith,
}
use rpc_latency_monitor.RawApi.RateLimit.{
  RateWindows, seconds_since, rate_window_seconds, take_in, take_rate_limit_slot,
}

-- What a refusal says of the window.
refused_window :
    (now : ℕ) (sub : String) (windows : RateWindows) (retry : ℕ)
    → (take_rate_limit_slot now sub windows).0 ≡ some retry
    → (start : ℕ) × (count : ℕ) × (lookup sub windows ≡ some (start, count))
      × (retry + seconds_since start now ≡ rate_window_seconds)
      × (0 < retry)
      × ((take_rate_limit_slot now sub windows).1 ≡ windows)
unfolding take_rate_limit_slot
refused_window now sub windows retry h = in_window (lookup sub windows) refl h
  where
    in_window :
        (o : Option (ℕ × ℕ))
        → lookup sub windows ≡ o
        → (take_in now sub o windows).0 ≡ some retry
        → (start : ℕ) × (count : ℕ) × (lookup sub windows ≡ some (start, count))
          × (retry + seconds_since start now ≡ rate_window_seconds)
          × (0 < retry)
          × ((take_in now sub o windows).1 ≡ windows)
    in_window none e k = cc
    in_window (some (start, count)) e k =
        (start, count, e, ground arith, ground arith, ground arith)

-- A request of another subject leaves the window as it is.
pub other_subject :
    (now : ℕ) (other sub : String) (windows : RateWindows)
    → other ≢ sub
    → lookup sub (take_rate_limit_slot now other windows).1 ≡ lookup sub windows
unfolding take_rate_limit_slot
other_subject now other sub windows ne = in_window (lookup other windows)
  where
    in_window :
        (o : Option (ℕ × ℕ)) → lookup sub (take_in now other o windows).1 ≡ lookup sub windows
    in_window none = ground (arith, ==_iff other sub, lookup-insert other sub (now, 1) windows)
    in_window (some (start, count)) = ground (
      arith,
      ==_iff other sub,
      lookup-insert other sub (now, 1) windows,
      lookup-insert other sub (start, suc count) windows,
    )

abbrev pub take_all : List (ℕ × String) → RateWindows → RateWindows
take_all [] windows = windows
take_all ((now, sub) ∷ rs) windows = take_all rs (take_rate_limit_slot now sub windows).1

other_subjects :
    (rs : List (ℕ × String)) (sub : String) (windows : RateWindows)
    → All (λ (r : ℕ × String). r.1 ≢ sub) rs
    → lookup sub (take_all rs windows) ≡ lookup sub windows
other_subjects [] sub windows h = refl
other_subjects ((now, other) ∷ rs) sub windows (ne, h) =
    other_subjects rs sub (take_rate_limit_slot now other windows).1 h
    ∙ other_subject now other sub windows ne

expired_window :
    (later : ℕ) (sub : String) (windows : RateWindows) (start count : ℕ)
    → lookup sub windows ≡ some (start, count)
    → rate_window_seconds ≤ seconds_since start later
    → (take_rate_limit_slot later sub windows).0 ≡ none
unfolding take_rate_limit_slot
expired_window later sub windows start count known old = rw (known, take_in) (ground arith)

-- Where the subject's window began before now: a request that is refused is told a time from 1 to 60
-- seconds; whatever other subjects do meanwhile, the
-- subject's next request is admitted if it comes after that time.
pub take_rate_limit_slot-retry :
    (now later retry : ℕ) (sub : String) (windows : RateWindows) (rs : List (ℕ × String))
    → (take_rate_limit_slot now sub windows).0 ≡ some retry
    → ((start count : ℕ) → lookup sub windows ≡ some (start, count) → start ≤ now)
    → All (λ (r : ℕ × String). r.1 ≢ sub) rs
    → now + retry * 1000000000 ≤ later
    → (0 < retry)
      × (retry ≤ 60)
      × ((take_rate_limit_slot later sub (take_all rs (take_rate_limit_slot now sub windows).1)).0
          ≡ none)
take_rate_limit_slot-retry now later retry sub windows rs refused began others waited =
    let (start, count, known, sum, some_time, same) =
      refused_window now sub windows retry refused in
    let before = began start count known in
    let kept : lookup sub (take_all rs (take_rate_limit_slot now sub windows).1)
        ≡ some (start, count) =
      other_subjects rs sub (take_rate_limit_slot now sub windows).1 others
      ∙ ap (lookup sub) same
      ∙ known in
    (
      some_time,
      omega arith,
      expired_window later sub (take_all rs (take_rate_limit_slot now sub windows).1) start count
          kept (omega arith),
    )
