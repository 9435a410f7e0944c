-- ===== src/RawApi/RateLimit/Windows.antt =====
-- How many requests of one subject `take_rate_limit_slot` of src/raw_api.rs admits.
use mathlib.Core.Path.{subst}
use rpc_latency_monitor.Prelude.{
  ℕ, suc, ◌+◌, ◌≤◌, ◌<◌, ◌≡◌, refl, sym, ◌⊎◌, String, Bool, true, false, ◌&&◌, Option, none, some,
  inl, inr, List, [], ◌∷◌, ◌==◌, ==_iff, string_eq, ltb, leb, lookup, lookup-insert, is_none, All,
  arith, Bool-cases, if◌then◌else◌,
}
use rpc_latency_monitor.RawApi.RateLimit.{
  RateWindows, seconds_since, rate_limit_per_minute, rate_window_seconds, take_in,
  take_rate_limit_slot,
}
use rpc_latency_monitor.RawApi.RateLimit.Retry.{other_subject}

-- The times at which requests of the subject are admitted.
abbrev admissions_if : Bool → ℕ → List ℕ → List ℕ
admissions_if true now rest = now ∷ rest
admissions_if false now rest = rest

abbrev pub admissions : String → List (ℕ × String) → RateWindows → List ℕ
admissions sub [] windows = []
admissions sub ((now, s) ∷ rs) windows =
    let (answer, after) = take_rate_limit_slot now s windows in
    admissions_if (s == sub && is_none answer) now (admissions sub rs after)

-- Times from `from` on, none before another.
abbrev pub InOrder : ℕ → List (ℕ × String) → Type 0
InOrder from [] = Unit
InOrder from ((now, s) ∷ rs) = (from ≤ now) × InOrder now rs

-- The times from `t` on, within 60 seconds; and those before `u`.
abbrev pub within : ℕ → List ℕ → ℕ
within t [] = 0
within t (x ∷ xs) =
    let rest = within t xs in if leb t x && ltb x (t + 60000000000) then suc rest else rest

abbrev below : ℕ → List ℕ → ℕ
below u [] = 0
below u (x ∷ xs) = let rest = below u xs in if ltb x u then suc rest else rest

-- What a request does to the window of its own subject.
abbrev in_window : ℕ → ℕ → ℕ → Bool × Option (ℕ × ℕ)
in_window now start count =
    if ltb (seconds_since start now) rate_window_seconds
    then (if leb rate_limit_per_minute count
        then (false, some (start, count))
        else (true, some (start, suc count)))
    else (true, some (now, 1))

abbrev decide : ℕ → Option (ℕ × ℕ) → Bool × Option (ℕ × ℕ)
decide now none = (true, some (now, 1))
decide now (some (start, count)) = in_window now start count

-- The answer and the window after a request of `s`, where `s` is the subject.
abbrev Follows : ℕ → String → RateWindows → String → Type 0
Follows now sub windows s =
    (is_none (take_rate_limit_slot now s windows).0 ≡ (decide now (lookup sub windows)).0)
    × (lookup sub (take_rate_limit_slot now s windows).1 ≡ (decide now (lookup sub windows)).1)

own_subject : (now : ℕ) (sub : String) (windows : RateWindows) → Follows now sub windows sub
unfolding take_rate_limit_slot
own_subject now sub windows = by_window (lookup sub windows) refl
  where
    by_window :
        (o : Option (ℕ × ℕ))
        → lookup sub windows ≡ o
        → (is_none (take_in now sub o windows).0 ≡ (decide now o).0)
          × (lookup sub (take_in now sub o windows).1 ≡ (decide now o).1)
    by_window none e = ground (arith, ==_iff sub sub, lookup-insert sub sub (now, 1) windows)
    by_window (some (start, count)) e = ground (
      arith,
      e,
      ==_iff sub sub,
      lookup-insert sub sub (now, 1) windows,
      lookup-insert sub sub (start, suc count) windows,
    )

within-below : (t u : ℕ) (xs : List ℕ) → t + 60000000000 ≤ u → within t xs ≤ below u xs
within-below t u [] h = omega arith
within-below t u (x ∷ xs) h = ground (arith, within-below t u xs h)

none_below : (from u : ℕ) (xs : List ℕ) → All (λ x. from ≤ x) xs → u ≤ from → below u xs ≡ 0
none_below from u [] h k = refl
none_below from u (x ∷ xs) (first, h) k = ground (arith, none_below from u xs h k)

below_monotone : (u v : ℕ) (xs : List ℕ) → u ≤ v → below u xs ≤ below v xs
below_monotone u v [] h = omega arith
below_monotone u v (x ∷ xs) h = ground (arith, below_monotone u v xs h)

-- What the window allows of the times that follow.
abbrev Allows : Option (ℕ × ℕ) → List ℕ → Type 0
Allows none xs = (t : ℕ) → within t xs ≤ 120
Allows (some (start, count)) xs =
    (below (start + 60000000000) xs + count ≤ 60)
    × (below (start + 120000000000) xs + count ≤ 120)
    × ((t : ℕ) → within t xs ≤ 120)

-- A window that began in time, with 60 requests at most.
abbrev Began : ℕ → Option (ℕ × ℕ) → Type 0
Began from none = Unit
Began from (some (start, count)) = (start ≤ from) × (count ≤ 60)

same_window :
    (now start count : ℕ) (xs : List ℕ)
    → start ≤ now
    → now < start + 60000000000
    → Allows (some (start, suc count)) xs
    → Allows (some (start, count)) (now ∷ xs)
same_window now start count xs began soon (first, second, any_time) = (
  ground arith,
  ground arith,
  λ t. ground (arith, any_time t, within-below t (start + 120000000000) xs),
)

new_window :
    (now : ℕ) (xs : List ℕ) → Allows (some (now, 1)) xs → (t : ℕ) → within t (now ∷ xs) ≤ 120
new_window now xs (first, second, any_time) t =
    ground (arith, any_time t, within-below t (now + 60000000000) xs)

later_window :
    (now start count : ℕ) (xs : List ℕ)
    → start + 60000000000 ≤ now
    → count ≤ 60
    → All (λ x. now ≤ x) xs
    → Allows (some (now, 1)) xs
    → Allows (some (start, count)) (now ∷ xs)
later_window now start count xs late few later (first, second, any_time) = (
  ground (arith, none_below now (start + 60000000000) xs later),
  ground (arith, below_monotone (start + 120000000000) (now + 60000000000) xs),
  new_window now xs (first, second, any_time),
)

Began-decide :
    (from now : ℕ) (o : Option (ℕ × ℕ)) → from ≤ now → Began from o → Began now (decide now o).1
Began-decide from now none h b = (omega arith, omega arith)
Began-decide from now (some (start, count)) h b = ground arith

later_times :
    (from now : ℕ) (xs : List ℕ) → from ≤ now → All (λ x. now ≤ x) xs → All (λ x. from ≤ x) xs
later_times from now [] h k = tt
later_times from now (x ∷ xs) h (first, k) = (omega arith, later_times from now xs h k)

in_window_cases :
    (now start count : ℕ)
    → (in_window now start count ≡ (false, some (start, count)))
      ⊎ ((in_window now start count ≡ (true, some (start, suc count)))
          × (now < start + 60000000000))
      ⊎ ((in_window now start count ≡ (true, some (now, 1))) × (start + 60000000000 ≤ now))
in_window_cases now start count =
    elim (Bool-cases (ltb (seconds_since start now) rate_window_seconds)) [
      | inr over ↦ inr (inr (rw over refl, ground arith))
      | inl soon ↦ elim (Bool-cases (leb rate_limit_per_minute count)) [
        | inl full ↦ inl (rw (soon, full) refl)
        | inr room ↦ inr (inl (rw (soon, room) refl, ground arith))
      ]
    ]

decided :
    (from now : ℕ) (o : Option (ℕ × ℕ)) (xs : List ℕ)
    → from ≤ now
    → Began from o
    → All (λ x. now ≤ x) xs
    → Allows (decide now o).1 xs
    → Allows o (admissions_if (decide now o).0 now xs)
decided from now none xs h b later next = new_window now xs next
decided from now (some (start, count)) xs h b later next = elim (in_window_cases now start count) [
  | inl e ↦ subst goal (sym e) (λ same. same) next
  | inr (inl (e, soon)) ↦
      subst goal (sym e) (same_window now start count xs (omega arith) soon) next
  | inr (inr (e, late)) ↦ subst goal (sym e) (later_window now start count xs late b.1 later) next
]
  where
    goal : Bool × Option (ℕ × ℕ) → Type 0
    goal d = Allows d.1 xs → Allows (some (start, count)) (admissions_if d.0 now xs)

nothing_yet : (from : ℕ) (o : Option (ℕ × ℕ)) → Began from o → Allows o []
nothing_yet from none b = λ t. omega arith
nothing_yet from (some (start, count)) b = (omega arith, omega arith, λ t. omega arith)

from_now :
    (from now : ℕ) (admitted : Bool) (xs : List ℕ)
    → from ≤ now
    → All (λ x. now ≤ x) xs
    → All (λ x. from ≤ x) (admissions_if admitted now xs)
from_now from now true xs h k = (h, later_times from now xs h k)
from_now from now false xs h k = later_times from now xs h k

Began-later : (from now : ℕ) (o : Option (ℕ × ℕ)) → from ≤ now → Began from o → Began now o
Began-later from now none h b = tt
Began-later from now (some (start, count)) h b = (omega arith, b.1)

admitted_times :
    (rs : List (ℕ × String)) (sub : String) (from : ℕ) (windows : RateWindows)
    → InOrder from rs
    → Began from (lookup sub windows)
    → Allows (lookup sub windows) (admissions sub rs windows)
      × All (λ x. from ≤ x) (admissions sub rs windows)
admitted_times [] sub from windows h b = (nothing_yet from (lookup sub windows) b, tt)
admitted_times ((now, s) ∷ rs) sub from windows (first, h) b =
    by_subject (s == sub) refl (admitted_times rs sub now (take_rate_limit_slot now s windows).1 h)
  where
    after : RateWindows
    after = (take_rate_limit_slot now s windows).1

    rest : List ℕ
    rest = admissions sub rs after

    by_subject :
        (own : Bool)
        → (s == sub) ≡ own
        → (Began now (lookup sub after) → Allows (lookup sub after) rest × All (λ x. now ≤ x) rest)
        → Allows
            (lookup sub windows)
            (admissions_if (own && is_none (take_rate_limit_slot now s windows).0) now rest)
          × All
              (λ x. from ≤ x)
              (admissions_if (own && is_none (take_rate_limit_slot now s windows).0) now rest)
    by_subject true e go_on =
        let (admits, entered) =
          subst (Follows now sub windows) (sym ((==_iff s sub).0 e))
            (own_subject now sub windows) in
        let (allows, later) =
          go_on (
            subst (Began now) (sym entered) (Began-decide from now (lookup sub windows) first b)) in
        let next = subst (λ o. Allows o rest) entered allows in
        (
          subst (λ a. Allows (lookup sub windows) (admissions_if a now rest)) (sym admits)
              (decided from now (lookup sub windows) rest first b later next),
          from_now from now _ rest first later,
        )
    by_subject false e go_on =
        let kept = other_subject now s sub windows (λ same. ground (arith, ==_iff s sub)) in
        let (allows, later) =
          go_on
            (subst (Began now) (sym kept) (Began-later from now (lookup sub windows) first b)) in
        (subst (λ o. Allows o rest) kept allows, later_times from now rest first later)

-- From the start, whatever requests of whatever subjects come, at times that do not go back: of the requests of
-- one subject, no more than 120 are admitted within any 60 seconds.
pub take_rate_limit_slot-admissions :
    (rs : List (ℕ × String)) (sub : String) (t : ℕ)
    → InOrder 0 rs
    → within t (admissions sub rs []) ≤ 120
take_rate_limit_slot-admissions rs sub t h = (admitted_times rs sub 0 [] h tt).0 t
