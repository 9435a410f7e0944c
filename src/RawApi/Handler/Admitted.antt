-- ===== src/RawApi/Handler/Admitted.antt =====
-- Which requests `raw_handler` of src/raw_api.rs answers, and how many at a time.
use rpc_latency_monitor.Prelude.{
  ℕ, zero, suc, ◌+◌, ◌/◌, ◌≤◌, ◌≡◌, refl, sym, ap, String, Option, none, some, arith, strip_prefix,
  trim,
}
use rpc_latency_monitor.Prelude.Maybe.{◌>>=◌}
use rpc_latency_monitor.RawApi.Token.{verify_token}
use rpc_latency_monitor.Prelude.Fallible.{Result, ok, err}
use rpc_latency_monitor.Crates.{Crates}
use rpc_latency_monitor.RawApi.App.{AppState, max_upstream_concurrency}
use rpc_latency_monitor.RawApi.Handler.{
  authorize, Admission, replied, admitted, acquire, release, admit_query, admit_limited,
  admit_subject, admit,
}
use rpc_latency_monitor.RawApi.Query.{RawQuery, QueryError, Params, parse_query}
use rpc_latency_monitor.RawApi.Query.Valid.{IsValidQuery, parse_query-IsValidQuery}
use rpc_latency_monitor.RawApi.RateLimit.{RateWindows, take_rate_limit_slot}

module _ ⦃c : Crates⦄ (message : QueryError → String) where
  open c use {now, unix_time, World}

  -- The header names a bearer's token that is valid now, signed with the secret for the subject.
  abbrev pub HasToken : Option String → World → AppState → String → Type 0
  HasToken authorization w state sub =
      (header token : String) × (authorization ≡ some header)
      × (strip_prefix "Bearer " header ≡ some token)
      × (verify_token (unix_time w) (trim token) state.config.jwt_secret ≡ some sub)

  authorize-HasToken :
      (authorization : Option String) (w : World) (state : AppState) (sub : String)
      → authorize state authorization w ≡ some sub
      → HasToken authorization w state sub
  unfolding authorize
  authorize-HasToken none w state sub h = cc
  authorize-HasToken (some header) w state sub h = by_token (strip_prefix "Bearer " header) refl h
    where
      by_token :
          (o : Option String)
          → strip_prefix "Bearer " header ≡ o
          → (o >>= λ token. verify_token (unix_time w) (trim token) state.config.jwt_secret)
            ≡ some sub
          → HasToken (some header) w state sub
      by_token none e h = cc
      by_token (some token) e h = (header, token, refl, e, h)

  -- What a request that is admitted has passed.
  pub record IsAdmitted (template : String) (authorization : Option String) (params : Params)
      (w : World) (state after : AppState) (query : RawQuery) : Type 0 where
    pub sub : String
    pub authorized : authorize state authorization w ≡ some sub
    pub token : HasToken authorization w state sub
    pub in_rate : (take_rate_limit_slot (now w) sub state.windows).0 ≡ none
    pub parsed : parse_query (unix_time w / 1000000000) template params ≡ ok query
    pub valid : IsValidQuery query
    pub permit : state.permits ≡ suc after.permits
    pub in_window : after.windows ≡ (take_rate_limit_slot (now w) sub state.windows).1

  admitted_injective : (a b : RawQuery) → Path Admission (admitted a) (admitted b) → a ≡ b
  admitted_injective a b h = cc

  acquired :
      (query q : RawQuery) (permits : ℕ) (state after : AppState)
      → acquire query permits state ≡ (admitted q, after)
      → (query ≡ q) × (permits ≡ suc after.permits) × (after.windows ≡ state.windows)
  acquired query q zero state after h = cc
  acquired query q (suc left) state after h = (
    admitted_injective query q (ap (λ (r : Admission × AppState). r.0) h),
    ap (λ (r : Admission × AppState). suc r.1.permits) h,
    sym (ap (λ (r : Admission × AppState). r.1.windows) h),
  )

  admitted_query :
      (parsed : Result QueryError RawQuery) (q : RawQuery) (state after : AppState)
      → admit_query message parsed state ≡ (admitted q, after)
      → (parsed ≡ ok q) × (state.permits ≡ suc after.permits) × (after.windows ≡ state.windows)
  admitted_query (err e) q state after h = cc
  admitted_query (ok query) q state after h =
      let (same, permit, in_window) = acquired query q state.permits state after h in
      (ap ok same, permit, in_window)

  admitted_limited :
      (slot : Option ℕ × RateWindows) (parsed : Result QueryError RawQuery) (q : RawQuery)
      (state after : AppState)
      → admit_limited message slot parsed state ≡ (admitted q, after)
      → (slot.0 ≡ none)
        × (parsed ≡ ok q)
        × (state.permits ≡ suc after.permits)
        × (after.windows ≡ slot.1)
  admitted_limited (some retry, windows) parsed q state after h = cc
  admitted_limited (none, windows) parsed q state after h =
      let (same, permit, in_window) = admitted_query parsed q _ after h in
      (refl, same, permit, in_window)

  admitted_subject :
      (o : Option String) (template : String) (params : Params) (w : World) (state after : AppState)
      (q : RawQuery)
      → admit_subject message o template params w state ≡ (admitted q, after)
      → (sub : String) × (o ≡ some sub)
        × ((take_rate_limit_slot (now w) sub state.windows).0 ≡ none)
        × (parse_query (unix_time w / 1000000000) template params ≡ ok q)
        × (state.permits ≡ suc after.permits)
        × (after.windows ≡ (take_rate_limit_slot (now w) sub state.windows).1)
  admitted_subject none template params w state after q h = cc
  admitted_subject (some sub) template params w state after q h =
      let (in_rate, parsed, permit, in_window) = admitted_limited _ _ q state after h in
      (sub, refl, in_rate, parsed, permit, in_window)

  -- A request gets a permit only if its header has a bearer's token that is valid at this time and
  -- signed with the secret, its subject has a request left, and its query is one that `parse_query`
  -- lets through; it then has one of the permits that were left, and is counted in the window of its
  -- subject.
  pub admit-IsAdmitted :
      (template : String) (authorization : Option String) (params : Params) (w : World)
      (state after : AppState) (query : RawQuery)
      → admit message template authorization params w state ≡ (admitted query, after)
      → IsAdmitted template authorization params w state after query
  unfolding admit
  admit-IsAdmitted template authorization params w state after query h =
      let (sub, authorized, in_rate, parsed, permit, in_window) =
        admitted_subject (authorize state authorization w) template params w state after query h in
      record {
        sub = sub;
        authorized = authorized;
        token = authorize-HasToken authorization w state sub authorized;
        in_rate = in_rate;
        parsed = parsed;
        valid = parse_query-IsValidQuery (unix_time w / 1000000000) template params query parsed;
        permit = permit;
        in_window = in_window;
      }

  abbrev admission : Admission → ℕ
  admission (replied reply) = 0
  admission (admitted query) = 1

  -- Requests that come and end in any order, with the number of those that are upstream.
  pub data Serves (first : AppState) : AppState → ℕ → Type 0 where
    starts : Serves first first 0
    comes :
        {state : AppState} {running : ℕ} (template : String) (authorization : Option String)
        (params : Params) (w : World)
        → Serves first state running
        → Serves first
            (admit message template authorization params w state).1
            (admission (admit message template authorization params w state).0 + running)
    ends :
        {state : AppState} {running : ℕ}
        → Serves first state (suc running)
        → Serves first (release state) running

  -- The permits that are left and the one that is taken are those that there were.
  abbrev Balances : ℕ → Admission × AppState → Type 0
  Balances before r = r.1.permits + admission r.0 ≡ before

  acquire-Balances :
      (query : RawQuery) (permits : ℕ) (state : AppState)
      → state.permits ≡ permits
      → Balances permits (acquire query permits state)
  acquire-Balances query zero state h = omega (arith, h)
  acquire-Balances query (suc left) state h = omega arith

  admit_query-Balances :
      (parsed : Result QueryError RawQuery) (state : AppState)
      → Balances state.permits (admit_query message parsed state)
  admit_query-Balances (err e) state = omega arith
  admit_query-Balances (ok query) state = acquire-Balances query state.permits state refl

  admit_limited-Balances :
      (slot : Option ℕ × RateWindows) (parsed : Result QueryError RawQuery) (state : AppState)
      → Balances state.permits (admit_limited message slot parsed state)
  admit_limited-Balances (some retry, windows) parsed state = omega arith
  admit_limited-Balances (none, windows) parsed state =
      admit_query-Balances parsed (record state { windows = windows })

  admit_subject-Balances :
      (o : Option String) (template : String) (params : Params) (w : World) (state : AppState)
      → Balances state.permits (admit_subject message o template params w state)
  admit_subject-Balances none template params w state = omega arith
  admit_subject-Balances (some sub) template params w state =
      admit_limited-Balances (take_rate_limit_slot (now w) sub state.windows) _ state

  admit-Balances :
      (template : String) (authorization : Option String) (params : Params) (w : World)
      (state : AppState)
      → Balances state.permits (admit message template authorization params w state)
  unfolding admit
  admit-Balances template authorization params w state =
      admit_subject-Balances (authorize state authorization w) template params w state

  -- From a state with 8 permits, whatever requests come and end, in any order: the permits that are
  -- left and the requests that are upstream are 8 together, so that no more than 8 requests are
  -- upstream at a time.
  pub permits-Serves :
      (first state : AppState) (running : ℕ)
      → first.permits ≡ max_upstream_concurrency
      → Serves first state running
      → (state.permits + running ≡ max_upstream_concurrency) × (running ≤ max_upstream_concurrency)
  permits-Serves first state running h run = let sum = together run in (sum, omega (arith, sum))
    where
      together :
          {state : AppState} {running : ℕ}
          → Serves first state running
          → state.permits + running ≡ max_upstream_concurrency
      together starts = omega (arith, h)
      together (comes {state} {running} template authorization params w run) =
          omega (arith, together run, admit-Balances template authorization params w state)
      together (ends run) = omega (arith, together run)
