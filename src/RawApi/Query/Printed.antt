-- ===== src/RawApi/Query/Printed.antt =====
-- Every valid query of src/raw_api.rs has parameters that `parse_query` reads back to it.
use mathlib.Core.Path.{subst}
use rpc_latency_monitor.Prelude.{
  ℕ, ◌+◌, ◌-◌, ◌/◌, ◌≤◌, ◌<◌, ◌≡◌, ◌≢◌, refl, sym, ap, ◌∙◌, ◌⊎◌, inl, inr, String, code, true,
  false, not, ◌&&◌, ◌||◌, Option, none, some, List, [], ◌∷◌, ◌++◌, ◌==◌, ==_iff, nat_eq, string_eq,
  ltb, leb, is_some, is_none, filter_option, contains, contains_elem, elem_contains, elem_right,
  lookup, len, is_blank_text, all_chars, has_char, or_false, Elem, All, Distinct, join, word,
  split_at, arith, Bool-cases, decimal, unwrap_or, ◌<>◌,
}
use rpc_latency_monitor.Prelude.Decimal.{decimal-IsDigits, parse_u64-decimal}
use rpc_latency_monitor.Prelude.Fallible.{ok, ◌>>=◌}
use rpc_latency_monitor.Crates.{Crates}
use rpc_latency_monitor.RawApi.Query.{
  RawQuery, Params, templates, allowed_quantiles, label_char, is_valid_label_value, label,
  checked_label, step_of, parse_step, add_quantiles, quantiles_of, limit_of, parse_query,
  max_sample_limit, time_of, parse_time, max_points, min_step_seconds, default_range_seconds,
  max_range_seconds,
}
use rpc_latency_monitor.RawApi.Query.Valid.{label_char_iff, IsLabel, IsFilter, IsValidQuery}

split_at-plain : (n : ℕ) (s : String) → has_char n s ≡ false → split_at n s ≡ s ∷ []
split_at-plain n String.[] h = refl
split_at-plain n (String.◌∷◌ c s) h =
    let (other, rest) = or_false (code c == n) (has_char n s) h in
    rw other rw (split_at-plain n s rest) refl

split_at-first :
    (s t : String) → has_char b',' s ≡ false → split_at b',' (s <> ("," <> t)) ≡ s ∷ split_at b',' t
split_at-first String.[] t h = refl
split_at-first (String.◌∷◌ c s) t h =
    let (other, rest) = or_false (code c == b',') (has_char b',' s) h in
    rw other rw (split_at-first s t rest) refl

split_at-join :
    (x : String) (xs : List String)
    → All (λ s. has_char b',' s ≡ false) (x ∷ xs)
    → split_at b',' (join "," (x ∷ xs)) ≡ x ∷ xs
split_at-join x [] (h, t) = split_at-plain b',' x h
split_at-join x (y ∷ xs) (h, t) =
    split_at-first x (join "," (y ∷ xs)) h ∙ ap (λ ys. x ∷ ys) (split_at-join y xs t)

plain_quantile : (x : String) → Elem x allowed_quantiles → has_char b',' x ≡ false
plain_quantile x (inl e) = rw e refl
plain_quantile x (inr (inl e)) = rw e refl
plain_quantile x (inr (inr (inl e))) = rw e refl
plain_quantile x (inr (inr (inr (inl e)))) = rw e refl
plain_quantile x (inr (inr (inr (inr never)))) = absurd never

plain_quantiles :
    (xs : List String)
    → All (λ x. Elem x allowed_quantiles) xs
    → All (λ s. has_char b',' s ≡ false) xs
plain_quantiles [] h = tt
plain_quantiles (x ∷ xs) (h, hs) = (plain_quantile x h, plain_quantiles xs hs)

not_before : (a : String) (xs ys : List String) → Distinct (xs ++ a ∷ ys) → ¬ Elem a xs
not_before a [] ys d e = e
not_before a (x ∷ xs) ys (fresh, d) (inl same) = fresh (elem_right x xs (a ∷ ys) (inl (sym same)))
not_before a (x ∷ xs) ys (fresh, d) (inr e) = not_before a xs ys d e

append_none : (xs : List String) → xs ++ [] ≡ xs
append_none [] = refl
append_none (x ∷ xs) = ap (λ ys. x ∷ ys) (append_none xs)

append_one :
    (xs : List String) (a : String) (ys : List String) → xs ++ a ∷ ys ≡ (xs ++ a ∷ []) ++ ys
append_one [] a ys = refl
append_one (x ∷ xs) a ys = ap (λ zs. x ∷ zs) (append_one xs a ys)

add_quantiles-ok :
    (kept qs : List String)
    → Distinct (kept ++ qs)
    → All (λ x. Elem x allowed_quantiles) qs
    → add_quantiles kept qs ≡ ok (kept ++ qs)
unfolding add_quantiles ◌>>=◌
add_quantiles-ok kept [] d h = ap ok (sym (append_none kept))
add_quantiles-ok kept (q ∷ qs) d (h, hs) = rw (elem_contains allowed_quantiles q h) (
    rw (new_one (Bool-cases (contains kept q))) (
      add_quantiles-ok (kept ++ q ∷ []) qs (subst Distinct (append_one kept q qs) d) hs
      ∙ ap ok (sym (append_one kept q qs))))
  where
    new_one : (contains kept q ≡ true) ⊎ (contains kept q ≡ false) → contains kept q ≡ false
    new_one (inl old) = absurd (not_before q kept qs d (contains_elem kept q old))
    new_one (inr new) = new

quantiles_of-join :
    (qs : List String)
    → qs ≢ []
    → Distinct qs
    → All (λ x. Elem x allowed_quantiles) qs
    → quantiles_of (some (join "," qs)) ≡ ok qs
unfolding quantiles_of
quantiles_of-join [] some_one d h = absurd (some_one refl)
quantiles_of-join (x ∷ xs) some_one d h =
    ap (add_quantiles []) (split_at-join x xs (plain_quantiles (x ∷ xs) h))
    ∙ add_quantiles-ok [] (x ∷ xs) d h

plain_chars :
    (v : String)
    → ((n : ℕ) → label_char n ≡ false → has_char n v ≡ false)
    → all_chars label_char v ≡ true
plain_chars String.[] h = refl
plain_chars (String.◌∷◌ c s) h = elim (Bool-cases (label_char (code c))) [
  | inl fits ↦ rw fits (plain_chars s (λ n e. (or_false (code c == n) (has_char n s) (h n e)).1))
  | inr unfit ↦
      absurd (itself (or_false (code c == code c) (has_char (code c) s) (h (code c) unfit)).0)
]
  where
    itself : (code c == code c) ≡ false → ⊥
    itself e = ground (arith, ==_iff (code c) (code c))

blank_is : (v : String) → v ≢ "" → is_blank_text v ≡ false
blank_is String.[] h = absurd (h refl)
blank_is (String.◌∷◌ c s) h = refl

IsLabel-valid : (v : String) → IsLabel v → is_valid_label_value v ≡ true
unfolding is_valid_label_value
IsLabel-valid v h =
    rw (blank_is v h.named) rw (plain_chars v (λ n e. h.plain n ((label_char_iff n).0 e)))
      (short (len v) h.short)
  where
    short : (n : ℕ) → n ≤ 64 → (leb n 64 && true) ≡ true
    short n h = ground arith

-- A filter as the text of a parameter; a blank one asks for nothing.
abbrev pub text_of : Option String → String
text_of o = unwrap_or o ""

abbrev filled : String → Option String
filled v = filter_option (λ t. not (is_blank_text t)) (some v)

checked_label-text :
    (key : String) (o : Option String) → IsFilter o → checked_label key (filled (text_of o)) ≡ ok o
unfolding checked_label
checked_label-text key none h = refl
checked_label-text key (some v) h = rw (blank_is v h.named) rw (IsLabel-valid v h) refl

limit_of-decimal : (n : ℕ) → 0 < n → n ≤ 10000 → limit_of (some (decimal n)) ≡ ok n
unfolding limit_of ◌>>=◌
limit_of-decimal n h k = rw (parse_u64-decimal n (omega arith)) rw (in_range n h k) refl
  where
    in_range : (n : ℕ) → 0 < n → n ≤ 10000 → (n == 0 || ltb max_sample_limit n) ≡ false
    in_range n h k = ground (arith, ==_iff n 0)

parse_step-decimal :
    (range step : ℕ) (params : Params)
    → lookup "step" params ≡ some (decimal step)
    → step < word
    → 60 ≤ step
    → range / step + 1 ≤ 5000
    → parse_step range params ≡ ok step
unfolding parse_step step_of ◌>>=◌
parse_step-decimal range step params found fits least few =
    rw found rw (parse_u64-decimal step fits) rw (not_less step least) rw
      (not_more (range / step + 1) few) refl
  where
    not_less : (n : ℕ) → 60 ≤ n → ltb n min_step_seconds ≡ false
    not_less n h = ground arith

    not_more : (n : ℕ) → n ≤ 5000 → ltb max_points n ≡ false
    not_more n h = ground arith

one_of : (v a b : String) → (v ≡ a) ⊎ (v ≡ b) → (not (v == a) && not (v == b)) ≡ false
one_of v a b h = ground (arith, ==_iff v a, ==_iff v b)

-- The parameters of a query. A filter that is not asked for is a blank text.
abbrev pub printed : RawQuery → Params
printed q =
    ("provider", text_of q.provider)
    ∷ ("method", text_of q.method)
    ∷ ("infra", text_of q.infra)
    ∷ ("region", text_of q.region)
    ∷ ("status", text_of q.status)
    ∷ ("end", decimal q.end)
    ∷ ("start", decimal q.start)
    ∷ ("step", decimal q.step)
    ∷ ("q", join "," q.quantiles)
    ∷ ("by", q.by)
    ∷ ("format", q.format)
    ∷ ("limit", decimal q.limit)
    ∷ []

region_with_infra :
    (region infra : Option String)
    → (is_some region ≡ true → is_some infra ≡ true)
    → (is_some region && is_none infra) ≡ false
region_with_infra none infra h = refl
region_with_infra (some r) none h = cc (h refl)
region_with_infra (some r) (some i) h = refl

no_claim_place :
    (template : String) (infra region : Option String)
    → (template ≡ "claim_checks" → (infra ≡ none) × (region ≡ none))
    → (template == "claim_checks" && (is_some infra || is_some region)) ≡ false
no_claim_place template infra region h = elim (Bool-cases (template == "claim_checks")) [
  | inl same ↦ let (a, b) = h ((==_iff template "claim_checks").0 same) in rw same rw a rw b refl
  | inr other ↦ rw other refl
]

module _ ⦃c : Crates⦄ where
  parse_time-decimal : (n fallback : ℕ) → n < word → parse_time (some (decimal n)) fallback ≡ ok n
  unfolding parse_time time_of
  parse_time-decimal n fallback h =
      let (digits, shown) = decimal-IsDigits n in rw shown rw digits rw (parse_u64-decimal n h) refl

  -- Every valid query has parameters that are read back to it: for a query that satisfies all that
  -- `parse_query` promises of its result, asks for at least one quantile and whose times and step
  -- are numbers of 64 bits, `parse_query` accepts its parameters and returns the query.
  pub parse_query-printed :
      (now : ℕ) (q : RawQuery)
      → IsValidQuery q
      → q.quantiles ≢ []
      → q.end < word
      → q.step < word
      → parse_query now q.template (printed q) ≡ ok q
  unfolding parse_query label ◌>>=◌
  parse_query-printed now q valid some_one end_fits step_fits =
      rw (elem_contains templates q.template valid.known) rw
        (checked_label-text "provider" q.provider valid.labels.0) rw
        (checked_label-text "method" q.method valid.labels.1) rw
        (checked_label-text "infra" q.infra valid.labels.2) rw
        (checked_label-text "region" q.region valid.labels.3) rw
        (checked_label-text "status" q.status valid.labels.4) rw
        (region_with_infra q.region q.infra valid.placed) rw
        (no_claim_place q.template q.infra q.region valid.claim_checks) rw
        (parse_time-decimal q.end now end_fits) rw
        (parse_time-decimal q.start (q.end - default_range_seconds) (omega (arith, valid.ordered)))
        rw (before q.start q.end valid.ordered) rw (within q.start q.end valid.retained) rw
        (parse_step-decimal (q.end - q.start) q.step (printed q) refl step_fits valid.stepped
          valid.few)
        rw (quantiles_of-join q.quantiles some_one valid.quantiles.0 valid.quantiles.1) rw
        (one_of q.by "status" "error_kind" valid.by) rw (one_of q.format "json" "csv" valid.format)
        rw (limit_of-decimal q.limit valid.limited.0 valid.limited.1) refl
    where
      before : (start end : ℕ) → start < end → leb end start ≡ false
      before start end h = ground arith

      within :
          (start end : ℕ) → end ≤ start + 34560000 → ltb max_range_seconds (end - start) ≡ false
      within start end h = ground arith
