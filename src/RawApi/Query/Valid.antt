-- ===== src/RawApi/Query/Valid.antt =====
-- What `parse_query` of src/raw_api.rs lets through.
use mathlib.Core.Path.{subst}
use rpc_latency_monitor.Prelude.{
  ℕ, ◌+◌, ◌-◌, ◌/◌, ◌≤◌, ◌<◌, ◌≡◌, ◌≢◌, refl, ap, ◌∙◌, ◌⊎◌, ◌↔◌, inl, inr, String, code, Bool, true,
  false, not, ◌&&◌, ◌||◌, Option, none, some, List, [], ◌∷◌, ◌++◌, ◌==◌, ==_iff, nat_eq, string_eq,
  ltb, leb, is_some, is_none, filter_option, contains, contains_elem, contains-false, lookup, len,
  is_blank_text, all_chars, has_char, and_true, or_false, not-false, Elem, All, Distinct,
  Distinct-concat, All-concat, split_at, arith, Bool-cases, if◌then◌else◌,
}
use rpc_latency_monitor.Prelude.Fallible.{Result, ok, err, ◌>>=◌, bind_ok, guard_ok, ok_injective}
use rpc_latency_monitor.Crates.{Crates}
use rpc_latency_monitor.RawApi.Query.{
  QueryError, invalid_label, RawQuery, Params, templates, allowed_quantiles, default_quantiles,
  label_char, is_valid_label_value, label, checked_label, step_of, parse_step, add_quantiles,
  quantiles_of, limit_of, parse_query, max_sample_limit,
}
use rpc_latency_monitor.RawApi.Query.Step.{step_covers}

-- A digit, a letter of ASCII, an underscore, a dash or a full stop.
abbrev pub IsLabelChar : ℕ → Type 0
IsLabelChar n =
    ((48 ≤ n) × (n ≤ 57))
    ⊎ ((65 ≤ n) × (n ≤ 90))
    ⊎ ((97 ≤ n) × (n ≤ 122))
    ⊎ (n ≡ 95)
    ⊎ (n ≡ 45)
    ⊎ (n ≡ 46)

pub label_char_iff : (n : ℕ) → (label_char n ≡ false) ↔ ¬ IsLabelChar n
label_char_iff n = ((λ h k. ground arith), λ h. ground arith)

-- A label has 1 to 64 bytes, and no character but those of labels.
pub record IsLabel (v : String) : Type 0 where
  pub named : v ≢ ""
  pub short : len v ≤ 64
  pub plain : (n : ℕ) → ¬ IsLabelChar n → has_char n v ≡ false

abbrev pub IsFilter : Option String → Type 0
IsFilter none = Unit
IsFilter (some v) = IsLabel v

-- The number of points from the start to the end, both included.
abbrev pub points : RawQuery → ℕ
points q = (q.end - q.start) / q.step + 1

pub record IsValidQuery (q : RawQuery) : Type 0 where
  pub known : Elem q.template templates
  pub labels :
      IsFilter q.provider
      × IsFilter q.method
      × IsFilter q.infra
      × IsFilter q.region
      × IsFilter q.status
  pub placed : is_some q.region ≡ true → is_some q.infra ≡ true
  pub claim_checks : q.template ≡ "claim_checks" → (q.infra ≡ none) × (q.region ≡ none)
  pub ordered : q.start < q.end
  pub retained : q.end ≤ q.start + 34560000
  pub stepped : 60 ≤ q.step
  pub few : points q ≤ 5000
  pub quantiles : Distinct q.quantiles × All (λ x. Elem x allowed_quantiles) q.quantiles
  pub by : (q.by ≡ "status") ⊎ (q.by ≡ "error_kind")
  pub format : (q.format ≡ "json") ⊎ (q.format ≡ "csv")
  pub limited : (0 < q.limit) × (q.limit ≤ 10000)

no_other_char :
    (n : ℕ) (s : String)
    → all_chars label_char s ≡ true
    → label_char n ≡ false
    → has_char n s ≡ false
no_other_char n String.[] h k = refl
no_other_char n (String.◌∷◌ c s) h k =
    let (fits, rest) = and_true (label_char (code c)) (all_chars label_char s) h in
    ground (arith, ==_iff (code c) n, no_other_char n s rest k)

pub is_valid_label_value-IsLabel : (v : String) → is_valid_label_value v ≡ true → IsLabel v
unfolding is_valid_label_value
is_valid_label_value-IsLabel v h =
    let (both, plain) =
      and_true (not (is_blank_text v) && leb (len v) 64) (all_chars label_char v) h in
    let (named, short) = and_true (not (is_blank_text v)) (leb (len v) 64) both in
    record {
      named = λ e. ground (arith, ap is_blank_text e);
      short = ground arith;
      plain = λ n k. no_other_char n v plain ((label_char_iff n).1 k);
    }

label_injective :
    (v w : String) → Path (Result QueryError (Option String)) (ok (some v)) (ok (some w)) → v ≡ w
label_injective v w h = cc

checked-IsFilter : (key : String) (o r : Option String) → checked_label key o ≡ ok r → IsFilter r
unfolding checked_label
checked-IsFilter key none none h = tt
checked-IsFilter key none (some v) h = cc
checked-IsFilter key (some v) none h = tt
checked-IsFilter key (some v) (some w) h = valid_label v w (is_valid_label_value v) refl h
  where
    valid_label :
        (v w : String) (fits : Bool)
        → is_valid_label_value v ≡ fits
        → (if fits then ok (some v) else err (invalid_label key v)) ≡ ok (some w)
        → IsLabel w
    valid_label v w true fits e =
        is_valid_label_value-IsLabel w
          (subst (λ x. is_valid_label_value x ≡ true) (label_injective v w e) fits)
    valid_label v w false fits e = cc

label-IsFilter :
    (params : Params) (key : String) (r : Option String) → label params key ≡ ok r → IsFilter r
unfolding label
label-IsFilter params key r h =
    checked-IsFilter key (filter_option (λ v. not (is_blank_text v)) (lookup key params)) r h

given_step : (range : ℕ) (o : Option String) (step : ℕ) → step_of range o ≡ ok step → 60 ≤ step
unfolding step_of
given_step range none step h = omega (arith, ok_injective _ _ h, (step_covers range).0)
given_step range (some v) step h = bind_ok _ _ _ h λ n read rest.
    guard_ok _ _ _ _ rest λ enough same. subst (λ s. 60 ≤ s) (ok_injective _ _ same) (ground arith)

parse_step_bounds :
    (range : ℕ) (params : Params) (step : ℕ)
    → parse_step range params ≡ ok step
    → (60 ≤ step) × (range / step + 1 ≤ 5000)
unfolding parse_step
parse_step_bounds range params step h = bind_ok _ _ _ h λ n read rest.
    guard_ok _ _ _ _ rest λ few same.
      subst (λ s. (60 ≤ s) × (range / s + 1 ≤ 5000)) (ok_injective _ _ same)
        (given_step range (lookup "step" params) n read, ground arith)

add_one :
    (kept : List String) (q : String) (seen : Bool)
    → contains kept q ≡ seen
    → contains allowed_quantiles q ≡ true
    → Distinct kept × All (λ x. Elem x allowed_quantiles) kept
    → Distinct (if seen then kept else kept ++ q ∷ [])
      × All (λ x. Elem x allowed_quantiles) (if seen then kept else kept ++ q ∷ [])
add_one kept q true h allowed fine = fine
add_one kept q false h allowed (apart, fine) = (
  Distinct-concat kept q apart (contains-false kept q h),
  All-concat (λ x. Elem x allowed_quantiles) kept fine (contains_elem allowed_quantiles q allowed),
)

add_quantiles_sound :
    (qs kept r : List String)
    → Distinct kept × All (λ x. Elem x allowed_quantiles) kept
    → add_quantiles kept qs ≡ ok r
    → Distinct r × All (λ x. Elem x allowed_quantiles) r
unfolding add_quantiles
add_quantiles_sound [] kept r fine h =
    subst (λ x. Distinct x × All (λ y. Elem y allowed_quantiles) x) (ok_injective _ _ h) fine
add_quantiles_sound (q ∷ qs) kept r fine h = guard_ok _ _ _ _ h λ allowed rest.
    add_quantiles_sound qs (if contains kept q then kept else kept ++ q ∷ []) r
      (add_one kept q (contains kept q) refl (not-false (contains allowed_quantiles q) allowed)
        fine)
      rest

-- The default, as the loop would have read it.
defaults_kept : add_quantiles [] default_quantiles ≡ ok default_quantiles
unfolding add_quantiles ◌>>=◌
defaults_kept = refl

quantiles_sound :
    (o : Option String) (r : List String)
    → quantiles_of o ≡ ok r
    → Distinct r × All (λ x. Elem x allowed_quantiles) r
unfolding quantiles_of
quantiles_sound none r h = add_quantiles_sound default_quantiles [] r (tt, tt) (defaults_kept ∙ h)
quantiles_sound (some v) r h = add_quantiles_sound (split_at b',' v) [] r (tt, tt) h

one_of : (x a b : String) → (not (x == a) && not (x == b)) ≡ false → (x ≡ a) ⊎ (x ≡ b)
one_of x a b h = elim (Bool-cases (x == a)) [
  | inl same ↦ inl ((==_iff x a).0 same)
  | inr other ↦ inr ((==_iff x b).0 (ground arith))
]

region_placed :
    (infra region : Option String)
    → (is_some region && is_none infra) ≡ false
    → is_some region ≡ true
    → is_some infra ≡ true
region_placed (some i) region h k = refl
region_placed none (some r) h k = cc
region_placed none none h k = cc

no_place :
    (template : String) (infra region : Option String)
    → (template == "claim_checks" && (is_some infra || is_some region)) ≡ false
    → template ≡ "claim_checks"
    → (infra ≡ none) × (region ≡ none)
no_place template none none h k = (refl, refl)
no_place template (some i) region h k = ground (arith, ==_iff template "claim_checks")
no_place template none (some r) h k = ground (arith, ==_iff template "claim_checks")

limit_bounds : (o : Option String) (n : ℕ) → limit_of o ≡ ok n → (0 < n) × (n ≤ 10000)
unfolding limit_of
limit_bounds none n h =
    subst (λ x. (0 < x) × (x ≤ 10000)) (ok_injective _ _ h) (omega arith, omega arith)
limit_bounds (some v) n h = bind_ok _ _ _ h λ m read rest. guard_ok _ _ _ _ rest λ fits same.
    let (positive, most) = or_false (m == 0) (ltb max_sample_limit m) fits in
    subst (λ x. (0 < x) × (x ≤ 10000)) (ok_injective _ _ same)
      (ground (arith, ==_iff m 0), ground arith)

module _ ⦃c : Crates⦄ where
  -- A query that `parse_query` lets through has a template of the list; filters of 1 to 64 bytes,
  -- made of letters, digits, `_`, `-` and `.`; no region without an infrastructure, and neither
  -- with `claim_checks`; a start before its end, by 34,560,000 seconds at most; a step of 60
  -- seconds or more, with 5000 points at most, both ends counted; quantiles from the list, without
  -- repetition; one of the two breakdowns and one of the two formats; and a limit from 1 to 10000.
  pub parse_query-IsValidQuery :
      (now : ℕ) (template : String) (params : Params) (q : RawQuery)
      → parse_query now template params ≡ ok q
      → IsValidQuery q
  unfolding parse_query
  parse_query-IsValidQuery now template params q h0 = guard_ok _ _ _ _ h0 λ known h1.
      bind_ok _ _ _ h1 λ provider p1 h2. bind_ok _ _ _ h2 λ method p2 h3.
        bind_ok _ _ _ h3 λ infra p3 h4. bind_ok _ _ _ h4 λ region p4 h5.
          bind_ok _ _ _ h5 λ status p5 h6. guard_ok _ _ _ _ h6 λ placed h7.
            guard_ok _ _ _ _ h7 λ unplaced h8. bind_ok _ _ _ h8 λ end p6 h9.
              bind_ok _ _ _ h9 λ start p7 h10. guard_ok _ _ _ _ h10 λ ordered h11.
                guard_ok _ _ _ _ h11 λ retained h12. bind_ok _ _ _ h12 λ step p8 h13.
                  bind_ok _ _ _ h13 λ quantiles p9 h14. guard_ok _ _ _ _ h14 λ by_known h15.
                    guard_ok _ _ _ _ h15 λ format_known h16. bind_ok _ _ _ h16 λ limit p10 h17.
                      let (stepped, few) = parse_step_bounds (end - start) params step p8 in
                      subst IsValidQuery (ok_injective _ _ h17) (record {
                        known =
                            contains_elem templates template
                              (not-false (contains templates template) known);
                        labels = (
                          label-IsFilter params "provider" provider p1,
                          label-IsFilter params "method" method p2,
                          label-IsFilter params "infra" infra p3,
                          label-IsFilter params "region" region p4,
                          label-IsFilter params "status" status p5,
                        );
                        placed = region_placed infra region placed;
                        claim_checks = no_place template infra region unplaced;
                        ordered = ground arith;
                        retained = ground arith;
                        stepped = stepped;
                        few = few;
                        quantiles = quantiles_sound (lookup "q" params) quantiles p9;
                        by = one_of _ _ _ by_known;
                        format = one_of _ _ _ format_known;
                        limited = limit_bounds (lookup "limit" params) limit p10;
                      })
