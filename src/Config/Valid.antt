-- ===== src/Config/Valid.antt =====
-- What `validate` of src/config.rs lets through.
use mathlib.Core.Path.{subst}
use text.Mathlib.Text.{starts_with}
use rpc_latency_monitor.Prelude.{
  or_false, ℕ, ◌≤◌, ◌<◌, ◌≡◌, ◌≢◌, refl, ◌⊎◌, inl, inr, String, Bool, true, false, not, ◌&&◌,
  Option, none, some, List, [], ◌∷◌, ◌==◌, ==_iff, nat_eq, string_eq, ltb, is_empty, is_none,
  contains-false, map, Elem, All, Distinct, arith,
}
use rpc_latency_monitor.Crates.{Crates}
use rpc_latency_monitor.Target.{GpaTarget, MemcmpFilter, derived_target_prefix}
use rpc_latency_monitor.Config.{
  ProviderConfig, GpaDeriveConfig, Config, ConfigError, Checked, ok, bail, ◌>>◌, refuse,
  distinct_providers, needs_endpoint, valid_derive, decoded_len, decoded_empty, valid_filters,
  valid_target, valid_targets, validate,
}

both_ok : (a b : Checked) → (a >> b) ≡ ok → (a ≡ ok) × (b ≡ ok)
both_ok ok b h = (refl, h)
both_ok (bail e) b h = cc

refuse_ok : (b : Bool) (e : ConfigError) → refuse b e ≡ ok → b ≡ false
refuse_ok true e h = cc
refuse_ok false e h = refl

exact_length : (n : ℕ) → not (n == 32) ≡ false → n ≡ 32
exact_length n h = ground (arith, ==_iff n 32)

positive : (n : ℕ) → (n == 0) ≡ false → 0 < n
positive n h = ground (arith, ==_iff n 0)

in_order : (a b : ℕ) → ltb b a ≡ false → a ≤ b
in_order a b h = ground arith

abbrev pub names_of : List ProviderConfig → List String
names_of ps = map (λ (p : ProviderConfig). p.name) ps

abbrev pub target_names : List GpaTarget → List String
target_names ts = map (λ (t : GpaTarget). t.name) ts

distinct_from :
    (seen : List String) (ps : List ProviderConfig)
    → distinct_providers seen ps ≡ ok
    → Distinct (names_of ps) × ((n : String) → Elem n (names_of ps) → ¬ Elem n seen)
unfolding distinct_providers
distinct_from seen [] h = (tt, λ n e. absurd e)
distinct_from seen (p ∷ ps) h =
    let (fresh, later) = both_ok _ _ h in
    let (distinct, apart) = distinct_from (p.name ∷ seen) ps later in
    (
      ((λ e. apart p.name e (inl refl)), distinct),
      λ n e. elim e [
        | inl same ↦
            λ m. contains-false seen p.name (refuse_ok _ _ fresh) (subst (λ x. Elem x seen) same m)
        | inr old ↦ λ m. apart n old (inr m)
      ],
    )

abbrev pub HasBounds : Option GpaDeriveConfig → Type 0
HasBounds none = Unit
HasBounds (some d) = (0 < d.interval) × (0 < d.min_accounts) × (d.min_accounts ≤ d.max_accounts)

derive-HasBounds : (d : Option GpaDeriveConfig) → valid_derive d ≡ ok → HasBounds d
unfolding valid_derive
derive-HasBounds none h = tt
derive-HasBounds (some d) h =
    let (named, rest) = both_ok _ _ h in
    let (timed, bounds) = both_ok _ _ rest in
    let (least, order) = or_false _ _ (refuse_ok _ _ bounds) in
    (
      positive d.interval (refuse_ok _ _ timed),
      positive d.min_accounts least,
      in_order d.min_accounts d.max_accounts order,
    )

module _ ⦃c : Crates⦄ where
  open c use {decode_bs58}

  -- A target outside the reserved names, with a filter, a program of 32 bytes, and filters that decode.
  pub record IsValidTarget (t : GpaTarget) : Type 0 where
    pub unreserved : starts_with t.name derived_target_prefix ≡ false
    pub filtered : (is_none t.data_size ≡ false) ⊎ (t.memcmp ≢ [])
    pub program : decoded_len (decode_bs58 t.program) ≡ 32
    pub memcmp : All (λ (f : MemcmpFilter). decoded_empty (decode_bs58 f.bytes) ≡ false) t.memcmp

  filters_decode :
      (name : String) (fs : List MemcmpFilter)
      → valid_filters name fs ≡ ok
      → All (λ (f : MemcmpFilter). decoded_empty (decode_bs58 f.bytes) ≡ false) fs
  unfolding valid_filters
  filters_decode name [] h = tt
  filters_decode name (f ∷ fs) h =
      let (one, rest) = both_ok _ _ h in (refuse_ok _ _ one, filters_decode name fs rest)

  filtered_from :
      (size : Option ℕ) (fs : List MemcmpFilter)
      → (is_none size && is_empty fs) ≡ false
      → (is_none size ≡ false) ⊎ (fs ≢ [])
  filtered_from (some n) fs h = inl refl
  filtered_from none [] h = cc
  filtered_from none (f ∷ fs) h = inr (λ e. cc)

  target-IsValidTarget : (t : GpaTarget) → valid_target t ≡ ok → IsValidTarget t
  unfolding valid_target
  target-IsValidTarget t h =
      let (reserved, h1) = both_ok _ _ h in
      let (filter, h2) = both_ok _ _ h1 in
      let (program, memcmp) = both_ok _ _ h2 in
      record {
        unreserved = refuse_ok _ _ reserved;
        filtered = filtered_from t.data_size t.memcmp (refuse_ok _ _ filter);
        program = exact_length (decoded_len (decode_bs58 t.program)) (refuse_ok _ _ program);
        memcmp = filters_decode t.name t.memcmp memcmp;
      }

  targets_from :
      (names : List String) (ts : List GpaTarget)
      → valid_targets names ts ≡ ok
      → Distinct (target_names ts)
        × ((n : String) → Elem n (target_names ts) → ¬ Elem n names)
        × All IsValidTarget ts
  unfolding valid_targets
  targets_from names [] h = (tt, (λ n e. absurd e), tt)
  targets_from names (t ∷ ts) h =
      let (fresh, h1) = both_ok _ _ h in
      let (target, later) = both_ok _ _ h1 in
      let (distinct, apart, valid) = targets_from (t.name ∷ names) ts later in
      (
        ((λ e. apart t.name e (inl refl)), distinct),
        (λ n e. elim e [
          | inl same ↦ λ m.
              contains-false names t.name (refuse_ok _ _ fresh) (subst (λ x. Elem x names) same m)
          | inr old ↦ λ m. apart n old (inr m)
        ]),
        (target-IsValidTarget t target, valid),
      )

  pub record IsValid (config : Config) : Type 0 where
    pub providers : is_empty config.providers ≡ false
    pub checks : is_empty config.checks ≡ false
    pub distinct_providers : Distinct (names_of config.providers)
    pub endpoint : needs_endpoint config.reference_slot ≡ false
    pub derive : HasBounds config.gpa_derive
    pub distinct_targets : Distinct (target_names config.gpa_targets)
    pub targets : All IsValidTarget config.gpa_targets

  -- A configuration that `validate` lets through has providers and checks, no two providers of one
  -- name, no two targets of one name, an endpoint if the reference slot comes from one, derive
  -- bounds that are positive and in order, and targets that are outside the reserved names, have a
  -- filter, name a program of 32 bytes and have only filters that decode.
  pub validate-IsValid : (config : Config) → validate config ≡ ok → IsValid config
  unfolding validate
  validate-IsValid config h =
      let (h1, rest1) = both_ok _ _ h in
      let (h2, rest2) = both_ok _ _ rest1 in
      let (h3, rest3) = both_ok _ _ rest2 in
      let (h4, rest4) = both_ok _ _ rest3 in
      let (h5, rest5) = both_ok _ _ rest4 in
      let (h6, h7) = both_ok _ _ rest5 in
      let (distinct, apart, valid) = targets_from [] config.gpa_targets h7 in
      record {
        providers = refuse_ok _ _ h1;
        checks = refuse_ok _ _ h2;
        distinct_providers = (distinct_from [] config.providers h3).0;
        endpoint = refuse_ok _ _ h4;
        derive = derive-HasBounds config.gpa_derive h6;
        distinct_targets = distinct;
        targets = valid;
      }
