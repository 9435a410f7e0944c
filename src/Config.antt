-- ===== src/Config.antt =====
-- src/config.rs: the configuration after parsing, its defaults, and `validate`. Durations are
-- nanoseconds. Figment and the YAML file are outside.
pub mod Valid
pub mod Load
use text.Mathlib.Text.{starts_with}
use rpc_latency_monitor.Prelude.{
  ℕ, String, Bool, true, false, not, ◌&&◌, ◌||◌, Option, none, some, List, [], ◌∷◌, ◌==◌, nat_eq,
  string_eq, ltb, length, is_empty, is_none, any, contains, unwrap_or, if◌then◌else◌,
}
use rpc_latency_monitor.Crates.{Crates}
use rpc_latency_monitor.Target.{
  GpaTarget, MemcmpFilter, derived_target_prefix, builtin_token_owner_target,
}
use rpc_latency_monitor.Method.{RpcMethod, get_program_accounts}

pub record ReferenceCheckConfig : Type 0 where
  pub rpc_url : String
  pub exclude_provider : Option String
  pub interval : ℕ
  pub depth : ℕ
  pub claim_delay_slots : ℕ
  pub claim_margin : ℕ
  pub claim_count_tolerance : ℕ
  pub node_stale_slots : ℕ

-- The defaults of the fields, in nanoseconds where they are times.
abbrev pub default_reference_interval : ℕ
default_reference_interval = 300000000000

abbrev pub default_reference_depth : ℕ
default_reference_depth = 64

abbrev pub default_claim_delay_slots : ℕ
default_claim_delay_slots = 32

abbrev pub default_claim_margin : ℕ
default_claim_margin = 16

abbrev pub default_claim_count_tolerance : ℕ
default_claim_count_tolerance = 8

abbrev pub default_node_stale_slots : ℕ
default_node_stale_slots = 64

-- `Default for ReferenceCheckConfig`
abbrev pub default_reference_check : ReferenceCheckConfig
default_reference_check = record {
  rpc_url = "";
  exclude_provider = none;
  interval = default_reference_interval;
  depth = default_reference_depth;
  claim_delay_slots = default_claim_delay_slots;
  claim_margin = default_claim_margin;
  claim_count_tolerance = default_claim_count_tolerance;
  node_stale_slots = default_node_stale_slots;
}

-- The address as a text.
pub record ServerConfig : Type 0 where
  pub bind : String

pub data ReferenceSource : Type 0 where
  max_observed endpoint : ReferenceSource

pub record ReferenceSlotConfig : Type 0 where
  pub source : ReferenceSource
  pub endpoint : Option String
  pub poll_interval : ℕ

pub record ProviderConfig : Type 0 where
  pub name : String
  pub url : String
  pub geos : List String
  pub region_urls : List (String × String)

pub record GpaDeriveConfig : Type 0 where
  pub endpoint : String
  pub interval : ℕ
  pub min_accounts : ℕ
  pub max_accounts : ℕ

pub record CheckConfig : Type 0 where
  pub method : RpcMethod
  pub interval : ℕ
  pub jitter : ℕ
  pub timeout : Option ℕ

pub record Config : Type 0 where
  pub region : String
  pub server : ServerConfig
  pub reference_slot : ReferenceSlotConfig
  pub providers : List ProviderConfig
  pub checks : List CheckConfig
  pub gpa_targets : List GpaTarget
  pub gpa_derive : Option GpaDeriveConfig
  pub request_timeout : ℕ
  pub archival_interval : ℕ
  pub archival_timeout : ℕ
  pub max_slot_lag : ℕ
  pub reference_check : ReferenceCheckConfig
  pub claim_checks : Bool

abbrev pub default_gpa_targets : List GpaTarget
default_gpa_targets = builtin_token_owner_target ∷ []

-- The messages of `bail!`, with the name that they show.
pub data ConfigError : Type 0 where
  no_providers no_checks no_reference_endpoint no_gpa_target : ConfigError
  no_derive_endpoint zero_derive_interval bad_derive_bounds : ConfigError
  duplicate_provider duplicate_target reserved_prefix no_filter : String → ConfigError
  bad_program bad_memcmp : String → ConfigError

pub data Checked : Type 0 where
  ok : Checked
  bail : ConfigError → Checked

-- A check, and the checks after it.
infixl 5 ◌>>◌
abbrev ◌>>◌ : Checked → Checked → Checked
ok >> k = k
bail e >> k = bail e

abbrev refuse : Bool → ConfigError → Checked
refuse true e = bail e
refuse false e = ok

-- The loop over the providers, with the names that it has seen.
distinct_providers : List String → List ProviderConfig → Checked
distinct_providers seen [] = ok
distinct_providers seen (p ∷ ps) = do
  refuse (contains seen p.name) (duplicate_provider p.name)
  distinct_providers (p.name ∷ seen) ps

abbrev needs_endpoint : ReferenceSlotConfig → Bool
needs_endpoint r = elim r.source [ max_observed ↦ false | endpoint ↦ is_none r.endpoint ]

abbrev is_program_accounts : RpcMethod → Bool
is_program_accounts get_program_accounts = true
is_program_accounts _ = false

valid_derive : Option GpaDeriveConfig → Checked
valid_derive none = ok
valid_derive (some d) = do
  refuse (d.endpoint == "") no_derive_endpoint
  refuse (d.interval == 0) zero_derive_interval
  refuse (d.min_accounts == 0 || ltb d.max_accounts d.min_accounts) bad_derive_bounds

module _ ⦃c : Crates⦄ where
  open c use {decode_bs58}

  -- `.map(|b| b.len()).unwrap_or(0)`
  abbrev decoded_len : Option (List ℕ) → ℕ
  decoded_len none = 0
  decoded_len (some bytes) = length bytes

  -- `.map(|b| b.is_empty()).unwrap_or(true)`
  abbrev decoded_empty : Option (List ℕ) → Bool
  decoded_empty none = true
  decoded_empty (some bytes) = is_empty bytes

  valid_filters : String → List MemcmpFilter → Checked
  valid_filters name [] = ok
  valid_filters name (f ∷ fs) = do
    refuse (decoded_empty (decode_bs58 f.bytes)) (bad_memcmp name)
    valid_filters name fs

  valid_target : GpaTarget → Checked
  unfolding valid_filters
  valid_target t = do
    refuse (starts_with t.name derived_target_prefix) (reserved_prefix t.name)
    refuse (is_none t.data_size && is_empty t.memcmp) (no_filter t.name)
    refuse (not (decoded_len (decode_bs58 t.program) == 32)) (bad_program t.name)
    valid_filters t.name t.memcmp

  valid_targets : List String → List GpaTarget → Checked
  unfolding valid_target
  valid_targets names [] = ok
  valid_targets names (t ∷ ts) = do
    refuse (contains names t.name) (duplicate_target t.name)
    valid_target t
    valid_targets (t.name ∷ names) ts

  unfoldable pub validate : Config → Checked
  unfolding distinct_providers valid_derive valid_targets
  validate config = do
    refuse (is_empty config.providers) no_providers
    refuse (is_empty config.checks) no_checks
    distinct_providers [] config.providers
    refuse (needs_endpoint config.reference_slot) no_reference_endpoint
    refuse
        (any (λ (k : CheckConfig). is_program_accounts k.method) config.checks
          && is_empty config.gpa_targets)
        no_gpa_target
    valid_derive config.gpa_derive
    valid_targets [] config.gpa_targets
