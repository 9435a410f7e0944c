-- ===== src/Config/Load.antt =====
-- `Config::load` of src/config.rs. Figment reads and merges the file and the environment, which is a
-- parameter; what it gives is a document, whose missing fields have the defaults that the
-- attributes of the structures name.
use rpc_latency_monitor.Prelude.{
  ℕ, String, Bool, false, Option, none, some, List, [], map, unwrap_or,
}
use rpc_latency_monitor.Prelude.Fallible.{Result, ok, err}
use rpc_latency_monitor.Crates.{Crates}
use rpc_latency_monitor.Target.{GpaTarget, MemcmpFilter}
use rpc_latency_monitor.Method.{RpcMethod}
use rpc_latency_monitor.Config.{
  ReferenceCheckConfig, default_reference_interval, default_reference_depth,
  default_claim_delay_slots, default_claim_margin, default_claim_count_tolerance,
  default_node_stale_slots, default_reference_check, ReferenceSource, max_observed,
  ReferenceSlotConfig, ProviderConfig, ServerConfig, GpaDeriveConfig, CheckConfig, Config,
  default_gpa_targets, ConfigError, Checked, bail, validate,
}

abbrev pub default_poll_interval : ℕ
default_poll_interval = 1000000000

-- `Default for ReferenceSlotConfig`
abbrev pub default_reference_slot : ReferenceSlotConfig
default_reference_slot = record {
  source = max_observed;
  endpoint = none;
  poll_interval = default_poll_interval;
}

abbrev default_gpa_derive_interval : ℕ
default_gpa_derive_interval = 300000000000

abbrev default_gpa_derive_min_accounts : ℕ
default_gpa_derive_min_accounts = 5

abbrev default_gpa_derive_max_accounts : ℕ
default_gpa_derive_max_accounts = 200

abbrev default_request_timeout : ℕ
default_request_timeout = 10000000000

abbrev default_archival_interval : ℕ
default_archival_interval = 30000000000

abbrev default_archival_timeout : ℕ
default_archival_timeout = 30000000000

abbrev default_max_slot_lag : ℕ
default_max_slot_lag = 30

-- The documents: a field with a default may be missing.
pub record ReferenceCheckDocument : Type 0 where
  pub rpc_url : Option String
  pub exclude_provider : Option String
  pub interval : Option ℕ
  pub depth : Option ℕ
  pub claim_delay_slots : Option ℕ
  pub claim_margin : Option ℕ
  pub claim_count_tolerance : Option ℕ
  pub node_stale_slots : Option ℕ

pub record ReferenceSlotDocument : Type 0 where
  pub source : ReferenceSource
  pub endpoint : Option String
  pub poll_interval : Option ℕ

pub record ProviderDocument : Type 0 where
  pub name : String
  pub url : String
  pub geos : Option (List String)
  pub region_urls : Option (List (String × String))

pub record GpaTargetDocument : Type 0 where
  pub name : String
  pub program : String
  pub data_size : Option ℕ
  pub memcmp : Option (List MemcmpFilter)

pub record GpaDeriveDocument : Type 0 where
  pub endpoint : String
  pub interval : Option ℕ
  pub min_accounts : Option ℕ
  pub max_accounts : Option ℕ

pub record CheckDocument : Type 0 where
  pub method : RpcMethod
  pub interval : ℕ
  pub jitter : Option ℕ
  pub timeout : Option ℕ

pub record ConfigDocument : Type 0 where
  pub region : String
  pub server : ServerConfig
  pub reference_slot : Option ReferenceSlotDocument
  pub providers : List ProviderDocument
  pub checks : List CheckDocument
  pub gpa_targets : Option (List GpaTargetDocument)
  pub gpa_derive : Option GpaDeriveDocument
  pub request_timeout : Option ℕ
  pub archival_interval : Option ℕ
  pub archival_timeout : Option ℕ
  pub max_slot_lag : Option ℕ
  pub reference_check : Option ReferenceCheckDocument
  pub claim_checks : Option Bool

abbrev filled_reference_check : Option ReferenceCheckDocument → ReferenceCheckConfig
filled_reference_check none = default_reference_check
filled_reference_check (some d) = record {
  rpc_url = unwrap_or d.rpc_url "";
  exclude_provider = d.exclude_provider;
  interval = unwrap_or d.interval default_reference_interval;
  depth = unwrap_or d.depth default_reference_depth;
  claim_delay_slots = unwrap_or d.claim_delay_slots default_claim_delay_slots;
  claim_margin = unwrap_or d.claim_margin default_claim_margin;
  claim_count_tolerance = unwrap_or d.claim_count_tolerance default_claim_count_tolerance;
  node_stale_slots = unwrap_or d.node_stale_slots default_node_stale_slots;
}

abbrev filled_reference_slot : Option ReferenceSlotDocument → ReferenceSlotConfig
filled_reference_slot none = default_reference_slot
filled_reference_slot (some d) = record {
  source = d.source;
  endpoint = d.endpoint;
  poll_interval = unwrap_or d.poll_interval default_poll_interval;
}

abbrev filled_provider : ProviderDocument → ProviderConfig
filled_provider d = record {
  name = d.name;
  url = d.url;
  geos = unwrap_or d.geos [];
  region_urls = unwrap_or d.region_urls [];
}

abbrev filled_target : GpaTargetDocument → GpaTarget
filled_target d = record {
  name = d.name;
  program = d.program;
  data_size = d.data_size;
  memcmp = unwrap_or d.memcmp [];
}

abbrev filled_targets : Option (List GpaTargetDocument) → List GpaTarget
filled_targets none = default_gpa_targets
filled_targets (some ds) = map filled_target ds

abbrev filled_derive : Option GpaDeriveDocument → Option GpaDeriveConfig
filled_derive none = none
filled_derive (some d) = some (record {
  endpoint = d.endpoint;
  interval = unwrap_or d.interval default_gpa_derive_interval;
  min_accounts = unwrap_or d.min_accounts default_gpa_derive_min_accounts;
  max_accounts = unwrap_or d.max_accounts default_gpa_derive_max_accounts;
})

abbrev filled_check : CheckDocument → CheckConfig
filled_check d = record {
  method = d.method;
  interval = d.interval;
  jitter = unwrap_or d.jitter 0;
  timeout = d.timeout;
}

abbrev pub filled : ConfigDocument → Config
filled d = record {
  region = d.region;
  server = d.server;
  reference_slot = filled_reference_slot d.reference_slot;
  providers = map filled_provider d.providers;
  checks = map filled_check d.checks;
  gpa_targets = filled_targets d.gpa_targets;
  gpa_derive = filled_derive d.gpa_derive;
  request_timeout = unwrap_or d.request_timeout default_request_timeout;
  archival_interval = unwrap_or d.archival_interval default_archival_interval;
  archival_timeout = unwrap_or d.archival_timeout default_archival_timeout;
  max_slot_lag = unwrap_or d.max_slot_lag default_max_slot_lag;
  reference_check = filled_reference_check d.reference_check;
  claim_checks = unwrap_or d.claim_checks false;
}

pub data LoadError : Type 0 where
  not_extracted : String → LoadError
  not_valid : ConfigError → LoadError

-- `config.validate()?; Ok(config)`
abbrev pub validated : Config → Checked → Result LoadError Config
validated config Checked.ok = ok config
validated config (bail e) = err (not_valid e)

module _ ⦃c : Crates⦄ (extract : String → Option ConfigDocument) where
  abbrev pub extracted : String → Option ConfigDocument → Result LoadError Config
  extracted path none = err (not_extracted path)
  extracted path (some d) = validated (filled d) (validate (filled d))

  unfoldable pub load : String → Result LoadError Config
  load path = extracted path (extract path)
