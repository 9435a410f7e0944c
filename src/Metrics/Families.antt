-- ===== src/Metrics/Families.antt =====
-- `Metrics::new` of src/metrics.rs: the families that it registers. The registry is a parameter.
pub mod Arity
use rpc_latency_monitor.Prelude.{ℕ, String, List, [], ◌∷◌}
use rpc_latency_monitor.Prelude.Fallible.{Result, ok, err}
use rpc_latency_monitor.Metrics.{Metrics, new}

-- A family of metrics with its labels; a single gauge has none, and only a histogram has buckets.
pub record Family : Type 0 where
  pub name : String
  pub help : String
  pub labels : List String
  pub buckets : List ℕ

-- In microseconds.
abbrev latency_buckets : List ℕ
latency_buckets =
    1000 ∷ 2000 ∷ 3000 ∷ 5000 ∷ 7500 ∷ 10000 ∷ 15000 ∷ 25000 ∷ 50000 ∷ 100000 ∷ 250000 ∷ 500000
    ∷ 1000000 ∷ 2500000 ∷ 5000000 ∷ 10000000 ∷ 30000000 ∷ []

abbrev pub latency_family : Family
latency_family = record {
  name = "rpc_latency_seconds";
  help = "RPC request round-trip latency";
  labels = "provider" ∷ "method" ∷ "status" ∷ "target" ∷ [];
  buckets = latency_buckets;
}

abbrev pub slot_lag_family : Family
slot_lag_family = record {
  name = "rpc_slot_lag";
  help = "Slots a provider trails the observed chain tip";
  labels = "provider" ∷ "method" ∷ [];
  buckets = [];
}

abbrev pub requests_family : Family
requests_family = record {
  name = "rpc_requests_total";
  help = "Total RPC requests by outcome";
  labels = "provider" ∷ "method" ∷ "status" ∷ "error_kind" ∷ "target" ∷ [];
  buckets = [];
}

abbrev pub up_family : Family
up_family = record {
  name = "rpc_up";
  help = "Whether the provider's last check succeeded";
  labels = "provider" ∷ [];
  buckets = [];
}

abbrev pub reference_check_family : Family
reference_check_family = record {
  name = "rpc_reference_check_total";
  help = "Provider's finalized getBlock blockhash vs the trusted reference, by outcome";
  labels = "provider" ∷ "result" ∷ [];
  buckets = [];
}

abbrev pub claim_check_family : Family
claim_check_family = record {
  name = "rpc_claim_check_total";
  help = "Provider (slot, blockhash) claims verified against the reference node, by outcome";
  labels = "provider" ∷ "method" ∷ "target" ∷ "result" ∷ [];
  buckets = [];
}

abbrev reference_node_lag_family : Family
reference_node_lag_family = record {
  name = "rpc_reference_node_lag";
  help = "Slots the reference node trails the fleet-observed chain tip";
  labels = [];
  buckets = [];
}

abbrev pub sample_flush_family : Family
sample_flush_family = record {
  name = "rpc_sample_flush_total";
  help = "Sample-log batches by outcome: ok, failed, rejected, dropped";
  labels = "result" ∷ [];
  buckets = [];
}

-- In the order of their registration.
abbrev pub families : List Family
families =
    latency_family ∷ slot_lag_family ∷ requests_family ∷ up_family ∷ reference_check_family
    ∷ claim_check_family ∷ reference_node_lag_family ∷ sample_flush_family ∷ []

-- A registry takes its constant labels and the families, or says why not.
abbrev pub Registry : Type 0
Registry = List (String × String) → List Family → Result {0, 0} String Unit

abbrev registered : Result {0, 0} String Unit → Result String Metrics
registered (ok done) = ok new
registered (err e) = err e

-- `Metrics::new`
unfoldable pub new_metrics : Registry → String → String → Result String Metrics
new_metrics register region geo =
    registered (register (("region", region) ∷ ("geo", geo) ∷ []) families)
