-- ===== src/Metrics.antt =====
-- src/metrics.rs: the counters, gauges and histograms, each a table from its label values. The
-- registry and the text encoding belong to the prometheus crate; its counters are numbers here.
pub mod Families
pub mod Recorded
use rpc_latency_monitor.Prelude.{
  ℕ, ◌+◌, String, List, [], ◌∷◌, ◌++◌, Map, lookup, insert, list_eq, string_eq, unwrap_or,
  if◌then◌else◌,
}
use rpc_latency_monitor.Method.{RpcMethod, label}
use rpc_latency_monitor.Rpc.{CallResult, CallStatus, status_label, is_error, error_kind}

abbrev pub Labels : Type 0
Labels = List String

-- A histogram keeps its observations, in nanoseconds.
pub record Metrics : Type 0 where
  pub latency : Map Labels (List ℕ)
  pub slot_lag : Map Labels ℕ
  pub requests : Map Labels ℕ
  pub up : Map Labels ℕ
  pub reference_check : Map Labels ℕ
  pub claim_check : Map Labels ℕ
  pub reference_node_lag : ℕ
  pub sample_flush : Map Labels ℕ

abbrev pub new : Metrics
new = record {
  latency = [];
  slot_lag = [];
  requests = [];
  up = [];
  reference_check = [];
  claim_check = [];
  reference_node_lag = 0;
  sample_flush = [];
}

abbrev pub count_of : Labels → Map Labels ℕ → ℕ
count_of labels m = unwrap_or (lookup labels m) 0

abbrev inc_by : Labels → ℕ → Map Labels ℕ → Map Labels ℕ
inc_by labels n m = insert labels (count_of labels m + n) m

unfoldable pub record_claim_check : String → RpcMethod → String → String → Metrics → Metrics
record_claim_check provider method target result m = record m {
  claim_check = inc_by (provider ∷ label method ∷ target ∷ result ∷ []) 1 m.claim_check;
}

unfoldable pub record_sample_flush : String → ℕ → Metrics → Metrics
record_sample_flush result batches m = record m {
  sample_flush = inc_by (result ∷ []) batches m.sample_flush;
}

unfoldable pub set_reference_node_lag : ℕ → Metrics → Metrics
set_reference_node_lag lag m = record m { reference_node_lag = lag }

unfoldable pub record_reference_check : String → String → Metrics → Metrics
record_reference_check provider result m = record m {
  reference_check = inc_by (provider ∷ result ∷ []) 1 m.reference_check;
}

unfoldable pub record_call :
    String → RpcMethod → CallResult → CallStatus → String → Metrics → Metrics
record_call provider method result status target m =
    let status_name = status_label status in
    let kind = unwrap_or (error_kind status) "none" in
    let timed = provider ∷ label method ∷ status_name ∷ target ∷ [] in
    record m {
      latency =
          insert timed (unwrap_or (lookup timed m.latency) [] ++ result.latency ∷ []) m.latency;
      requests = inc_by (provider ∷ label method ∷ status_name ∷ kind ∷ target ∷ []) 1 m.requests;
      up = insert (provider ∷ []) (if is_error status then 0 else 1) m.up;
    }

unfoldable pub record_slot_lag : String → RpcMethod → ℕ → Metrics → Metrics
record_slot_lag provider method lag m = record m {
  slot_lag = insert (provider ∷ label method ∷ []) lag m.slot_lag;
}
