-- ===== src/Metrics/Families/Arity.antt =====
-- The label values that the recording operations of src/metrics.rs use. `with_label_values` of the
-- prometheus crate panics on another number of values than the family has labels.
use rpc_latency_monitor.Prelude.{
  ℕ, ◌≡◌, refl, String, Bool, true, false, List, [], ◌∷◌, ◌==◌, list_eq, string_eq, All, Map,
  insert, length, if◌then◌else◌,
}
use rpc_latency_monitor.Method.{RpcMethod}
use rpc_latency_monitor.Rpc.{CallResult, CallStatus}
use rpc_latency_monitor.Metrics.{
  Labels, Metrics, new, record_claim_check, record_sample_flush, set_reference_node_lag,
  record_reference_check, record_call, record_slot_lag,
}
use rpc_latency_monitor.Metrics.Families.{
  Family, latency_family, slot_lag_family, requests_family, up_family, reference_check_family,
  claim_check_family, sample_flush_family,
}

-- Every list of label values in a table is as long as the labels of the family.
abbrev pub HasArity : {A : Type 0} → Family → Map Labels A → Type 0
HasArity {A = A} family table =
    All (λ (entry : Labels × A). length entry.0 ≡ length family.labels) table

insert-HasArity :
    {A : Type 0} (family : Family) (values : Labels) (a : A) (table : Map Labels A)
    → length values ≡ length family.labels
    → HasArity family table
    → HasArity family (insert values a table)
insert-HasArity family values a [] h t = (h, tt)
insert-HasArity {A = A} family values a ((key, b) ∷ table) h (k, t) =
    by_test (key == values) (insert-HasArity family values a table h t)
  where
    by_test :
        (same : Bool)
        → HasArity family (insert values a table)
        → HasArity family (if same then (values, a) ∷ table else (key, b) ∷ insert values a table)
    by_test true later = (h, t)
    by_test false later = (k, later)

pub record IsLabelled (m : Metrics) : Type 0 where
  pub latency : HasArity latency_family m.latency
  pub slot_lag : HasArity slot_lag_family m.slot_lag
  pub requests : HasArity requests_family m.requests
  pub up : HasArity up_family m.up
  pub reference_check : HasArity reference_check_family m.reference_check
  pub claim_check : HasArity claim_check_family m.claim_check
  pub sample_flush : HasArity sample_flush_family m.sample_flush

-- The recording operations with their arguments.
pub data Recording : Type 0 where
  claim_checked : String → RpcMethod → String → String → Recording
  sample_flushed : String → ℕ → Recording
  node_lagged : ℕ → Recording
  reference_checked : String → String → Recording
  called : String → RpcMethod → CallResult → CallStatus → String → Recording
  slot_lagged : String → RpcMethod → ℕ → Recording

abbrev pub after_recording : Recording → Metrics → Metrics
after_recording (claim_checked provider method target result) m =
    record_claim_check provider method target result m
after_recording (sample_flushed result batches) m = record_sample_flush result batches m
after_recording (node_lagged lag) m = set_reference_node_lag lag m
after_recording (reference_checked provider result) m = record_reference_check provider result m
after_recording (called provider method result status target) m =
    record_call provider method result status target m
after_recording (slot_lagged provider method lag) m = record_slot_lag provider method lag m

abbrev pub record_all : List Recording → Metrics → Metrics
record_all [] m = m
record_all (r ∷ rs) m = record_all rs (after_recording r m)

after_recording-IsLabelled :
    (r : Recording) (m : Metrics) → IsLabelled m → IsLabelled (after_recording r m)
unfolding record_claim_check record_sample_flush set_reference_node_lag record_reference_check
    record_call record_slot_lag
after_recording-IsLabelled (claim_checked provider method target result) m h = record {
  latency = h.latency;
  slot_lag = h.slot_lag;
  requests = h.requests;
  up = h.up;
  reference_check = h.reference_check;
  claim_check = insert-HasArity claim_check_family _ _ m.claim_check refl h.claim_check;
  sample_flush = h.sample_flush;
}
after_recording-IsLabelled (sample_flushed result batches) m h = record {
  latency = h.latency;
  slot_lag = h.slot_lag;
  requests = h.requests;
  up = h.up;
  reference_check = h.reference_check;
  claim_check = h.claim_check;
  sample_flush = insert-HasArity sample_flush_family _ _ m.sample_flush refl h.sample_flush;
}
after_recording-IsLabelled (node_lagged lag) m h = record {
  latency = h.latency;
  slot_lag = h.slot_lag;
  requests = h.requests;
  up = h.up;
  reference_check = h.reference_check;
  claim_check = h.claim_check;
  sample_flush = h.sample_flush;
}
after_recording-IsLabelled (reference_checked provider result) m h = record {
  latency = h.latency;
  slot_lag = h.slot_lag;
  requests = h.requests;
  up = h.up;
  reference_check =
      insert-HasArity reference_check_family _ _ m.reference_check refl h.reference_check;
  claim_check = h.claim_check;
  sample_flush = h.sample_flush;
}
after_recording-IsLabelled (called provider method result status target) m h = record {
  latency = insert-HasArity latency_family _ _ m.latency refl h.latency;
  slot_lag = h.slot_lag;
  requests = insert-HasArity requests_family _ _ m.requests refl h.requests;
  up = insert-HasArity up_family _ _ m.up refl h.up;
  reference_check = h.reference_check;
  claim_check = h.claim_check;
  sample_flush = h.sample_flush;
}
after_recording-IsLabelled (slot_lagged provider method lag) m h = record {
  latency = h.latency;
  slot_lag = insert-HasArity slot_lag_family _ _ m.slot_lag refl h.slot_lag;
  requests = h.requests;
  up = h.up;
  reference_check = h.reference_check;
  claim_check = h.claim_check;
  sample_flush = h.sample_flush;
}

-- Whatever is recorded from the start on, and in whatever order, each list of label values is as
-- long as the labels that its family was registered with, so that no recording panics.
pub record_all-IsLabelled : (rs : List Recording) → IsLabelled (record_all rs new)
record_all-IsLabelled rs = from rs new (record {
  latency = tt;
  slot_lag = tt;
  requests = tt;
  up = tt;
  reference_check = tt;
  claim_check = tt;
  sample_flush = tt;
})
  where
    from : (rs : List Recording) (m : Metrics) → IsLabelled m → IsLabelled (record_all rs m)
    from [] m h = h
    from (r ∷ rs) m h = from rs (after_recording r m) (after_recording-IsLabelled r m h)
