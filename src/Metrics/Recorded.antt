-- ===== src/Metrics/Recorded.antt =====
-- What a recorded call adds to the metrics of src/metrics.rs.
use rpc_latency_monitor.Prelude.{
  ℕ, suc, ◌+◌, ◌≡◌, refl, ap, String, some, [], ◌∷◌, ◌==◌, ==_iff, list_eq, string_eq, lookup,
  lookup-insert, Map, Bool-cases, unwrap_or, inl, inr, arith, if◌then◌else◌,
}
use rpc_latency_monitor.Method.{RpcMethod, label}
use rpc_latency_monitor.Rpc.{CallResult, CallStatus, status_label, is_error, error_kind}
use rpc_latency_monitor.Metrics.{Metrics, Labels, count_of, inc_by, record_call}

pub count_of-inc_by :
    (ls ks : Labels) (m : Map Labels ℕ)
    → count_of ks (inc_by ls 1 m) ≡ (if ls == ks then suc (count_of ks m) else count_of ks m)
count_of-inc_by ls ks m = elim (Bool-cases (ls == ks)) [
  | inl same ↦
      let equal : count_of ls m ≡ count_of ks m = ap (λ k. count_of k m) ((==_iff ls ks).0 same) in
      rw (lookup-insert ls ks (count_of ls m + 1) m, same) (omega arith)
  | inr other ↦ rw (lookup-insert ls ks (count_of ls m + 1) m, other) refl
]

-- The labels that `record_call` counts a request under.
abbrev pub request_labels : String → RpcMethod → CallStatus → String → Labels
request_labels provider method status target =
    provider
    ∷ label method
    ∷ status_label status
    ∷ unwrap_or (error_kind status) "none"
    ∷ target
    ∷ []

-- A recorded call adds one to the requests with its labels and to no others; the gauge of its provider
-- becomes 0 if the status is an error of the provider and 1 if it is not, and no other gauge changes.
pub record_call-counts :
    (provider : String) (method : RpcMethod) (result : CallResult) (status : CallStatus)
    (target : String) (m : Metrics) (ks : Labels)
    → (count_of ks (record_call provider method result status target m).requests ≡ (
        if request_labels provider method status target == ks
        then suc (count_of ks m.requests)
        else count_of ks m.requests))
      × (lookup ks (record_call provider method result status target m).up ≡ (
          if (provider ∷ []) == ks
          then some (if is_error status then 0 else 1)
          else lookup ks m.up))
unfolding record_call
record_call-counts provider method result status target m ks = (
  count_of-inc_by (request_labels provider method status target) ks m.requests,
  lookup-insert (provider ∷ []) ks (if is_error status then 0 else 1) m.up,
)
