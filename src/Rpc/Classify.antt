-- ===== src/Rpc/Classify.antt =====
-- `classify` of src/rpc/mod.rs: the status of an answer, and what is kept of it.
pub mod Outcomes
use rpc_latency_monitor.Prelude.{
  ℕ, String, Bool, true, false, not, ◌&&◌, ◌||◌, Option, none, some, List, [], ◌==◌, nat_eq, leb,
  unwrap_or, is_some, if◌then◌else◌,
}
use rpc_latency_monitor.Prelude.Maybe.{◌>>=◌}
use rpc_latency_monitor.Crates.{Crates}
use rpc_latency_monitor.Method.{RpcMethod, probes_fixed_slot, is_get_signatures}
use rpc_latency_monitor.Rpc.{
  RequestContext, CallStatus, ErrorKind, ClaimPayload, success, skipped, error, decode, empty,
  http_status, rpc_error, negative,
}
use rpc_latency_monitor.Methods.Results.{
  is_valid_result, observed_slot, recent_signature, claim_payload,
}
use rpc_latency_monitor.Methods.Accounts.{archival_signature, recent_accounts}

pub record Parsed : Type 0 where
  pub status : CallStatus
  pub observed_slot : Option ℕ
  pub signature : Option String
  pub archival_signature : Option String
  pub accounts : List String
  pub claim : Option ClaimPayload

-- A status with nothing beside it.
abbrev pub blank : CallStatus → Parsed
blank s = record {
  status = s;
  observed_slot = none;
  signature = none;
  archival_signature = none;
  accounts = [];
  claim = none;
}

abbrev pub parsed_error : ErrorKind → Parsed
parsed_error kind = blank (error kind)

-- `StatusCode::is_success`
abbrev pub is_http_success : ℕ → Bool
is_http_success s = leb 200 s && leb s 299

abbrev pub slot_skipped : ℕ
slot_skipped = negative 32007

abbrev pub slot_skipped_long_term : ℕ
slot_skipped_long_term = negative 32009

abbrev pub is_slot_skipped : ℕ → Bool
is_slot_skipped code = code == slot_skipped || code == slot_skipped_long_term

-- `(!b).then(|| o).flatten()`
abbrev unless {ℓ} : {A : Type ℓ} → Bool → Option A → Option A
unless true o = none
unless false o = o

module _ ⦃c : Crates⦄ where
  open c use {Value, get, as_i64, from_slice}

  -- `error.get("code").and_then(Value::as_i64).unwrap_or(0)`
  abbrev pub error_code : Value → ℕ
  error_code e = unwrap_or (get e "code" >>= as_i64) 0

  on_error : ℕ → RpcMethod → Parsed
  on_error code m =
      if is_slot_skipped code && probes_fixed_slot m
      then blank skipped
      else parsed_error (rpc_error code)

  accepted : Value → RpcMethod → RequestContext → Parsed
  accepted result m ctx =
      let anchored_gsfa = is_get_signatures m && is_some ctx.gsfa_anchor in
      record {
        status = success;
        observed_slot = unless anchored_gsfa (observed_slot m result);
        signature = unless anchored_gsfa (recent_signature m result);
        archival_signature = archival_signature m result;
        accounts = recent_accounts m result;
        claim = unless anchored_gsfa (claim_payload m result ctx);
      }

  on_result : Option Value → RpcMethod → RequestContext → Parsed
  unfolding accepted
  on_result none m ctx = parsed_error decode
  on_result (some result) m ctx =
      if not (is_valid_result m result ctx) then parsed_error empty else accepted result m ctx

  on_reply : Option Value → Option Value → RpcMethod → RequestContext → Parsed
  unfolding on_error on_result
  on_reply (some e) result m ctx = on_error (error_code e) m
  on_reply none result m ctx = on_result result m ctx

  on_json : Option Value → RpcMethod → RequestContext → Parsed
  unfolding on_reply
  on_json none m ctx = parsed_error decode
  on_json (some json) m ctx = on_reply (get json "error") (get json "result") m ctx

  unfoldable pub classify : ℕ → List ℕ → RpcMethod → RequestContext → Parsed
  unfolding on_json
  classify status body m ctx =
      if not (is_http_success status)
      then parsed_error (http_status status)
      else on_json (from_slice body) m ctx
