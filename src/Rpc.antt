-- ===== src/Rpc.antt =====
-- The types of src/rpc/mod.rs: the context and the result of a probe, its status, and their labels.
pub mod Classify
pub mod Client
pub mod Labels
use rpc_latency_monitor.Prelude.{
  ℕ, ◌-◌, String, Bool, true, false, not, ◌&&◌, Option, none, some, List, leb, ◌==◌, nat_eq, word,
  if◌then◌else◌,
}
use rpc_latency_monitor.Target.{GpaTarget}

pub record RequestContext : Type 0 where
  pub tip_slot : Option ℕ
  pub recent_signature : Option String
  pub archival_signature : Option String
  pub recent_accounts : List String
  pub gpa_target : Option GpaTarget
  pub gsfa_anchor : Option (ℕ × String)

pub record AccountSample : Type 0 where
  pub pubkey : String
  pub account_data : String

-- In `clock`, the time is the bit pattern of an `i64`.
pub data ClaimPayload : Type 0 where
  blockhash : ℕ → String → ClaimPayload
  accounts : Option ℕ → ℕ → List AccountSample → GpaTarget → ClaimPayload
  transaction : ℕ → String → ClaimPayload
  clock : ℕ → ℕ → ClaimPayload

unfoldable pub payload_slot : ClaimPayload → Option ℕ
payload_slot (blockhash slot h) = some slot
payload_slot (transaction slot s) = some slot
payload_slot (clock slot t) = some slot
payload_slot (accounts slot n sample target) = slot

pub data ErrorKind : Type 0 where
  timeout transport decode empty stale : ErrorKind
  http_status : ℕ → ErrorKind
  rpc_error : ℕ → ErrorKind

pub data CallStatus : Type 0 where
  success skipped : CallStatus
  error : ErrorKind → CallStatus

pub record CallResult : Type 0 where
  pub latency : ℕ
  pub status : CallStatus
  pub observed_slot : Option ℕ
  pub signature : Option String
  pub archival_signature : Option String
  pub accounts : List String
  pub claim : Option ClaimPayload
  pub endpoint_ip : Option String

abbrev pub is_success : CallStatus → Bool
is_success success = true
is_success _ = false

abbrev pub is_client_side : CallStatus → Bool
is_client_side (error (http_status code)) = leb 400 code && leb code 499
is_client_side _ = false

abbrev status_name : CallStatus → String
status_name success = "success"
status_name skipped = "skipped"
status_name (error k) = "error"

unfoldable pub status_label : CallStatus → String
status_label s = if is_client_side s then "skipped" else status_name s

abbrev pub is_error_status : CallStatus → Bool
is_error_status (error k) = true
is_error_status _ = false

unfoldable pub is_error : CallStatus → Bool
is_error s = is_error_status s && not (is_client_side s)

-- The bit pattern of -n.
abbrev pub negative : ℕ → ℕ
negative n = word - n

unfoldable pub as_str : ErrorKind → String
as_str timeout = "timeout"
as_str transport = "transport"
as_str decode = "decode"
as_str empty = "empty"
as_str stale = "stale"
as_str (http_status code) =
    if code == 429
    then "http_429"
    else if leb 400 code && leb code 499
    then "http_4xx"
    else if leb 500 code && leb code 599
    then "http_5xx"
    else "http_status"
as_str (rpc_error code) =
    if code == negative 32004
    then "rpc_block_unavailable"
    else if code == negative 32005
    then "rpc_node_unhealthy"
    else if code == negative 32007
    then "rpc_slot_skipped"
    else if code == negative 32009
    then "rpc_slot_skipped"
    else if code == negative 32011
    then "rpc_tx_history_unavailable"
    else if code == negative 32601
    then "rpc_method_not_found"
    else if code == negative 32602
    then "rpc_invalid_params"
    else "rpc_error"

unfoldable pub error_kind : CallStatus → Option String
unfolding as_str
error_kind success = none
error_kind skipped = none
error_kind (error k) = some (as_str k)
