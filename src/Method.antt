-- ===== src/Method.antt =====
-- `RpcMethod` of src/rpc/methods.rs, and the functions on it that look at nothing else.
use rpc_latency_monitor.Prelude.{String, Bool, true, false}

pub data RpcMethod : Type 0 where
  get_health get_slot get_latest_blockhash get_account_info get_multiple_accounts : RpcMethod
  get_program_accounts get_token_accounts_by_owner get_block_recent get_block_archival : RpcMethod
  get_transaction_recent get_transaction_archival get_signatures_for_address : RpcMethod

unfoldable pub label : RpcMethod → String
label get_health = "getHealth"
label get_slot = "getSlot"
label get_latest_blockhash = "getLatestBlockhash"
label get_account_info = "getAccountInfo"
label get_multiple_accounts = "getMultipleAccounts"
label get_program_accounts = "getProgramAccounts"
label get_token_accounts_by_owner = "getTokenAccountsByOwner"
label get_block_recent = "getBlock_recent"
label get_block_archival = "getBlock_archival"
label get_transaction_recent = "getTransaction_recent"
label get_transaction_archival = "getTransaction_archival"
label get_signatures_for_address = "getSignaturesForAddress"

unfoldable pub rpc_name : RpcMethod → String
rpc_name get_health = "getHealth"
rpc_name get_slot = "getSlot"
rpc_name get_latest_blockhash = "getLatestBlockhash"
rpc_name get_account_info = "getAccountInfo"
rpc_name get_multiple_accounts = "getMultipleAccounts"
rpc_name get_program_accounts = "getProgramAccounts"
rpc_name get_token_accounts_by_owner = "getTokenAccountsByOwner"
rpc_name get_block_recent = "getBlock"
rpc_name get_block_archival = "getBlock"
rpc_name get_transaction_recent = "getTransaction"
rpc_name get_transaction_archival = "getTransaction"
rpc_name get_signatures_for_address = "getSignaturesForAddress"

abbrev pub probes_fixed_slot : RpcMethod → Bool
probes_fixed_slot get_block_recent = true
probes_fixed_slot get_block_archival = true
probes_fixed_slot _ = false

-- `method == RpcMethod::GetSignaturesForAddress`
abbrev pub is_get_signatures : RpcMethod → Bool
is_get_signatures get_signatures_for_address = true
is_get_signatures _ = false
