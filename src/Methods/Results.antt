-- ===== src/Methods/Results.antt =====
-- What `RpcMethod` of src/rpc/methods.rs builds, accepts and reads.
pub mod Anchored
use text.Mathlib.Text.{starts_with}
use rpc_latency_monitor.Prelude.{
  ℕ, ◌-◌, String, Bool, true, false, not, ◌&&◌, Option, none, some, List, [], ◌∷◌, ◌==◌, string_eq,
  ltb, length, is_empty, any, all, map, collect, first, range, is_some, is_some_and, unwrap_or,
  checked_sub, when, if◌then◌else◌,
}
use rpc_latency_monitor.Prelude.Maybe.{◌>>=◌}
use rpc_latency_monitor.Crates.{Crates}
use rpc_latency_monitor.Target.{
  GpaTarget, derived_target_prefix, token_program, gpa_token_owner, builtin_token_owner_target,
}
use rpc_latency_monitor.Method.{
  RpcMethod, get_health, get_slot, get_latest_blockhash, get_account_info, get_multiple_accounts,
  get_program_accounts, get_token_accounts_by_owner, get_block_recent, get_block_archival,
  get_transaction_recent, get_transaction_archival, get_signatures_for_address,
}
use rpc_latency_monitor.Rpc.{RequestContext, ClaimPayload, blockhash, accounts, transaction, clock}
use rpc_latency_monitor.Methods.Values.{
  value_of, non_empty_str, non_empty_string, account_base64, clock_slot_from_value, from_le_bytes,
}
use rpc_latency_monitor.Methods.Params.{
  owner_anchor, transaction_params, block_params, base64_at, gpa_filters,
}
use rpc_latency_monitor.Methods.Batch.{pick_batch, fallback_address}
use rpc_latency_monitor.Methods.Matcher.{entries_match}
use rpc_latency_monitor.Methods.Samples.{sample_accounts}

abbrev block_confirmation_depth : ℕ
block_confirmation_depth = 32

abbrev archival_slot_depth : ℕ
archival_slot_depth = 40000000

abbrev signatures_limit : ℕ
signatures_limit = 1000

abbrev clock_sysvar : String
clock_sysvar = "SysvarC1ock11111111111111111111111111111111"

unfoldable pub probed_slot : RpcMethod → RequestContext → Option ℕ
probed_slot get_block_recent ctx = do tip ← ctx.tip_slot; some (tip - block_confirmation_depth)
probed_slot get_block_archival ctx = do tip ← ctx.tip_slot; checked_sub tip archival_slot_depth
probed_slot _ ctx = none

module _ ⦃c : Crates⦄ where
  open c use {
    Value, get, as_str, as_u64, as_array, is_null, of_bool, of_u64, of_str, of_array, of_object,
    decode_base64,
  }

  -- `[{ "commitment": "processed" }]`
  abbrev processed : Value
  processed = of_array (of_object (("commitment", of_str "processed") ∷ []) ∷ [])

  signature_options : Option (ℕ × String) → List (String × Value)
  signature_options none =
      ("limit", of_u64 signatures_limit) ∷ ("commitment", of_str "confirmed") ∷ []
  signature_options (some (slot, before)) =
      ("limit", of_u64 signatures_limit)
      ∷ ("before", of_str before)
      ∷ ("commitment", of_str "confirmed")
      ∷ []

  unfoldable pub build_params : RpcMethod → RequestContext → Option Value
  unfolding signature_options
  build_params get_health ctx = some (of_array [])
  build_params get_slot ctx = some processed
  build_params get_latest_blockhash ctx = some processed
  build_params get_account_info ctx =
      some (of_array (of_str clock_sysvar ∷ base64_at "processed" ∷ []))
  build_params get_multiple_accounts ctx = some (
      of_array (
        of_array (map of_str (pick_batch ctx.recent_accounts ctx.tip_slot))
        ∷ base64_at "processed"
        ∷ []))
  build_params get_program_accounts ctx = do
    target ← ctx.gpa_target
    some (
        of_array (
          of_str target.program
          ∷ of_object (
              ("encoding", of_str "base64")
              ∷ ("commitment", of_str "processed")
              ∷ ("withContext", of_bool true)
              ∷ ("filters", of_array (gpa_filters target))
              ∷ [])
          ∷ []))
  build_params get_token_accounts_by_owner ctx =
      let owner = unwrap_or (ctx.gpa_target >>= owner_anchor) gpa_token_owner in
      some (
        of_array (
          of_str owner
          ∷ of_object (("programId", of_str token_program) ∷ [])
          ∷ base64_at "processed"
          ∷ []))
  build_params get_signatures_for_address ctx =
      some (of_array (of_str fallback_address ∷ of_object (signature_options ctx.gsfa_anchor) ∷ []))
  build_params get_block_recent ctx = do
    slot ← probed_slot get_block_recent ctx
    some (block_params slot)
  build_params get_block_archival ctx = do
    slot ← probed_slot get_block_archival ctx
    some (block_params slot)
  build_params get_transaction_recent ctx = do s ← ctx.recent_signature; some (transaction_params s)
  build_params get_transaction_archival ctx = do
    s ← ctx.archival_signature
    some (transaction_params s)

  -- The slot of an entry that has a signature.
  signed_slot : Value → Option ℕ
  signed_slot e = do
    slot ← when (non_empty_str (get e "signature")) (get e "slot")
    found ← slot
    as_u64 found

  below_anchor : Option (ℕ × String) → List ℕ → Bool
  below_anchor none slots = true
  below_anchor (some (anchor, before)) slots = all (λ s. ltb s anchor) slots

  valid_signatures : Option (ℕ × String) → List Value → Bool
  valid_signatures anchor entries =
      not (is_empty entries)
      && is_some_and (collect (map signed_slot entries)) (below_anchor anchor)

  unfoldable pub is_valid_result : RpcMethod → Value → RequestContext → Bool
  unfolding valid_signatures below_anchor signed_slot
  is_valid_result get_health result ctx = is_some_and (as_str result) (λ s. s == "ok")
  is_valid_result get_slot result ctx = is_some_and (as_u64 result) (λ slot. ltb 0 slot)
  is_valid_result get_latest_blockhash result ctx =
      non_empty_str (get (value_of result) "blockhash")
  is_valid_result get_account_info result ctx = is_some (clock_slot_from_value (value_of result))
  is_valid_result get_multiple_accounts result ctx =
      is_some_and (as_array (value_of result)) (λ a. any (λ entry. not (is_null entry)) a)
  is_valid_result get_program_accounts result ctx =
      is_some_and ctx.gpa_target (λ target. entries_match result target)
  is_valid_result get_token_accounts_by_owner result ctx =
      entries_match result (unwrap_or ctx.gpa_target builtin_token_owner_target)
  is_valid_result get_block_recent result ctx =
      non_empty_str (get result "blockhash")
      && is_some_and (get result "transactions" >>= as_array) (λ a. not (is_empty a))
  is_valid_result get_block_archival result ctx =
      non_empty_str (get result "blockhash")
      && is_some_and (get result "transactions" >>= as_array) (λ a. not (is_empty a))
  is_valid_result get_transaction_recent result ctx =
      not (is_null result) && is_some (get result "slot") && is_some (get result "transaction")
  is_valid_result get_transaction_archival result ctx =
      not (is_null result) && is_some (get result "slot") && is_some (get result "transaction")
  is_valid_result get_signatures_for_address result ctx =
      is_some_and (as_array result) (valid_signatures ctx.gsfa_anchor)

  -- `.get("context")?.get("slot")?.as_u64()`
  abbrev context_slot : Value → Option ℕ
  context_slot result = do found ← get result "context"; slot ← get found "slot"; as_u64 slot

  first_slot : Value → Option ℕ
  first_slot result = do
    entries ← as_array result
    one ← first entries
    slot ← get one "slot"
    as_u64 slot

  unfoldable pub observed_slot : RpcMethod → Value → Option ℕ
  unfolding first_slot
  observed_slot get_slot result = as_u64 result
  observed_slot get_account_info result = clock_slot_from_value (value_of result)
  observed_slot get_latest_blockhash result = context_slot result
  observed_slot get_multiple_accounts result = context_slot result
  observed_slot get_program_accounts result = context_slot result
  observed_slot get_token_accounts_by_owner result = context_slot result
  observed_slot get_signatures_for_address result = first_slot result
  observed_slot _ result = none

  unfoldable pub recent_signature : RpcMethod → Value → Option String
  recent_signature get_signatures_for_address result = do
    entries ← as_array result
    one ← first entries
    s ← get one "signature"
    as_str s
  recent_signature _ result = none

  -- The claim about the accounts of a target; a derived target makes none.
  accounts_claim : RpcMethod → Value → GpaTarget → Option ClaimPayload
  accounts_claim m result target =
      if starts_with target.name derived_target_prefix then none else do
        entries ← as_array (value_of result)
        some (accounts (observed_slot m result) (length entries) (sample_accounts entries) target)

  unfoldable pub claim_payload : RpcMethod → Value → RequestContext → Option ClaimPayload
  unfolding accounts_claim
  claim_payload get_latest_blockhash result ctx = do
    slot ← observed_slot get_latest_blockhash result
    hash ← non_empty_string (get (value_of result) "blockhash")
    some (blockhash slot hash)
  claim_payload get_block_recent result ctx = do
    slot ← probed_slot get_block_recent ctx
    hash ← non_empty_string (get result "blockhash")
    some (blockhash slot hash)
  claim_payload get_program_accounts result ctx = do
    target ← ctx.gpa_target
    accounts_claim get_program_accounts result target
  claim_payload get_token_accounts_by_owner result ctx =
      accounts_claim get_token_accounts_by_owner result
        (unwrap_or ctx.gpa_target builtin_token_owner_target)
  claim_payload get_transaction_recent result ctx = do
    found ← get result "slot"
    slot ← as_u64 found
    s ← ctx.recent_signature
    some (transaction slot s)
  claim_payload get_signatures_for_address result ctx = do
    entries ← as_array result
    one ← first entries
    found ← get one "slot"
    slot ← as_u64 found
    s ← non_empty_string (get one "signature")
    some (transaction slot s)
  claim_payload get_account_info result ctx = do
    b64 ← account_base64 (value_of result)
    bytes ← decode_base64 b64
    slot ← range 0 8 bytes
    time ← range 32 40 bytes
    some (clock (from_le_bytes slot) (from_le_bytes time))
  claim_payload _ result ctx = none
