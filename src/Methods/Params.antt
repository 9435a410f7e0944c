-- ===== src/Methods/Params.antt =====
-- The request parameters of src/rpc/methods.rs that take no batch of accounts.
use rpc_latency_monitor.Prelude.{
  ℕ, String, false, Option, none, some, List, [], ◌∷◌, ◌++◌, map, ◌==◌, nat_eq, find,
}
use rpc_latency_monitor.Crates.{Crates}
use rpc_latency_monitor.Target.{GpaTarget, MemcmpFilter, token_account_owner_offset}

abbrev pub owner_anchor : GpaTarget → Option String
owner_anchor target =
    elim (find (λ (f : MemcmpFilter). f.offset == token_account_owner_offset) target.memcmp) [
      | none ↦ none
      | some f ↦ some f.bytes
    ]

module _ ⦃c : Crates⦄ where
  open c use {Value, of_bool, of_u64, of_str, of_array, of_object}

  unfoldable pub transaction_params : String → Value
  transaction_params signature = of_array (
      of_str signature
      ∷ of_object (
          ("encoding", of_str "json")
          ∷ ("commitment", of_str "confirmed")
          ∷ ("maxSupportedTransactionVersion", of_u64 1)
          ∷ [])
      ∷ [])

  -- `getBlock` with the given `transactionDetails` and commitment
  abbrev pub block_params_with : String → String → ℕ → Value
  block_params_with details commitment slot = of_array (
      of_u64 slot
      ∷ of_object (
          ("encoding", of_str "json")
          ∷ ("transactionDetails", of_str details)
          ∷ ("rewards", of_bool false)
          ∷ ("commitment", of_str commitment)
          ∷ ("maxSupportedTransactionVersion", of_u64 1)
          ∷ [])
      ∷ [])

  unfoldable pub block_params : ℕ → Value
  block_params slot = block_params_with "full" "confirmed" slot

  -- `{ "encoding": "base64", "commitment": … }`
  abbrev pub base64_at : String → Value
  base64_at commitment =
      of_object (("encoding", of_str "base64") ∷ ("commitment", of_str commitment) ∷ [])

  size_filter : Option ℕ → List Value
  size_filter none = []
  size_filter (some size) = of_object (("dataSize", of_u64 size) ∷ []) ∷ []

  memcmp_filter : MemcmpFilter → Value
  memcmp_filter f =
      of_object
        (("memcmp", of_object (("offset", of_u64 f.offset) ∷ ("bytes", of_str f.bytes) ∷ [])) ∷ [])

  unfoldable pub gpa_filters : GpaTarget → List Value
  unfolding size_filter memcmp_filter
  gpa_filters target = size_filter target.data_size ++ map memcmp_filter target.memcmp

  unfoldable pub gpa_count_params : GpaTarget → Value
  gpa_count_params target = of_array (
      of_str target.program
      ∷ of_object (
          ("encoding", of_str "base64")
          ∷ ("commitment", of_str "confirmed")
          ∷ ("dataSlice", of_object (("offset", of_u64 0) ∷ ("length", of_u64 0) ∷ []))
          ∷ ("filters", of_array (gpa_filters target))
          ∷ [])
      ∷ [])
