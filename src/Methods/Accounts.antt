-- ===== src/Methods/Accounts.antt =====
-- `recent_accounts`, `archival_signature` and `is_vote_transaction` of src/rpc/methods.rs: what the
-- program keeps of a block.
pub mod Bounded
use rpc_latency_monitor.Prelude.{
  ℕ, String, Bool, true, false, not, Option, none, some, List, [], ◌∷◌, ◌++◌, ◌==◌, string_eq, leb,
  length, contains, any, keep, first, find_map, filter_map, map, is_some_and, unwrap_or,
  if◌then◌else◌,
}
use rpc_latency_monitor.Prelude.Maybe.{◌>>=◌}
use rpc_latency_monitor.Crates.{Crates}
use rpc_latency_monitor.Method.{RpcMethod, get_block_recent, get_block_archival}

abbrev vote_program : String
vote_program = "Vote111111111111111111111111111111111111111"

abbrev pub max_recent_accounts : ℕ
max_recent_accounts = 32

-- The inner loop over the keys of one transaction; `true` is the early return.
abbrev add_keys : List String → List String → List String × Bool
add_keys [] out = (out, false)
add_keys (key ∷ keys) out =
    let skip = add_keys keys out in
    let longer = out ++ key ∷ [] in
    let more = add_keys keys longer in
    if contains out key
    then skip
    else if leb max_recent_accounts (length longer)
    then (longer, true)
    else more

-- The outer loop, over the keys of each transaction.
add_transactions : List (List String) → List String → List String
add_transactions [] out = out
add_transactions (keys ∷ txs) out =
    let (out', full) = add_keys keys out in
    let more = add_transactions txs out' in if full then out' else more

module _ ⦃c : Crates⦄ where
  open c use {Value, get, as_str, as_array}

  account_keys : Value → Option (List Value)
  account_keys tx = do
    t ← get tx "transaction"
    m ← get t "message"
    keys ← get m "accountKeys"
    as_array keys

  is_vote_transaction : Value → Bool
  unfolding account_keys
  is_vote_transaction tx =
      is_some_and (account_keys tx) (λ keys. any (λ k. k == vote_program) (filter_map as_str keys))

  first_signature : Value → Option String
  first_signature tx = do
    t ← get tx "transaction"
    s ← get t "signatures"
    all ← as_array s
    one ← first all
    as_str one

  unfoldable pub archival_signature : RpcMethod → Value → Option String
  unfolding is_vote_transaction first_signature
  archival_signature get_block_archival result = do
    txs ← get result "transactions"
    entries ← as_array txs
    find_map first_signature (keep (λ tx. not (is_vote_transaction tx)) entries)
  archival_signature _ result = none

  -- A transaction whose keys are missing adds nothing.
  keys_of : Value → List String
  unfolding account_keys
  keys_of tx = filter_map as_str (unwrap_or (account_keys tx) [])

  kept : Option (List Value) → List String
  unfolding add_transactions keys_of
  kept none = []
  kept (some txs) = add_transactions (map keys_of txs) []

  unfoldable pub recent_accounts : RpcMethod → Value → List String
  unfolding kept
  recent_accounts get_block_recent result = kept (get result "transactions" >>= as_array)
  recent_accounts _ result = []
