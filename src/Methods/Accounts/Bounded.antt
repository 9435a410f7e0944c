-- ===== src/Methods/Accounts/Bounded.antt =====
-- The pool of accounts that `recent_accounts` of src/rpc/methods.rs reads from a block.
use rpc_latency_monitor.Prelude.{
  ◌+◌, ◌≤◌, ◌<◌, ◌≡◌, String, Bool, false, inl, inr, List, [], ◌∷◌, ◌++◌, arith, leb, length,
  length-append, contains, contains-false, Distinct, Distinct-concat, Bool-cases, Option, none,
  some, string_eq, map,
}
use rpc_latency_monitor.Prelude.Maybe.{◌>>=◌}
use rpc_latency_monitor.Crates.{Crates}
use rpc_latency_monitor.Method.{RpcMethod, get_block_recent}
use rpc_latency_monitor.Methods.Accounts.{
  max_recent_accounts, add_keys, add_transactions, kept, keys_of, recent_accounts,
}

-- The state of the loops: room is left unless the early return was taken.
record HasRoom (r : List String × Bool) : Type 0 where
  distinct : Distinct r.0
  bounded : length r.0 ≤ max_recent_accounts
  room : r.1 ≡ false → length r.0 < max_recent_accounts

add_keys-HasRoom :
    (keys out : List String)
    → Distinct out
    → length out < max_recent_accounts
    → HasRoom (add_keys keys out)
add_keys-HasRoom [] out d h = record { distinct = d; bounded = omega arith; room = λ _. h }
add_keys-HasRoom (key ∷ keys) out d h = elim (Bool-cases (contains out key)) [
  | inl old ↦ rw old (add_keys-HasRoom keys out d h)
  | inr new ↦
      let longer = out ++ key ∷ [] in
      let d' = Distinct-concat out key d (contains-false out key new) in
      let n : length longer ≡ length out + 1 = length-append out (key ∷ []) in
      elim (Bool-cases (leb max_recent_accounts (length longer))) [
        | inl full ↦
            rw (new, full) (record { distinct = d'; bounded = omega arith; room = λ e. cc })
        | inr more ↦ rw (new, more) (add_keys-HasRoom keys longer d' (ground arith))
      ]
]

add_transactions-HasRoom :
    (txs : List (List String)) (out : List String)
    → Distinct out
    → length out < max_recent_accounts
    → Distinct (add_transactions txs out)
      × (length (add_transactions txs out) ≤ max_recent_accounts)
unfolding add_transactions
add_transactions-HasRoom [] out d h = (d, omega arith)
add_transactions-HasRoom (keys ∷ txs) out d h =
    let v = add_keys-HasRoom keys out d h in
    elim (Bool-cases (add_keys keys out).1) [
      | inl full ↦ rw full (v.distinct, v.bounded)
      | inr more ↦
          rw more (add_transactions-HasRoom txs (add_keys keys out).0 v.distinct (v.room more))
    ]

module _ ⦃c : Crates⦄ where
  open c use {Value, get, as_array}

  kept_bounded :
      (o : Option (List Value)) → Distinct (kept o) × (length (kept o) ≤ max_recent_accounts)
  unfolding kept
  kept_bounded none = (tt, omega arith)
  kept_bounded (some txs) = add_transactions-HasRoom (map keys_of txs) [] tt (omega arith)

  -- Whatever a block holds, the accounts kept of it are at most 32, and no account stands twice.
  pub recent_accounts_bounded :
      (m : RpcMethod) (result : Value)
      → Distinct (recent_accounts m result)
        × (length (recent_accounts m result) ≤ max_recent_accounts)
  unfolding recent_accounts
  recent_accounts_bounded get_block_recent result =
      kept_bounded (get result "transactions" >>= as_array)
  recent_accounts_bounded _ result = (tt, omega arith)
