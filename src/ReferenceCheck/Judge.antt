-- ===== src/ReferenceCheck/Judge.antt =====
-- The verdicts of src/reference_check.rs on a claim that has waited long enough.
pub mod Window
pub mod Asked
pub mod Sampled
use rpc_latency_monitor.Prelude.{
  ℕ, zero, suc, ◌+◌, ◌-◌, String, Bool, true, false, not, ◌&&◌, ◌||◌, Option, none, some, List, [],
  ◌∷◌, map, ◌==◌, nat_eq, string_eq, ltb, length, first, unwrap_or, abs_diff, is_empty,
  if◌then◌else◌,
}
use rpc_latency_monitor.Prelude.Maybe
use rpc_latency_monitor.Prelude.State.{State, pure, ◌>>=◌, ◌>>◌}
use rpc_latency_monitor.Crates.{Crates}
use rpc_latency_monitor.Target.{GpaTarget}
use rpc_latency_monitor.Config.{ReferenceCheckConfig}
use rpc_latency_monitor.Method.{RpcMethod, get_block_recent}
use rpc_latency_monitor.Rpc.{AccountSample, ClaimPayload, blockhash, accounts, transaction, clock}
use rpc_latency_monitor.Rpc.Client.{
  Env, RawResponse, result, rpc_error, unavailable, raw_call_checked,
}
use rpc_latency_monitor.Methods.Values.{account_base64}
use rpc_latency_monitor.Methods.Params.{base64_at, transaction_params}
use rpc_latency_monitor.Methods.Matcher.{GpaMatcher, matches}
use rpc_latency_monitor.Methods.Matcher
use rpc_latency_monitor.ReferenceCheck.Sink.{Claim}
use rpc_latency_monitor.ReferenceCheck.Node.{
  NodeBlock, hash, skipped, Blocks, GpaCounts, node_block, cached_gpa_count,
}

-- The label under which a check is counted: `match`, `mismatch`, `missing`, `skipped`, `drift`.
pub data Verdict : Type 0 where
  match mismatch missing skip drift implausible : Verdict

abbrev pub verdict_label : Verdict → String
verdict_label match = "match"
verdict_label mismatch = "mismatch"
verdict_label missing = "missing"
verdict_label skip = "skipped"
verdict_label drift = "drift"
verdict_label implausible = "implausible"

abbrev latest_blockhash_window : ℕ
latest_blockhash_window = 8

unfoldable pub exact_verdict : NodeBlock → String → Verdict
exact_verdict (hash truth) claimed = if truth == claimed then match else mismatch
exact_verdict skipped claimed = mismatch
exact_verdict NodeBlock.unavailable claimed = skip

-- The verdict after the loop, from `saw_block` and `saw_unavailable`.
abbrev window_end : Bool → Bool → Verdict
window_end saw_block true = skip
window_end true false = mismatch
window_end false false = missing

-- What one block of the window adds: a match ends the loop.
pub data Seen : Type 0 where
  matched : Seen
  goes_on : (saw_block saw_unavailable : Bool) → Seen

see : NodeBlock → String → Bool → Bool → Seen
see (hash truth) claimed saw_block saw_unavailable =
    if truth == claimed then matched else goes_on true saw_unavailable
see skipped claimed saw_block saw_unavailable = goes_on saw_block saw_unavailable
see NodeBlock.unavailable claimed saw_block saw_unavailable = goes_on saw_block true

module _ ⦃c : Crates⦄ where
  open c use {Value, get, as_u64, as_array, is_null, of_str, of_array}

  unfoldable pub judge_exact_block : String → ℕ → String → State (Blocks × Env) Verdict
  unfolding exact_verdict
  judge_exact_block url slot claimed = do
    block ← node_block url slot
    pure (exact_verdict block claimed)

  -- The loop, with the cursor `floor + n`: the last round is at the floor.
  window_loop : String → ℕ → String → ℕ → Bool → Bool → State (Blocks × Env) Verdict
  unfolding see
  window_loop url floor claimed zero saw_block saw_unavailable s =
      let (block, s') = node_block url floor s in
      elim (see block claimed saw_block saw_unavailable) [
        | matched ↦ (match, s')
        | goes_on b u ↦ (window_end b u, s')
      ]
  window_loop url floor claimed (suc n) saw_block saw_unavailable s =
      let (block, s') = node_block url (floor + suc n) s in
      elim (see block claimed saw_block saw_unavailable) [
        | matched ↦ (match, s')
        | goes_on b u ↦ window_loop url floor claimed n b u s'
      ]

  unfoldable pub judge_window_block : String → ℕ → String → State (Blocks × Env) Verdict
  unfolding window_loop
  judge_window_block url slot claimed =
      let floor = slot - latest_blockhash_window in
      window_loop url floor claimed (slot - floor) false false

  -- The loop over the sampled accounts and the node's entries.
  compare_accounts : GpaMatcher → List AccountSample → List Value → Bool → Verdict
  compare_accounts m (claimed ∷ sample) (entry ∷ entries) drifted =
      let node_data = unwrap_or (account_base64 entry) "" in
      let rest =
        compare_accounts m sample entries
          (if node_data == claimed.account_data then drifted else true) in
      if is_null entry || not (matches m entry) then mismatch else rest
  compare_accounts m _ _ drifted = if drifted then drift else match

  compare_answer : GpaTarget → List AccountSample → Option (List Value) → Verdict
  unfolding compare_accounts
  compare_answer target sample none = skip
  compare_answer target sample (some entries) =
      if length entries == length sample
      then compare_accounts (Matcher.new target) sample entries false
      else skip

  accounts_answer : GpaTarget → List AccountSample → RawResponse → Verdict
  unfolding compare_answer
  accounts_answer target sample (result answer) =
      compare_answer target sample (Maybe.◌>>=◌ (get answer "value") as_array)
  accounts_answer target sample _ = skip

  abbrev count_differs : Option ℕ → ℕ → ℕ → Bool
  count_differs none count tolerance = false
  count_differs (some node_count) count tolerance = ltb tolerance (abs_diff count node_count)

  ask_accounts : String → List AccountSample → GpaTarget → State Env Verdict
  unfolding accounts_answer
  ask_accounts url sample target = do
    response ← raw_call_checked url "getMultipleAccounts" (
        of_array (
          of_array (map (λ (s : AccountSample). of_str s.pubkey) sample)
          ∷ base64_at "confirmed"
          ∷ []))
    pure (accounts_answer target sample response)

  unfoldable pub judge_accounts :
      String → ℕ → List AccountSample → GpaTarget → Option ℕ → ℕ → State Env Verdict
  unfolding ask_accounts
  judge_accounts url count sample target node_count tolerance =
      if count_differs node_count count tolerance
      then pure mismatch
      else if is_empty sample
      then pure skip
      else ask_accounts url sample target

  abbrev slot_verdict : Option ℕ → ℕ → Verdict
  slot_verdict none slot = skip
  slot_verdict (some node_slot) slot = if node_slot == slot then match else mismatch

  unfoldable pub transaction_answer : RawResponse → ℕ → Verdict
  transaction_answer (result v) slot =
      if is_null v then missing else slot_verdict (Maybe.◌>>=◌ (get v "slot") as_u64) slot
  transaction_answer (rpc_error code) slot = skip
  transaction_answer unavailable slot = skip

  unfoldable pub judge_transaction : String → ℕ → String → State Env Verdict
  unfolding transaction_answer
  judge_transaction url slot signature = do
    response ← raw_call_checked url "getTransaction" (transaction_params signature)
    pure (transaction_answer response slot)

  -- The caches of a tick, and the client.
  pub record Judging : Type 0 where
    pub env : Env
    pub blocks : Blocks
    pub gpa_counts : GpaCounts

  with_blocks : {A : Type 0} → State (Blocks × Env) A → State Judging A
  with_blocks f s =
      let (a, (blocks, env)) = f (s.blocks, s.env) in (a, record s { blocks = blocks; env = env })

  with_counts : {A : Type 0} → State (GpaCounts × Env) A → State Judging A
  with_counts f s =
      let (a, (counts, env)) = f (s.gpa_counts, s.env) in
      (a, record s { gpa_counts = counts; env = env })

  with_env : {A : Type 0} → State Env A → State Judging A
  with_env f s = let (a, env) = f s.env in (a, record s { env = env })

  judge_block : String → RpcMethod → ℕ → String → State (Blocks × Env) Verdict
  judge_block url get_block_recent slot claimed = judge_exact_block url slot claimed
  judge_block url _ slot claimed = judge_window_block url slot claimed

  judge_payload : ReferenceCheckConfig → RpcMethod → ℕ → Option ClaimPayload → State Judging Verdict
  unfolding with_blocks with_counts with_env judge_block
  judge_payload config m slot (some (blockhash own claimed)) =
      with_blocks (judge_block config.rpc_url m slot claimed)
  judge_payload config m slot (some (accounts own count sample target)) = do
    node_count ← with_counts (cached_gpa_count config.rpc_url target)
    with_env
        (judge_accounts config.rpc_url count sample target node_count config.claim_count_tolerance)
  judge_payload config m slot (some (transaction own signature)) =
      with_env (judge_transaction config.rpc_url own signature)
  judge_payload config m slot (some (clock own time)) = pure skip
  judge_payload config m slot none = pure skip

  unfoldable pub judge_claim : ReferenceCheckConfig → Claim → State Judging Verdict
  unfolding judge_payload
  judge_claim config claim = judge_payload config claim.method claim.slot claim.payload
