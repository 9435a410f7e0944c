-- ===== src/ReferenceCheck/Judge/Asked.antt =====
-- A verdict that comes from a question to the node is never `implausible`.
use rpc_latency_monitor.Prelude.{
  ℕ, ◌-◌, Bool-cases, inl, inr, String, Bool, true, false, not, ◌||◌, Option, none, some, List, [],
  ◌∷◌, ◌==◌, string_eq, nat_eq, length, is_empty, if◌then◌else◌,
}
use rpc_latency_monitor.Crates.{Crates}
use rpc_latency_monitor.Target.{GpaTarget}
use rpc_latency_monitor.Config.{ReferenceCheckConfig}
use rpc_latency_monitor.Method.{RpcMethod, get_block_recent}
use rpc_latency_monitor.Rpc.{AccountSample, ClaimPayload, blockhash, accounts, transaction, clock}
use rpc_latency_monitor.Rpc.Client.{Env, RawResponse, result, rpc_error, unavailable}
use rpc_latency_monitor.Methods.Matcher.{GpaMatcher, matches}
use rpc_latency_monitor.Methods.Matcher
use rpc_latency_monitor.ReferenceCheck.Sink.{Claim}
use rpc_latency_monitor.ReferenceCheck.Node.{NodeBlock, hash, skipped, Blocks}
use rpc_latency_monitor.ReferenceCheck.Judge.{
  Verdict, match, mismatch, missing, skip, drift, implausible, exact_verdict, judge_exact_block,
  judge_window_block, compare_accounts, compare_answer, accounts_answer, count_differs,
  ask_accounts, judge_accounts, slot_verdict, transaction_answer, judge_transaction, Judging,
  with_blocks, with_counts, with_env, judge_block, judge_payload, judge_claim,
  latest_blockhash_window,
}
use rpc_latency_monitor.ReferenceCheck.Judge.Window.{Says, judge_window_block-Says}

abbrev pub IsAsked : Verdict → Type 0
IsAsked implausible = ⊥
IsAsked _ = Unit

if-IsAsked : (b : Bool) (v w : Verdict) → IsAsked v → IsAsked w → IsAsked (if b then v else w)
if-IsAsked true v w h k = h
if-IsAsked false v w h k = k

exact-IsAsked : (block : NodeBlock) (claimed : String) → IsAsked (exact_verdict block claimed)
unfolding exact_verdict
exact-IsAsked (hash truth) claimed = if-IsAsked (truth == claimed) match mismatch tt tt
exact-IsAsked skipped claimed = tt
exact-IsAsked NodeBlock.unavailable claimed = tt

module _ ⦃c : Crates⦄ where
  open c use {Value, get, as_u64, as_array, is_null}

  slot-IsAsked : (o : Option ℕ) (slot : ℕ) → IsAsked (slot_verdict o slot)
  slot-IsAsked none slot = tt
  slot-IsAsked (some n) slot = if-IsAsked (n == slot) match mismatch tt tt

  window-IsAsked :
      (url : String) (slot : ℕ) (claimed : String) (s : Blocks × Env)
      → IsAsked (judge_window_block url slot claimed s).0
  window-IsAsked url slot claimed s =
      said (judge_window_block url slot claimed s).0 (judge_window_block-Says url slot claimed s)
    where
      said :
          (v : Verdict)
          → Says
              (judge_window_block url slot claimed s).1.0
              (slot - latest_blockhash_window)
              slot
              claimed
              false
              false
              v
          → IsAsked v
      said match h = tt
      said skip h = tt
      said mismatch h = tt
      said missing h = tt
      said drift h = tt
      said implausible h = h

  compare-IsAsked :
      (m : GpaMatcher) (sample : List AccountSample) (entries : List Value) (drifted : Bool)
      → IsAsked (compare_accounts m sample entries drifted)
  unfolding compare_accounts
  compare-IsAsked m [] entries drifted = if-IsAsked drifted drift match tt tt
  compare-IsAsked m (claimed ∷ sample) [] drifted = if-IsAsked drifted drift match tt tt
  compare-IsAsked m (claimed ∷ sample) (entry ∷ entries) drifted =
      if-IsAsked (is_null entry || not (matches m entry)) mismatch _ tt
        (compare-IsAsked m sample entries _)

  answer-IsAsked :
      (target : GpaTarget) (sample : List AccountSample) (o : Option (List Value))
      → IsAsked (compare_answer target sample o)
  unfolding compare_answer
  answer-IsAsked target sample none = tt
  answer-IsAsked target sample (some entries) =
      if-IsAsked (length entries == length sample) _ skip
        (compare-IsAsked (Matcher.new target) sample entries false) tt

  accounts-IsAsked :
      (target : GpaTarget) (sample : List AccountSample) (r : RawResponse)
      → IsAsked (accounts_answer target sample r)
  unfolding accounts_answer
  accounts-IsAsked target sample (result v) = answer-IsAsked target sample _
  accounts-IsAsked target sample (rpc_error code) = tt
  accounts-IsAsked target sample unavailable = tt

  transaction-IsAsked : (r : RawResponse) (slot : ℕ) → IsAsked (transaction_answer r slot)
  unfolding transaction_answer
  transaction-IsAsked (result v) slot = if-IsAsked (is_null v) missing _ tt (slot-IsAsked _ slot)
  transaction-IsAsked (rpc_error code) slot = tt
  transaction-IsAsked unavailable slot = tt

  judge_block-IsAsked :
      (url : String) (m : RpcMethod) (slot : ℕ) (claimed : String) (s : Blocks × Env)
      → IsAsked (judge_block url m slot claimed s).0
  unfolding judge_block judge_exact_block
  judge_block-IsAsked url get_block_recent slot claimed s = exact-IsAsked _ claimed
  judge_block-IsAsked url _ slot claimed s = window-IsAsked url slot claimed s

  judge_accounts-IsAsked :
      (url : String) (count : ℕ) (sample : List AccountSample) (target : GpaTarget)
      (node_count : Option ℕ) (tolerance : ℕ) (e : Env)
      → IsAsked (judge_accounts url count sample target node_count tolerance e).0
  unfolding judge_accounts ask_accounts
  judge_accounts-IsAsked url count sample target node_count tolerance e =
      elim (Bool-cases (count_differs node_count count tolerance)) [
        | inl far ↦ rw far tt
        | inr near ↦ rw near (elim (Bool-cases (is_empty sample)) [
          | inl none_left ↦ rw none_left tt
          | inr some_left ↦ rw some_left (accounts-IsAsked target sample _)
        ])
      ]

  payload-IsAsked :
      (config : ReferenceCheckConfig) (m : RpcMethod) (slot : ℕ) (p : Option ClaimPayload)
      (j : Judging)
      → IsAsked (judge_payload config m slot p j).0
  unfolding judge_payload with_blocks with_counts with_env judge_transaction
  payload-IsAsked config m slot (some (blockhash own claimed)) j =
      judge_block-IsAsked config.rpc_url m slot claimed (j.blocks, j.env)
  payload-IsAsked config m slot (some (accounts own count sample target)) j =
      judge_accounts-IsAsked config.rpc_url count sample target _ config.claim_count_tolerance _
  payload-IsAsked config m slot (some (transaction own signature)) j = transaction-IsAsked _ own
  payload-IsAsked config m slot (some (clock own time)) j = tt
  payload-IsAsked config m slot none j = tt

  pub judge_claim-IsAsked :
      (config : ReferenceCheckConfig) (claim : Claim) (j : Judging)
      → IsAsked (judge_claim config claim j).0
  unfolding judge_claim
  judge_claim-IsAsked config claim j =
      payload-IsAsked config claim.method claim.slot claim.payload j
