-- ===== src/ReferenceCheck/Node.antt =====
-- The questions that src/reference_check.rs asks the trusted node, and their caches.
pub mod Cached
use rpc_latency_monitor.Prelude.{
  ℕ, ◌-◌, String, Bool, true, false, not, ◌&&◌, Option, none, some, List, [], ◌∷◌, ◌==◌, nat_eq,
  string_eq, ltb, length, lookup, insert, Map, filter_option, if◌then◌else◌,
}
use rpc_latency_monitor.Prelude.Maybe
use rpc_latency_monitor.Prelude.State.{State, pure, ◌>>=◌, ◌>>◌}
use rpc_latency_monitor.Crates.{Crates}
use rpc_latency_monitor.Target.{GpaTarget}
use rpc_latency_monitor.Methods.Values.{non_empty_string}
use rpc_latency_monitor.Methods.Params.{block_params_with, gpa_count_params}
use rpc_latency_monitor.Rpc.Classify.{is_slot_skipped}
use rpc_latency_monitor.Rpc.Client.{Env, RawResponse, result, rpc_error, raw_call, raw_call_checked}

-- `GPA_COUNT_TTL`, in nanoseconds
abbrev gpa_count_ttl : ℕ
gpa_count_ttl = 300000000000

pub data NodeBlock : Type 0 where
  hash : String → NodeBlock
  skipped : NodeBlock
  unavailable : NodeBlock

abbrev pub Blocks : Type 0
Blocks = Map ℕ NodeBlock

-- A count with the instant of its request.
abbrev pub GpaCounts : Type 0
GpaCounts = Map String (ℕ × ℕ)

module _ ⦃c : Crates⦄ where
  open c use {Value, get, as_str, as_u64, as_array, of_str, of_array, of_object, to_string, now}

  abbrev found_block : Option String → NodeBlock
  found_block none = NodeBlock.unavailable
  found_block (some h) = hash h

  -- The answer to `getBlock`.
  unfoldable pub block_answer : RawResponse → NodeBlock
  block_answer (result block) = found_block (non_empty_string (get block "blockhash"))
  block_answer (rpc_error code) = if is_slot_skipped code then skipped else NodeBlock.unavailable
  block_answer RawResponse.unavailable = NodeBlock.unavailable

  fetch_block : String → ℕ → State (Blocks × Env) NodeBlock
  unfolding block_answer
  fetch_block url slot (cache, e) =
      let (response, e') =
        raw_call_checked url "getBlock" (block_params_with "none" "confirmed" slot) e in
      let answer = block_answer response in (answer, (insert slot answer cache, e'))

  unfoldable pub node_block : String → ℕ → State (Blocks × Env) NodeBlock
  unfolding fetch_block
  node_block url slot (cache, e) = elim (lookup slot cache) [
    | some cached ↦ (cached, (cache, e))
    | none ↦ fetch_block url slot (cache, e)
  ]

  unfoldable pub node_slot : String → State Env (Option ℕ)
  node_slot url = do
    answer ←
        raw_call url "getSlot" (of_array (of_object (("commitment", of_str "processed") ∷ []) ∷ []))
    pure (Maybe.◌>>=◌ answer as_u64)

  count_answer : Option Value → Option ℕ
  count_answer answer = Maybe.◌>>=◌ (Maybe.◌>>=◌ answer as_array) (λ a. some (length a))

  store_count : String → Option ℕ → State (GpaCounts × Env) (Option ℕ)
  store_count key none s = (none, s)
  store_count key (some count) (cache, e) = (some count, (insert key (count, now e.world) cache, e))

  fetch_count : String → GpaTarget → State (GpaCounts × Env) (Option ℕ)
  unfolding count_answer store_count
  fetch_count url target (cache, e) =
      let params = gpa_count_params target in
      let (answer, e') = raw_call url "getProgramAccounts" params e in
      store_count (to_string params) (count_answer answer) (cache, e')

  -- A count that is older than the limit is asked for again.
  fresh_count : ℕ → Option (ℕ × ℕ) → Option ℕ
  fresh_count time none = none
  fresh_count time (some (count, fetched)) =
      if ltb (time - fetched) gpa_count_ttl then some count else none

  unfoldable pub cached_gpa_count : String → GpaTarget → State (GpaCounts × Env) (Option ℕ)
  unfolding fresh_count fetch_count
  cached_gpa_count url target (cache, e) =
      elim (fresh_count (now e.world) (lookup (to_string (gpa_count_params target)) cache)) [
        | some count ↦ (some count, (cache, e))
        | none ↦ fetch_count url target (cache, e)
      ]
