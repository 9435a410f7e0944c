-- ===== src/ReferenceCheck/Archival/Round.antt =====
-- `run_archival_round` of src/reference_check.rs, with its two timed calls. The tasks of a
-- `JoinSet` run side by side: here the calls of a set are made one by one, in the order in which
-- the tasks end, which is a parameter (a task that panics is left out of it).
pub mod Anchored
pub mod Confirmed
pub mod Moves
use rpc_latency_monitor.Prelude.{
  ℕ, suc, ◌-◌, String, Bool, true, false, Option, none, some, List, [], ◌∷◌, ◌==◌, nat_eq,
  string_eq, leb, Map, checked_sub, filter_option, not, is_some, if◌then◌else◌,
}
use rpc_latency_monitor.Prelude.Maybe
use rpc_latency_monitor.Prelude.State.{State, pure, ◌>>=◌, ◌>>◌}
use rpc_latency_monitor.Crates.{Crates}
use rpc_latency_monitor.Method.{RpcMethod, get_block_archival, get_transaction_archival}
use rpc_latency_monitor.Metrics.{Metrics, record_call, record_claim_check}
use rpc_latency_monitor.ReferenceSlot.{ReferenceSlot, current, ArchivalAnchor, set}
use rpc_latency_monitor.Methods.Accounts.{archival_signature}
use rpc_latency_monitor.Methods.Params.{block_params, transaction_params}
use rpc_latency_monitor.Methods.Values.{non_empty_string}
use rpc_latency_monitor.Rpc.{
  CallResult, CallStatus, success, skipped, error, ErrorKind, empty, transport,
}
use rpc_latency_monitor.Rpc.Classify.{is_slot_skipped}
use rpc_latency_monitor.Rpc.Client.{Env, RawResponse, result, rpc_error, raw_call_checked, elapsed}
use rpc_latency_monitor.Providers.{ProviderEndpoint}
use rpc_latency_monitor.ReferenceCheck.Archival.{
  UsedSlots, Observed, pick_unused_slot, majority_block, archival_min_quorum,
}

abbrev pub archival_min_depth : ℕ
archival_min_depth = 40000000

abbrev pub archival_floor : ℕ
archival_floor = 20000000

unfoldable pub archival_result : ℕ → CallStatus → CallResult
archival_result latency status = record {
  latency = latency;
  status = status;
  observed_slot = none;
  signature = none;
  archival_signature = none;
  accounts = [];
  claim = none;
  endpoint_ip = none;
}

-- A success shows something; without it the answer is empty.
abbrev shown_status : Bool → CallStatus
shown_status true = success
shown_status false = error empty

-- The verdict on the hash or the slot that a provider gave.
abbrev verdict_of : Option Bool → String
verdict_of none = "skipped"
verdict_of (some true) = "match"
verdict_of (some false) = "mismatch"

abbrev agrees_hash : String → Option String → Option Bool
agrees_hash truth none = none
agrees_hash truth (some h) = some (h == truth)

abbrev pub agrees_slot : ℕ → Option ℕ → Option Bool
agrees_slot slot none = none
agrees_slot slot (some s) = some (s == slot)

unfoldable pub hash_verdicts : String → List Observed → Metrics → Metrics
hash_verdicts truth [] metrics = metrics
hash_verdicts truth (o ∷ os) metrics = hash_verdicts truth os (
    record_claim_check o.name get_block_archival "" (verdict_of (agrees_hash truth o.hash)) metrics)

-- The confirmations after one more verdict.
abbrev pub confirm : Option Bool → ℕ → ℕ
confirm (some true) n = suc n
confirm _ n = n

-- The orders in which the tasks of the two sets end.
pub record Schedule : Type 0 where
  pub blocks : List ProviderEndpoint → List ProviderEndpoint
  pub transactions : List ProviderEndpoint → List ProviderEndpoint

module _ ⦃c : Crates⦄ where
  open c use {Value, get, as_u64, is_null, now, World}

  -- What a provider answered to `getBlock`: the result, the hash and a signature of the block.
  unfoldable pub block_outcome : ℕ → RawResponse → CallResult × Option String × Option String
  block_outcome latency (result value) =
      let hash = non_empty_string (get value "blockhash") in
      (
        archival_result latency (shown_status (is_some hash)),
        hash,
        archival_signature get_block_archival value,
      )
  block_outcome latency (rpc_error code) =
      if is_slot_skipped code
      then (archival_result latency skipped, none, none)
      else (archival_result latency (error (ErrorKind.rpc_error code)), none, none)
  block_outcome latency RawResponse.unavailable =
      (archival_result latency (error transport), none, none)

  unfoldable pub timed_archival_block :
      String → ℕ → State Env (CallResult × Option String × Option String)
  unfolding block_outcome
  timed_archival_block url slot = do
    start ← (λ e. (now e.world, e))
    response ← raw_call_checked url "getBlock" (block_params slot)
    latency ← elapsed start
    pure (block_outcome latency response)

  unfoldable pub transaction_outcome : ℕ → RawResponse → CallResult × Option ℕ
  transaction_outcome latency (result value) =
      let slot = Maybe.◌>>=◌ (get value "slot") as_u64 in
      if is_null value
      then (archival_result latency skipped, none)
      else (archival_result latency (shown_status (is_some slot)), slot)
  transaction_outcome latency (rpc_error code) =
      (archival_result latency (error (ErrorKind.rpc_error code)), none)
  transaction_outcome latency RawResponse.unavailable =
      (archival_result latency (error transport), none)

  unfoldable pub timed_archival_tx : String → String → State Env (CallResult × Option ℕ)
  unfolding transaction_outcome
  timed_archival_tx url signature = do
    start ← (λ e. (now e.world, e))
    response ← raw_call_checked url "getTransaction" (transaction_params signature)
    latency ← elapsed start
    pure (transaction_outcome latency response)

  -- The first set: every provider is asked for the block.
  unfoldable pub ask_blocks : ℕ → List ProviderEndpoint → State (Env × Metrics) (List Observed)
  unfolding timed_archival_block
  ask_blocks slot [] s = ([], s)
  ask_blocks slot (p ∷ ps) (e, metrics) =
      let ((call, hash, sig), e') = timed_archival_block p.url slot e in
      let metrics' = record_call p.name get_block_archival call call.status "" metrics in
      let (rest, s) = ask_blocks slot ps (e', metrics') in
      (record { name = p.name; hash = hash; signature = sig } ∷ rest, s)

  -- The second set: every provider is asked for the transaction. The number is that of the providers
  -- that confirm the slot.
  unfoldable pub ask_transactions : String → ℕ → List ProviderEndpoint → ℕ → State (Env × Metrics) ℕ
  unfolding timed_archival_tx
  ask_transactions signature slot [] n s = (n, s)
  ask_transactions signature slot (p ∷ ps) n (e, metrics) =
      let ((call, tx_slot), e') = timed_archival_tx p.url signature e in
      let verdict = agrees_slot slot tx_slot in
      let metrics' = record_call p.name get_transaction_archival call call.status "" metrics in
      let metrics'' =
        record_claim_check p.name get_transaction_archival "" (verdict_of verdict) metrics' in
      ask_transactions signature slot ps (confirm verdict n) (e', metrics'')

  -- The state of the check's task, and what it shares.
  pub record Archive : Type 0 where
    pub env : Env
    pub metrics : Metrics
    pub used : UsedSlots
    pub anchor : ArchivalAnchor

  module _ (schedule : Schedule) (walk : Map String ℕ → List (String × ℕ))
      (providers : List ProviderEndpoint) where
    confirm_signature : ℕ → Option String → Archive → Archive
    confirm_signature slot none a = a
    confirm_signature slot (some sig) a =
        let (n, (e, metrics)) =
          ask_transactions sig slot (schedule.transactions providers) 0 (a.env, a.metrics) in
        let asked : Archive = record a { env = e; metrics = metrics } in
        if leb archival_min_quorum n then record asked { anchor = set a.anchor slot sig } else asked

    judge_majority : ℕ → List Observed → Option (String × Option String) → Archive → Archive
    unfolding confirm_signature
    judge_majority slot observed none a = a
    judge_majority slot observed (some (truth, sig)) a =
        confirm_signature slot sig (record a { metrics = hash_verdicts truth observed a.metrics })

    pub round_on : Option ℕ → Archive → Archive
    unfolding judge_majority
    round_on none a = a
    round_on (some slot) a =
        let (observed, (e, metrics)) =
          ask_blocks slot (schedule.blocks providers) (a.env, a.metrics) in
        judge_majority slot observed (majority_block walk observed)
          (record a { env = e; metrics = metrics })

    round_below : ℕ → Archive → Archive
    unfolding round_on
    round_below ceil a =
        let (slot, (used, w)) = pick_unused_slot archival_floor ceil (a.used, a.env.world) in
        round_on slot (record a { used = used; env = record a.env { world = w } })

    round_with : Option ℕ → Archive → Archive
    unfolding round_below
    round_with none a = a
    round_with (some ceil) a = if leb ceil archival_floor then a else round_below ceil a

    unfoldable pub run_archival_round : ReferenceSlot → Archive → Archive
    unfolding round_with
    run_archival_round reference a =
        round_with (Maybe.◌>>=◌ (current reference) (λ tip. checked_sub tip archival_min_depth)) a
