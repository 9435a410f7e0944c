-- ===== src/ReferenceCheck/Sink.antt =====
-- `ClaimSink` of src/reference_check.rs: the queue of claims that wait for their check. The mutexes are
-- states; the fleet's tip, which the sink shares with the scheduler, is an argument, as is the time,
-- which each operation reads once.
pub mod Queue
pub mod Plausible
use rpc_latency_monitor.Prelude.{
  ℕ, ◌+◌, ◌-◌, ◌/◌, ◌%◌, String, Bool, true, false, ◌&&◌, ◌||◌, not, Option, none, some, List, [],
  ◌∷◌, ◌++◌, ltb, leb, max, length, drop, word, or, is_some_and, saturating_add, if◌then◌else◌,
}
use rpc_latency_monitor.Prelude.Maybe.{◌>>=◌}
use rpc_latency_monitor.Method.{RpcMethod}
use rpc_latency_monitor.Rpc.{
  CallResult, ClaimPayload, blockhash, accounts, transaction, clock, payload_slot,
}
use rpc_latency_monitor.ReferenceSlot.{ReferenceSlot, current}

abbrev pub claim_buffer_cap : ℕ
claim_buffer_cap = 1024

abbrev slot_ms : ℕ
slot_ms = 400

abbrev clock_drift_secs : ℕ
clock_drift_secs = 120

pub record Claim : Type 0 where
  pub provider : String
  pub method : RpcMethod
  pub slot : ℕ
  pub payload : Option ClaimPayload
  pub implausible : Bool

-- The node's tip comes with the instant of its poll, in nanoseconds.
pub record ClaimSink : Type 0 where
  pub queue : List Claim
  pub polled : Option (ℕ × ℕ)
  pub margin : ℕ
  pub stale_after : ℕ

unfoldable pub new : ℕ → ℕ → ClaimSink
new margin stale_after = record {
  queue = [];
  polled = none;
  margin = margin;
  stale_after = stale_after;
}

-- Milliseconds from one instant to a later one; `duration_since` is 0 if it is not later.
abbrev millis_since : ℕ → ℕ → ℕ
millis_since start now = (now - start) / 1000000 % word

unfoldable pub node_tip : ℕ → ClaimSink → Option ℕ
node_tip now sink = do
  (tip, polled_at) ← sink.polled
  some ((tip + millis_since polled_at now / slot_ms) % word)

unfoldable pub set_node_tip : ℕ → ℕ → ClaimSink → ClaimSink
set_node_tip now slot sink = record sink { polled = some (slot, now) }

unfoldable pub node_lag : ℕ → ReferenceSlot → ClaimSink → Option ℕ
node_lag now fleet sink = do node ← node_tip now sink; tip ← current fleet; some (tip - node)

unfoldable pub node_stale : ℕ → ReferenceSlot → ClaimSink → Bool
node_stale now fleet sink = is_some_and (node_lag now fleet sink) (λ lag. ltb sink.stale_after lag)

abbrev later_tip : Option ℕ → Option ℕ → Option ℕ
later_tip (some n) (some f) = some (max n f)
later_tip (some n) none = some n
later_tip none f = f

unfoldable pub effective_tip : ℕ → ReferenceSlot → ClaimSink → Option ℕ
effective_tip now fleet sink = later_tip (node_tip now sink) (current fleet)

-- `(now - time).abs()` on `i64`, as bit patterns: the least `i64` is its own absolute value.
unfoldable pub abs_i64 : ℕ → ℕ
abs_i64 x = if ltb x 9223372036854775808 then x else (word - x) % word

unfoldable pub sub_i64 : ℕ → ℕ → ℕ
sub_i64 a b = (a + word - b) % word

-- `x > n` on `i64`, for a number n that is not negative
abbrev exceeds_i64 : ℕ → ℕ → Bool
exceeds_i64 x n = ltb x 9223372036854775808 && ltb n x

unfoldable pub clock_implausible : ℕ → Option ClaimPayload → Bool
unfolding abs_i64 sub_i64
clock_implausible unix (some (clock slot time)) =
    exceeds_i64 (abs_i64 (sub_i64 unix time)) clock_drift_secs
clock_implausible unix _ = false

abbrev beyond : Option ℕ → Option ℕ → ℕ → Bool
beyond (some tip) (some slot) margin = ltb (saturating_add tip margin) slot
beyond _ _ margin = false

unfoldable pub slot_implausible : ℕ → ReferenceSlot → Option ℕ → ClaimSink → Bool
slot_implausible now fleet claim_slot sink =
    is_some_and (node_lag now fleet sink) (λ lag. leb lag sink.margin)
    && beyond (node_tip now sink) claim_slot sink.margin

abbrev verifiable_later : Option ClaimPayload → Bool
verifiable_later (some (blockhash slot hash)) = true
verifiable_later (some (accounts slot n sample target)) = true
verifiable_later (some (transaction slot s)) = true
verifiable_later _ = false

unfoldable pub claim_slot_of : CallResult → Option ℕ
claim_slot_of result = or (result.claim >>= payload_slot) result.observed_slot

-- The oldest claim makes room for the new one.
abbrev push_claim : Claim → List Claim → List Claim
push_claim claim queue =
    (if leb claim_buffer_cap (length queue) then drop 1 queue else queue) ++ claim ∷ []

abbrev queue_at : Option ℕ → String → RpcMethod → CallResult → Bool → ClaimSink → ClaimSink
queue_at none provider m result flag sink = sink
queue_at (some slot) provider m result flag sink =
    let claim : Claim = record {
      provider = provider;
      method = m;
      slot = slot;
      payload = result.claim;
      implausible = flag;
    } in
    record sink { queue = push_claim claim sink.queue }

unfoldable pub implausible_now : ℕ → ℕ → ReferenceSlot → CallResult → ClaimSink → Bool
implausible_now now unix fleet result sink =
    slot_implausible now fleet (claim_slot_of result) sink || clock_implausible unix result.claim

unfoldable pub submit :
    ℕ → ℕ → ReferenceSlot → String → RpcMethod → CallResult → ClaimSink → ClaimSink
unfolding implausible_now
submit now unix fleet provider m result sink =
    let flag = implausible_now now unix fleet result sink in
    if not (verifiable_later result.claim) && not flag
    then sink
    else queue_at (or (claim_slot_of result) (effective_tip now fleet sink)) provider m result flag
        sink

abbrev pub is_due : ℕ → ℕ → Claim → Bool
is_due tip delay claim = claim.implausible || leb (saturating_add claim.slot delay) tip

-- `retain`, which moves the due claims out in their order
unfoldable pub split_due : ℕ → ℕ → List Claim → List Claim × List Claim
split_due tip delay [] = ([], [])
split_due tip delay (claim ∷ queue) =
    let (due, rest) = split_due tip delay queue in
    if is_due tip delay claim then (claim ∷ due, rest) else (due, claim ∷ rest)

unfoldable pub drain_due : ℕ → ℕ → ClaimSink → List Claim × ClaimSink
unfolding split_due
drain_due tip delay sink =
    let (due, rest) = split_due tip delay sink.queue in (due, record sink { queue = rest })
