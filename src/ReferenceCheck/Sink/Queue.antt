-- ===== src/ReferenceCheck/Sink/Queue.antt =====
-- The queue of `ClaimSink`: its bound, and what `drain_due` takes out of it.
use rpc_latency_monitor.Prelude.{
  ℕ, ◌≤◌, ◌<◌, ◌≡◌, String, Bool, true, false, not, ◌&&◌, inl, inr, ◌⊎◌, ◌+◌, Option, none, some,
  List, [], ◌∷◌, arith, leb, length, length-append, length-drop, drop, All, Bool-cases,
}
use rpc_latency_monitor.Method.{RpcMethod}
use rpc_latency_monitor.Rpc.{CallResult}
use rpc_latency_monitor.ReferenceSlot.{ReferenceSlot}
use rpc_latency_monitor.ReferenceCheck.Sink.{
  Claim, ClaimSink, new, claim_buffer_cap, set_node_tip, push_claim, queue_at, submit, is_due,
  split_due, drain_due, verifiable_later, implausible_now,
}

-- What happens to a sink: a result is submitted, the node is polled, the due claims are taken out.
pub data Event : Type 0 where
  submitted : (now unix : ℕ) → ReferenceSlot → String → RpcMethod → CallResult → Event
  polled_node : (now slot : ℕ) → Event
  drained : (tip delay : ℕ) → Event

abbrev pub after : Event → ClaimSink → ClaimSink
after (submitted now unix fleet provider m result) sink =
    submit now unix fleet provider m result sink
after (polled_node now slot) sink = set_node_tip now slot sink
after (drained tip delay) sink = (drain_due tip delay sink).1

abbrev pub after_all : List Event → ClaimSink → ClaimSink
after_all [] sink = sink
after_all (e ∷ es) sink = after_all es (after e sink)

push_claim-le :
    (claim : Claim) (queue : List Claim)
    → length queue ≤ claim_buffer_cap
    → length (push_claim claim queue) ≤ claim_buffer_cap
push_claim-le claim queue h = elim (Bool-cases (leb claim_buffer_cap (length queue))) [
  | inl full ↦
      rw full (omega (arith, length-append (drop 1 queue) (claim ∷ []), length-drop 1 queue))
  | inr room ↦ rw room (ground (arith, length-append queue (claim ∷ [])))
]

queue_at-le :
    (slot : Option ℕ) (provider : String) (m : RpcMethod) (result : CallResult) (flag : Bool)
    (sink : ClaimSink)
    → length sink.queue ≤ claim_buffer_cap
    → length (queue_at slot provider m result flag sink).queue ≤ claim_buffer_cap
queue_at-le none provider m result flag sink h = h
queue_at-le (some slot) provider m result flag sink h = push_claim-le _ sink.queue h

submit-le :
    (now unix : ℕ) (fleet : ReferenceSlot) (provider : String) (m : RpcMethod) (result : CallResult)
    (sink : ClaimSink)
    → length sink.queue ≤ claim_buffer_cap
    → length (submit now unix fleet provider m result sink).queue ≤ claim_buffer_cap
unfolding submit
submit-le now unix fleet provider m result sink h =
    let flag = implausible_now now unix fleet result sink in
    elim (Bool-cases (not (verifiable_later result.claim) && not flag)) [
      | inl skip ↦ rw skip h
      | inr keep ↦ rw keep (queue_at-le _ provider m result flag sink h)
    ]

split_due-le :
    (tip delay : ℕ) (queue : List Claim) → length (split_due tip delay queue).1 ≤ length queue
unfolding split_due
split_due-le tip delay [] = omega arith
split_due-le tip delay (claim ∷ queue) = ground (arith, split_due-le tip delay queue)

after-le :
    (e : Event) (sink : ClaimSink)
    → length sink.queue ≤ claim_buffer_cap
    → length (after e sink).queue ≤ claim_buffer_cap
unfolding set_node_tip drain_due
after-le (submitted now unix fleet provider m result) sink h =
    submit-le now unix fleet provider m result sink h
after-le (polled_node now slot) sink h = h
after-le (drained tip delay) sink h = omega (arith, split_due-le tip delay sink.queue)

after_all-le :
    (es : List Event) (sink : ClaimSink)
    → length sink.queue ≤ claim_buffer_cap
    → length (after_all es sink).queue ≤ claim_buffer_cap
after_all-le [] sink h = h
after_all-le (e ∷ es) sink h = after_all-le es (after e sink) (after-le e sink h)

-- After any sequence of submissions, polls and drains, a new sink holds at most 1024 claims.
pub queue_bounded :
    (margin stale_after : ℕ) (es : List Event)
    → length (after_all es (new margin stale_after)).queue ≤ 1024
unfolding new
queue_bounded margin stale_after es = after_all-le es _ (omega arith)

-- The third list is a merge of the first two, each in its order.
pub data Merge {A : Type 0} : List A → List A → List A → Type 0 where
  done : Merge [] [] []
  left : {a : A} {xs ys zs : List A} → Merge xs ys zs → Merge (a ∷ xs) ys (a ∷ zs)
  right : {a : A} {xs ys zs : List A} → Merge xs ys zs → Merge xs (a ∷ ys) (a ∷ zs)

split_due-Merge :
    (tip delay : ℕ) (queue : List Claim)
    → Merge (split_due tip delay queue).0 (split_due tip delay queue).1 queue
unfolding split_due
split_due-Merge tip delay [] = done
split_due-Merge tip delay (claim ∷ queue) = elim (Bool-cases (is_due tip delay claim)) [
  | inl due ↦ rw due (left (split_due-Merge tip delay queue))
  | inr later ↦ rw later (right (split_due-Merge tip delay queue))
]

pub drained-Merge :
    (tip delay : ℕ) (sink : ClaimSink)
    → Merge (drain_due tip delay sink).0 (drain_due tip delay sink).1.queue sink.queue
unfolding drain_due
drained-Merge tip delay sink = split_due-Merge tip delay sink.queue

-- A claim that is flagged, or whose slot is `delay` slots behind the tip.
abbrev pub HasWaited : ℕ → ℕ → Claim → Type 0
HasWaited tip delay claim = (claim.implausible ≡ true) ⊎ (claim.slot + delay ≤ tip)

abbrev pub IsWaiting : ℕ → ℕ → Claim → Type 0
IsWaiting tip delay claim = (claim.implausible ≡ false) × (tip < claim.slot + delay)

is_due-HasWaited :
    (tip delay : ℕ) (claim : Claim)
    → tip < 18446744073709551615
    → is_due tip delay claim ≡ true
    → HasWaited tip delay claim
is_due-HasWaited tip delay claim room due = elim (Bool-cases claim.implausible) [
  | inl flagged ↦ inl flagged
  | inr fine ↦ inr (ground arith)
]

split_due-All :
    (tip delay : ℕ) (queue : List Claim)
    → tip < 18446744073709551615
    → All (HasWaited tip delay) (split_due tip delay queue).0
      × All (IsWaiting tip delay) (split_due tip delay queue).1
unfolding split_due
split_due-All tip delay [] room = (tt, tt)
split_due-All tip delay (claim ∷ queue) room =
    let (due_all, later_all) = split_due-All tip delay queue room in
    elim (Bool-cases (is_due tip delay claim)) [
      | inl due ↦ rw due ((is_due-HasWaited tip delay claim room due, due_all), later_all)
      | inr later ↦ rw later (due_all, ((ground arith, ground arith), later_all))
    ]

-- A drain loses no claim and keeps the order: the queue was a merge of the claims taken out and of
-- those left. For a tip below the largest number of 64 bits, every claim taken out is flagged as
-- implausible or its slot is at least `delay` slots behind the tip; every claim left is neither.
pub drain_due-Merge :
    (tip delay : ℕ) (sink : ClaimSink)
    → tip < 18446744073709551615
    → Merge (drain_due tip delay sink).0 (drain_due tip delay sink).1.queue sink.queue
      × All (HasWaited tip delay) (drain_due tip delay sink).0
      × All (IsWaiting tip delay) (drain_due tip delay sink).1.queue
unfolding drain_due
drain_due-Merge tip delay sink room =
    let (due_all, later_all) = split_due-All tip delay sink.queue room in
    (drained-Merge tip delay sink, due_all, later_all)
