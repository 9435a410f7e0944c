-- ===== src/Tests/Checks.antt =====
-- Runs of the modules about the checks against the trusted node: reference_check.rs.
use mathlib.Core.Path.{subst}
use mathlib.Core.Option.{some-injective}
use rpc_latency_monitor.Prelude.{
  sym, ap, String, ◌∙◌, inl, inr, ◌==◌, ==_iff, string_eq, Bool-cases, Elem, lookup, Map, ℕ, ◌≤◌,
  ◌≡◌, ◌↔◌, refl, Bool, true, false, none, some, List, [], ◌∷◌, length, All, arith,
}
use rpc_latency_monitor.Method.{get_block_recent}
use rpc_latency_monitor.Rpc.{CallResult, blockhash, clock, success}
use rpc_latency_monitor.ReferenceSlot.{ReferenceSlot}
use rpc_latency_monitor.ReferenceCheck.Sink.{Claim, ClaimSink, new, drain_due, clock_implausible}
use rpc_latency_monitor.ReferenceCheck.Sink.Queue.{
  HasWaited, IsWaiting, submitted, polled_node, drained, Event, after_all, queue_bounded, Merge,
  drain_due-Merge,
}
use rpc_latency_monitor.ReferenceCheck.Sink.Plausible.{Drifts, least_clock_escapes}
use rpc_latency_monitor.ReferenceCheck.Judge.{judge_window_block}
use rpc_latency_monitor.ReferenceCheck.Judge.Window.{Says, judge_window_block-Says}
use rpc_latency_monitor.ReferenceCheck.Archival.{Observed, majority_block, unused, insert_slot}
use rpc_latency_monitor.ReferenceCheck.Archival.Slots.{IsConsistent, insert_slot-IsConsistent}
use rpc_latency_monitor.ReferenceCheck.Archival.Majority.{votes, majority_block-most}
use rpc_latency_monitor.Tests.Toy.{toy, start}

abbrev claims : ℕ → CallResult
claims slot = record {
  latency = 5;
  status = success;
  observed_slot = some slot;
  signature = none;
  archival_signature = none;
  accounts = [];
  claim = some (blockhash slot "a");
  endpoint_ip = none;
}

abbrev pub fleet : ReferenceSlot
fleet = record { tip = 110 }

abbrev sink : ClaimSink
sink = record { queue = []; polled = some (100, 0); margin = 16; stale_after = 64 }

abbrev claim_at : ℕ → Bool → Claim
claim_at slot flag = record {
  provider = "p";
  method = get_block_recent;
  slot = slot;
  payload = none;
  implausible = flag;
}

abbrev pub full_sink : ClaimSink
full_sink = record sink { queue = claim_at 50 false ∷ claim_at 90 false ∷ claim_at 95 true ∷ [] }

drain_due-Merge_example :
    Merge (drain_due 100 32 full_sink).0 (drain_due 100 32 full_sink).1.queue full_sink.queue
    × All (HasWaited 100 32) (drain_due 100 32 full_sink).0
    × All (IsWaiting 100 32) (drain_due 100 32 full_sink).1.queue
drain_due-Merge_example = drain_due-Merge 100 32 full_sink (omega arith)

abbrev events : List Event
events =
    polled_node 0 100 ∷ submitted 5 5 fleet "p" get_block_recent (claims 90) ∷ drained 200 32 ∷ []

queue_bounded_example : length (after_all events (new 16 64)).queue ≤ 1024
queue_bounded_example = queue_bounded 16 64 events

least_clock_escapes_example :
    Drifts 1700000000 (9223372038554775808)
    × (clock_implausible 1700000000 (some (clock 5 (9223372038554775808))) ≡ false)
least_clock_escapes_example = least_clock_escapes 1700000000 5 (omega arith)

judge_window_block-Says_example :
    Says
      (judge_window_block ⦃c = toy⦄ "node" 10 "c" ([], start)).1.0
      2
      10
      "c"
      false
      false
      (judge_window_block ⦃c = toy⦄ "node" 10 "c" ([], start)).0
judge_window_block-Says_example = judge_window_block-Says ⦃c = toy⦄ "node" 10 "c" ([], start)

insert_slot-IsConsistent_example : IsConsistent (insert_slot 7 unused).1
insert_slot-IsConsistent_example =
    insert_slot-IsConsistent 7 unused
      (record { queued = λ x e. e; kept = λ x e. e; distinct = tt; bounded = omega arith })

-- Two providers that give the same hash.
abbrev answers : List Observed
answers =
    record { name = "p"; hash = some "a"; signature = some "s" }
    ∷ record { name = "q"; hash = some "a"; signature = none }
    ∷ []

abbrev tally : Map String ℕ
tally = ("a", 2) ∷ []

tally-walk : (g : String) (n : ℕ) → Elem (g, n) tally ↔ (lookup g tally ≡ some n)
tally-walk g n = (
  (λ e. elim e [
    | inl same ↦ subst (λ (p : String × ℕ). lookup p.0 tally ≡ some p.1) (sym same) refl
    | inr never ↦ absurd never
  ]),
  λ found. elim (Bool-cases ("a" == g)) [
    | inl same ↦
        let two : 2 ≡ n = some-injective _ _ (rw same at found) in
        inl (ap (λ x. (x, n)) (sym ((==_iff "a" g).0 same)) ∙ ap (λ k. ("a", k)) (sym two))
    | inr other ↦ cc (rw other at found)
  ],
)

majority_block-most_example :
    (2 ≤ votes "a" answers) × ((g : String) → votes g answers ≤ votes "a" answers)
unfolding majority_block
majority_block-most_example =
    majority_block-most (λ table. table) answers "a" (some "s") tally-walk refl
