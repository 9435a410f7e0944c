-- ===== src/ReferenceCheck/Tick/Counted.antt =====
-- What `run_verify_tick` of src/reference_check.rs counts, and what becomes of the queue.
use mathlib.Core.Path.{subst}
use rpc_latency_monitor.Prelude.{
  ℕ, suc, ◌+◌, ◌≡◌, refl, Bool, true, false, Bool-cases, Option, none, some, List, [], ◌∷◌, ◌==◌,
  list_eq, string_eq, inl, inr, is_empty, arith, Map, if◌then◌else◌,
}
use rpc_latency_monitor.Crates.{Crates}
use rpc_latency_monitor.Method.{label}
use rpc_latency_monitor.Config.{ReferenceCheckConfig}
use rpc_latency_monitor.Metrics.{
  Metrics, Labels, count_of, record_claim_check, set_reference_node_lag,
}
use rpc_latency_monitor.Metrics.Recorded.{count_of-inc_by}
use rpc_latency_monitor.ReferenceSlot.{ReferenceSlot}
use rpc_latency_monitor.ReferenceCheck.Node.{node_slot}
use rpc_latency_monitor.ReferenceCheck.Sink.{
  Claim, ClaimSink, set_node_tip, node_stale, node_lag, effective_tip, drain_due,
}
use rpc_latency_monitor.ReferenceCheck.Sink.Queue.{Merge, done, right, drained-Merge}
use rpc_latency_monitor.ReferenceCheck.Judge.{
  Verdict, skip, implausible, verdict_label, Judging, judge_claim,
}
use rpc_latency_monitor.ReferenceCheck.Judge.Asked.{IsAsked, judge_claim-IsAsked}
use rpc_latency_monitor.ReferenceCheck.Tick.{
  target_of, Checker, judge_due, judge_all, polled, lag_recorded, verify_due, run_verify_tick,
}

-- The labels of a verdict on a claim.
abbrev pub claim_labels : Claim → Verdict → Labels
claim_labels claim v =
    claim.provider ∷ label claim.method ∷ target_of claim.payload ∷ verdict_label v ∷ []

-- How many of the claims have a verdict with these labels.
abbrev pub tally : Labels → List Claim → List Verdict → ℕ
tally ls [] vs = 0
tally ls (claim ∷ due) [] = 0
tally ls (claim ∷ due) (v ∷ vs) =
    let rest = tally ls due vs in if claim_labels claim v == ls then suc rest else rest

-- A flagged claim is `implausible`; another one never is, and is skipped if the node is stale.
abbrev pub IsVerdict : Bool → Claim → Verdict → Type 0
IsVerdict stale claim v =
    (claim.implausible ≡ true → v ≡ implausible)
    × (claim.implausible ≡ false → IsAsked v × (stale ≡ true → v ≡ skip))

-- One verdict for each claim.
abbrev pub Judged : Bool → List Claim → List Verdict → Type 0
Judged stale [] [] = Unit
Judged stale (claim ∷ due) (v ∷ vs) = IsVerdict stale claim v × Judged stale due vs
Judged stale _ _ = ⊥

-- The second table has the counts of the first and those of the verdicts.
abbrev pub Adds : List Claim → List Verdict → Map Labels ℕ → Map Labels ℕ → Type 0
Adds due vs before after = (ls : Labels) → count_of ls after ≡ count_of ls before + tally ls due vs

Merge-none : (xs : List Claim) → Merge [] xs xs
Merge-none [] = done
Merge-none (x ∷ xs) = right (Merge-none xs)

one_more :
    (claim : Claim) (v : Verdict) (metrics : Metrics) (ls : Labels)
    → count_of ls
        (record_claim_check claim.provider claim.method
          (target_of claim.payload)
          (verdict_label v)
          metrics).claim_check
      ≡ (if claim_labels claim v == ls
          then suc (count_of ls metrics.claim_check)
          else count_of ls metrics.claim_check)
unfolding record_claim_check
one_more claim v metrics ls = count_of-inc_by (claim_labels claim v) ls metrics.claim_check

tally_step :
    (ls : Labels) (claim : Claim) (v : Verdict) (due : List Claim) (vs : List Verdict)
    (before middle after : ℕ)
    → middle ≡ (if claim_labels claim v == ls then suc before else before)
    → after ≡ middle + tally ls due vs
    → after ≡ before + tally ls (claim ∷ due) (v ∷ vs)
tally_step ls claim v due vs before middle after h k = by_test (claim_labels claim v == ls) h
  where
    by_test :
        (b : Bool)
        → middle ≡ (if b then suc before else before)
        → after ≡ before + (if b then suc (tally ls due vs) else tally ls due vs)
    by_test true e = omega (arith, e, k)
    by_test false e = omega (arith, e, k)

module _ ⦃c : Crates⦄ where
  open c use {now}

  judge_due-IsVerdict :
      (config : ReferenceCheckConfig) (stale : Bool) (claim : Claim) (j : Judging)
      → IsVerdict stale claim (judge_due config stale claim j).0
  unfolding judge_due judge_claim
  judge_due-IsVerdict config stale claim j = elim (Bool-cases claim.implausible) [
    | inl flagged ↦ rw flagged ((λ e. refl), λ e. cc)
    | inr plain ↦ rw plain (elim (Bool-cases stale) [
      | inl old ↦ rw old ((λ e. cc), λ e. (tt, λ f. refl))
      | inr fresh ↦ rw fresh ((λ e. cc), λ e. (judge_claim-IsAsked config claim j, λ f. cc))
    ])
  ]

  judge_all-counts :
      (config : ReferenceCheckConfig) (stale : Bool) (due : List Claim) (j : Judging)
      (metrics : Metrics)
      → (vs : List Verdict) × Judged stale due vs
        × Adds due vs metrics.claim_check (judge_all config stale due (j, metrics)).1.1.claim_check
  unfolding judge_all
  judge_all-counts config stale [] j metrics = ([], tt, λ ls. omega arith)
  judge_all-counts config stale (claim ∷ due) j metrics =
      let v = (judge_due config stale claim j).0 in
      let metrics' =
        record_claim_check claim.provider claim.method (target_of claim.payload) (verdict_label v)
          metrics in
      let (vs, judged, adds) =
        judge_all-counts config stale due (judge_due config stale claim j).1 metrics' in
      (
        v ∷ vs,
        (judge_due-IsVerdict config stale claim j, judged),
        λ ls. tally_step ls claim v due vs _ _ _ (one_more claim v metrics ls) (adds ls),
      )

  -- What leaves the queue has one verdict each, which are what is counted.
  pub record IsCounted (stale : Bool) (before after : Checker) : Type 0 where
    pub due : List Claim
    pub verdicts : List Verdict
    pub queue : Merge due after.sink.queue before.sink.queue
    pub judged : Judged stale due verdicts
    pub counts : Adds due verdicts before.metrics.claim_check after.metrics.claim_check

  module _ (config : ReferenceCheckConfig) (fleet : ReferenceSlot) where
    abbrev pub poll_time : Checker → ℕ
    poll_time k = now (node_slot config.rpc_url k.judging.env).1.world

    verify_due-IsCounted :
        (time tip : ℕ) (k : Checker)
        → IsCounted
            (node_stale time fleet (verify_due config fleet time tip k).sink)
            k
            (verify_due config fleet time tip k)
    unfolding verify_due
    verify_due-IsCounted time tip k =
        by_due (drain_due tip config.claim_delay_slots k.sink).0
          (drained-Merge tip config.claim_delay_slots k.sink)
      where
        drained : ClaimSink
        drained = (drain_due tip config.claim_delay_slots k.sink).1

        outcome : List Claim → Unit {0} × (Judging × Metrics)
        outcome due =
            judge_all config (node_stale time fleet drained) due
              (record k.judging { blocks = [] }, k.metrics)

        ended : List Claim → Checker
        ended due =
            if is_empty due
            then record k { sink = drained }
            else record { judging = (outcome due).1.0; metrics = (outcome due).1.1; sink = drained }

        by_due :
            (due : List Claim)
            → Merge due drained.queue k.sink.queue
            → IsCounted (node_stale time fleet (ended due).sink) k (ended due)
        by_due [] merge = record {
          due = [];
          verdicts = [];
          queue = merge;
          judged = tt;
          counts = λ ls. omega arith;
        }
        by_due (claim ∷ due) merge =
            let (vs, judged, adds) =
              judge_all-counts config (node_stale time fleet drained) (claim ∷ due)
                (record k.judging { blocks = [] }) k.metrics in
            record {
              due = claim ∷ due;
              verdicts = vs;
              queue = merge;
              judged = judged;
              counts = adds;
            }

    set_node_tip-queue :
        (slot : Option ℕ) (time : ℕ) (sink : ClaimSink) → (polled slot time sink).queue ≡ sink.queue
    unfolding set_node_tip
    set_node_tip-queue none time sink = refl
    set_node_tip-queue (some slot) time sink = refl

    lag-claim_check :
        (lag : Option ℕ) (metrics : Metrics)
        → (lag_recorded lag metrics).claim_check ≡ metrics.claim_check
    unfolding set_reference_node_lag
    lag-claim_check none metrics = refl
    lag-claim_check (some lag) metrics = refl

    -- What is counted from a checker is counted from one with the same queue and counts.
    from_same :
        (stale : Bool) (k k' after : Checker)
        → k'.sink.queue ≡ k.sink.queue
        → k'.metrics.claim_check ≡ k.metrics.claim_check
        → IsCounted stale k' after
        → IsCounted stale k after
    from_same stale k k' after queue table h = record {
      due = h.due;
      verdicts = h.verdicts;
      queue = subst (λ q. Merge h.due after.sink.queue q) queue h.queue;
      judged = h.judged;
      counts = subst (λ t. Adds h.due h.verdicts t after.metrics.claim_check) table h.counts;
    }

    -- A tick counts what it takes out of the queue, and nothing else: the queue before is a merge
    -- of some claims and of the queue after, and the table of claim checks grows by exactly one
    -- verdict for each of those claims, under its provider, method, target and verdict. The verdict
    -- on a claim that was flagged is `implausible`; that on another claim never is, and is `skip`
    -- if the node is stale at the time of the poll.
    pub run_verify_tick-IsCounted :
        (k : Checker)
        → IsCounted
            (node_stale (poll_time k) fleet (run_verify_tick config fleet k).sink)
            k
            (run_verify_tick config fleet k)
    unfolding run_verify_tick
    run_verify_tick-IsCounted k = by_tip (effective_tip time fleet sink)
      where
        slot : Option ℕ
        slot = (node_slot config.rpc_url k.judging.env).0

        time : ℕ
        time = poll_time k

        sink : ClaimSink
        sink = polled slot time k.sink

        k' : Checker
        k' = record {
          judging = record k.judging { env = (node_slot config.rpc_url k.judging.env).1 };
          metrics = lag_recorded (node_lag time fleet sink) k.metrics;
          sink = sink;
        }

        ended : Option ℕ → Checker
        ended o = elim o [ none ↦ k' | some tip ↦ verify_due config fleet time tip k' ]

        by_tip : (o : Option ℕ) → IsCounted (node_stale time fleet (ended o).sink) k (ended o)
        by_tip none =
            from_same _ k k' k' (set_node_tip-queue slot time k.sink)
              (lag-claim_check (node_lag time fleet sink) k.metrics)
              (record {
                due = [];
                verdicts = [];
                queue = Merge-none k'.sink.queue;
                judged = tt;
                counts = λ ls. omega arith;
              })
        by_tip (some tip) =
            from_same _ k k' _ (set_node_tip-queue slot time k.sink)
              (lag-claim_check (node_lag time fleet sink) k.metrics)
              (verify_due-IsCounted time tip k')
