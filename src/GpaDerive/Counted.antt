-- ===== src/GpaDerive/Counted.antt =====
-- The calls of the rounds of src/gpa_derive.rs, and the counts that the derived targets have among
-- them.
use rpc_latency_monitor.Prelude.{
  ℕ, ◌≤◌, ◌≡◌, refl, inl, inr, String, Bool, true, false, Option, none, some, List, [], ◌∷◌, ◌==◌,
  nat_eq, string_eq, leb, take, any, Elem, All, All-concat, Distinct, Bool-cases, and_true, arith,
  if◌then◌else◌, is_empty, ◌&&◌,
}
use rpc_latency_monitor.Prelude.Maybe
use rpc_latency_monitor.Crates.{Crates}
use rpc_latency_monitor.Config.{GpaDeriveConfig}
use rpc_latency_monitor.Methods.Params.{gpa_count_params}
use rpc_latency_monitor.Rpc.Client.{Env, raw_call}
use rpc_latency_monitor.Target.{GpaTarget}
use rpc_latency_monitor.GpaDerive.{
  DerivedTargets, max_preflights, candidate_targets, gpa_count, pick_counted, preflight, preflights,
  derive_from, derive_once, run, accounts_params, token_anchors,
}
use rpc_latency_monitor.GpaDerive.Shapes.{
  names, IsShape, update-All, update-Distinct, candidate_targets-IsShape, take-IsShape,
}

module _ ⦃c : Crates⦄ (config : GpaDeriveConfig) (meanwhile : Env → Env) where
  open c use {Value}

  -- The queries whose accounts the endpoint was asked to count, with its answers, the last one first.
  abbrev pub Log : Type 0
  Log = List (GpaTarget × Option Value)

  -- The calls that lead from a state to another: counts of accounts, which are logged with the answer
  -- that the endpoint gave there, reads of token accounts, and what the other tasks do.
  pub data Trace (start : Env) : Log → Env → Type 0 where
    begun : Trace start [] start
    counted :
        {log : Log} {e : Env} (t : GpaTarget)
        → Trace start log e
        → Trace start
            ((t, (raw_call config.endpoint "getProgramAccounts" (gpa_count_params t) e).0) ∷ log)
            (raw_call config.endpoint "getProgramAccounts" (gpa_count_params t) e).1
    read :
        {log : Log} {e : Env} (accounts : List String)
        → Trace start log e
        → Trace start log
            (raw_call config.endpoint "getMultipleAccounts" (accounts_params accounts) e).1
    waited : {log : Log} {e : Env} → Trace start log e → Trace start log (meanwhile e)

  -- The endpoint has counted the accounts of the query, and the count was in the bounds.
  abbrev pub IsCounted : Log → GpaTarget → Type 0
  IsCounted log t =
      (result : Value) × (count : ℕ) × Elem (t, some result) log
      × (gpa_count result ≡ some count)
      × (config.min_accounts ≤ count)
      × (count ≤ config.max_accounts)

  abbrev pub IsPicked : Log → GpaTarget → Type 0
  IsPicked log t = IsShape t × IsCounted log t

  still :
      (x : GpaTarget × Option Value) (log : Log) (ts : DerivedTargets)
      → All (IsPicked log) ts
      → All (IsPicked (x ∷ log)) ts
  still x log [] h = tt
  still x log (t ∷ ts) ((shape, (result, count, there, known, least, most)), h) =
      ((shape, (result, count, inr there, known, least, most)), still x log ts h)

  pick_counted-All :
      (log : Log) (candidate : GpaTarget) (picked : List GpaTarget) (o : Option ℕ)
      → ((count : ℕ)
          → o ≡ some count
          → config.min_accounts ≤ count
          → count ≤ config.max_accounts
          → IsPicked log candidate)
      → All (IsPicked log) picked
      → All (IsPicked log) (pick_counted config candidate o picked).0
  unfolding pick_counted
  pick_counted-All log candidate picked none fine h = h
  pick_counted-All log candidate picked (some count) fine h =
      elim (Bool-cases (leb config.min_accounts count && leb count config.max_accounts)) [
        | inl bounded ↦
            let (least, most) =
              and_true (leb config.min_accounts count) (leb count config.max_accounts) bounded in
            rw bounded
              (All-concat (IsPicked log) picked h (fine count refl (ground arith) (ground arith)))
        | inr outside ↦ rw outside h
      ]

  module _ (start : Env) where
    -- The targets that there are and those of this round, all counted on the way here.
    abbrev BothCounted : DerivedTargets → List GpaTarget → Env → Type 0
    BothCounted ts picked e =
        (log : Log) × Trace start log e × All (IsPicked log) ts × All (IsPicked log) picked

    preflight-Counted :
        (candidate : GpaTarget) (ts : DerivedTargets) (picked : List GpaTarget) (e : Env)
        → IsShape candidate
        → BothCounted ts picked e
        → BothCounted ts
            (preflight config candidate picked e).0.0
            (preflight config candidate picked e).1
    unfolding preflight
    preflight-Counted candidate ts picked e shape (log, trace, old, h) =
        by_name (any (λ (t : GpaTarget). t.name == candidate.name) picked)
      where
        asked : Option Value × Env
        asked = raw_call config.endpoint "getProgramAccounts" (gpa_count_params candidate) e

        by_answer :
            (answer : Option Value)
            → All (IsPicked ((candidate, answer) ∷ log)) picked
            → All
                (IsPicked ((candidate, answer) ∷ log))
                (pick_counted config candidate (Maybe.◌>>=◌ answer gpa_count) picked).0
        by_answer none h =
            pick_counted-All ((candidate, none) ∷ log) candidate picked none
              (λ count none_some. absurd (cc)) h
        by_answer (some result) h =
            pick_counted-All ((candidate, some result) ∷ log) candidate picked (gpa_count result)
              (λ count known least most. (shape, (result, count, inl refl, known, least, most))) h

        decided : Bool → (List GpaTarget × Bool) × Env
        decided known =
            if known
            then ((picked, false), e)
            else (pick_counted config candidate (Maybe.◌>>=◌ asked.0 gpa_count) picked, asked.1)

        by_name : (known : Bool) → BothCounted ts (decided known).0.0 (decided known).1
        by_name true = (log, trace, old, h)
        by_name false = (
          (candidate, asked.0) ∷ log,
          counted candidate trace,
          still (candidate, asked.0) log ts old,
          by_answer asked.0 (still (candidate, asked.0) log picked h),
        )

    preflights-Counted :
        (candidates : List GpaTarget) (ts : DerivedTargets) (picked : List GpaTarget) (e : Env)
        → All IsShape candidates
        → BothCounted ts picked e
        → BothCounted ts
            (preflights config candidates picked e).0
            (preflights config candidates picked e).1
    unfolding preflights
    preflights-Counted [] ts picked e hs h = h
    preflights-Counted (candidate ∷ candidates) ts picked e (shape, hs) h =
        let ((picked', ended), e') = preflight config candidate picked e in
        by_end ended picked' e' (preflight-Counted candidate ts picked e shape h)
          (λ more. preflights-Counted candidates ts picked' e' hs more)
      where
        by_end :
            (ended : Bool) (picked' : List GpaTarget) (e' : Env)
            → BothCounted ts picked' e'
            → (BothCounted ts picked' e'
                → BothCounted ts
                    (preflights config candidates picked' e').0
                    (preflights config candidates picked' e').1)
            → BothCounted ts
                (elim ended as (λ b. List GpaTarget × Env) [
                  | true ↦ (picked', e')
                  | false ↦ preflights config candidates picked' e'
                ]).0
                (elim ended as (λ b. List GpaTarget × Env) [
                  | true ↦ (picked', e')
                  | false ↦ preflights config candidates picked' e'
                ]).1
        by_end true picked' e' h go_on = h
        by_end false picked' e' h go_on = go_on h

    -- The names differ, and each target was counted on the way here.
    abbrev pub AllCounted : DerivedTargets → Env → Type 0
    AllCounted ts e = Distinct (names ts) × (log : Log) × Trace start log e × All (IsPicked log) ts

    derive_from-Counted :
        (targets : DerivedTargets) (answer : Option Value) (e : Env)
        → AllCounted targets e
        → AllCounted (derive_from config targets answer e).0 (derive_from config targets answer e).1
    unfolding derive_from
    derive_from-Counted targets none e h = h
    derive_from-Counted targets (some result) e (d, log, trace, old) =
        let candidates = take max_preflights (candidate_targets (token_anchors result)) in
        let fresh = (preflights config candidates [] e).0 in
        let (log', trace', old', new) =
          preflights-Counted candidates targets [] e
            (take-IsShape max_preflights (candidate_targets (token_anchors result))
              (candidate_targets-IsShape (token_anchors result)))
            (log, trace, old, tt) in
        (
          update-Distinct fresh targets d,
          log',
          trace',
          update-All (IsPicked log') fresh targets new old',
        )

    derive_once-Counted :
        (accounts : List String) (targets : DerivedTargets) (e : Env)
        → AllCounted targets e
        → AllCounted
            (derive_once config accounts targets e).0
            (derive_once config accounts targets e).1
    unfolding derive_once
    derive_once-Counted accounts targets e (d, log, trace, old) =
        elim (Bool-cases (is_empty accounts)) [
          | inl nothing ↦ rw nothing (d, log, trace, old)
          | inr accounts_given ↦
              let asked =
                raw_call config.endpoint "getMultipleAccounts" (accounts_params accounts) e in
              rw accounts_given
                (derive_from-Counted targets asked.0 asked.1 (d, log, read accounts trace, old))
        ]

    pub rounds-Counted :
        (pools : List (List String)) (targets : DerivedTargets) (e : Env)
        → AllCounted targets e
        → AllCounted
            (run config meanwhile pools targets e).0
            (run config meanwhile pools targets e).1
    unfolding run
    rounds-Counted [] targets e h = h
    rounds-Counted (accounts ∷ pools) targets e h =
        let (after, e') = derive_once config accounts targets e in
        let (d, log, trace, old) = derive_once-Counted accounts targets e h in
        rounds-Counted pools after (meanwhile e') (d, log, waited trace, old)
