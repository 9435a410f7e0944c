-- ===== src/ReferenceCheck/Judge/Sampled.antt =====
-- The verdict of src/reference_check.rs on a claim of program accounts.
use mathlib.Core.Path.{subst}
use rpc_latency_monitor.Prelude.{
  ℕ, ◌≡◌, ◌≢◌, refl, ap, ◌⊎◌, inl, inr, Bool, true, false, not, not-false, or_false, ◌||◌, String,
  Option, none, some, List, [], ◌∷◌, map, ◌==◌, ==_iff, string_eq, nat_eq, abs_diff, ◌<◌, length,
  is_empty, unwrap_or, All, Bool-cases, arith, if◌then◌else◌,
}
use rpc_latency_monitor.Prelude.Maybe
use rpc_latency_monitor.Crates.{Crates}
use rpc_latency_monitor.Target.{GpaTarget}
use rpc_latency_monitor.Rpc.{AccountSample}
use rpc_latency_monitor.Rpc.Client.{
  Env, RawResponse, result, rpc_error, unavailable, raw_call_checked,
}
use rpc_latency_monitor.Methods.Values.{account_base64}
use rpc_latency_monitor.Methods.Params.{base64_at}
use rpc_latency_monitor.Methods.Matcher.{GpaMatcher, matches}
use rpc_latency_monitor.Methods.Matcher
use rpc_latency_monitor.ReferenceCheck.Judge.{
  Verdict, match, mismatch, missing, skip, drift, implausible, compare_accounts, compare_answer,
  accounts_answer, count_differs, ask_accounts, judge_accounts,
}

differ : (a b : String) → (a == b) ≡ false → a ≢ b
differ a b h e = ground (arith, ==_iff a b)

-- The count of the claim is further than the tolerance from that of the node, if the node has one.
abbrev pub FarOff : Option ℕ → ℕ → ℕ → Type 0
FarOff none count tolerance = ⊥
FarOff (some n) count tolerance = tolerance < abs_diff count n

module _ ⦃c : Crates⦄ where
  open c use {Value, get, as_array, is_null, of_str, of_array}

  far_off :
      (node_count : Option ℕ) (count tolerance : ℕ)
      → count_differs node_count count tolerance ≡ true
      → FarOff node_count count tolerance
  far_off none count tolerance h = cc
  far_off (some n) count tolerance h = ground arith

  near_by :
      (node_count : Option ℕ) (count tolerance : ℕ)
      → count_differs node_count count tolerance ≡ false
      → ¬ FarOff node_count count tolerance
  near_by none count tolerance h e = e
  near_by (some n) count tolerance h e = ground arith

  -- An entry of the node that is an account of the target, and one with the data of the claim.
  abbrev pub Fits : GpaMatcher → Value → Type 0
  Fits m entry = (is_null entry ≡ false) × (matches m entry ≡ true)

  abbrev pub SameData : List AccountSample → List Value → Type 0
  SameData (claimed ∷ sample) (entry ∷ entries) =
      (unwrap_or (account_base64 entry) "" ≡ claimed.account_data) × SameData sample entries
  SameData _ _ = Unit

  -- What a verdict says of as many entries as sampled accounts, if the flag stands for earlier ones.
  abbrev pub SaysOf : GpaMatcher → List AccountSample → List Value → Bool → Verdict → Type 0
  SaysOf m sample entries drifted match =
      All (Fits m) entries × (drifted ≡ false) × SameData sample entries
  SaysOf m sample entries drifted drift =
      All (Fits m) entries × ((drifted ≡ true) ⊎ (¬ SameData sample entries))
  SaysOf m sample entries drifted mismatch = ¬ All (Fits m) entries
  SaysOf m sample entries drifted _ = ⊥

  said_first :
      (m : GpaMatcher) (claimed : AccountSample) (sample : List AccountSample) (entry : Value)
      (entries : List Value) (drifted : Bool) (v : Verdict) (same : Bool)
      → (unwrap_or (account_base64 entry) "" == claimed.account_data) ≡ same
      → Fits m entry
      → SaysOf m sample entries (if same then drifted else true) v
      → SaysOf m (claimed ∷ sample) (entry ∷ entries) drifted v
  said_first m claimed sample entry entries drifted match true e fits (all_fit, none_before, rest) =
      ((fits, all_fit), none_before, ((==_iff _ _).0 e, rest))
  said_first m claimed sample entry entries drifted match false e fits (all_fit, never, rest) = cc
  said_first m claimed sample entry entries drifted drift true e fits (all_fit, inl before) =
      ((fits, all_fit), inl before)
  said_first m claimed sample entry entries drifted drift true e fits (all_fit, inr later) =
      ((fits, all_fit), inr (λ h. later h.1))
  said_first m claimed sample entry entries drifted drift false e fits (all_fit, h) =
      ((fits, all_fit), inr (λ h. differ _ _ e h.0))
  said_first m claimed sample entry entries drifted mismatch same e fits h = λ k. h k.1
  said_first m claimed sample entry entries drifted missing same e fits h = absurd h
  said_first m claimed sample entry entries drifted skip same e fits h = absurd h
  said_first m claimed sample entry entries drifted implausible same e fits h = absurd h

  unfit :
      (m : GpaMatcher) (entry : Value)
      → (is_null entry || not (matches m entry)) ≡ true
      → ¬ Fits m entry
  unfit m entry h (present, fits) = cc (rw (present, fits) at h)

  compare-SaysOf :
      (m : GpaMatcher) (sample : List AccountSample) (entries : List Value) (drifted : Bool)
      → length entries ≡ length sample
      → SaysOf m sample entries drifted (compare_accounts m sample entries drifted)
  unfolding compare_accounts
  compare-SaysOf m [] [] true h = (tt, inl refl)
  compare-SaysOf m [] [] false h = (tt, refl, tt)
  compare-SaysOf m [] (entry ∷ entries) drifted h = cc
  compare-SaysOf m (claimed ∷ sample) [] drifted h = cc
  compare-SaysOf m (claimed ∷ sample) (entry ∷ entries) drifted h =
      elim (Bool-cases (is_null entry || not (matches m entry))) [
        | inl bad ↦ rw bad (λ k. unfit m entry bad k.0)
        | inr good ↦
            let (present, fits) = or_false _ _ good in
            rw good (
              said_first m claimed sample entry entries drifted _ _ refl (present, not-false _ fits)
                (compare-SaysOf m sample entries _ (omega arith)))
      ]

  -- The entries of an answer, if it has as many as there are sampled accounts.
  abbrev entries_of : RawResponse → Option (List Value)
  entries_of (result answer) = Maybe.◌>>=◌ (get answer "value") as_array
  entries_of _ = none

  abbrev pub Answered : List AccountSample → RawResponse → List Value → Type 0
  Answered sample r entries = (entries_of r ≡ some entries) × (length entries ≡ length sample)

  -- What a verdict says of the counts and of the answer.
  module _ (node_count : Option ℕ) (count tolerance : ℕ) (sample : List AccountSample)
      (target : GpaTarget) (r : RawResponse) where
    abbrev Compared : Verdict → Type 0
    Compared v =
        (sample ≢ [])
        × ((entries : List Value) × Answered sample r entries
            × (SaysOf (Matcher.new target) sample entries false v))

    abbrev pub SaysAccounts : Verdict → Type 0
    SaysAccounts match = (¬ FarOff node_count count tolerance) × Compared match
    SaysAccounts drift = (¬ FarOff node_count count tolerance) × Compared drift
    SaysAccounts mismatch = FarOff node_count count tolerance ⊎ Compared mismatch
    SaysAccounts skip =
        (¬ FarOff node_count count tolerance)
        × ((sample ≡ []) ⊎ ((entries : List Value) → ¬ Answered sample r entries))
    SaysAccounts _ = ⊥

    compared :
        (entries : List Value) (v : Verdict)
        → (¬ FarOff node_count count tolerance)
        → sample ≢ []
        → Answered sample r entries
        → SaysOf (Matcher.new target) sample entries false v
        → SaysAccounts v
    compared entries match near some_left answered h = (near, (some_left, (entries, answered, h)))
    compared entries drift near some_left answered h = (near, (some_left, (entries, answered, h)))
    compared entries mismatch near some_left answered h = inr (some_left, (entries, answered, h))
    compared entries missing near some_left answered h = absurd h
    compared entries skip near some_left answered h = absurd h
    compared entries implausible near some_left answered h = absurd h

    answer_says :
        (o : Option (List Value))
        → entries_of r ≡ o
        → (¬ FarOff node_count count tolerance)
        → sample ≢ []
        → SaysAccounts (compare_answer target sample o)
    unfolding compare_answer
    answer_says none e near some_left =
        (near, inr (λ entries answered. no_entries entries (answered.0)))
      where
        no_entries : (entries : List Value) → entries_of r ≡ some entries → ⊥
        no_entries entries h = cc
    answer_says (some entries) e near some_left =
        elim (Bool-cases (length entries == length sample)) [
          | inl same ↦
              let equal : length entries ≡ length sample = (==_iff _ _).0 same in
              rw same (
                compared entries _ near some_left (e, equal)
                  (compare-SaysOf (Matcher.new target) sample entries false equal))
          | inr other ↦ rw other (near, inr (λ xs answered. too_many xs answered other))
        ]
      where
        too_many :
            (xs : List Value) → Answered sample r xs → (length entries == length sample) ≡ false → ⊥
        too_many xs (found, size) other =
            let same : xs ≡ entries = cc in
            let equal : length entries ≡ length sample =
              subst (λ es. length es ≡ length sample) same size in
            ground (arith, ==_iff (length entries) (length sample))

    reply_says :
        (¬ FarOff node_count count tolerance)
        → sample ≢ []
        → SaysAccounts (accounts_answer target sample r)
    unfolding accounts_answer
    reply_says near some_left = by_reply r refl
      where
        by_reply : (x : RawResponse) → r ≡ x → SaysAccounts (accounts_answer target sample x)
        by_reply (result answer) e = answer_says _ (ap entries_of e) near some_left
        by_reply (rpc_error code) e = answer_says none (ap entries_of e) near some_left
        by_reply unavailable e = answer_says none (ap entries_of e) near some_left

  not_empty : {A : Type 0} (xs : List A) → is_empty xs ≡ false → xs ≢ []
  not_empty [] h e = cc
  not_empty (x ∷ xs) h e = cc

  empty_list : {A : Type 0} (xs : List A) → is_empty xs ≡ true → xs ≡ []
  empty_list [] h = refl
  empty_list (x ∷ xs) h = cc

  -- The answer of the node to the question for the sampled accounts.
  abbrev pub account_answer : String → List AccountSample → Env → RawResponse
  account_answer url sample e =
      (raw_call_checked url "getMultipleAccounts"
        (of_array (
          of_array (map (λ (s : AccountSample). of_str s.pubkey) sample)
          ∷ base64_at "confirmed"
          ∷ []))
        e).0

  -- A claim of program accounts is a `mismatch` exactly if its count is further than the tolerance
  -- from that of the node, or the node answers as many entries as accounts were sampled and one of
  -- them is missing or no account of the target. Otherwise it is skipped if nothing was sampled or
  -- the answer has another number of entries; it is a `match` if all entries have the data of the
  -- claim, and a `drift` if not. A node without a count refutes none.
  pub judge_accounts-SaysAccounts :
      (url : String) (count : ℕ) (sample : List AccountSample) (target : GpaTarget)
      (node_count : Option ℕ) (tolerance : ℕ) (e : Env)
      → SaysAccounts node_count count tolerance sample target
          (account_answer url sample e)
          (judge_accounts url count sample target node_count tolerance e).0
  unfolding judge_accounts ask_accounts
  judge_accounts-SaysAccounts url count sample target node_count tolerance e =
      elim (Bool-cases (count_differs node_count count tolerance)) [
        | inl far ↦ rw far (inl (far_off node_count count tolerance far))
        | inr near ↦ rw near (elim (Bool-cases (is_empty sample)) [
          | inl nothing ↦
              rw nothing (near_by node_count count tolerance near, inl (empty_list sample nothing))
          | inr left ↦ rw left (
              reply_says node_count count tolerance sample target (account_answer url sample e)
                (near_by node_count count tolerance near) (not_empty sample left))
        ])
      ]
