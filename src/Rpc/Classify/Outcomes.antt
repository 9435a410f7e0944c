-- ===== src/Rpc/Classify/Outcomes.antt =====
-- What a status of `classify` says of the answer, and what it keeps.
use rpc_latency_monitor.Prelude.{
  ℕ, String, ◌≡◌, refl, true, false, ◌↔◌, Bool-cases, inl, inr, Option, none, some, List,
}
use rpc_latency_monitor.Crates.{Crates}
use rpc_latency_monitor.Method.{RpcMethod, probes_fixed_slot, get_signatures_for_address}
use rpc_latency_monitor.Rpc.{RequestContext, ErrorKind, skipped, is_success}
use rpc_latency_monitor.Methods.Results.{is_valid_result}
use rpc_latency_monitor.Rpc.Classify.{
  Parsed, blank, parsed_error, is_http_success, is_slot_skipped, error_code, on_error, on_result,
  on_reply, on_json, accepted, classify,
}

module _ ⦃c : Crates⦄ where
  open c use {Value, get, from_slice}

  -- The answer parses, has no error, and has this result, which the method accepts.
  abbrev pub IsAccepted : ℕ → List ℕ → RpcMethod → RequestContext → Value → Type 0
  IsAccepted status body m ctx result =
      (is_http_success status ≡ true)
      × (json : Value) × (from_slice body ≡ some json)
      × (get json "error" ≡ none)
      × (get json "result" ≡ some result)
      × (is_valid_result m result ctx ≡ true)

  -- The answer parses and has the error of a skipped slot, which was asked for by its number.
  abbrev pub IsSkip : ℕ → List ℕ → RpcMethod → Type 0
  IsSkip status body m =
      (is_http_success status ≡ true)
      × (json e : Value) × (from_slice body ≡ some json)
      × (get json "error" ≡ some e)
      × (is_slot_skipped (error_code e) ≡ true)
      × (probes_fixed_slot m ≡ true)

  -- To prove a fact of `classify` it is enough to prove it of an error, of a skipped slot, and of an
  -- accepted result.
  module _ (P : Parsed → Type 0) (m : RpcMethod) (ctx : RequestContext)
      (on_failure : (k : ErrorKind) → P (parsed_error k)) where
    error_rule :
        (code : ℕ)
        → (is_slot_skipped code ≡ true → probes_fixed_slot m ≡ true → P (blank skipped))
        → P (on_error code m)
    unfolding on_error
    error_rule code skip = elim (Bool-cases (is_slot_skipped code)) [
      | inl a ↦ elim (Bool-cases (probes_fixed_slot m)) [
        | inl b ↦ rw (a, b) (skip a b)
        | inr b ↦ rw (a, b) (on_failure _)
      ]
      | inr a ↦ rw a (on_failure _)
    ]

    result_rule :
        (o : Option Value)
        → ((result : Value)
            → o ≡ some result
            → is_valid_result m result ctx ≡ true
            → P (accepted result m ctx))
        → P (on_result o m ctx)
    unfolding on_result
    result_rule none accept = on_failure _
    result_rule (some result) accept = elim (Bool-cases (is_valid_result m result ctx)) [
      | inl valid ↦ rw valid (accept result refl valid)
      | inr bad ↦ rw bad (on_failure _)
    ]

    reply_rule :
        (e o : Option Value)
        → ((v : Value)
            → e ≡ some v
            → is_slot_skipped (error_code v) ≡ true
            → probes_fixed_slot m ≡ true
            → P (blank skipped))
        → (e ≡ none
            → (result : Value) → o ≡ some result
            → is_valid_result m result ctx ≡ true
            → P (accepted result m ctx))
        → P (on_reply e o m ctx)
    unfolding on_reply
    reply_rule (some v) o skip accept = error_rule (error_code v) (skip v refl)
    reply_rule none o skip accept = result_rule o (accept refl)

    json_rule :
        (o : Option Value)
        → ((json v : Value)
            → o ≡ some json
            → get json "error" ≡ some v
            → is_slot_skipped (error_code v) ≡ true
            → probes_fixed_slot m ≡ true
            → P (blank skipped))
        → ((json result : Value)
            → o ≡ some json
            → get json "error" ≡ none
            → get json "result" ≡ some result
            → is_valid_result m result ctx ≡ true
            → P (accepted result m ctx))
        → P (on_json o m ctx)
    unfolding on_json
    json_rule none skip accept = on_failure _
    json_rule (some json) skip accept =
        reply_rule (get json "error") (get json "result") (λ v. skip json v refl)
          (λ e result. accept json result refl e)

    classify_rule :
        (status : ℕ) (body : List ℕ)
        → (IsSkip status body m → P (blank skipped))
        → ((result : Value) → IsAccepted status body m ctx result → P (accepted result m ctx))
        → P (classify status body m ctx)
    unfolding classify
    classify_rule status body skip accept = elim (Bool-cases (is_http_success status)) [
      | inr bad ↦ rw bad (on_failure _)
      | inl good ↦ rw good (
          json_rule (from_slice body) (λ json v parsed e a b. skip (good, json, v, parsed, e, a, b))
            (λ json result parsed e r valid. accept result (good, json, parsed, e, r, valid)))
    ]

  -- A result whose status is not a success keeps nothing of the answer: no slot, no signature, no
  -- accounts and no claim.
  pub classify-blank :
      (status : ℕ) (body : List ℕ) (m : RpcMethod) (ctx : RequestContext)
      → is_success (classify status body m ctx).status ≡ false
      → classify status body m ctx ≡ blank (classify status body m ctx).status
  unfolding accepted
  classify-blank status body m ctx =
      classify_rule (λ p. is_success p.status ≡ false → p ≡ blank p.status) m ctx (λ k h. refl)
        status body (λ _ h. refl) (λ result _ h. cc)

  accepted_success :
      (status : ℕ) (body : List ℕ) (m : RpcMethod) (ctx : RequestContext) (result json : Value)
      → is_http_success status ≡ true
      → from_slice body ≡ some json
      → get json "error" ≡ none
      → get json "result" ≡ some result
      → is_valid_result m result ctx ≡ true
      → is_success (classify status body m ctx).status ≡ true
  unfolding classify
  accepted_success status body m ctx result json good parsed e r valid =
      rw (good, parsed, on_json, e, r, on_reply, on_result, valid) refl

  -- A success is an answer with an HTTP status from 200 to 299, which parses, has no error, and has a
  -- result that the method accepts; and every such answer is a success.
  pub classify-success_iff :
      (status : ℕ) (body : List ℕ) (m : RpcMethod) (ctx : RequestContext)
      → (is_success (classify status body m ctx).status ≡ true)
        ↔ ((result : Value) × IsAccepted status body m ctx result)
  unfolding accepted
  classify-success_iff status body m ctx = (
    classify_rule
        (λ p. is_success p.status ≡ true → (result : Value) × IsAccepted status body m ctx result) m
        ctx (λ k h. cc) status body (λ _ h. cc) (λ result a h. (result, a)),
    λ (result, (good, json, parsed, e, r, valid)).
        accepted_success status body m ctx result json good parsed e r valid,
  )

  -- A status is "skipped" only for the two probes that name a slot, when the provider answers with the
  -- error of a skipped slot.
  pub classify-skipped :
      (status : ℕ) (body : List ℕ) (m : RpcMethod) (ctx : RequestContext)
      → (classify status body m ctx).status ≡ skipped
      → IsSkip status body m
  unfolding accepted
  classify-skipped status body m ctx =
      classify_rule (λ p. p.status ≡ skipped → IsSkip status body m) m ctx (λ k h. cc) status body
        (λ s h. s) (λ result _ h. cc)

  -- An answer to a history query below the archival anchor shows no slot, no signature and no claim, so
  -- that nothing of the distant past reaches the tip, the recent signature or the claim checks.
  pub classify-anchored :
      (status : ℕ) (body : List ℕ) (ctx : RequestContext) (anchor : ℕ × String)
      → ctx.gsfa_anchor ≡ some anchor
      → ((classify status body get_signatures_for_address ctx).observed_slot ≡ none)
        × ((classify status body get_signatures_for_address ctx).signature ≡ none)
        × ((classify status body get_signatures_for_address ctx).claim ≡ none)
  unfolding accepted
  classify-anchored status body ctx anchor e =
      classify_rule (λ p. (p.observed_slot ≡ none) × (p.signature ≡ none) × (p.claim ≡ none))
        get_signatures_for_address ctx (λ k. (refl, refl, refl)) status body
        (λ _. (refl, refl, refl)) (λ result _. rw e (refl, refl, refl))
