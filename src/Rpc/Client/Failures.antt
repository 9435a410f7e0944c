-- ===== src/Rpc/Client/Failures.antt =====
-- What `RpcClient::call` returns when the probe does not succeed.
use rpc_latency_monitor.Prelude.{
  ℕ, String, ◌≡◌, refl, ap, Bool, false, inl, inr, Option, none, some, List, [], leb, length,
  Option-cases, Bool-cases,
}
use mathlib.Core.Option.{some-injective}
use mathlib.Core.Path.{subst}
use rpc_latency_monitor.Crates.{Crates}
use rpc_latency_monitor.Method.{RpcMethod}
use rpc_latency_monitor.Rpc.{RequestContext, CallResult, is_success}
use rpc_latency_monitor.Rpc.Classify.{Parsed, blank}
use rpc_latency_monitor.Rpc.Classify.Outcomes.{classify-blank}
use rpc_latency_monitor.Methods.Results.{build_params}
use rpc_latency_monitor.Rpc.Client.{
  Env, large_body_bytes, classify_body, call_response, call_with, call, call_result, outside,
}

-- Nothing but the latency, the status and the address.
pub record IsBare (r : CallResult) : Type 0 where
  pub observed_slot : r.observed_slot ≡ none
  pub signature : r.signature ≡ none
  pub archival_signature : r.archival_signature ≡ none
  pub accounts : r.accounts ≡ []
  pub claim : r.claim ≡ none

module _ ⦃c : Crates⦄ where
  open c use {Value, Response, joined, bytes, status, World}

  -- The parsed answer is blank unless it is a success.
  abbrev BlankUnlessSuccess : Parsed → Type 0
  BlankUnlessSuccess p = is_success p.status ≡ false → p ≡ blank p.status

  classify_body-blank :
      (http_status : ℕ) (body : Option (List ℕ)) (m : RpcMethod) (ctx : RequestContext) (e : Env)
      → BlankUnlessSuccess (classify_body http_status body m ctx e).0
  unfolding classify_body
  classify_body-blank http_status none m ctx e = λ h. refl
  classify_body-blank http_status (some body) m ctx e =
      elim (Bool-cases (leb large_body_bytes (length body))) [
        | inr small ↦ rw (small, classify_body) (classify-blank http_status body m ctx)
        | inl large ↦ elim (Bool-cases (joined e.world).0) [
          | inl ran ↦ rw (large, ran, classify_body) (classify-blank http_status body m ctx)
          | inr lost ↦ rw (large, lost, classify_body) (λ h. refl)
        ]
      ]

  -- A call result that was made of a blank answer.
  bare :
      (latency : ℕ) (ip : Option String) (p : Parsed)
      → p ≡ blank p.status
      → IsBare (call_result latency ip p)
  bare latency ip p e = record {
    observed_slot = ap (λ (q : Parsed). q.observed_slot) e;
    signature = ap (λ (q : Parsed). q.signature) e;
    archival_signature = ap (λ (q : Parsed). q.archival_signature) e;
    accounts = ap (λ (q : Parsed). q.accounts) e;
    claim = ap (λ (q : Parsed). q.claim) e;
  }

  call_response-IsBare :
      (start : ℕ) (sent : Option Response × Bool) (m : RpcMethod) (ctx : RequestContext) (e : Env)
      → is_success (call_response start sent m ctx e).0.status ≡ false
      → IsBare (call_response start sent m ctx e).0
  unfolding call_response
  call_response-IsBare start (none, is_timeout) m ctx e h = bare _ _ _ refl
  call_response-IsBare start (some response, is_timeout) m ctx e h = bare _ _ _ (
      classify_body-blank (status response) (bytes response e.world).0 m ctx
        (outside (bytes response) e).1 h)

  call_with-IsBare :
      (params : Value) (url : String) (m : RpcMethod) (ctx : RequestContext) (limit : Option ℕ)
      (e : Env)
      → is_success (call_with params url m ctx limit e).0.status ≡ false
      → IsBare (call_with params url m ctx limit e).0
  unfolding call_with
  call_with-IsBare params url m ctx limit e = call_response-IsBare _ _ m ctx _

  -- A probe that was sent and did not succeed reports its latency, its status and the address, and
  -- nothing of the answer: no slot, no signature, no accounts and no claim. A probe that has no
  -- parameters reports nothing at all and leaves the client and the world as they were.
  pub call-IsBare :
      (url : String) (m : RpcMethod) (ctx : RequestContext) (limit : Option ℕ) (e : Env)
      → ((r : CallResult)
          → (call url m ctx limit e).0 ≡ some r
          → is_success r.status ≡ false
          → IsBare r)
        × (build_params m ctx ≡ none → call url m ctx limit e ≡ (none, e))
  unfolding call
  call-IsBare url m ctx limit e = (
    (λ r sent failed. elim (Option-cases (build_params m ctx)) [
      | inl missing ↦ cc (rw (missing, call) at sent)
      | inr (params, built) ↦
          let same = some-injective _ _ (rw (built, call) at sent) in
          subst IsBare same (call_with-IsBare params url m ctx limit e (rw same failed))
    ]),
    λ missing. rw (missing, call) refl,
  )
