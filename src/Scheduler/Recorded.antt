-- ===== src/Scheduler/Recorded.antt =====
-- What `record` of src/scheduler.rs does with a result.
use rpc_latency_monitor.Prelude.{
  ◌⊎◌, inl, inr, false, Bool, if◌then◌else◌, and_true, ◌≢◌, or, not, is_empty, List, [], ◌∷◌, ℕ,
  ◌+◌, ◌≤◌, ◌<◌, ◌≡◌, ◌↔◌, refl, ap, String, true, false, Option, none, some, arith, max,
}
use mathlib.Core.Option.{some-injective}
use rpc_latency_monitor.Metrics.{record_call}
use rpc_latency_monitor.ReferenceSlot.{ReferenceSlot, observe, observe_opt, current}
use rpc_latency_monitor.Rpc.{error, stale, CallStatus, CallResult, is_success}
use rpc_latency_monitor.Scheduler.{
  CheckTask, Board, is_stale, stale_by_lag, record_probe, on_success,
}

lag_iff :
    (tip slot : Option ℕ) (limit : ℕ)
    → (stale_by_lag tip slot limit ≡ true)
      ↔ ((t s : ℕ) × (tip ≡ some t) × (slot ≡ some s) × (s + limit < t))
unfolding stale_by_lag
lag_iff none slot limit = (λ h. cc, λ (t, s, e, f, late). cc)
lag_iff (some t) none limit = (λ h. cc, λ (t', s, e, f, late). cc)
lag_iff (some t) (some s) limit =
    (λ h. (t, s, refl, refl, ground arith), λ (t', s', e, f, late). ground arith)

-- A success counts as stale exactly when a tip is known, the result shows a slot, and the slot is more
-- than the limit behind the tip; no other result is stale.
pub is_stale_iff :
    (task : CheckTask) (reference : ReferenceSlot) (result : CallResult)
    → (is_stale task reference result ≡ true) ↔ (
        (is_success result.status ≡ true)
        × ((tip slot : ℕ) × (current reference ≡ some tip)
            × (result.observed_slot ≡ some slot)
            × (slot + task.max_slot_lag < tip)))
unfolding is_stale
is_stale_iff task reference result =
    let (from_test, to_test) = lag_iff (current reference) result.observed_slot task.max_slot_lag in
    (
      (λ h.
          let (succeeded, late) =
            and_true (is_success result.status)
              (stale_by_lag (current reference) result.observed_slot task.max_slot_lag) h in
          (succeeded, from_test late)),
      λ (succeeded, late). rw (succeeded, to_test late) refl,
    )

unsuccessful :
    (late : Bool) (status : CallStatus)
    → is_success status ≡ false
    → is_success (if late then error stale else status) ≡ false
unsuccessful true status h = refl
unsuccessful false status h = h

-- A stale success, like a result that is no success, moves neither the reference slot nor the shared
-- values, submits no claim and records no slot lag.
pub record_probe-unsuccessful :
    (task : CheckTask) (now unix : ℕ) (target : String) (result : CallResult) (b : Board)
    → (is_stale task b.reference result ≡ true) ⊎ (is_success result.status ≡ false)
    → ((record_probe task now unix target result b).reference ≡ b.reference)
      × ((record_probe task now unix target result b).shared ≡ b.shared)
      × ((record_probe task now unix target result b).claims ≡ b.claims)
      × ((record_probe task now unix target result b).metrics.slot_lag ≡ b.metrics.slot_lag)
unfolding record_probe record_call
record_probe-unsuccessful task now unix target result b (inl late) =
    rw late (refl, refl, refl, refl)
record_probe-unsuccessful task now unix target result b (inr failed) =
    rw (unsuccessful (is_stale task b.reference result) result.status failed)
      (refl, refl, refl, refl)

observe_opt-tip :
    (r : ReferenceSlot) (o : Option ℕ)
    → (r.tip ≤ (observe_opt r o).tip)
      × ((slot : ℕ) → o ≡ some slot → (observe_opt r o).tip ≡ max r.tip slot)
unfolding observe
observe_opt-tip r none = (omega arith, λ slot e. cc)
observe_opt-tip r (some s) = (omega arith, λ slot e. ap (max r.tip) (some-injective _ _ e))

-- What is shared of an optional value: the new one if there is one, the old one otherwise.
abbrev pub IsRenewed {ℓ} : {A : Type ℓ} → Option A → Option A → Option A → Type ℓ
IsRenewed found old shown =
    ((x : _) → found ≡ some x → shown ≡ some x) × (found ≡ none → shown ≡ old)

or-IsRenewed {ℓ} : {A : Type ℓ} (found old : Option A) → IsRenewed found old (or found old)
or-IsRenewed none old = ((λ x e. absurd (cc)), λ _. refl)
or-IsRenewed (some y) old = ((λ x e. e), λ e. absurd (cc))

renewed_accounts :
    (found old : List String)
    → (found ≢ [] → (if not (is_empty found) then found else old) ≡ found)
      × (found ≡ [] → (if not (is_empty found) then found else old) ≡ old)
renewed_accounts [] old = ((λ h. absurd (h refl)), λ _. refl)
renewed_accounts (x ∷ found) old = ((λ _. refl), λ e. absurd (cc))

-- A success that is not stale moves the reference slot to its own slot if that is higher, and
-- never down. A recent signature that it shows is then the shared one, and without one the shared
-- one stays; so with the archival signature; and so with the accounts, unless there are none.
pub record_probe-success :
    (task : CheckTask) (now unix : ℕ) (target : String) (result : CallResult) (b : Board)
    → is_stale task b.reference result ≡ false
    → is_success result.status ≡ true
    → (b.reference.tip ≤ (record_probe task now unix target result b).reference.tip)
      × ((slot : ℕ)
          → result.observed_slot ≡ some slot
          → (record_probe task now unix target result b).reference.tip ≡ max b.reference.tip slot)
      × IsRenewed result.signature b.shared.recent_signature
          (record_probe task now unix target result b).shared.recent_signature
      × IsRenewed result.archival_signature b.shared.archival_signature
          (record_probe task now unix target result b).shared.archival_signature
      × (result.accounts ≢ []
          → (record_probe task now unix target result b).shared.recent_accounts ≡ result.accounts)
      × (result.accounts ≡ []
          → (record_probe task now unix target result b).shared.recent_accounts
            ≡ b.shared.recent_accounts)
unfolding record_probe on_success
record_probe-success task now unix target result b fresh ok =
    let (higher, at_slot) = observe_opt-tip b.reference result.observed_slot in
    let (some_found, none_found) = renewed_accounts result.accounts b.shared.recent_accounts in
    rw (fresh, ok)
      (
        higher,
        at_slot,
        or-IsRenewed result.signature b.shared.recent_signature,
        or-IsRenewed result.archival_signature b.shared.archival_signature,
        some_found,
        none_found,
      )
