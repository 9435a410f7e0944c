-- ===== src/Rpc/Labels.antt =====
-- The labels of src/rpc/mod.rs under which a call is counted.
use rpc_latency_monitor.Prelude.{
  ℕ, ◌≤◌, ◌<◌, ◌≡◌, ◌↔◌, ◌⊎◌, refl, Bool-cases, true, false, ◌&&◌, inl, inr, arith, leb,
  texts_differ,
}
use rpc_latency_monitor.Rpc.{
  CallStatus, ErrorKind, success, skipped, error, http_status, is_success, is_client_side,
  status_label, is_error,
}

-- The provider refused the request with an HTTP status from 400 to 499.
abbrev pub IsRefused : CallStatus → Type 0
IsRefused s = (code : ℕ) × (s ≡ error (http_status code)) × (400 ≤ code) × (code < 500)

abbrev LabelCases : CallStatus → Type 0
LabelCases s =
    ((status_label s ≡ "error") ↔ (is_error s ≡ true))
    × ((status_label s ≡ "success") ↔ (is_success s ≡ true))
    × ((status_label s ≡ "skipped") ↔ ((s ≡ skipped) ⊎ IsRefused s))

not-IsRefused :
    {k : ErrorKind}
    → is_client_side (error k) ≡ false
    → ¬ ((error k ≡ skipped) ⊎ IsRefused (error k))
not-IsRefused e (inl h) = cc
not-IsRefused e (inr (code, h, low, high)) = ground arith

refused_label : (code : ℕ) → LabelCases (error (http_status code))
unfolding status_label is_error
refused_label code = elim (Bool-cases (leb 400 code && leb code 499)) [
  | inl e ↦ rw e (
    (λ h. absurd (texts_differ "skipped" "error" refl h), λ h. cc),
    (λ h. absurd (texts_differ "skipped" "success" refl h), λ h. cc),
    (λ h. inr (code, refl, ground arith, ground arith), λ h. refl),
  )
  | inr e ↦ rw e (
    (λ h. refl, λ h. refl),
    (λ h. absurd (texts_differ "error" "success" refl h), λ h. cc),
    (λ h. absurd (texts_differ "error" "skipped" refl h), λ h. absurd (not-IsRefused e h)),
  )
]

plain_label : (k : ErrorKind) → is_client_side (error k) ≡ false → LabelCases (error k)
unfolding status_label is_error
plain_label k e = rw e (
  (λ h. refl, λ h. refl),
  (λ h. absurd (texts_differ "error" "success" refl h), λ h. cc),
  (λ h. absurd (texts_differ "error" "skipped" refl h), λ h. absurd (not-IsRefused e h)),
)

-- A call is labelled "error" exactly when it counts as an error, "success" exactly when it is a
-- success, and "skipped" otherwise: when it was skipped, or refused with an HTTP status from 400 to
-- 499.
pub status_label_cases :
    (s : CallStatus)
    → ((status_label s ≡ "error") ↔ (is_error s ≡ true))
      × ((status_label s ≡ "success") ↔ (is_success s ≡ true))
      × ((status_label s ≡ "skipped") ↔ ((s ≡ skipped) ⊎ IsRefused s))
unfolding status_label is_error
status_label_cases success = (
  (λ h. absurd (texts_differ "success" "error" refl h), λ h. cc),
  (λ h. refl, λ h. refl),
  (λ h. absurd (texts_differ "success" "skipped" refl h), λ h. ground arith),
)
status_label_cases skipped = (
  (λ h. absurd (texts_differ "skipped" "error" refl h), λ h. cc),
  (λ h. absurd (texts_differ "skipped" "success" refl h), λ h. cc),
  (λ h. inl refl, λ h. refl),
)
status_label_cases (error (http_status code)) = refused_label code
status_label_cases (error k) = plain_label k refl
