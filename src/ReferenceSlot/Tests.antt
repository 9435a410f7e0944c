-- ===== src/ReferenceSlot/Tests.antt =====
-- Runs of src/reference_slot.rs, those of its own tests among them.
use rpc_latency_monitor.Prelude.{◌≡◌, refl, inl, inr, none, some, [], ◌∷◌}
use rpc_latency_monitor.ReferenceSlot.{new, observe, current, lag_for}
use rpc_latency_monitor.ReferenceSlot.Tip.{observe_all, observe_all-same_slots}

keeps_the_highest_slot : current (observe_all new (5 ∷ 3 ∷ 9 ∷ [])) ≡ some 9
unfolding current observe
keeps_the_highest_slot = refl

unset_reference_reports_no_lag : lag_for new 50 ≡ none
unfolding lag_for
unset_reference_reports_no_lag = refl

observe_all-same_slots_example :
    current (observe_all new (5 ∷ 3 ∷ [])) ≡ current (observe_all new (3 ∷ 5 ∷ 3 ∷ []))
observe_all-same_slots_example =
    observe_all-same_slots new (5 ∷ 3 ∷ []) (3 ∷ 5 ∷ 3 ∷ [])
      (λ s. elim [ inl e ↦ inr (inl e) | inr (inl e) ↦ inl e | inr (inr e) ↦ inr (inr (inr e)) ])
      (λ s. elim [
        | inl e ↦ inr (inl e)
        | inr (inl e) ↦ inl e
        | inr (inr (inl e)) ↦ inr (inl e)
        | inr (inr (inr e)) ↦ inr (inr e)
      ])
