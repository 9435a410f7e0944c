-- ===== src/ReferenceSlot/Tip.antt =====
-- The tip of src/reference_slot.rs is the maximum of what was observed, in whatever order.
use rpc_latency_monitor.Prelude.{
  ℕ, suc, ◌+◌, ◌≤◌, ◌≡◌, refl, max, inl, inr, some, List, [], ◌∷◌, arith, Elem,
}
use rpc_latency_monitor.ReferenceSlot.{ReferenceSlot, observe, current, lag_for}

abbrev pub observe_all : ReferenceSlot → List ℕ → ReferenceSlot
observe_all r [] = r
observe_all r (s ∷ ss) = observe_all (observe r s) ss

-- The largest number of a list, 0 for the empty one.
abbrev maximum : List ℕ → ℕ
maximum [] = 0
maximum (s ∷ ss) = max s (maximum ss)

observe_all-tip :
    (r : ReferenceSlot) (ss : List ℕ) → (observe_all r ss).tip ≡ max r.tip (maximum ss)
unfolding observe
observe_all-tip r [] = omega arith
observe_all-tip r (s ∷ ss) = omega (arith, observe_all-tip (observe r s) ss)

elem-le-maximum : (s : ℕ) (ss : List ℕ) → Elem s ss → s ≤ maximum ss
elem-le-maximum s [] e = absurd e
elem-le-maximum s (t ∷ ss) (inl e) = omega arith
elem-le-maximum s (t ∷ ss) (inr e) = omega (arith, elem-le-maximum s ss e)

maximum-le : (ss : List ℕ) (m : ℕ) → ((s : ℕ) → Elem s ss → s ≤ m) → maximum ss ≤ m
maximum-le [] m h = omega arith
maximum-le (s ∷ ss) m h = omega (arith, h s (inl refl), maximum-le ss m (λ t e. h t (inr e)))

maximum-subset : (ss ts : List ℕ) → ((s : ℕ) → Elem s ss → Elem s ts) → maximum ss ≤ maximum ts
maximum-subset ss ts h = maximum-le ss (maximum ts) (λ s e. elem-le-maximum s ts (h s e))

-- Two sequences of observations that show the same slots leave the same tip, whatever their order
-- and however often each slot is repeated.
pub observe_all-same_slots :
    (r : ReferenceSlot) (ss ts : List ℕ)
    → ((s : ℕ) → Elem s ss → Elem s ts)
    → ((s : ℕ) → Elem s ts → Elem s ss)
    → current (observe_all r ss) ≡ current (observe_all r ts)
unfolding current
observe_all-same_slots r ss ts h k =
    let e : (observe_all r ss).tip ≡ (observe_all r ts).tip = omega (
      arith,
      observe_all-tip r ss,
      observe_all-tip r ts,
      maximum-subset ss ts h,
      maximum-subset ts ss k,
    ) in
    rw e

-- The tip that is not 0, and the lags under it.
abbrev pub HasTip : ReferenceSlot → ℕ → Type 0
HasTip r s =
    (tip : ℕ) × (current r ≡ some tip)
    × (s ≤ tip)
    × ((lag : ℕ) → lag_for r s ≡ some lag → s + lag ≡ tip)
    × ((ahead : ℕ) → tip ≤ ahead → lag_for r ahead ≡ some 0)

at_or_below-HasTip : (r : ReferenceSlot) (s : ℕ) → suc s ≤ r.tip → HasTip r (suc s)
unfolding lag_for current
at_or_below-HasTip r s h =
    (r.tip, ground arith, h, λ lag e. ground arith, λ ahead below. ground arith)

-- After observations that show slot `suc s`, the reference has a tip that is not below this slot, the
-- lag of the slot is what is missing to the tip, and a slot at the tip or beyond it has lag 0.
pub observe_all-HasTip :
    (r : ReferenceSlot) (ss : List ℕ) (s : ℕ) → Elem (suc s) ss → HasTip (observe_all r ss) (suc s)
observe_all-HasTip r ss s e =
    at_or_below-HasTip (observe_all r ss) s
      (omega (arith, observe_all-tip r ss, elem-le-maximum (suc s) ss e))
