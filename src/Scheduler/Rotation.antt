-- ===== src/Scheduler/Rotation.antt =====
-- Which target and which anchor a round of src/scheduler.rs uses.
use rpc_latency_monitor.Prelude.{
  and_true, ℕ, ◌+◌, ◌*◌, ◌%◌, ◌≤◌, ◌<◌, ◌≡◌, ◌≢◌, refl, sym, ap, ◌∙◌, String, Bool, true, false,
  ◌&&◌, inl, inr, Option, none, some, List, ◌++◌, ◌==◌, ==_iff, nat_eq, string_eq, ltb, length,
  length-append, get_elem?, get_elem?-append_left, get_elem?-append_right, arith, Bool-cases,
  filter_option,
}
use native.Mathlib.Nat.{mod-eq_of_lt, mul-add-mod_self_right}
use mathlib.Core.Path.{subst}
use mathlib.Core.Option.{some-injective}
use rpc_latency_monitor.Target.{GpaTarget}
use rpc_latency_monitor.Method.{
  RpcMethod, get_program_accounts, get_signatures_for_address, is_get_signatures,
}
use rpc_latency_monitor.ReferenceSlot.{ArchivalAnchor, current_anchor}
use rpc_latency_monitor.Scheduler.{
  rotated_target, at_index, chosen_anchor, Turn, gsfa_anchor_min_slot, is_new_anchor,
}

nonzero : (n : ℕ) → 0 < n → (n == 0) ≡ false
nonzero n h = ground (arith, ==_iff n 0)

at_index-append :
    (targets derived : List GpaTarget) (i : ℕ)
    → at_index targets derived i ≡ get_elem? (targets ++ derived) i
unfolding at_index
at_index-append targets derived i = elim (Bool-cases (ltb i (length targets))) [
  | inl early ↦ rw early (sym (get_elem?-append_left targets derived i (ground arith)))
  | inr late ↦ rw late (sym (get_elem?-append_right targets derived i (ground arith)))
]

-- The check of account queries goes round the configured targets and then the derived ones: with a
-- target in one of the lists, round k of every lap uses the k-th target of the two lists, so that each
-- is used once in each lap; with none, it uses none.
pub rotated_target-append :
    (targets derived : List GpaTarget) (lap k : ℕ)
    → (k < length (targets ++ derived)
        → rotated_target targets derived get_program_accounts
            (lap * length (targets ++ derived) + k)
          ≡ get_elem? (targets ++ derived) k)
      × (length (targets ++ derived) ≡ 0
          → rotated_target targets derived get_program_accounts k ≡ none)
unfolding rotated_target
rotated_target-append targets derived lap k = (
  (λ h.
      let sum = length-append targets derived in
      let some_target : ((length targets + length derived) == 0) ≡ false =
        nonzero _ (omega arith) in
      let place : (lap * length (targets ++ derived) + k) % (length targets + length derived) ≡ k =
        ap (λ n. (lap * length (targets ++ derived) + k) % n) (sym sum)
        ∙ mul-add-mod_self_right lap (length (targets ++ derived)) k
        ∙ mod-eq_of_lt h in
      rw (some_target, place) (at_index-append targets derived k)),
  λ h.
      let no_target : ((length targets + length derived) == 0) ≡ true =
        (==_iff (length targets + length derived) 0).1
          (omega (arith, length-append targets derived)) in
      rw no_target refl,
)

only_signatures : (m : RpcMethod) → is_get_signatures m ≡ true → m ≡ get_signatures_for_address
only_signatures get_signatures_for_address h = refl
only_signatures _ h = cc

filtered :
    {A : Type 0} (p : A → Bool) (o : Option A) (a : A)
    → filter_option p o ≡ some a
    → (o ≡ some a) × (p a ≡ true)
filtered p none a h = cc
filtered p (some x) a h = elim (Bool-cases (p x)) [
  | inl held ↦
      let same : some x ≡ some a = (rw held at h) in
      (same, subst (λ y. p y ≡ true) (some-injective _ _ same) held)
  | inr failed ↦ cc (rw failed at h)
]

new_anchor :
    (used : Option String) (slot : ℕ) (sig : String)
    → is_new_anchor used (slot, sig) ≡ true
    → (gsfa_anchor_min_slot ≤ slot) × (used ≢ some sig)
new_anchor none slot sig h = (ground arith, λ e. cc)
new_anchor (some u) slot sig h = (ground arith, λ e. ground (arith, ==_iff u sig))

-- An anchor that a round uses is for the check of signatures, in a round whose count is even, not below
-- slot 50,000,000, the anchor that is set, and not the one that this task used last.
pub chosen_anchor-new :
    (m : RpcMethod) (turn : Turn) (anchor : ArchivalAnchor) (slot : ℕ) (sig : String)
    → chosen_anchor m turn anchor ≡ some (slot, sig)
    → (m ≡ get_signatures_for_address)
      × ((turn.rotation % 2 == 0) ≡ true)
      × (current_anchor anchor ≡ some (slot, sig))
      × (gsfa_anchor_min_slot ≤ slot)
      × (turn.used_anchor ≢ some sig)
unfolding chosen_anchor
chosen_anchor-new m turn anchor slot sig h =
    elim (Bool-cases (is_get_signatures m && turn.rotation % 2 == 0)) [
      | inr failed ↦ cc (rw failed at h)
      | inl held ↦
          let (set, new) =
            filtered (is_new_anchor turn.used_anchor) (current_anchor anchor) (slot, sig)
              (rw held at h) in
          let (late, unused) = new_anchor turn.used_anchor slot sig new in
          let (signatures, even) = and_true _ _ held in
          (only_signatures m signatures, even, set, late, unused)
    ]
