-- ===== src/ReferenceCheck/Archival/Slots.antt =====
-- The slots that the archival check has used: the set and the queue agree, and no slot is asked for
-- again while it is remembered.
use rpc_latency_monitor.Prelude.{
  ℕ, zero, suc, ◌≤◌, ◌≡◌, ◌≢◌, ◌⊎◌, refl, sym, ◌∙◌, true, false, inl, inr, Option, none, some, List,
  [], ◌∷◌, ◌++◌, arith, ◌==◌, nat_eq, ltb, length, length-append, contains, Elem, Distinct,
  Distinct-concat, contains-false, elem_append, elem_left, elem_right, Bool-cases, ==_iff,
}
use mathlib.Core.Path.{subst}
use rpc_latency_monitor.Crates.{Crates}
use rpc_latency_monitor.ReferenceCheck.Archival.{
  UsedSlots, archival_used_cap, without, evict, insert_slot, pick_loop, pick_unused_slot,
}

-- The set and the queue hold the same slots, the queue none twice, and at most 200,000.
pub record IsConsistent (used : UsedSlots) : Type 0 where
  pub queued : (x : ℕ) → Elem x used.set → Elem x used.order
  pub kept : (x : ℕ) → Elem x used.order → Elem x used.set
  pub distinct : Distinct used.order
  pub bounded : length used.order ≤ archival_used_cap

elem-without_step :
    (x a y : ℕ) (set : List ℕ)
    → (Elem x (without a set) → (x ≢ a) × Elem x set)
    → ((a == y) ≡ true) ⊎ ((a == y) ≡ false)
    → Elem x (without a (y ∷ set))
    → (x ≢ a) × Elem x (y ∷ set)
elem-without_step x a y set rest (inl same) e = let r = rest (rw same at e) in (r.0, inr r.1)
elem-without_step x a y set rest (inr other) e = elim (rw_kept e) [
  | inl eq ↦ ((λ h. cc (other, (==_iff a y).1 (sym h ∙ eq))), inl eq)
  | inr m ↦ ((rest m).0, inr (rest m).1)
]
  where
    rw_kept : Elem x (without a (y ∷ set)) → Elem x (y ∷ without a set)
    rw_kept m = rw other at m

elem-without : (x a : ℕ) (set : List ℕ) → Elem x (without a set) → (x ≢ a) × Elem x set
elem-without x a [] e = absurd e
elem-without x a (y ∷ set) e =
    elem-without_step x a y set (elem-without x a set) (Bool-cases (a == y)) e

without-elem : (x a : ℕ) (set : List ℕ) → x ≢ a → Elem x set → Elem x (without a set)
without-elem x a [] ne e = e
without-elem x a (y ∷ set) ne (inl eq) = elim (Bool-cases (a == y)) [
  | inl same ↦ absurd (ne (eq ∙ sym ((==_iff a y).0 same)))
  | inr other ↦ rw other (inl eq)
]
without-elem x a (y ∷ set) ne (inr m) = elim (Bool-cases (a == y)) [
  | inl same ↦ rw same (without-elem x a set ne m)
  | inr other ↦ rw other (inr (without-elem x a set ne m))
]

-- Before the eviction the queue may be one too long.
evict-IsConsistent :
    (set order : List ℕ)
    → ((x : ℕ) → Elem x set → Elem x order)
    → ((x : ℕ) → Elem x order → Elem x set)
    → Distinct order
    → length order ≤ suc archival_used_cap
    → IsConsistent (evict set order)
unfolding evict
evict-IsConsistent set [] q k d n = record {
  queued = q;
  kept = k;
  distinct = d;
  bounded = omega arith;
}
evict-IsConsistent set (oldest ∷ order) q k d n =
    elim (Bool-cases (ltb archival_used_cap (length (oldest ∷ order)))) [
      | inr room ↦ rw room (record { queued = q; kept = k; distinct = d; bounded = ground arith })
      | inl full ↦ rw full (record {
        queued = λ x e.
            let (ne, m) = elem-without x oldest set e in
            elim (q x m) [ inl eq ↦ absurd (ne eq) | inr later ↦ later ];
        kept = λ x e.
            without-elem x oldest set (λ eq. d.0 (subst (λ y. Elem y order) eq e)) (k x (inr e));
        distinct = d.1;
        bounded = omega arith;
      })
    ]

-- Inserting a slot, new or old, leaves the set and the queue in agreement and within the bound.
pub insert_slot-IsConsistent :
    (slot : ℕ) (used : UsedSlots) → IsConsistent used → IsConsistent (insert_slot slot used).1
unfolding insert_slot
insert_slot-IsConsistent slot used v = elim (Bool-cases (contains used.set slot)) [
  | inl old ↦ rw old v
  | inr new ↦
      let fresh : ¬ Elem slot used.order = λ e. contains-false used.set slot new (v.kept slot e) in
      rw new (
        evict-IsConsistent (slot ∷ used.set) (used.order ++ slot ∷ [])
          (λ x. elim [
            | inl eq ↦ elem_right x used.order (slot ∷ []) (inl eq)
            | inr m ↦ elem_left x used.order (slot ∷ []) (v.queued x m)
          ])
          (λ x e. elim (elem_append x used.order (slot ∷ []) e) [
            | inl m ↦ inr (v.kept x m)
            | inr (inl eq) ↦ inl eq
            | inr (inr never) ↦ absurd never
          ])
          (Distinct-concat used.order slot v.distinct fresh)
          (omega (arith, length-append used.order (slot ∷ []), v.bounded)))
]

-- A new slot is remembered; the queue ends with it.
insert_slot-fresh :
    (slot : ℕ) (used : UsedSlots)
    → (insert_slot slot used).0 ≡ true
    → ¬ Elem slot used.set × Elem slot (insert_slot slot used).1.order
unfolding insert_slot
insert_slot-fresh slot used h = elim (Bool-cases (contains used.set slot)) [
  | inl old ↦ cc (rw (old, insert_slot) at h)
  | inr new ↦ rw new (contains-false used.set slot new, remembered used.order)
]
  where
    remembered : (order : List ℕ) → Elem slot (evict (slot ∷ used.set) (order ++ slot ∷ [])).order
    remembered [] = inl refl
    remembered (oldest ∷ order) =
        elim (Bool-cases (ltb archival_used_cap (length (oldest ∷ (order ++ slot ∷ []))))) [
          | inl full ↦ rw full (elem_right slot order (slot ∷ []) (inl refl))
          | inr room ↦ rw room (inr (elem_right slot order (slot ∷ []) (inl refl)))
        ]

insert_slot-old :
    (slot : ℕ) (used : UsedSlots)
    → (insert_slot slot used).0 ≡ false
    → (insert_slot slot used).1 ≡ used
unfolding insert_slot
insert_slot-old slot used h = elim (Bool-cases (contains used.set slot)) [
  | inl old ↦ rw old refl
  | inr new ↦ cc (rw (new, insert_slot) at h)
]

module _ ⦃c : Crates⦄ where
  open c use {World, random_range}

  -- What a pick does: nothing, or the first insertion of a slot in the range.
  abbrev pub Picks : ℕ → ℕ → UsedSlots → Option ℕ → UsedSlots → Type 0
  Picks floor ceil used none used' = used' ≡ used
  Picks floor ceil used (some slot) used' =
      (floor ≤ slot)
      × (slot ≤ ceil)
      × ¬ Elem slot used.set
      × Elem slot used'.order
      × (used' ≡ (insert_slot slot used).1)

  module _ (floor ceil : ℕ)
      (in_range : (w : World)
        → (floor ≤ (random_range floor ceil w).0) × ((random_range floor ceil w).0 ≤ ceil)) where
    pick_loop-Picks :
        (tries : ℕ) (used : UsedSlots) (w : World)
        → Picks floor ceil used
            (pick_loop tries floor ceil (used, w)).0
            (pick_loop tries floor ceil (used, w)).1.0
    unfolding pick_loop
    pick_loop-Picks zero used w = refl
    pick_loop-Picks (suc tries) used w =
        let slot = (random_range floor ceil w).0 in
        elim (Bool-cases (insert_slot slot used).0) [
          | inl fresh ↦
              let (unseen, there) = insert_slot-fresh slot used fresh in
              rw fresh ((in_range w).0, (in_range w).1, unseen, there, refl)
          | inr old ↦
              rw (old, insert_slot-old slot used old)
                (pick_loop-Picks tries used (random_range floor ceil w).1)
        ]

    -- Where the random numbers lie in the range that is asked for: a slot that is picked lies between
    -- the floor and the ceiling, was not used before and is remembered as used, and nothing else of the
    -- record changes but what its insertion evicts; where none is picked the record is unchanged.
    pub pick_unused_slot-Picks :
        (used : UsedSlots) (w : World)
        → Picks floor ceil used
            (pick_unused_slot floor ceil (used, w)).0
            (pick_unused_slot floor ceil (used, w)).1.0
    unfolding pick_unused_slot
    pick_unused_slot-Picks used w = pick_loop-Picks 32 used w
