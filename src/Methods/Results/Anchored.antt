-- ===== src/Methods/Results/Anchored.antt =====
-- Answers to `getSignaturesForAddress` below an archival anchor: the branch of `is_valid_result` of
-- src/rpc/methods.rs that the scheduler relies on when it asks with `before`.
use rpc_latency_monitor.Prelude.{
  ℕ, ◌<◌, ◌≡◌, ◌≢◌, refl, String, Bool, true, false, inl, inr, Option, none, some, List, [], ◌∷◌,
  map, arith, ltb, all, collect, is_some_and, when, All, Option-cases,
}
use rpc_latency_monitor.Prelude.Maybe.{◌>>=◌}
use rpc_latency_monitor.Crates.{Crates}
use rpc_latency_monitor.Method.{get_signatures_for_address}
use rpc_latency_monitor.Rpc.{RequestContext}
use rpc_latency_monitor.Methods.Values.{non_empty_str}
use rpc_latency_monitor.Methods.Results.{
  signed_slot, below_anchor, valid_signatures, is_valid_result,
}

-- A list that was collected whole.
collected :
    {A : Type 0} (f : A → Option ℕ) (anchor : ℕ) (xs : List A) (slots : List ℕ)
    → collect (map f xs) ≡ some slots
    → all (λ s. ltb s anchor) slots ≡ true
    → All (λ x. (slot : ℕ) × (f x ≡ some slot) × (slot < anchor)) xs
collected f anchor [] slots e h = tt
collected f anchor (x ∷ xs) slots e h = elim (Option-cases (f x)) [
  | inl missing ↦ cc (rw (missing, collect) at e)
  | inr (slot, found) ↦ elim (Option-cases (collect (map f xs))) [
    | inl missing ↦ cc (rw (found, missing, collect) at e)
    | inr (rest, more) ↦
        let whole : slots ≡ slot ∷ rest = cc (rw (found, more, collect) at e) in
        let small : all (λ s. ltb s anchor) (slot ∷ rest) ≡ true = rw whole at h in
        ((slot, found, ground arith), collected f anchor xs rest more (ground arith))
  ]
]

-- The two steps of `signed_slot`.
signed_inv :
    {V : Type 0} (read : V → Option ℕ) (b : Bool) (o : Option V) (slot : ℕ)
    → (when b o >>= λ v. v >>= read) ≡ some slot
    → (b ≡ true) × ((o >>= read) ≡ some slot)
signed_inv read true o slot h = (refl, h)
signed_inv read false o slot h = cc

module _ ⦃c : Crates⦄ where
  open c use {Value, get, as_u64, as_array}

  -- An entry with a signature, and a slot below the anchor.
  abbrev pub IsOlder : ℕ → Value → Type 0
  IsOlder anchor entry =
      (non_empty_str (get entry "signature") ≡ true)
      × (slot : ℕ) × ((get entry "slot" >>= as_u64) ≡ some slot)
      × (slot < anchor)

  signed_slot-IsOlder :
      (anchor : ℕ) (entries : List Value)
      → All (λ x. (slot : ℕ) × (signed_slot x ≡ some slot) × (slot < anchor)) entries
      → All (IsOlder anchor) entries
  unfolding signed_slot
  signed_slot-IsOlder anchor [] h = tt
  signed_slot-IsOlder anchor (x ∷ xs) ((slot, e, below), h) =
      let (signed, found) = signed_inv as_u64 _ (get x "slot") slot e in
      ((signed, slot, found, below), signed_slot-IsOlder anchor xs h)

  valid_from :
      (o : Option (List Value)) (anchor : ℕ) (before : String)
      → is_some_and o (valid_signatures (some (anchor, before))) ≡ true
      → (entries : List Value) × (o ≡ some entries) × (entries ≢ []) × All (IsOlder anchor) entries
  unfolding valid_signatures below_anchor
  valid_from none anchor before h = cc
  valid_from (some []) anchor before h = cc
  valid_from (some (x ∷ xs)) anchor before h =
      elim (Option-cases (collect (map signed_slot (x ∷ xs)))) [
        | inl e ↦ cc (rw e at h)
        | inr (slots, e) ↦ (
          x ∷ xs,
          refl,
          (λ p. cc),
          signed_slot-IsOlder anchor (x ∷ xs)
              (collected signed_slot anchor (x ∷ xs) slots e (rw e at h)),
        )
      ]

  -- An answer that is accepted below an anchor is an array with an entry in it, and every entry has a
  -- signature that is not empty and a slot strictly below the anchor's.
  pub anchored-IsOlder :
      (result : Value) (ctx : RequestContext) (anchor : ℕ) (before : String)
      → ctx.gsfa_anchor ≡ some (anchor, before)
      → is_valid_result get_signatures_for_address result ctx ≡ true
      → (entries : List Value) × (as_array result ≡ some entries)
        × (entries ≢ [])
        × All (IsOlder anchor) entries
  unfolding is_valid_result
  anchored-IsOlder result ctx anchor before e h =
      valid_from (as_array result) anchor before (rw e at h)
