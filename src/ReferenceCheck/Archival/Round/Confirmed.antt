-- ===== src/ReferenceCheck/Archival/Round/Confirmed.antt =====
-- Who is asked in a round of the archival check, and who confirms a transaction.
use mathlib.Core.Path.{subst}
use rpc_latency_monitor.Prelude.{
  ℕ, zero, suc, ◌+◌, ◌≤◌, ◌≡◌, ◌≢◌, refl, sym, ap, ◌∙◌, String, Option, none, some, inl, inr, ◌⊎◌,
  List, [], ◌∷◌, map, length, Elem, All, Distinct, arith, nat_eq,
}
use rpc_latency_monitor.Crates.{Crates}
use rpc_latency_monitor.Metrics.{Metrics}
use rpc_latency_monitor.Rpc.Client.{Env}
use rpc_latency_monitor.Providers.{ProviderEndpoint}
use rpc_latency_monitor.ReferenceCheck.Archival.{Observed}
use rpc_latency_monitor.ReferenceCheck.Archival.Round.{
  agrees_slot, confirm, timed_archival_tx, ask_blocks, ask_transactions,
}

-- The tasks that ended, in their order: each provider has one at most.
abbrev pub IsOrder : List ProviderEndpoint → List ProviderEndpoint → Type 0
IsOrder providers ended =
    Distinct (map (λ (p : ProviderEndpoint). p.name) ended) × All (λ p. Elem p providers) ended

All_at : {A : Type 0} (P : A → Type 0) (xs : List A) (x : A) → All P xs → Elem x xs → P x
All_at P [] x h e = absurd e
All_at P (y ∷ xs) x (p, h) (inl same) = subst P (sym same) p
All_at P (y ∷ xs) x (p, h) (inr e) = All_at P xs x h e

Elem-name :
    (ps : List ProviderEndpoint) (p : ProviderEndpoint)
    → Elem p ps
    → Elem p.name (map (λ (x : ProviderEndpoint). x.name) ps)
Elem-name [] p e = e
Elem-name (x ∷ ps) p (inl same) = inl (ap (λ (y : ProviderEndpoint). y.name) same)
Elem-name (x ∷ ps) p (inr e) = inr (Elem-name ps p e)

module _ ⦃c : Crates⦄ where
  -- The answers about a block are those of the providers asked, one each.
  pub ask_blocks-names :
      (slot : ℕ) (ps : List ProviderEndpoint) (s : Env × Metrics)
      → map (λ (o : Observed). o.name) (ask_blocks slot ps s).0
        ≡ map (λ (p : ProviderEndpoint). p.name) ps
  unfolding ask_blocks
  ask_blocks-names slot [] s = refl
  ask_blocks-names slot (p ∷ ps) s = ap (◌∷◌ p.name) (ask_blocks-names slot ps _)

  module _ (sig : String) (slot : ℕ) where
    -- The slot in which a provider that is asked now places the transaction, and what it leaves.
    abbrev placed : ProviderEndpoint → Env × Metrics → Option ℕ
    placed p s = (timed_archival_tx p.url sig s.0).0.1

    abbrev behind : ProviderEndpoint → Env × Metrics → Env × Metrics
    behind p s = (ask_transactions sig slot (p ∷ []) 0 s).1

    -- Of the providers that are asked one behind the other, these placed it in the slot.
    abbrev pub Confirm : List ProviderEndpoint → List ProviderEndpoint → Env × Metrics → Type 0
    Confirm [] ps s = Unit
    Confirm (x ∷ xs) [] s = ⊥
    Confirm (x ∷ xs) (p ∷ ps) s =
        ((x ≡ p) × (placed p s ≡ some slot) × Confirm xs ps (behind p s))
        ⊎ Confirm (x ∷ xs) ps (behind p s)

    not_this :
        (xs ps : List ProviderEndpoint) (p : ProviderEndpoint) (s : Env × Metrics)
        → Confirm xs ps (behind p s)
        → Confirm xs (p ∷ ps) s
    not_this [] ps p s h = tt
    not_this (x ∷ xs) ps p s h = inr h

    abbrev Confirmers : ℕ → List ProviderEndpoint → Env × Metrics → Type 0
    Confirmers k ps s = (xs : List ProviderEndpoint) × (length xs ≡ k) × Confirm xs ps s

    agreed :
        (o : Option ℕ) (n : ℕ)
        → (o ≡ some slot) × (confirm (agrees_slot slot o) n ≡ suc n)
          ⊎ (confirm (agrees_slot slot o) n ≡ n)
    agreed none n = inr refl
    agreed (some k) n = ground arith

    -- Those behind the first bring the count, which is m behind the first, to n and k more.
    abbrev IsEnough : ProviderEndpoint → List ProviderEndpoint → ℕ → ℕ → Env × Metrics → ℕ → Type 0
    IsEnough p ps k n s m = suc k + n ≤ (ask_transactions sig slot ps m (behind p s)).0

    -- As many providers as the count has grown by.
    counted_confirm :
        (ps : List ProviderEndpoint) (k n : ℕ) (s : Env × Metrics)
        → k + n ≤ (ask_transactions sig slot ps n s).0
        → Confirmers k ps s
    unfolding ask_transactions
    counted_confirm ps zero n s h = ([], refl, tt)
    counted_confirm [] (suc k) n s h = absurd (omega arith)
    counted_confirm (p ∷ ps) (suc k) n s h = elim (agreed (placed p s) n) [
      | inl (there, more) ↦
          let enough = subst (IsEnough p ps k n s) more h in
          let (xs, e, rest) = counted_confirm ps k (suc n) (behind p s) (omega arith) in
          (p ∷ xs, ap suc e, inl (refl, there, rest))
      | inr same ↦
          let (xs, e, rest) =
            counted_confirm ps (suc k) n (behind p s) (subst (IsEnough p ps k n s) same h) in
          (xs, e, not_this xs ps p s rest)
    ]

    confirm-Elem :
        (ps : List ProviderEndpoint) (x : ProviderEndpoint) (s : Env × Metrics)
        → Confirm (x ∷ []) ps s
        → Elem x ps
    confirm-Elem [] x s h = absurd h
    confirm-Elem (p ∷ ps) x s (inl (same, _, _)) = inl same
    confirm-Elem (p ∷ ps) x s (inr h) = inr (confirm-Elem ps x (behind p s) h)

    first-Elem :
        (ps : List ProviderEndpoint) (x y : ProviderEndpoint) (s : Env × Metrics)
        → Distinct (map (λ (p : ProviderEndpoint). p.name) ps)
        → Confirm (x ∷ y ∷ []) ps s
        → Elem x ps × Elem y ps × (x.name ≢ y.name)
    first-Elem [] x y s d h = absurd h
    first-Elem (p ∷ ps) x y s (apart, d) (inl (same, _, h)) =
        let later = confirm-Elem ps y (behind p s) h in
        (
          inl same,
          inr later,
          λ e. apart (
              subst (λ n. Elem n (map (λ (z : ProviderEndpoint). z.name) ps))
                (sym e ∙ ap (λ (z : ProviderEndpoint). z.name) same) (Elem-name ps y later)),
        )
    first-Elem (p ∷ ps) x y s (apart, d) (inr h) =
        let (first, second, differ) = first-Elem ps x y (behind p s) d h in
        (inr first, inr second, differ)

    -- Two providers of different names that placed the transaction in the slot.
    abbrev pub HasTwo : List ProviderEndpoint → List ProviderEndpoint → Env × Metrics → Type 0
    HasTwo providers ps s =
        (x y : ProviderEndpoint) × (x.name ≢ y.name)
        × Elem x providers
        × Elem y providers
        × Confirm (x ∷ y ∷ []) ps s

    pub two_confirm :
        (providers ps : List ProviderEndpoint) (s : Env × Metrics)
        → IsOrder providers ps
        → 2 ≤ (ask_transactions sig slot ps 0 s).0
        → HasTwo providers ps s
    two_confirm providers ps s (d, known) h = by_list (counted_confirm ps 2 0 s (omega arith))
      where
        by_list : Confirmers 2 ps s → HasTwo providers ps s
        by_list ([], e, _) = absurd (omega arith)
        by_list (x ∷ [], e, _) = absurd (omega arith)
        by_list (x ∷ y ∷ z ∷ xs, e, _) = absurd (omega arith)
        by_list (x ∷ y ∷ [], e, confirmed) =
            let (first, second, differ) = first-Elem ps x y s d confirmed in
            (
              x,
              y,
              differ,
              All_at (λ p. Elem p providers) ps x known first,
              All_at (λ p. Elem p providers) ps y known second,
              confirmed,
            )
