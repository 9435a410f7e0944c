-- ===== src/GpaDerive/Shapes.antt =====
-- The candidates of src/gpa_derive.rs, and the names of the targets through an update.
use mathlib.Core.Path.{subst}
use rpc_latency_monitor.Prelude.{
  ℕ, zero, suc, ◌≤◌, ◌≡◌, ◌≢◌, refl, ◌⊎◌, inl, inr, String, Bool, true, false, some, List, [], ◌∷◌,
  ◌++◌, map, ◌==◌, ==_iff, nat_eq, string_eq, length, take, contains, Elem, All, Distinct, arith,
  if◌then◌else◌,
}
use rpc_latency_monitor.Target.{
  GpaTarget, token_program, high_volume_mints, token_account_mint_offset,
  token_account_owner_offset,
}
use rpc_latency_monitor.GpaDerive.{
  DerivedTargets, TokenAnchor, by_mint_name, by_owner_name, update_one, update, token_target,
  candidates_of, candidate_targets,
}

abbrev pub names : DerivedTargets → List String
names targets = map (λ (t : GpaTarget). t.name) targets

-- A query for the token accounts (165 bytes) of a mint, whose bytes come first, or of an owner,
-- whose bytes come next.
abbrev pub IsShape : GpaTarget → Type 0
IsShape t =
    (t.program ≡ token_program)
    × (t.data_size ≡ some 165)
    × (((mint : String) × (t.name ≡ by_mint_name)
          × (t.memcmp ≡ record { offset = 0; bytes = mint } ∷ [])
          × (contains high_volume_mints mint ≡ false))
        ⊎ ((owner : String) × (t.name ≡ by_owner_name)
            × (t.memcmp ≡ record { offset = 32; bytes = owner } ∷ [])))

update_one-names :
    (target : GpaTarget) (ts : DerivedTargets) (n : String)
    → Elem n (names (update_one target ts))
    → (n ≡ target.name) ⊎ Elem n (names ts)
unfolding update_one
update_one-names target [] n e = e
update_one-names target (t ∷ ts) n e =
    by_name (t.name == target.name) (update_one-names target ts n) e
  where
    by_name :
        (same : Bool)
        → (Elem n (names (update_one target ts)) → (n ≡ target.name) ⊎ Elem n (names ts))
        → Elem n (names (if same then target ∷ ts else t ∷ update_one target ts))
        → (n ≡ target.name) ⊎ Elem n (names (t ∷ ts))
    by_name true below (inl new) = inl new
    by_name true below (inr old) = inr (inr old)
    by_name false below (inl here) = inr (inl here)
    by_name false below (inr later) = elim (below later) [
      | inl new ↦ inl new
      | inr old ↦ inr (inr old)
    ]

update_one-Distinct :
    (target : GpaTarget) (ts : DerivedTargets)
    → Distinct (names ts)
    → Distinct (names (update_one target ts))
unfolding update_one
update_one-Distinct target [] d = ((λ e. e), tt)
update_one-Distinct target (t ∷ ts) (apart, d) =
    by_name (t.name == target.name) refl (update_one-Distinct target ts d)
  where
    by_name :
        (same : Bool)
        → (t.name == target.name) ≡ same
        → Distinct (names (update_one target ts))
        → Distinct (names (if same then target ∷ ts else t ∷ update_one target ts))
    by_name true h below =
        (subst (λ n. ¬ Elem n (names ts)) ((==_iff t.name target.name).0 h) apart, d)
    by_name false h below = (
      (λ e. elim (update_one-names target ts t.name e) [
        | inl same ↦ ground (arith, ==_iff t.name target.name)
        | inr old ↦ apart old
      ]),
      below,
    )

module _ (P : GpaTarget → Type 0) where
  update_one-All :
      (target : GpaTarget) (ts : DerivedTargets)
      → P target
      → All P ts
      → All P (update_one target ts)
  unfolding update_one
  update_one-All target [] p h = (p, tt)
  update_one-All target (t ∷ ts) p (q, h) =
      by_name (t.name == target.name) (update_one-All target ts p h)
    where
      by_name :
          (same : Bool)
          → All P (update_one target ts)
          → All P (if same then target ∷ ts else t ∷ update_one target ts)
      by_name true below = (p, h)
      by_name false below = (q, below)

  pub update-All : (fresh ts : DerivedTargets) → All P fresh → All P ts → All P (update fresh ts)
  unfolding update
  update-All [] ts hs h = h
  update-All (target ∷ fresh) ts (p, hs) h =
      update-All fresh (update_one target ts) hs (update_one-All target ts p h)

pub update-Distinct :
    (fresh ts : DerivedTargets) → Distinct (names ts) → Distinct (names (update fresh ts))
unfolding update
update-Distinct [] ts d = d
update-Distinct (target ∷ fresh) ts d =
    update-Distinct fresh (update_one target ts) (update_one-Distinct target ts d)

candidates-IsShape : (a : TokenAnchor) → All IsShape (candidates_of a)
candidates-IsShape a = by_mint (contains high_volume_mints a.mint) refl
  where
    by_mint :
        (common : Bool)
        → contains high_volume_mints a.mint ≡ common
        → All IsShape (
            if common
            then token_target by_owner_name token_account_owner_offset a.owner ∷ []
            else token_target by_mint_name token_account_mint_offset a.mint
              ∷ token_target by_owner_name token_account_owner_offset a.owner
              ∷ [])
    by_mint true h = ((refl, refl, inr (a.owner, refl, refl)), tt)
    by_mint false h =
        ((refl, refl, inl (a.mint, refl, refl, h)), ((refl, refl, inr (a.owner, refl, refl)), tt))

All-append : (xs ys : List GpaTarget) → All IsShape xs → All IsShape ys → All IsShape (xs ++ ys)
All-append [] ys h k = k
All-append (x ∷ xs) ys (p, h) k = (p, All-append xs ys h k)

pub candidate_targets-IsShape :
    (anchors : List TokenAnchor) → All IsShape (candidate_targets anchors)
unfolding candidate_targets
candidate_targets-IsShape [] = tt
candidate_targets-IsShape (a ∷ anchors) =
    All-append (candidates_of a) (candidate_targets anchors) (candidates-IsShape a)
      (candidate_targets-IsShape anchors)

pub take-IsShape : (n : ℕ) (ts : List GpaTarget) → All IsShape ts → All IsShape (take n ts)
take-IsShape zero ts h = tt
take-IsShape (suc n) [] h = tt
take-IsShape (suc n) (t ∷ ts) (p, h) = (p, take-IsShape n ts h)

two_names : (t : GpaTarget) → IsShape t → (t.name ≡ by_mint_name) ⊎ (t.name ≡ by_owner_name)
two_names t (program, size, inl (mint, name, filters, rare)) = inl name
two_names t (program, size, inr (owner, name, filters)) = inr name

no_third :
    (p q a b d : String)
    → (a ≡ p) ⊎ (a ≡ q)
    → (b ≡ p) ⊎ (b ≡ q)
    → (d ≡ p) ⊎ (d ≡ q)
    → a ≢ b
    → a ≢ d
    → b ≢ d
    → ⊥
no_third p q a b d ha hb hd x y z = ground arith

pub at_most_two : (ts : DerivedTargets) → Distinct (names ts) → All IsShape ts → length ts ≤ 2
at_most_two [] d h = omega arith
at_most_two (t ∷ []) d h = omega arith
at_most_two (t ∷ u ∷ []) d h = omega arith
at_most_two (t ∷ u ∷ v ∷ ts) (apart, (other, d)) (ht, (hu, (hv, h))) = absurd (
    no_third by_mint_name by_owner_name t.name u.name v.name (two_names t ht) (two_names u hu)
      (two_names v hv) (λ e. apart (inl e)) (λ e. apart (inr (inl e))) (λ e. other (inl e)))
