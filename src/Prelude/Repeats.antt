-- ===== src/Prelude/Repeats.antt =====
-- Lists without repetition, and the elements of lists.
use mathlib.Core.Path.{◌≡◌, refl, sym, ap, ◌∙◌, subst}
use mathlib.Core.Logic.{◌⊎◌, ◌↔◌, inl, inr}
use mathlib.Core.Bool.{Bool, true, false}
use mathlib.Core.List.{List, [], ◌∷◌, ◌++◌, map}
use native.Mathlib.Omega.{arith}
use rpc_latency_monitor.Prelude.Tests.{Eq, ◌==◌, ==_iff, Bool-cases, if◌then◌else◌}
use rpc_latency_monitor.Prelude.Lists.{Elem, contains, All, keep}

abbrev pub Distinct : {A : Type 0} → List A → Type 0
Distinct [] = Unit
Distinct (x ∷ xs) = ¬ Elem x xs × Distinct xs

module _ {A : Type 0} where
  pub elem_append : (a : A) (xs ys : List A) → Elem a (xs ++ ys) → Elem a xs ⊎ Elem a ys
  elem_append a [] ys e = inr e
  elem_append a (x ∷ xs) ys (inl e) = inl (inl e)
  elem_append a (x ∷ xs) ys (inr e) = elim (elem_append a xs ys e) [
    | inl h ↦ inl (inr h)
    | inr h ↦ inr h
  ]

  pub elem_left : (a : A) (xs ys : List A) → Elem a xs → Elem a (xs ++ ys)
  elem_left a [] ys e = absurd e
  elem_left a (x ∷ xs) ys (inl e) = inl e
  elem_left a (x ∷ xs) ys (inr e) = inr (elem_left a xs ys e)

  pub elem_right : (a : A) (xs ys : List A) → Elem a ys → Elem a (xs ++ ys)
  elem_right a [] ys e = e
  elem_right a (x ∷ xs) ys e = inr (elem_right a xs ys e)

  -- A new element at the end.
  pub Distinct-concat : (xs : List A) (a : A) → Distinct xs → ¬ Elem a xs → Distinct (xs ++ a ∷ [])
  Distinct-concat [] a d h = ((λ e. e), tt)
  Distinct-concat (x ∷ xs) a (fresh, d) h = (
    (λ e. elim (elem_append x xs (a ∷ []) e) [
      | inl old ↦ fresh old
      | inr (inl eq) ↦ h (inl (sym eq))
      | inr (inr never) ↦ never
    ]),
    Distinct-concat xs a d (λ e. h (inr e)),
  )

  pub All-concat {κ} :
      (P : A → Type κ) (xs : List A) {a : A} → All P xs → P a → All P (xs ++ a ∷ [])
  All-concat P [] h p = (p, tt)
  All-concat P (x ∷ xs) (q, h) p = (q, All-concat P xs h p)

  pub All-elem {κ} : (P : A → Type κ) (xs : List A) → ((a : A) → Elem a xs → P a) → All P xs
  All-elem P [] h = tt
  All-elem P (x ∷ xs) h = (h x (inl refl), All-elem P xs (λ a e. h a (inr e)))

module _ {A : Type 0} ⦃e : Eq A⦄ where
  pub contains-false : (xs : List A) (a : A) → contains xs a ≡ false → ¬ Elem a xs
  contains-false [] a h m = m
  contains-false (x ∷ xs) a h (inl eq) = ground (arith, ==_iff a x)
  contains-false (x ∷ xs) a h (inr m) = contains-false xs a (ground arith) m

  pub elem_contains : (xs : List A) (a : A) → Elem a xs → contains xs a ≡ true
  elem_contains [] a m = absurd m
  elem_contains (x ∷ xs) a (inl eq) = ground (arith, ==_iff a x)
  elem_contains (x ∷ xs) a (inr m) = ground (arith, elem_contains xs a m)

  pub contains_elem : (xs : List A) (a : A) → contains xs a ≡ true → Elem a xs
  contains_elem [] a h = cc
  contains_elem (x ∷ xs) a h = elim (Bool-cases (a == x)) [
    | inl eq ↦ inl ((==_iff a x).0 eq)
    | inr ne ↦ inr (contains_elem xs a (ground arith))
  ]

module _ {A : Type 0} where
  pub elem_keep :
      (p : A → Bool) (a : A) (xs : List A) → Elem a (keep p xs) ↔ (Elem a xs × (p a ≡ true))
  elem_keep p a xs = (kept xs, λ (e, h). keeps xs e h)
    where
      one :
          (x : A) (xs : List A) (b : Bool)
          → p x ≡ b
          → (Elem a (keep p xs) → Elem a xs × (p a ≡ true))
          → Elem a (if b then x ∷ keep p xs else keep p xs)
          → Elem a (x ∷ xs) × (p a ≡ true)
      one x xs true h later (inl e) = (inl e, subst (λ y. p y ≡ true) (sym e) h)
      one x xs true h later (inr e) = (inr (later e).0, (later e).1)
      one x xs false h later e = (inr (later e).0, (later e).1)

      kept : (xs : List A) → Elem a (keep p xs) → Elem a xs × (p a ≡ true)
      kept [] e = absurd e
      kept (x ∷ xs) e = one x xs (p x) refl (kept xs) e

      other :
          (x : A) (xs : List A) (b : Bool)
          → Elem a (keep p xs)
          → Elem a (if b then x ∷ keep p xs else keep p xs)
      other x xs true e = inr e
      other x xs false e = e

      keeps : (xs : List A) → Elem a xs → p a ≡ true → Elem a (keep p xs)
      keeps [] e h = absurd e
      keeps (x ∷ xs) (inl e) h = rw (sym e) rw h (inl refl)
      keeps (x ∷ xs) (inr e) h = other x xs (p x) (keeps xs e h)

module _ {A B : Type 0} (f : A → B) where
  pub elem_map : (b : B) (xs : List A) → Elem b (map f xs) ↔ ((a : A) × Elem a xs × (b ≡ f a))
  elem_map b xs = (from xs, λ (a, e, h). into xs a e h)
    where
      from : (xs : List A) → Elem b (map f xs) → (a : A) × Elem a xs × (b ≡ f a)
      from [] e = absurd e
      from (x ∷ xs) (inl e) = (x, inl refl, e)
      from (x ∷ xs) (inr e) = let (a, m, h) = from xs e in (a, inr m, h)

      into : (xs : List A) (a : A) → Elem a xs → b ≡ f a → Elem b (map f xs)
      into [] a e h = absurd e
      into (x ∷ xs) a (inl e) h = inl (h ∙ ap f e)
      into (x ∷ xs) a (inr e) h = inr (into xs a e h)
