-- ===== src/RawApi/WinRate/Fastest.antt =====
-- The winner of each time has the least value of that time.
use mathlib.Core.Path.{subst}
use rpc_latency_monitor.Prelude.{
  ℕ, ◌≡◌, refl, sym, ap, ◌∙◌, ◌⊎◌, inl, inr, String, Bool, true, false, Option, none, some, List,
  [], ◌∷◌, All, Elem, ◌==◌, ==_iff, nat_eq, lookup, insert, lookup-insert, Bool-cases,
  if◌then◌else◌,
}
use rpc_latency_monitor.Crates.{Crates}
use rpc_latency_monitor.RawApi.WinRate.{Winners, Point, better, take_point, winners_of}

module _ ⦃c : Crates⦄ where
  open c use {F64, f64_le, is_finite}

  -- The winner so far, of one time, and a point of that time.
  abbrev pick : String × F64 → Option (String × F64) → String × F64
  pick p none = p
  pick (p, v) (some (first, best)) = if f64_le best v then (first, best) else (p, v)

  -- The values of one time, in the order of the points.
  abbrev pub at_time : ℕ → List Point → List (String × F64)
  at_time ts [] = []
  at_time ts ((p, t, v) ∷ ps) = let rest = at_time ts ps in if t == ts then (p, v) ∷ rest else rest

  abbrev fastest : List (String × F64) → String × F64 → String × F64
  fastest [] o = o
  fastest (x ∷ xs) o = fastest xs (pick x (some o))

  abbrev fastest_of : List (String × F64) → Option (String × F64) → Option (String × F64)
  fastest_of xs (some o) = some (fastest xs o)
  fastest_of [] none = none
  fastest_of (x ∷ xs) none = some (fastest xs x)

  fastest_of-pick :
      (x : String × F64) (xs : List (String × F64)) (o : Option (String × F64))
      → fastest_of xs (some (pick x o)) ≡ fastest_of (x ∷ xs) o
  fastest_of-pick x xs none = refl
  fastest_of-pick x xs (some o) = refl

  same_time :
      (ts t : ℕ) (ws : Winners) (o : Option (String × F64))
      → (t == ts) ≡ true
      → lookup t ws ≡ o
      → lookup ts ws ≡ o
  same_time ts t ws o same e = ap (λ x. lookup x ws) (sym ((==_iff t ts).0 same)) ∙ e

  lookup-better :
      (ts t : ℕ) (p : String) (v : F64) (ws : Winners) (o : Option (String × F64)) (same : Bool)
      → (t == ts) ≡ same
      → lookup t ws ≡ o
      → lookup ts (better (p, t, v) o ws)
        ≡ (if same then some (pick (p, v) (lookup ts ws)) else lookup ts ws)
  lookup-better ts t p v ws none true h e =
      rw (same_time ts t ws none h e, lookup-insert t ts (p, v) ws, h) refl
  lookup-better ts t p v ws none false h e = rw (lookup-insert t ts (p, v) ws, h) refl
  lookup-better ts t p v ws (some (q, w)) true h e =
      rw (same_time ts t ws (some (q, w)) h e) (chosen (f64_le w v))
    where
      chosen :
          (keeps : Bool)
          → lookup ts (if keeps then ws else insert t (p, v) ws)
            ≡ some (if keeps then (q, w) else (p, v))
      chosen true = same_time ts t ws (some (q, w)) h e
      chosen false = rw (lookup-insert t ts (p, v) ws, h) refl
  lookup-better ts t p v ws (some (q, w)) false h e = other (f64_le w v)
    where
      other : (keeps : Bool) → lookup ts (if keeps then ws else insert t (p, v) ws) ≡ lookup ts ws
      other true = refl
      other false = rw (lookup-insert t ts (p, v) ws, h) refl

  lookup-take_point :
      (ts t : ℕ) (p : String) (v : F64) (ws : Winners)
      → lookup ts (take_point (p, t, v) ws)
        ≡ (if t == ts then some (pick (p, v) (lookup ts ws)) else lookup ts ws)
  unfolding take_point
  lookup-take_point ts t p v ws = lookup-better ts t p v ws (lookup t ws) (t == ts) refl refl

  lookup-winners_of :
      (ts : ℕ) (ps : List Point) (ws : Winners)
      → lookup ts (winners_of ps ws) ≡ fastest_of (at_time ts ps) (lookup ts ws)
  unfolding winners_of
  lookup-winners_of ts [] ws = nothing_new (lookup ts ws)
    where
      nothing_new : (o : Option (String × F64)) → o ≡ fastest_of [] o
      nothing_new none = refl
      nothing_new (some o) = refl
  lookup-winners_of ts ((p, t, v) ∷ ps) ws =
      lookup-winners_of ts ps (take_point (p, t, v) ws)
      ∙ ap (fastest_of (at_time ts ps)) (lookup-take_point ts t p v ws)
      ∙ by_time (t == ts)
    where
      by_time :
          (same : Bool)
          → fastest_of
              (at_time ts ps)
              (if same then some (pick (p, v) (lookup ts ws)) else lookup ts ws)
            ≡ fastest_of (if same then (p, v) ∷ at_time ts ps else at_time ts ps) (lookup ts ws)
      by_time true = fastest_of-pick (p, v) (at_time ts ps) (lookup ts ws)
      by_time false = refl

  -- The value is a number.
  abbrev pub IsNumber : String × F64 → Type 0
  IsNumber x = is_finite x.1 ≡ true

  abbrev pub HasNumbers : List Point → Type 0
  HasNumbers ps = All (λ (p : Point). is_finite p.2 ≡ true) ps

  at_time-All : (ts : ℕ) (ps : List Point) → HasNumbers ps → All IsNumber (at_time ts ps)
  at_time-All ts [] h = tt
  at_time-All ts ((p, t, v) ∷ ps) (number, h) = by_time (t == ts) (at_time-All ts ps h)
    where
      by_time :
          (same : Bool)
          → All IsNumber (at_time ts ps)
          → All IsNumber (if same then (p, v) ∷ at_time ts ps else at_time ts ps)
      by_time true rest = (number, rest)
      by_time false rest = rest

  -- Any two numbers compare, and their order is transitive.
  module _
      (total : (a b : F64)
        → is_finite a ≡ true
        → is_finite b ≡ true
        → f64_le a b ≡ false
        → f64_le b a ≡ true)
      (transitive : (a b d : F64)
        → is_finite a ≡ true
        → is_finite b ≡ true
        → is_finite d ≡ true
        → f64_le a b ≡ true
        → f64_le b d ≡ true
        → f64_le a d ≡ true) where
    reflexive : (a : F64) → is_finite a ≡ true → f64_le a a ≡ true
    reflexive a n = elim (Bool-cases (f64_le a a)) [ inl h ↦ h | inr h ↦ total a a n n h ]

    -- What is picked of two.
    abbrev IsLeast : String × F64 → String × F64 → String × F64 → Type 0
    IsLeast z x o =
        IsNumber z × (f64_le z.1 o.1 ≡ true) × (f64_le z.1 x.1 ≡ true) × ((z ≡ o) ⊎ (z ≡ x))

    pick-IsLeast : (x o : String × F64) → IsNumber x → IsNumber o → IsLeast (pick x (some o)) x o
    pick-IsLeast x o nx number_o = by_order (f64_le o.1 x.1) refl
      where
        by_order : (keeps : Bool) → f64_le o.1 x.1 ≡ keeps → IsLeast (if keeps then o else x) x o
        by_order true h = (number_o, reflexive o.1 number_o, h, inl refl)
        by_order false h = (nx, total o.1 x.1 number_o nx h, reflexive x.1 nx, inr refl)

    -- The first of all, and each of the rest, is not less than the fastest.
    fastest_least :
        (xs : List (String × F64)) (o : String × F64)
        → All IsNumber xs
        → IsNumber o
        → IsNumber (fastest xs o)
          × (f64_le (fastest xs o).1 o.1 ≡ true)
          × ((y : String × F64) → Elem y xs → f64_le (fastest xs o).1 y.1 ≡ true)
    fastest_least [] o numbers n = (n, reflexive o.1 n, λ y e. absurd e)
    fastest_least (x ∷ xs) o (nx, numbers) n =
        let (np, to_old, to_new, _) = pick-IsLeast x o nx n in
        let (nf, start, each) = fastest_least xs (pick x (some o)) numbers np in
        (
          nf,
          transitive _ _ _ nf np n start to_old,
          λ y e. elim e [
            | inl same ↦
                subst (λ (z : String × F64). f64_le (fastest xs (pick x (some o))).1 z.1 ≡ true)
                  (sym same) (transitive _ _ _ nf np nx start to_new)
            | inr later ↦ each y later
          ],
        )

    fastest_elem :
        (xs : List (String × F64)) (o : String × F64)
        → All IsNumber xs
        → IsNumber o
        → (fastest xs o ≡ o) ⊎ Elem (fastest xs o) xs
    fastest_elem [] o numbers n = inl refl
    fastest_elem (x ∷ xs) o (nx, numbers) n =
        let (np, _, _, one) = pick-IsLeast x o nx n in
        elim (fastest_elem xs (pick x (some o)) numbers np) [
          | inl first ↦ elim one [ inl old ↦ inl (first ∙ old) | inr new ↦ inr (inl (first ∙ new)) ]
          | inr later ↦ inr (inr later)
        ]

    least_of :
        (xs : List (String × F64)) (y : String × F64)
        → All IsNumber xs
        → Elem y xs
        → (q : String) × (w : F64) × (fastest_of xs none ≡ some (q, w))
          × (f64_le w y.1 ≡ true)
          × Elem (q, w) xs
    least_of [] y numbers e = absurd e
    least_of (x ∷ xs) y (n, numbers) e =
        let (_, start, each) = fastest_least xs x numbers n in
        (
          (fastest xs x).0,
          (fastest xs x).1,
          refl,
          elim e [
            | inl same ↦
                subst (λ (z : String × F64). f64_le (fastest xs x).1 z.1 ≡ true) (sym same) start
            | inr later ↦ each y later
          ],
          elim (fastest_elem xs x numbers n) [ inl first ↦ inl first | inr later ↦ inr later ],
        )

    -- Where the values of the points are finite, and the order of the finite values is total and
    -- transitive: the winner of a time that has a value is one of the values of that time, and no
    -- other value of that time is less.
    pub winners_of-least :
        (ts : ℕ) (ps : List Point) (y : String × F64)
        → HasNumbers ps
        → Elem y (at_time ts ps)
        → (q : String) × (w : F64) × (lookup ts (winners_of ps []) ≡ some (q, w))
          × (f64_le w y.1 ≡ true)
          × Elem (q, w) (at_time ts ps)
    winners_of-least ts ps y numbers e =
        let (q, w, winner, least, present) =
          least_of (at_time ts ps) y (at_time-All ts ps numbers) e in
        (q, w, lookup-winners_of ts ps [] ∙ winner, least, present)
