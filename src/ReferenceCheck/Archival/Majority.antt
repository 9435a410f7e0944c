-- ===== src/ReferenceCheck/Archival/Majority.antt =====
-- The majority of the archival check, against a count of the answers one by one.
use mathlib.Core.Path.{subst}
use mathlib.Core.Option.{some-injective}
use rpc_latency_monitor.Prelude.{
  ℕ, suc, ◌+◌, ◌≤◌, ◌≡◌, ◌↔◌, sym, ap, refl, String, inl, inr, Option, none, some, List, [], ◌∷◌,
  arith, ◌==◌, ==_iff, string_eq, ltb, length, keep, Elem, lookup, lookup-insert, Map, unwrap_or,
  Bool-cases, Option-cases, if◌then◌else◌,
}
use rpc_latency_monitor.ReferenceCheck.Archival.{
  Observed, vote, count_votes, max_by_votes, has_hash, hash_is, with_quorum, majority_block,
  archival_min_quorum,
}

-- The providers that gave the hash.
abbrev pub votes : String → List Observed → ℕ
votes h observed = length (keep (has_hash h) observed)

abbrev count : String → Map String ℕ → ℕ
count h table = unwrap_or (lookup h table) 0

vote-count :
    (h : String) (hash : Option String) (table : Map String ℕ)
    → count h (vote hash table) ≡ (if hash_is h hash then suc (count h table) else count h table)
vote-count h none table = refl
vote-count h (some g) table = elim (Bool-cases (g == h)) [
  | inl same ↦
      let equal : count g table ≡ count h table = ap (λ x. count x table) ((==_iff g h).0 same) in
      rw (lookup-insert g h (count g table + 1) table, same) (omega arith)
  | inr other ↦ rw (lookup-insert g h (count g table + 1) table, other) refl
]

count_votes-votes :
    (h : String) (os : List Observed) (table : Map String ℕ)
    → count h (count_votes os table) ≡ count h table + votes h os
unfolding count_votes
count_votes-votes h [] table = omega arith
count_votes-votes h (o ∷ os) table = elim (Bool-cases (hash_is h o.hash)) [
  | inl gave ↦
      let one : count h (vote o.hash table) ≡ suc (count h table) =
        rw gave at (vote-count h o.hash table) in
      rw (gave, count_votes-votes h os (vote o.hash table)) (omega (arith, one))
  | inr other ↦
      let none_more : count h (vote o.hash table) ≡ count h table =
        rw other at (vote-count h o.hash table) in
      rw (other, count_votes-votes h os (vote o.hash table)) (omega (arith, none_more))
]

nothing_chosen : (xs : List (String × ℕ)) → max_by_votes xs ≡ none → (p : String × ℕ) → ¬ Elem p xs
unfolding max_by_votes
nothing_chosen [] e p m = m
nothing_chosen ((f, n) ∷ xs) e p m = elim (Option-cases (max_by_votes xs)) [
  | inl alone ↦ cc (rw alone at e)
  | inr ((g, k), rest) ↦ elim (Bool-cases (ltb k n)) [
    | inl more ↦ cc (rw (rest, more) at e)
    | inr less ↦ cc (rw (rest, less) at e)
  ]
]

-- No entry has more votes than the one that is chosen, which is an entry.
max_by_votes-most :
    (xs : List (String × ℕ)) (h : String) (n : ℕ)
    → max_by_votes xs ≡ some (h, n)
    → Elem (h, n) xs × ((g : String) (k : ℕ) → Elem (g, k) xs → k ≤ n)
unfolding max_by_votes
max_by_votes-most [] h n e = cc
max_by_votes-most ((f, m) ∷ xs) h n e = elim (Option-cases (max_by_votes xs)) [
  | inl alone ↦
      let same : (f, m) ≡ (h, n) = some-injective _ _ (rw alone at e) in
      let size : m ≡ n = ap (λ (p : String × ℕ). p.1) same in
      (
        inl (sym same),
        λ g' k'. elim [
          | inl eq ↦ let size' : k' ≡ m = ap (λ (p : String × ℕ). p.1) eq in omega arith
          | inr there ↦ absurd (nothing_chosen xs alone (g', k') there)
        ],
      )
  | inr ((g, k), rest) ↦
      let (there, most) = max_by_votes-most xs g k rest in
      elim (Bool-cases (ltb k m)) [
        | inl more ↦
            let same : (f, m) ≡ (h, n) = some-injective _ _ (rw (rest, more) at e) in
            let size : m ≡ n = ap (λ (p : String × ℕ). p.1) same in
            (
              inl (sym same),
              λ g' k'. elim [
                | inl eq ↦ let size' : k' ≡ m = ap (λ (p : String × ℕ). p.1) eq in omega arith
                | inr old ↦ let below = most g' k' old in ground arith
              ],
            )
        | inr less ↦
            let same : (g, k) ≡ (h, n) = some-injective _ _ (rw (rest, less) at e) in
            let size : k ≡ n = ap (λ (p : String × ℕ). p.1) same in
            (
              inr (subst (λ p. Elem p xs) same there),
              λ g' k'. elim [
                | inl eq ↦ let size' : k' ≡ m = ap (λ (p : String × ℕ). p.1) eq in ground arith
                | inr old ↦ let below = most g' k' old in omega arith
              ],
            )
      ]
]

quorum :
    (observed : List Observed) (chosen : Option (String × ℕ)) (h : String) (sig : Option String)
    → with_quorum observed chosen ≡ some (h, sig)
    → (n : ℕ) × (chosen ≡ some (h, n)) × (archival_min_quorum ≤ n)
unfolding with_quorum
quorum observed none h sig e = cc
quorum observed (some (w, n)) h sig e = elim (Bool-cases (ltb n archival_min_quorum)) [
  | inl few ↦ cc (rw few at e)
  | inr many ↦
      let same = some-injective _ _ (rw many at e) in
      (n, ap (λ x. some (x, n)) (ap (λ (p : String × Option String). p.0) same), ground arith)
]

-- A table without the hash counts no vote; one with it counts its entry.
count-lookup :
    (h : String) (n : ℕ) (table : Map String ℕ) → lookup h table ≡ some n → count h table ≡ n
count-lookup h n table e = rw e refl

-- In whatever order the table of votes is walked, a hash that wins was given by two providers at least,
-- and no other hash was given by more.
pub majority_block-most :
    (walk : Map String ℕ → List (String × ℕ)) (observed : List Observed) (h : String)
    (sig : Option String)
    → ((g : String) (n : ℕ)
        → Elem (g, n) (walk (count_votes observed []))
          ↔ (lookup g (count_votes observed []) ≡ some n))
    → majority_block walk observed ≡ some (h, sig)
    → (2 ≤ votes h observed) × ((g : String) → votes g observed ≤ votes h observed)
unfolding majority_block
majority_block-most walk observed h sig walks e =
    let table = count_votes observed [] in
    let (n, chosen, enough) = quorum observed (max_by_votes (walk table)) h sig e in
    let (there, most) = max_by_votes-most (walk table) h n chosen in
    let won : votes h observed ≡ n =
      let entry = count-lookup h n table ((walks h n).0 there) in
      omega (arith, count_votes-votes h observed [], entry) in
    (
      omega arith,
      λ g. elim (Option-cases (lookup g table)) [
        | inl missing ↦
            let none_given : count g table ≡ 0 = rw missing refl in
            omega (arith, count_votes-votes g observed [])
        | inr (k, found) ↦
            let below = most g k ((walks g k).1 found) in
            omega (arith, count_votes-votes g observed [], count-lookup g k table found)
      ],
    )
