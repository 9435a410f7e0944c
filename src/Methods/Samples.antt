-- ===== src/Methods/Samples.antt =====
-- `sample_accounts` of src/rpc/methods.rs: the first, the middle and the last account of an answer.
use rpc_latency_monitor.Prelude.{
  ℕ, ◌+◌, ◌-◌, ◌/◌, ◌≤◌, String, Bool, Option, none, some, List, [], ◌∷◌, ◌++◌, ◌==◌, string_eq,
  arith, length, length-append, get_elem?, any, map, Elem, if◌then◌else◌, Bool-cases, Option-cases,
  inl, inr, eq_iff, ◌≡◌, refl, ap, sym, zero, suc, false, Distinct, Distinct-concat, All,
  All-concat,
}
use mathlib.Core.Option.{some-injective}
use rpc_latency_monitor.Crates.{Crates}
use rpc_latency_monitor.Rpc.{AccountSample}
use rpc_latency_monitor.Methods.Values.{non_empty_string, account_base64}
use rpc_latency_monitor.Methods.Matcher.{account_of}

abbrev pub pubkeys : List AccountSample → List String
pubkeys = map (λ s. s.pubkey)

-- `out.iter().any(|s| s.pubkey == pubkey)`
abbrev seen : List AccountSample → String → Bool
seen out key = any (λ (s : AccountSample). s.pubkey == key) out

module _ ⦃c : Crates⦄ where
  open c use {Value, get}

  with_data : List AccountSample → String → Option String → List AccountSample
  with_data out key none = out
  with_data out key (some text) = out ++ record { pubkey = key; account_data = text } ∷ []

  with_key : List AccountSample → Value → Option String → List AccountSample
  with_key out entry none = out
  with_key out entry (some key) =
      if seen out key then out else with_data out key (account_base64 (account_of entry))

  -- One round of the loop, for the entry at a place; out of range it would panic.
  sample_round : List AccountSample → Option Value → List AccountSample
  sample_round out none = out
  sample_round out (some entry) = with_key out entry (non_empty_string (get entry "pubkey"))

  sample_places : List Value → List ℕ → List AccountSample → List AccountSample
  sample_places entries [] out = out
  sample_places entries (i ∷ is) out =
      sample_places entries is (sample_round out (get_elem? entries i))

  unfoldable pub sample_accounts : List Value → List AccountSample
  unfolding sample_places sample_round with_key with_data
  sample_accounts [] = []
  sample_accounts (e ∷ es) =
      let n = length (e ∷ es) in sample_places (e ∷ es) (0 ∷ n / 2 ∷ (n - 1) ∷ []) []

seen-false :
    (out : List AccountSample) (key : String) → seen out key ≡ false → ¬ Elem key (pubkeys out)
seen-false [] key h m = m
seen-false (s ∷ out) key h (inl e) = ground (arith, eq_iff s.pubkey key)
seen-false (s ∷ out) key h (inr m) = seen-false out key (ground arith) m

pubkeys-concat :
    (out : List AccountSample) (s : AccountSample)
    → pubkeys (out ++ s ∷ []) ≡ pubkeys out ++ s.pubkey ∷ []
pubkeys-concat [] s = refl
pubkeys-concat (o ∷ out) s = ap (◌∷◌ o.pubkey) (pubkeys-concat out s)

module _ ⦃c : Crates⦄ where
  open c use {Value, get}

  -- The sample is the key and the data of an account of the answer.
  abbrev pub IsTaken : List Value → AccountSample → Type 0
  IsTaken entries s =
      (entry : Value) × Elem entry entries
      × (non_empty_string (get entry "pubkey") ≡ some s.pubkey)
      × (account_base64 (account_of entry) ≡ some s.account_data)

  record IsSampled (entries : List Value) (n : ℕ) (out : List AccountSample) : Type 0 where
    few : length out ≤ n
    distinct : Distinct (pubkeys out)
    taken : All (IsTaken entries) out

  with_data-IsSampled :
      (entries : List Value) (n : ℕ) (out : List AccountSample) (entry : Value) (key : String)
      (found : Option String)
      → IsSampled entries n out
      → Elem entry entries
      → non_empty_string (get entry "pubkey") ≡ some key
      → seen out key ≡ false
      → account_base64 (account_of entry) ≡ found
      → IsSampled entries (suc n) (with_data out key found)
  unfolding with_data
  with_data-IsSampled entries n out entry key none v here k new d = record {
    few = omega (arith, v.few);
    distinct = v.distinct;
    taken = v.taken;
  }
  with_data-IsSampled entries n out entry key (some text) v here k new d =
      let s : AccountSample = record { pubkey = key; account_data = text } in
      record {
        few = omega (arith, v.few, length-append out (s ∷ []));
        distinct =
            rw (pubkeys-concat out s)
              (Distinct-concat (pubkeys out) key v.distinct (seen-false out key new));
        taken = All-concat (IsTaken entries) out v.taken (entry, here, k, d);
      }

  sample_round-IsSampled :
      (entries : List Value) (n : ℕ) (out : List AccountSample) (found : Option Value)
      → IsSampled entries n out
      → ((entry : Value) → found ≡ some entry → Elem entry entries)
      → IsSampled entries (suc n) (sample_round out found)
  unfolding sample_round with_key
  sample_round-IsSampled entries n out none v here = record {
    few = omega (arith, v.few);
    distinct = v.distinct;
    taken = v.taken;
  }
  sample_round-IsSampled entries n out (some entry) v here =
      elim (Option-cases (non_empty_string (get entry "pubkey"))) [
        | inl e ↦
            rw e (record { few = omega (arith, v.few); distinct = v.distinct; taken = v.taken })
        | inr (key, e) ↦ elim (Bool-cases (seen out key)) [
          | inl old ↦
              rw (e, old)
                (record { few = omega (arith, v.few); distinct = v.distinct; taken = v.taken })
          | inr new ↦
              rw (e, new)
                (with_data-IsSampled entries n out entry key _ v (here entry refl) e new refl)
        ]
      ]

  get_elem?-elem :
      (entries : List Value) (i : ℕ) (entry : Value)
      → get_elem? entries i ≡ some entry
      → Elem entry entries
  get_elem?-elem [] i entry e = cc
  get_elem?-elem (x ∷ xs) zero entry e = inl (some-injective _ _ (sym e))
  get_elem?-elem (x ∷ xs) (suc i) entry e = inr (get_elem?-elem xs i entry e)

  sample_places-IsSampled :
      (entries : List Value) (is : List ℕ) (n : ℕ) (out : List AccountSample)
      → IsSampled entries n out
      → IsSampled entries (length is + n) (sample_places entries is out)
  unfolding sample_places
  sample_places-IsSampled entries [] n out v = record {
    few = omega (arith, v.few);
    distinct = v.distinct;
    taken = v.taken;
  }
  sample_places-IsSampled entries (i ∷ is) n out v =
      let w =
        sample_places-IsSampled entries is (suc n) _ (
          sample_round-IsSampled entries n out (get_elem? entries i) v
            (get_elem?-elem entries i)) in
      record { few = omega (arith, w.few); distinct = w.distinct; taken = w.taken }

  -- A sample of an answer has three accounts at most, of different keys, and each is the non-empty key
  -- and the data of an account of the answer.
  pub sample_accounts-IsTaken :
      (entries : List Value)
      → (length (sample_accounts entries) ≤ 3)
        × Distinct (pubkeys (sample_accounts entries))
        × All (IsTaken entries) (sample_accounts entries)
  unfolding sample_accounts
  sample_accounts-IsTaken [] = (omega arith, tt, tt)
  sample_accounts-IsTaken (e ∷ es) =
      let n = length (e ∷ es) in
      let v =
        sample_places-IsSampled (e ∷ es) (0 ∷ n / 2 ∷ (n - 1) ∷ []) 0 []
          (record { few = omega arith; distinct = tt; taken = tt }) in
      (omega (arith, v.few), v.distinct, v.taken)
