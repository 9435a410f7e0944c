-- ===== src/Methods/Matcher/Filters.antt =====
-- An account passes `GpaMatcher::matches` exactly when it is what the query asked for.
use rpc_latency_monitor.Prelude.{
  and_true, ℕ, ◌+◌, ◌%◌, ◌-◌, ◌≤◌, ◌<◌, ◌≡◌, ◌↔◌, ◌≢◌, is_empty, ◌&&◌, ◌==◌, nat_eq, string_eq,
  ==_refl, list_eq, false, not, if◌then◌else◌, is_some_and, ◌∙◌, sym, refl, ap, String, Bool, true,
  Option, none, some, List, [], ◌∷◌, ◌++◌, arith, length, length-append, length-take,
  take-append-drop, range, take, drop, word, All, all, ==_iff, map, unwrap_or,
}
use rpc_latency_monitor.Prelude.Maybe.{◌>>=◌}
use native.Mathlib.Nat.{mod-eq_of_lt}
use rpc_latency_monitor.Crates.{Crates}
use rpc_latency_monitor.Target.{GpaTarget, MemcmpFilter}
use rpc_latency_monitor.Methods.Values.{value_of, account_base64}
use rpc_latency_monitor.Methods.Matcher.{
  GpaMatcher, filter_holds, bytes_match, account_of, new, new_filter, matches, entries_match,
}

true_and : {a b : Bool} → a ≡ true → b ≡ true → (a && b) ≡ true
true_and h k = ground arith

and_if : (a b : Bool) → (if a then b else false) ≡ true → (a ≡ true) × (b ≡ true)
and_if a b h = ground arith

-- `want` stands in `bytes` at the offset.
abbrev pub StandsAt : List ℕ → ℕ × List ℕ → Type 0
StandsAt bytes (off, want) =
    (before after : List ℕ) × (bytes ≡ before ++ (want ++ after)) × (length before ≡ off)

take-append_left : (xs ys : List ℕ) → take (length xs) (xs ++ ys) ≡ xs
take-append_left [] ys = refl
take-append_left (x ∷ xs) ys = ap (◌∷◌ x) (take-append_left xs ys)

drop-append_left : (xs ys : List ℕ) → drop (length xs) (xs ++ ys) ≡ ys
drop-append_left [] ys = refl
drop-append_left (x ∷ xs) ys = drop-append_left xs ys

range-some :
    (bytes : List ℕ) (from to : ℕ) (want : List ℕ)
    → range from to bytes ≡ some want
    → (to ≤ length bytes) × (take (to - from) (drop from bytes) ≡ want)
range-some bytes from to want e = ground arith

some-range :
    (bytes : List ℕ) (from to : ℕ)
    → from ≤ to
    → to ≤ length bytes
    → range from to bytes ≡ some (take (to - from) (drop from bytes))
some-range bytes from to h k = ground arith

-- The two directions for a plain range, whose end does not wrap.
range-StandsAt :
    (bytes : List ℕ) (off : ℕ) (want : List ℕ)
    → range off (off + length want) bytes ≡ some want
    → StandsAt bytes (off, want)
range-StandsAt bytes off want e =
    let found = range-some bytes off (off + length want) want e in
    let width : off + length want - off ≡ length want = omega arith in
    let taken : take (length want) (drop off bytes) ≡ want = rw width at found.1 in
    (
      take off bytes,
      drop (length want) (drop off bytes),
      sym (take-append-drop off bytes)
          ∙ ap (◌++◌ (take off bytes)) (
              sym (take-append-drop (length want) (drop off bytes))
              ∙ ap (λ xs. xs ++ drop (length want) (drop off bytes)) taken),
      omega (arith, length-take off bytes, found.0),
    )

StandsAt-range :
    (bytes : List ℕ) (off : ℕ) (want : List ℕ)
    → StandsAt bytes (off, want)
    → range off (off + length want) bytes ≡ some want
StandsAt-range bytes off want (before, after, e, at) =
    let n = length before in
    let width : n + length want - n ≡ length want = omega arith in
    let fits : n + length want ≤ length (before ++ (want ++ after)) =
      omega (arith, length-append before (want ++ after), length-append want after) in
    rw (e, ← at)
      (some-range (before ++ (want ++ after)) n (n + length want) (omega arith) fits
        ∙ rw (width, drop-append_left before (want ++ after), take-append_left want after))

equal_found :
    (o : Option (List ℕ)) (want : List ℕ)
    → (is_some_and o (λ found. found == want) ≡ true) ↔ (o ≡ some want)
equal_found none want = ground arith
equal_found (some found) want = ground (arith, ==_iff found want)

filter_holds_iff :
    (bytes : List ℕ) (off : ℕ) (want : List ℕ)
    → off + length want < word
    → (filter_holds bytes (off, want) ≡ true) ↔ StandsAt bytes (off, want)
filter_holds_iff bytes off want small =
    let plain : (off + length want) % word ≡ off + length want = mod-eq_of_lt {m = word} small in
    (
      λ h. range-StandsAt bytes off want (rw plain at ((equal_found _ want).0 h)),
      λ st. (equal_found _ want).1 (rw plain (StandsAt-range bytes off want st)),
    )

-- The end of the filter's range does not wrap.
abbrev pub IsShort : ℕ × List ℕ → Type 0
IsShort (off, want) = off + length want < word

all_filters_iff :
    (bytes : List ℕ) (fs : List (ℕ × List ℕ))
    → All IsShort fs
    → (all (filter_holds bytes) fs ≡ true) ↔ All (StandsAt bytes) fs
all_filters_iff bytes [] h = (λ _. tt, λ _. refl)
all_filters_iff bytes ((off, want) ∷ fs) (short, h) =
    let here = filter_holds_iff bytes off want short in
    let rest = all_filters_iff bytes fs h in
    (
      λ e. (here.0 (and_true _ _ e).0, rest.0 (and_true _ _ e).1),
      λ (st, k). true_and (here.1 st) (rest.1 k),
    )

-- The test of `matches` on the owner and the data that it reads.
abbrev passes : GpaMatcher → Option String → Option (List ℕ) → Bool
passes m owner found =
    if is_some_and owner (λ o. o == m.program) then is_some_and found (bytes_match m) else false

sized :
    (o : Option ℕ) (n : ℕ)
    → not (is_some_and o (λ k. not (n == k))) ≡ true
    → (k : ℕ) → o ≡ some k
    → n ≡ k
sized none n h k e = cc
sized (some j) n h k e = ground arith

passes_inv :
    (m : GpaMatcher) (owner : Option String) (found : Option (List ℕ))
    → passes m owner found ≡ true
    → (owner ≡ some m.program)
      × (bytes : List ℕ) × (found ≡ some bytes)
      × ((n : ℕ) → m.data_size ≡ some n → length bytes ≡ n)
      × (all (filter_holds bytes) m.memcmp ≡ true)
passes_inv m none found h = cc
passes_inv m (some o) none h = ground arith
passes_inv m (some o) (some bytes) h =
    let split = and_if _ _ h in
    let parts = and_true _ _ split.1 in
    (
      ap some ((==_iff o m.program).0 split.0),
      bytes,
      refl,
      sized m.data_size (length bytes) parts.0,
      parts.1,
    )

passes_intro :
    (m : GpaMatcher) (bytes : List ℕ)
    → ((n : ℕ) → m.data_size ≡ some n → length bytes ≡ n)
    → all (filter_holds bytes) m.memcmp ≡ true
    → passes m (some m.program) (some bytes) ≡ true
passes_intro m bytes size fs = rw (==_refl m.program) (true_and (size_holds m.data_size size) fs)
  where
    size_holds :
        (o : Option ℕ)
        → ((n : ℕ) → o ≡ some n → length bytes ≡ n)
        → not (is_some_and o (λ k. not (length bytes == k))) ≡ true
    size_holds none h = refl
    size_holds (some k) h = ground (arith, h k refl)

All-map {ℓ κ ρ} :
    {A : Type ℓ} {B : Type κ} (f : A → B) (P : B → Type ρ) (xs : List A)
    → All P (map f xs) ↔ All (λ x. P (f x)) xs
All-map f P [] = (λ _. tt, λ _. tt)
All-map f P (x ∷ xs) =
    let rest = All-map f P xs in (λ (p, h). (p, rest.0 h), λ (p, h). (p, rest.1 h))

module _ ⦃c : Crates⦄ where
  open c use {Value, get, as_str, as_array, decode_base64, decode_bs58}

  -- The bytes that a filter asks for, and where.
  abbrev pub wanted : MemcmpFilter → ℕ × List ℕ
  wanted f = (f.offset, unwrap_or (decode_bs58 f.bytes) [])

  -- What the query asks of an account: its program, its size, and the bytes at each offset.
  pub record IsAsked (target : GpaTarget) (entry : Value) : Type 0 where
    pub owner : (get (account_of entry) "owner" >>= as_str) ≡ some target.program
    pub account_bytes : List ℕ
    pub decoded : (account_base64 (account_of entry) >>= decode_base64) ≡ some account_bytes
    pub size : (n : ℕ) → target.data_size ≡ some n → length account_bytes ≡ n
    pub filters : All (λ (f : MemcmpFilter). StandsAt account_bytes (wanted f)) target.memcmp

  -- No filter's range passes the end of `usize`.
  abbrev pub HasRoom : GpaTarget → Type 0
  HasRoom target = All (λ (f : MemcmpFilter). IsShort (wanted f)) target.memcmp

  matches-IsAsked :
      (target : GpaTarget) (entry : Value)
      → HasRoom target
      → matches (new target) entry ≡ true
      → IsAsked target entry
  unfolding matches new new_filter
  matches-IsAsked target entry room h =
      let (owner, bytes, decoded, size, fs) = passes_inv (new target) _ _ h in
      record {
        owner = owner;
        account_bytes = bytes;
        decoded = decoded;
        size = size;
        filters = (All-map wanted (StandsAt bytes) target.memcmp).0 (
            (all_filters_iff bytes (new target).memcmp
                ((All-map wanted IsShort target.memcmp).1 room)).0
              fs);
      }

  IsAsked-matches :
      (target : GpaTarget) (entry : Value)
      → HasRoom target
      → IsAsked target entry
      → matches (new target) entry ≡ true
  unfolding matches new new_filter
  IsAsked-matches target entry room a =
      let short = (All-map wanted IsShort target.memcmp).1 room in
      let stands = (All-map wanted (StandsAt a.account_bytes) target.memcmp).1 a.filters in
      rw (a.owner, a.decoded)
        (passes_intro (new target) a.account_bytes a.size
          ((all_filters_iff a.account_bytes (new target).memcmp short).1 stands))

  all-matches_iff :
      (target : GpaTarget) (entries : List Value)
      → HasRoom target
      → (all (matches (new target)) entries ≡ true) ↔ All (IsAsked target) entries
  all-matches_iff target [] room = (λ _. tt, λ _. refl)
  all-matches_iff target (x ∷ xs) room =
      let rest = all-matches_iff target xs room in
      (
        λ e. (matches-IsAsked target x room (and_true _ _ e).0, rest.0 (and_true _ _ e).1),
        λ (a, k). true_and (IsAsked-matches target x room a) (rest.1 k),
      )

  -- The accounts of an answer, none left out.
  abbrev pub Answers : Value → GpaTarget → Type 0
  Answers result target =
      (entries : List Value) × (as_array (value_of result) ≡ some entries)
      × (entries ≢ [])
      × All (IsAsked target) entries

  answers_from :
      (o : Option (List Value)) (target : GpaTarget)
      → HasRoom target
      → is_some_and o (λ entries. not (is_empty entries) && all (matches (new target)) entries)
        ≡ true
      → (entries : List Value) × (o ≡ some entries) × (entries ≢ []) × All (IsAsked target) entries
  answers_from none target room h = cc
  answers_from (some []) target room h = cc
  answers_from (some (x ∷ xs)) target room h =
      (x ∷ xs, refl, (λ e. cc), (all-matches_iff target (x ∷ xs) room).0 h)

  -- Where no filter's range passes the end of `usize`, an answer is valid for a target exactly when
  -- it is an array with an account in it, and each account has the target's program as its owner,
  -- the target's size if that is given, and at the offset of each memcmp filter of the target the
  -- bytes that the filter's text encodes (none, if the text is not base58).
  pub entries_match_iff :
      (result : Value) (target : GpaTarget)
      → HasRoom target
      → (entries_match result target ≡ true) ↔ Answers result target
  unfolding entries_match
  entries_match_iff result target room = (
    λ h. answers_from (as_array (value_of result)) target room h,
    λ (entries, e, some_entry, asked).
        rw e
          (true_and (not_empty entries some_entry) ((all-matches_iff target entries room).1 asked)),
  )
    where
      not_empty : (entries : List Value) → entries ≢ [] → not (is_empty entries) ≡ true
      not_empty [] h = absurd (h refl)
      not_empty (x ∷ xs) h = refl
