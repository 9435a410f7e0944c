-- ===== src/RawApi/Csv/Reader.antt =====
-- A reader of CSV as RFC 4180 has it, but for rows that end with a line feed alone: a field without
-- quotes holds no comma, quote, line feed or carriage return, and one in quotes holds anything, its
-- quotes doubled. And how it goes through an escaped field.
use rpc_latency_monitor.Prelude.{
  or_false, String, Char, code, ◌≡◌, refl, ap, sym, ◌∙◌, false, ◌||◌, inl, inr, Option, none, some,
  List, [], ◌∷◌, ◌++◌, ◌==◌, ==_iff, nat_eq, ◌<>◌, single, has_char, text-append_assoc,
  text-append-nil, if◌then◌else◌, Bool-cases,
}
use rpc_latency_monitor.Prelude.Maybe.{◌>>=◌}
use text.Mathlib.TextEquality.{Char-path}
use rpc_latency_monitor.RawApi.Csv.{double_quotes, escape_csv}

-- Where the reader is: at the start of a field, in a plain one, in a quoted one, or behind a quote of
-- a quoted one, which ends it or is the first of two.
pub data Mode : Type 0 where
  at_start plain quoted behind : Mode

pub record Reader : Type 0 where
  pub mode : Mode
  pub field : String
  pub row : List String
  pub rows : List (List String)

abbrev pub fresh : Reader
fresh = record { mode = at_start; field = ""; row = []; rows = [] }

abbrev pub next_field : Reader → Reader
next_field r = record r { mode = at_start; field = ""; row = r.row ++ r.field ∷ [] }

abbrev pub next_row : Reader → Reader
next_row r = record r {
  mode = at_start;
  field = "";
  row = [];
  rows = r.rows ++ (r.row ++ r.field ∷ []) ∷ [];
}

abbrev take_char : Mode → Char → Reader → Reader
take_char m c r = record r { mode = m; field = r.field <> single c }

-- A character outside of quotes; the other one is what a quote does.
abbrev outside : Char → Reader → Option Reader → Option Reader → Option Reader
outside c r on_quote on_other =
    if code c == b','
    then some (next_field r)
    else if code c == b'\n'
    then some (next_row r)
    else if code c == b'\r'
    then none
    else if code c == b'"'
    then on_quote
    else on_other

step : Mode → Char → Reader → Option Reader
step at_start c r = outside c r (some (record r { mode = quoted })) (some (take_char plain c r))
step plain c r = outside c r none (some (take_char plain c r))
step quoted c r =
    if code c == b'"' then some (record r { mode = behind }) else some (take_char quoted c r)
step behind c r = outside c r (some (take_char quoted c r)) none

unfoldable pub steps : String → Reader → Option Reader
unfolding step
steps String.[] r = some r
steps (String.◌∷◌ c s) r = step r.mode c r >>= steps s

-- A quoted field must end.
unfoldable pub finish : Mode → Reader → Option (List (List String))
finish quoted r = none
finish _ r = some (next_row r).rows

unfoldable pub read_csv : String → Option (List (List String))
unfolding steps finish
read_csv s = steps s fresh >>= λ r. finish r.mode r

bind_after :
    {A B C : Type 0} (o : Option A) (f : A → Option C) (g : A → Option B) (k : B → Option C)
    → ((a : A) → f a ≡ (g a >>= k))
    → (o >>= f) ≡ ((o >>= g) >>= k)
bind_after none f g k h = refl
bind_after (some a) f g k h = h a

steps-append : (s t : String) (r : Reader) → steps (s <> t) r ≡ (steps s r >>= steps t)
unfolding steps
steps-append String.[] t r = refl
steps-append (String.◌∷◌ c s) t r =
    bind_after (step r.mode c r) (steps (s <> t)) (steps s) (steps t) (steps-append s t)

-- One text behind another, where the first one ends at a known reader.
pub then_steps :
    (s t : String) (r r' : Reader) (o : Option Reader)
    → steps s r ≡ some r'
    → steps t r' ≡ o
    → steps (s <> t) r ≡ o
then_steps s t r r' o h k = rw (steps-append s t r, h) k

abbrev quote_char : Char
quote_char = "\""

module _ (row : List String) (rows : List (List String)) where
  abbrev pub reader : Mode → String → Reader
  reader m field = record { mode = m; field = field; row = row; rows = rows }

  plain_steps :
      (s field : String)
      → has_char b',' s ≡ false
      → has_char b'"' s ≡ false
      → has_char b'\n' s ≡ false
      → has_char b'\r' s ≡ false
      → steps s (reader plain field) ≡ some (reader plain (field <> s))
  unfolding steps
  plain_steps String.[] field a b d k =
      ap (λ f. some (reader plain f)) (sym (text-append-nil field))
  plain_steps (String.◌∷◌ c s) field a b d k =
      let (a1, a2) = or_false (code c == b',') (has_char b',' s) a in
      let (b1, b2) = or_false (code c == b'"') (has_char b'"' s) b in
      let (d1, d2) = or_false (code c == b'\n') (has_char b'\n' s) d in
      let (k1, k2) = or_false (code c == b'\r') (has_char b'\r' s) k in
      rw (a1, d1, k1, b1)
        (plain_steps s (field <> single c) a2 b2 d2 k2
          ∙ ap (λ f. some (reader plain f)) (text-append_assoc field (single c) s))

  quoted_steps :
      (s field : String)
      → steps (double_quotes s) (reader quoted field) ≡ some (reader quoted (field <> s))
  unfolding steps
  quoted_steps String.[] field = ap (λ f. some (reader quoted f)) (sym (text-append-nil field))
  quoted_steps (String.◌∷◌ c s) field = elim (Bool-cases (code c == b'"')) [
    | inl quote ↦
        let same : c ≡ quote_char = Char-path c quote_char ((==_iff (code c) b'"').0 quote) in
        rw quote (
          quoted_steps s (field <> single quote_char)
          ∙ ap (λ f. some (reader quoted f)) (text-append_assoc field (single quote_char) s)
          ∙ ap (λ d. some (reader quoted (field <> String.◌∷◌ d s))) (sym same))
    | inr other ↦
        rw (other, other)
          (quoted_steps s (field <> single c)
            ∙ ap (λ f. some (reader quoted f)) (text-append_assoc field (single c) s))
  ]

  -- The modes in which a field may end.
  abbrev pub Ends : Mode → Type 0
  Ends quoted = ⊥
  Ends _ = Unit

  plain_field :
      (s : String)
      → has_char b',' s ≡ false
      → has_char b'"' s ≡ false
      → has_char b'\n' s ≡ false
      → has_char b'\r' s ≡ false
      → (m : Mode) × Ends m × (steps s (reader at_start "") ≡ some (reader m s))
  unfolding steps
  plain_field String.[] a b d k = (at_start, tt, refl)
  plain_field (String.◌∷◌ c s) a b d k =
      let (a1, a2) = or_false (code c == b',') (has_char b',' s) a in
      let (b1, b2) = or_false (code c == b'"') (has_char b'"' s) b in
      let (d1, d2) = or_false (code c == b'\n') (has_char b'\n' s) d in
      let (k1, k2) = or_false (code c == b'\r') (has_char b'\r' s) k in
      (plain, tt, rw (a1, d1, k1, b1) (plain_steps s (single c) a2 b2 d2 k2))

  -- An escaped field without carriage returns is read as it was, up to a point at which it may end.
  pub field_steps :
      (s : String)
      → has_char b'\r' s ≡ false
      → (m : Mode) × Ends m × (steps (escape_csv s) (reader at_start "") ≡ some (reader m s))
  unfolding escape_csv steps
  field_steps s k = elim (Bool-cases (has_char b',' s || has_char b'"' s || has_char b'\n' s)) [
    | inl special ↦ (
      behind,
      tt,
      rw special (
          then_steps (double_quotes s) "\"" (reader quoted "") (reader quoted s)
            (some (reader behind s)) (quoted_steps s "") refl),
    )
    | inr ordinary ↦
        let (rest, d) = or_false (has_char b',' s || has_char b'"' s) (has_char b'\n' s) ordinary in
        let (a, b) = or_false (has_char b',' s) (has_char b'"' s) rest in
        let (m, ends, read) = plain_field s a b d k in (m, ends, rw ordinary read)
  ]

  pub comma_step :
      (m : Mode) (field : String)
      → Ends m
      → steps "," (reader m field) ≡ some (next_field (reader m field))
  unfolding steps
  comma_step at_start field e = refl
  comma_step plain field e = refl
  comma_step behind field e = refl
  comma_step quoted field e = absurd e

  pub line_end_step :
      (m : Mode) (field : String)
      → Ends m
      → steps "\n" (reader m field) ≡ some (next_row (reader m field))
  unfolding steps
  line_end_step at_start field e = refl
  line_end_step plain field e = refl
  line_end_step behind field e = refl
  line_end_step quoted field e = absurd e
