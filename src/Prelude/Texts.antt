-- ===== src/Prelude/Texts.antt =====
-- Texts as sequences of characters: what the standard library does with them.
use Prim.Native.Char.{Char, code}
use Prim.Native.String.{String}
use mathlib.Core.Path.{◌≡◌, refl, ap}
use mathlib.Core.Bool.{Bool, true, false, ◌&&◌, ◌||◌}
use mathlib.Core.List.{List, [], ◌∷◌}
use mathlib.Core.Option.{Option, none, some}
use rpc_latency_monitor.Prelude.Tests.{◌==◌, nat_eq, leb, ltb, word, if◌then◌else◌}
use rpc_latency_monitor.Prelude.Lists.{get_or}
use Prim.Native.Nat.{ℕ, zero, suc, ◌+◌, ◌*◌, ◌-◌, ◌/◌, ◌%◌}

infixr 65 ◌<>◌
abbrev pub ◌<>◌ : String → String → String
String.[] <> t = t
String.◌∷◌ c s <> t = String.◌∷◌ c (s <> t)

-- The text of one character.
abbrev pub single : Char → String
single c = String.◌∷◌ c String.[]

-- `s.contains(c)`, for a character by its code
abbrev pub has_char : ℕ → String → Bool
has_char n String.[] = false
has_char n (String.◌∷◌ c s) = code c == n || has_char n s

-- `s.chars().all(p)`
abbrev pub all_chars : (ℕ → Bool) → String → Bool
all_chars p String.[] = true
all_chars p (String.◌∷◌ c s) = p (code c) && all_chars p s

abbrev pub is_blank_text : String → Bool
is_blank_text String.[] = true
is_blank_text _ = false

-- `list.join(separator)`
abbrev pub join : String → List String → String
join sep [] = ""
join sep (x ∷ []) = x
join sep (x ∷ y ∷ xs) = x <> sep <> join sep (y ∷ xs)

abbrev pub to_first : Char → List String → List String
to_first c [] = single c ∷ []
to_first c (part ∷ parts) = String.◌∷◌ c part ∷ parts

-- `s.split(c)`: at least one part
abbrev pub split_at : ℕ → String → List String
split_at n String.[] = "" ∷ []
split_at n (String.◌∷◌ c s) =
    let parts = split_at n s in if code c == n then "" ∷ parts else to_first c parts

-- `s.strip_prefix(p)`
abbrev pub strip_prefix : String → String → Option String
strip_prefix String.[] s = some s
strip_prefix (String.◌∷◌ d p) String.[] = none
strip_prefix (String.◌∷◌ d p) (String.◌∷◌ c s) = if code c == code d then strip_prefix p s else none

abbrev pub before_too : Char → Option (String × String) → Option (String × String)
before_too c none = none
before_too c (some (a, b)) = some (String.◌∷◌ c a, b)

-- The texts before and after the first place of `p` in `s`, by `find`, or `s.split_once(p)`
abbrev pub found_here : String → Option String → Option (String × String) → Option (String × String)
found_here s (some rest) later = some ("", rest)
found_here s none later = later

abbrev pub split_once : String → String → Option (String × String)
split_once p String.[] = found_here "" (strip_prefix p "") none
split_once p (String.◌∷◌ c s) =
    found_here s (strip_prefix p (String.◌∷◌ c s)) (before_too c (split_once p s))

-- white space among the ASCII characters
abbrev is_white : ℕ → Bool
is_white n = n == b' ' || (leb 9 n && leb n 13)

abbrev trim_start : String → String
trim_start String.[] = ""
trim_start (String.◌∷◌ c s) =
    let rest = trim_start s in if is_white (code c) then rest else String.◌∷◌ c s

abbrev trim_end : String → String
trim_end String.[] = ""
trim_end (String.◌∷◌ c s) =
    let rest = trim_end s in
    if is_blank_text rest && is_white (code c) then "" else String.◌∷◌ c rest

-- `s.trim()`, of an ASCII text
abbrev pub trim : String → String
trim s = trim_end (trim_start s)

-- `s.len()`: the bytes of the text in UTF-8
abbrev width : ℕ → ℕ
width n = if ltb n 128 then 1 else if ltb n 2048 then 2 else if ltb n 65536 then 3 else 4

abbrev pub len : String → ℕ
len String.[] = 0
len (String.◌∷◌ c s) = width (code c) + len s

abbrev pub is_ascii_digit : ℕ → Bool
is_ascii_digit n = leb b'0' n && leb n b'9'

abbrev pub is_ascii_alphanumeric : ℕ → Bool
is_ascii_alphanumeric n =
    is_ascii_digit n || (leb b'A' n && leb n b'Z') || (leb b'a' n && leb n b'z')

abbrev pub digits_after : ℕ → String → Option ℕ
digits_after n String.[] = some n
digits_after n (String.◌∷◌ c s) =
    let value = 10 * n + (code c - b'0') in
    let rest = digits_after value s in
    if is_ascii_digit (code c) && ltb value word then rest else none

abbrev pub some_digits : String → Option ℕ
some_digits String.[] = none
some_digits (String.◌∷◌ c s) = digits_after 0 (String.◌∷◌ c s)

-- `s.parse::<u64>()`: digits, after a plus sign or none, of a number below `word`
abbrev pub parse_u64 : String → Option ℕ
parse_u64 String.[] = none
parse_u64 (String.◌∷◌ c s) = if code c == b'+' then some_digits s else some_digits (String.◌∷◌ c s)

abbrev pub digit : ℕ → String
digit n = get_or ("0" ∷ "1" ∷ "2" ∷ "3" ∷ "4" ∷ "5" ∷ "6" ∷ "7" ∷ "8" ∷ "9" ∷ []) n ""

abbrev pub last_digits : ℕ → ℕ → String
last_digits zero n = ""
last_digits (suc places) n =
    let before = last_digits places (n / 10) in
    if ltb n 10 then digit n else before <> digit (n % 10)

-- `n.to_string()` of a `u64`, which has 20 digits at most
unfoldable pub decimal : ℕ → String
decimal n = last_digits 20 n

pub text-append_assoc : (s t u : String) → (s <> t) <> u ≡ s <> (t <> u)
text-append_assoc String.[] t u = refl
text-append_assoc (String.◌∷◌ c s) t u = ap (String.◌∷◌ c) (text-append_assoc s t u)

pub text-append-nil : (s : String) → s <> "" ≡ s
text-append-nil String.[] = refl
text-append-nil (String.◌∷◌ c s) = ap (String.◌∷◌ c) (text-append-nil s)
