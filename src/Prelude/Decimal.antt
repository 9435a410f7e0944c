-- ===== src/Prelude/Decimal.antt =====
-- A number of 64 bits is read back from its decimal text.
use Prim.Native.Nat.{ℕ, zero, suc, ◌+◌, ◌-◌, ◌*◌, ◌/◌, ◌%◌, ◌<◌}
use Prim.Native.Char.{code}
use Prim.Native.String.{String}
use mathlib.Core.Path.{◌≡◌, refl, ap, ◌∙◌}
use mathlib.Core.Bool.{Bool, true, false, ◌&&◌}
use mathlib.Core.Logic.{inl, inr}
use mathlib.Core.Option.{Option, none, some}
use native.Mathlib.Omega.{arith}
use rpc_latency_monitor.Prelude.Tests.{◌==◌, nat_eq, ==_iff, ltb, word, Bool-cases, and_true}
use rpc_latency_monitor.Prelude.Texts.{
  ◌<>◌, all_chars, is_blank_text, is_ascii_digit, digits_after, parse_u64, digit, last_digits,
  decimal,
}

-- To read on from what was read of the first part.
abbrev read_on : Option ℕ → String → Option ℕ
read_on none t = none
read_on (some v) t = digits_after v t

digits_after-append :
    (acc : ℕ) (s t : String) → digits_after acc (s <> t) ≡ read_on (digits_after acc s) t
digits_after-append acc String.[] t = refl
digits_after-append acc (String.◌∷◌ c s) t =
    elim (Bool-cases (is_ascii_digit (code c) && ltb (10 * acc + (code c - b'0')) word)) [
      | inl fits ↦ rw fits (digits_after-append (10 * acc + (code c - b'0')) s t)
      | inr not_so ↦ rw not_so refl
    ]

digits_after-digit :
    (acc n : ℕ) → n < 10 → 10 * acc + n < word → digits_after acc (digit n) ≡ some (10 * acc + n)
digits_after-digit acc zero h k = ground arith
digits_after-digit acc (suc zero) h k = ground arith
digits_after-digit acc (suc (suc zero)) h k = ground arith
digits_after-digit acc (suc (suc (suc zero))) h k = ground arith
digits_after-digit acc (suc (suc (suc (suc zero)))) h k = ground arith
digits_after-digit acc (suc (suc (suc (suc (suc zero))))) h k = ground arith
digits_after-digit acc (suc (suc (suc (suc (suc (suc zero)))))) h k = ground arith
digits_after-digit acc (suc (suc (suc (suc (suc (suc (suc zero))))))) h k = ground arith
digits_after-digit acc (suc (suc (suc (suc (suc (suc (suc (suc zero)))))))) h k = ground arith
digits_after-digit acc (suc (suc (suc (suc (suc (suc (suc (suc (suc zero))))))))) h k = ground arith
digits_after-digit acc (suc (suc (suc (suc (suc (suc (suc (suc (suc (suc n)))))))))) h k =
    absurd (omega (arith, h))

abbrev pow10 : ℕ → ℕ
pow10 zero = 1
pow10 (suc p) = 10 * pow10 p

digits_of : (p n : ℕ) → n < pow10 p → n < word → digits_after 0 (last_digits p n) ≡ some n
digits_of zero n h k = ap some (omega arith)
digits_of (suc p) n h k = elim (Bool-cases (ltb n 10)) [
  | inl one ↦ rw one (digits_after-digit 0 n (ground arith) (omega arith) ∙ ap some (omega arith))
  | inr more ↦ rw more (
      digits_after-append 0 (last_digits p (n / 10)) (digit (n % 10))
      ∙ ap (λ o. read_on o (digit (n % 10))) (digits_of p (n / 10) (omega arith) (omega arith))
      ∙ last_one)
]
  where
    last_one : read_on (some (n / 10)) (digit (n % 10)) ≡ some n
    last_one =
        digits_after-digit (n / 10) (n % 10) (omega arith) (omega arith) ∙ ap some (omega arith)

append-all :
    (p : ℕ → Bool) (s t : String)
    → all_chars p s ≡ true
    → all_chars p t ≡ true
    → all_chars p (s <> t) ≡ true
append-all p String.[] t h k = k
append-all p (String.◌∷◌ c s) t h k =
    let (first, rest) = and_true (p (code c)) (all_chars p s) h in
    rw first (append-all p s t rest k)

-- A text of digits that is not blank.
abbrev pub IsDigits : String → Type 0
IsDigits s = (all_chars is_ascii_digit s ≡ true) × (is_blank_text s ≡ false)

digit-IsDigits : (n : ℕ) → n < 10 → IsDigits (digit n)
digit-IsDigits zero h = (refl, refl)
digit-IsDigits (suc zero) h = (refl, refl)
digit-IsDigits (suc (suc zero)) h = (refl, refl)
digit-IsDigits (suc (suc (suc zero))) h = (refl, refl)
digit-IsDigits (suc (suc (suc (suc zero)))) h = (refl, refl)
digit-IsDigits (suc (suc (suc (suc (suc zero))))) h = (refl, refl)
digit-IsDigits (suc (suc (suc (suc (suc (suc zero)))))) h = (refl, refl)
digit-IsDigits (suc (suc (suc (suc (suc (suc (suc zero))))))) h = (refl, refl)
digit-IsDigits (suc (suc (suc (suc (suc (suc (suc (suc zero)))))))) h = (refl, refl)
digit-IsDigits (suc (suc (suc (suc (suc (suc (suc (suc (suc zero))))))))) h = (refl, refl)
digit-IsDigits (suc (suc (suc (suc (suc (suc (suc (suc (suc (suc n)))))))))) h =
    absurd (omega (arith, h))

append-IsDigits :
    (s t : String) → all_chars is_ascii_digit s ≡ true → IsDigits t → IsDigits (s <> t)
append-IsDigits String.[] t h k = k
append-IsDigits (String.◌∷◌ c s) t h k = (append-all is_ascii_digit (String.◌∷◌ c s) t h k.0, refl)

last_digits-IsDigits : (p n : ℕ) → IsDigits (last_digits (suc p) n)
last_digits-IsDigits p n = elim (Bool-cases (ltb n 10)) [
  | inl one ↦ rw one (digit-IsDigits n (ground arith))
  | inr more ↦ rw more (
      append-IsDigits (last_digits p (n / 10)) (digit (n % 10)) (before p (n / 10))
        (digit-IsDigits (n % 10) (omega arith)))
]
  where
    before : (p n : ℕ) → all_chars is_ascii_digit (last_digits p n) ≡ true
    before zero n = refl
    before (suc p) n = elim (Bool-cases (ltb n 10)) [
      | inl one ↦ rw one (digit-IsDigits n (ground arith)).0
      | inr more ↦ rw more (
          append-all is_ascii_digit (last_digits p (n / 10)) (digit (n % 10)) (before p (n / 10))
            (digit-IsDigits (n % 10) (omega arith)).0)
    ]

pub decimal-IsDigits : (n : ℕ) → IsDigits (decimal n)
unfolding decimal
decimal-IsDigits n = last_digits-IsDigits 19 n

parse_digits : (s : String) → IsDigits s → parse_u64 s ≡ digits_after 0 s
parse_digits String.[] (h, k) = cc
parse_digits (String.◌∷◌ c s) (h, k) =
    let (first, rest) = and_true (is_ascii_digit (code c)) (all_chars is_ascii_digit s) h in
    rw (no_plus (code c) first) refl
  where
    no_plus : (n : ℕ) → is_ascii_digit n ≡ true → (n == b'+') ≡ false
    no_plus n h = ground (arith, ==_iff n b'+')

-- Every number of 64 bits is read back from its decimal text.
pub parse_u64-decimal : (n : ℕ) → n < word → parse_u64 (decimal n) ≡ some n
unfolding decimal
parse_u64-decimal n h =
    parse_digits (decimal n) (decimal-IsDigits n) ∙ digits_of 20 n (omega arith) h
