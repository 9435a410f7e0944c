-- ===== src/Prelude/Fallible.antt =====
-- `Result`, and chains of `?` in a function that returns one.
use mathlib.Core.Path.{◌≡◌, refl}
use mathlib.Core.Bool.{Bool, true, false}
use mathlib.Core.Option.{Option, none, some}

pub data Result {ℓ κ} (E : Type ℓ) (A : Type κ) : Type (ℓ ⊔ κ) where
  ok : A → Result E A
  err : E → Result E A

module _ {ℓ κ} {E : Type ℓ} {A : Type κ} where
  infixl 5 ◌>>=◌ ◌>>◌
  unfoldable pub ◌>>=◌ {μ} : {B : Type μ} → Result E A → (A → Result E B) → Result E B
  ok a >>= f = f a
  err e >>= f = err e

  abbrev pub ◌>>◌ {μ} : {B : Type μ} → Result E A → Result E B → Result E B
  m >> k = m >>= λ _. k

  -- `ok_or`, and `map_err` of what is read
  abbrev pub ok_or : Option A → E → Result E A
  ok_or none e = err e
  ok_or (some a) e = ok a

  -- To go on with what a step returned.
  pub bind_ok {μ ν} :
      {B : Type μ} {P : Type ν} (m : Result E A) (f : A → Result E B) (b : B)
      → (m >>= f) ≡ ok b
      → ((a : A) → m ≡ ok a → f a ≡ ok b → P)
      → P
  unfolding ◌>>=◌
  bind_ok (ok a) f b h k = k a refl h
  bind_ok (err e) f b h k = absurd (cc)

  pub ok_or-ok : (o : Option A) (e : E) (a : A) → ok_or o e ≡ ok a → o ≡ some a
  ok_or-ok none e a h = cc
  ok_or-ok (some b) e a h = cc

-- `if test { return Err(e) }`
abbrev pub refuse {ℓ} : {E : Type ℓ} → Bool → E → Result {ℓ, 0} E Unit
refuse true e = err e
refuse false e = ok tt

pub guard_ok {ℓ κ ν} :
    {E : Type ℓ} {A : Type κ} {P : Type ν} (b : Bool) (e : E) (k : Result E A) (a : A)
    → (refuse b e >> k) ≡ ok a
    → (b ≡ false → k ≡ ok a → P)
    → P
unfolding ◌>>=◌
guard_ok true e k a h then_ok = absurd (cc)
guard_ok false e k a h then_ok = then_ok refl h

pub ok_injective {ℓ κ} :
    {E : Type ℓ} {A : Type κ} (a b : A) → Path (Result E A) (ok a) (ok b) → a ≡ b
ok_injective a b h = cc
