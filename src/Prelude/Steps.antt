-- ===== src/Prelude/Steps.antt =====
-- Chains of `?` on an `Option` whose steps a proof goes through one by one.
use mathlib.Core.Path.{◌≡◌, refl}
use mathlib.Core.Bool.{Bool, true, false}
use mathlib.Core.Option.{Option, none, some}
use rpc_latency_monitor.Prelude.Tests.{when}

infixl 5 ◌>>=◌ ◌>>◌
unfoldable pub ◌>>=◌ {ℓ κ} : {A : Type ℓ} {B : Type κ} → Option A → (A → Option B) → Option B
none >>= f = none
some a >>= f = f a

abbrev pub ◌>>◌ {ℓ κ} : {A : Type ℓ} {B : Type κ} → Option A → Option B → Option B
m >> k = m >>= λ _. k

-- `if !test { return None }`
abbrev pub need : Bool → Option {0} Unit
need b = when b tt

pub bind_some {ℓ κ ν} :
    {A : Type ℓ} {B : Type κ} {P : Type ν} (m : Option A) (f : A → Option B) (b : B)
    → (m >>= f) ≡ some b
    → ((a : A) → m ≡ some a → f a ≡ some b → P)
    → P
unfolding ◌>>=◌
bind_some none f b h k = absurd (cc)
bind_some (some a) f b h k = k a refl h

pub need_some {κ ν} :
    {B : Type κ} {P : Type ν} (t : Bool) (k : Option B) (b : B)
    → (need t >> k) ≡ some b
    → (t ≡ true → k ≡ some b → P)
    → P
unfolding ◌>>=◌
need_some true k b h go = go refl h
need_some false k b h go = absurd (cc)
