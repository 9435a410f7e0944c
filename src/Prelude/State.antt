-- ===== src/Prelude/State.antt =====
-- Code that reads and writes a state: the state is passed on explicitly.

abbrev pub State {ℓ} : Type ℓ → Type ℓ → Type ℓ
State S A = S → A × S

module _ {ℓ} {S : Type ℓ} where
  abbrev pub pure : {A : Type ℓ} → A → State S A
  pure a s = (a, s)

  infixl 5 ◌>>=◌ ◌>>◌
  abbrev pub ◌>>=◌ : {A B : Type ℓ} → State S A → (A → State S B) → State S B
  ◌>>=◌ m f s = f (m s).0 (m s).1

  abbrev pub ◌>>◌ : {A B : Type ℓ} → State S A → State S B → State S B
  m >> k = m >>= λ _. k
