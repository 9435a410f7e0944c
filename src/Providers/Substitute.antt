-- ===== src/Providers/Substitute.antt =====
-- What `substitute` of src/providers.rs makes of a text with placeholders.
use rpc_latency_monitor.Prelude.{
  ℕ, zero, suc, ◌+◌, ◌<◌, ◌≡◌, refl, sym, ap, ◌∙◌, String, Char, code, false, Option, none, some,
  List, [], ◌∷◌, ◌==◌, nat_eq, arith, or_false, ◌<>◌, text-append_assoc, text-append-nil, has_char,
  split_once, before_too,
}
use rpc_latency_monitor.Prelude.Fallible.{Result, ok, err}
use rpc_latency_monitor.Providers.{
  SubstituteError, missing_var, size, replace, next_placeholder, substitute_from, substitute,
}

-- A text is made of pieces without `$`, and of names without `}` between `${` and `}`.
pub data Piece : Type 0 where
  literal placeholder : String → Piece

abbrev pub IsPiece : Piece → Type 0
IsPiece (literal t) = has_char b'$' t ≡ false
IsPiece (placeholder n) = has_char b'}' n ≡ false

abbrev pub AllPieces : List Piece → Type 0
AllPieces [] = Unit
AllPieces (p ∷ ps) = IsPiece p × AllPieces ps

abbrev pub render : List Piece → String
render [] = ""
render (literal t ∷ ps) = t <> render ps
render (placeholder n ∷ ps) = "${" <> (n <> ("}" <> render ps))

abbrev pub prepend : String → Result SubstituteError String → Result SubstituteError String
prepend t (ok s) = ok (t <> s)
prepend t (err e) = err e

prepend-append :
    (s t : String) (r : Result SubstituteError String)
    → prepend (s <> t) r ≡ prepend s (prepend t r)
prepend-append s t (ok u) = ap ok (text-append_assoc s t u)
prepend-append s t (err e) = refl

abbrev after_text : String → Option (String × String) → Option (String × String)
after_text t none = none
after_text t (some (a, b)) = some (t <> a, b)

after_text-before_too :
    (c : Char) (t : String) (o : Option (String × String))
    → before_too c (after_text t o) ≡ after_text (String.◌∷◌ c t) o
after_text-before_too c t none = refl
after_text-before_too c t (some (a, b)) = refl

nothing_before : (o : Option (String × String)) → o ≡ after_text "" o
nothing_before none = refl
nothing_before (some (a, b)) = refl

split_once-literal :
    (t rest : String)
    → has_char b'$' t ≡ false
    → split_once "${" (t <> rest) ≡ after_text t (split_once "${" rest)
split_once-literal String.[] rest h = nothing_before (split_once "${" rest)
split_once-literal (String.◌∷◌ c t) rest h =
    let (other, plain) = or_false (code c == b'$') (has_char b'$' t) h in
    rw other (
      ap (before_too c) (split_once-literal t rest plain)
      ∙ after_text-before_too c t (split_once "${" rest))

split_once-close :
    (n rest : String)
    → has_char b'}' n ≡ false
    → split_once "}" (n <> ("}" <> rest)) ≡ some (n, rest)
split_once-close String.[] rest h = refl
split_once-close (String.◌∷◌ c n) rest h =
    let (other, plain) = or_false (code c == b'}') (has_char b'}' n) h in
    rw other (ap (before_too c) (split_once-close n rest plain))

module _ (env : String → Option String) where
  -- The text with the values in place of the names, or the first name without a value.
  abbrev pub fill : List Piece → Result SubstituteError String
  fill [] = ok ""
  fill (literal t ∷ ps) = prepend t (fill ps)
  fill (placeholder n ∷ ps) =
      let rest = fill ps in
      elim (env n) [ none ↦ err (missing_var n) | some value ↦ prepend value rest ]

  size-append : (s t : String) → size (s <> t) ≡ size s + size t
  size-append String.[] t = omega arith
  size-append (String.◌∷◌ c s) t = omega (arith, size-append s t)

  next-literal :
      (go_on : String → String → Option (Result SubstituteError String)) (out t rest : String)
      (o : Option (String × String))
      → next_placeholder env go_on out (t <> rest) (after_text t o)
        ≡ next_placeholder env go_on (out <> t) rest o
  next-literal go_on out t rest none = ap (λ s. some (ok s)) (sym (text-append_assoc out t rest))
  next-literal go_on out t rest (some (a, b)) =
      ap (λ s. replace env go_on s (split_once "}" b)) (sym (text-append_assoc out t a))

  fills :
      (ps : List Piece) (fuel : ℕ) (out : String)
      → size (render ps) < fuel
      → AllPieces ps
      → substitute_from env fuel out (render ps) ≡ some (prepend out (fill ps))
  unfolding substitute_from
  fills ps zero out enough h = absurd (omega arith)
  fills [] (suc fuel) out enough h = refl
  fills (literal t ∷ ps) (suc fuel) out enough (p, h) =
      let go_on : String → String → Option (Result SubstituteError String) =
        λ o r. substitute_from env fuel o r in
      ap (next_placeholder env go_on out (t <> render ps)) (split_once-literal t (render ps) p)
      ∙ next-literal go_on out t (render ps) (split_once "${" (render ps))
      ∙ fills ps (suc fuel) (out <> t) (omega (arith, size-append t (render ps))) h
      ∙ ap some (prepend-append out t (fill ps))
  fills (placeholder n ∷ ps) (suc fuel) out enough (p, h) =
      ap (replace env (λ o r. substitute_from env fuel o r) (out <> ""))
        (split_once-close n (render ps) p)
      ∙ by_value (env n) (λ o. fills ps fuel o (omega (arith, size-append n ("}" <> render ps))) h)
    where
      by_value :
          (v : Option String)
          → ((o : String) → substitute_from env fuel o (render ps) ≡ some (prepend o (fill ps)))
          → Path
              (Option (Result SubstituteError String))
              (elim v as (λ x. Option (Result SubstituteError String)) [
                | none ↦ some (err (missing_var n))
                | some value ↦ substitute_from env fuel ((out <> "") <> value) (render ps)
              ])
              (some (
                prepend out (elim v as (λ x. Result SubstituteError String) [
                  | none ↦ err (missing_var n)
                  | some value ↦ prepend value (fill ps)
                ])))
      by_value none go_on = refl
      by_value (some value) go_on =
          go_on ((out <> "") <> value)
          ∙ ap (λ s. some (prepend (s <> value) (fill ps))) (text-append-nil out)
          ∙ ap some (prepend-append out value (fill ps))

  -- A text that is put together from pieces without `$` and placeholders becomes the pieces with
  -- the values in place of the placeholders, or the error of the first placeholder that has no
  -- value: the loop ends within its fuel.
  pub substitute-fill :
      (ps : List Piece) → AllPieces ps → substitute env (render ps) ≡ some (fill ps)
  unfolding substitute
  substitute-fill ps h =
      fills ps (suc (size (render ps))) "" (omega arith) h ∙ ap some (nothing_prepended (fill ps))
    where
      nothing_prepended : (r : Result SubstituteError String) → prepend "" r ≡ r
      nothing_prepended (ok s) = refl
      nothing_prepended (err e) = refl
