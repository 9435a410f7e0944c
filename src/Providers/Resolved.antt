-- ===== src/Providers/Resolved.antt =====
-- The loops of src/providers.rs come to an end on every text, and what `resolve_endpoints` gives.
use mathlib.Core.Path.{subst}
use rpc_latency_monitor.Prelude.{
  ℕ, zero, suc, ◌≤◌, ◌<◌, ◌≡◌, refl, sym, ap, ◌∙◌, String, Char, code, Bool, true, false, Option,
  none, some, List, [], ◌∷◌, ◌==◌, nat_eq, arith, strip_prefix, split_once, found_here, before_too,
  lookup, string_eq, unwrap_or, Elem, inl, inr, ◌<>◌, if◌then◌else◌, keep, map, elem_keep,
}
use rpc_latency_monitor.Prelude.Fallible.{Result, ok, err, ok_injective}
use rpc_latency_monitor.Config.{ProviderConfig}
use rpc_latency_monitor.Providers.{
  ProviderEndpoint, ResolveError, SubstituteError, missing_var, unterminated, size, replace,
  next_placeholder, substitute_from, substitute, endpoint_of, resolve_one, collect_endpoints,
  resolve_all, resolve_endpoints, serves_region, url_of, resolve_url,
}

abbrev pub Returns : {A : Type 0} → Option A → Type 0
Returns {A = A} o = (a : A) × (o ≡ some a)

if_some :
    {A : Type 0} (b : Bool) (o : Option A) (a : A) → (if b then o else none) ≡ some a → o ≡ some a
if_some true o a h = h
if_some false o a h = cc

strip_prefix-size : (p s r : String) → strip_prefix p s ≡ some r → size r ≤ size s
strip_prefix-size String.[] s r h = ground arith
strip_prefix-size (String.◌∷◌ d p) String.[] r h = cc
strip_prefix-size (String.◌∷◌ d p) (String.◌∷◌ c s) r h =
    omega (arith, strip_prefix-size p s r (if_some (code c == code d) _ r h))

-- What is after a pattern that is not empty is shorter than the text.
split_once-size :
    (d : Char) (p s a b : String) → split_once (String.◌∷◌ d p) s ≡ some (a, b) → size b < size s
split_once-size d p String.[] a b h = cc
split_once-size d p (String.◌∷◌ c s) a b h =
    here (strip_prefix (String.◌∷◌ d p) (String.◌∷◌ c s)) (split_once (String.◌∷◌ d p) s)
      (λ r e. strip_prefix-size p s r (if_some (code c == code d) _ r e)) (split_once-size d p s) h
  where
    later :
        (o : Option (String × String))
        → ((a b : String) → o ≡ some (a, b) → size b < size s)
        → before_too c o ≡ some (a, b)
        → size b < suc (size s)
    later none ih e = cc
    later (some (x, y)) ih e =
        let l : size y < size s = ih x y refl in
        let same : y ≡ b = cc in omega (arith, subst (λ z. size z < size s) same l)

    here :
        (o : Option String) (rest : Option (String × String))
        → ((r : String) → o ≡ some r → size r ≤ size s)
        → ((a b : String) → rest ≡ some (a, b) → size b < size s)
        → found_here s o (before_too c rest) ≡ some (a, b)
        → size b < suc (size s)
    here none rest stripped ih e = later rest ih e
    here (some r) rest stripped ih e =
        let l : size r ≤ size s = stripped r refl in
        let same : r ≡ b = cc in omega (arith, subst (λ z. size z ≤ size s) same l)

after_end : (s a b : String) → split_once "}" s ≡ some (a, b) → size b < size s
after_end s a b h = split_once-size "}" "" s a b h

after_start : (s a b : String) → split_once "${" s ≡ some (a, b) → size b < size s
after_start s a b h = split_once-size "$" "{" s a b h

module _ (env : String → Option String) where
  substitute_from-Returns :
      (fuel : ℕ) (out rest : String)
      → size rest < fuel
      → Returns (substitute_from env fuel out rest)
  unfolding substitute_from
  substitute_from-Returns zero out rest h = elim h [ ]
  substitute_from-Returns (suc fuel) out rest h =
      opened (split_once "${" rest) (after_start rest)
        (λ o r l. substitute_from-Returns fuel o r (omega arith))
    where
      valued :
          (v : Option String) (name out after : String)
          → Returns (substitute_from env fuel (out <> unwrap_or v "") after)
          → Returns (elim v [
            | none ↦ some (err (missing_var name))
            | some value ↦ substitute_from env fuel (out <> value) after
          ])
      valued none name out after r = (err (missing_var name), refl)
      valued (some value) name out after r = r

      closed :
          (o : Option (String × String)) (out after : String)
          → ((a b : String) → o ≡ some (a, b) → size b < size after)
          → size after < size rest
          → ((out r : String) → size r < size rest → Returns (substitute_from env fuel out r))
          → Returns (replace env (λ o r. substitute_from env fuel o r) out o)
      closed none out after smaller l go = (err unterminated, refl)
      closed (some (name, last)) out after smaller l go =
          let l' : size last < size after = smaller name last refl in
          valued (env name) name out last (go (out <> unwrap_or (env name) "") last (omega arith))

      opened :
          (o : Option (String × String))
          → ((a b : String) → o ≡ some (a, b) → size b < size rest)
          → ((out r : String) → size r < size rest → Returns (substitute_from env fuel out r))
          → Returns (next_placeholder env (λ o r. substitute_from env fuel o r) out rest o)
      opened none smaller go = (ok (out <> rest), refl)
      opened (some (before, after)) smaller go =
          closed (split_once "}" after) (out <> before) after (after_end after)
            (smaller before after refl) go

  substitute-Returns : (input : String) → Returns (substitute env input)
  unfolding substitute
  substitute-Returns input = substitute_from-Returns (suc (size input)) "" input (omega arith)

  pub resolve_url-Returns : (context url : String) → Returns (resolve_url env context url)
  unfolding resolve_url
  resolve_url-Returns context url =
      let (r, e) = substitute-Returns url in (url_of env context r, rw e)

  abbrev pub url_in : ProviderConfig → String → String
  url_in p region = unwrap_or (lookup region p.region_urls) p.url

  resolve_one-Returns : (p : ProviderConfig) (region : String) → Returns (resolve_one env p region)
  unfolding resolve_one
  resolve_one-Returns p region =
      let (r, e) = substitute-Returns (url_in p region) in (endpoint_of env p.name r, rw e)

  resolve_all-Returns :
      (ps : List ProviderConfig) (region : String) → Returns (resolve_all env ps region)
  unfolding resolve_all
  resolve_all-Returns [] region = (ok [], refl)
  resolve_all-Returns (p ∷ ps) region =
      let (one, e) = resolve_one-Returns p region in
      let (rest, f) = resolve_all-Returns ps region in (collect_endpoints env one rest, rw e rw f)

  pub resolve_endpoints-Returns :
      (ps : List ProviderConfig) (region : String) → Returns (resolve_endpoints env ps region)
  unfolding resolve_endpoints
  resolve_endpoints-Returns ps region =
      resolve_all-Returns (keep (λ p. serves_region p region) ps) region

  -- The endpoint of a provider: its name, and the url for the region with its placeholders filled.
  abbrev pub IsEndpointOf : String → ProviderConfig → ProviderEndpoint → Type 0
  IsEndpointOf region p e = (e.name ≡ p.name) × (substitute env (url_in p region) ≡ some (ok e.url))

  abbrev pub Resolves : String → List ProviderConfig → List ProviderEndpoint → Type 0
  Resolves region [] [] = Unit
  Resolves region (p ∷ ps) (e ∷ es) = IsEndpointOf region p e × Resolves region ps es
  Resolves region _ _ = ⊥

  some_same : {A : Type 0} (o : Option A) (a b : A) → o ≡ some a → o ≡ some b → a ≡ b
  some_same o a b h k = cc

  one-IsEndpointOf :
      (p : ProviderConfig) (region : String) (e : ProviderEndpoint)
      → resolve_one env p region ≡ some (ok e)
      → IsEndpointOf region p e
  unfolding resolve_one endpoint_of
  one-IsEndpointOf p region e h =
      let (r, answer) = substitute-Returns (url_in p region) in
      by_result r answer (some_same (resolve_one env p region) _ (ok e) (rw answer) h)
    where
      by_result :
          (r : Result SubstituteError String)
          → substitute env (url_in p region) ≡ some r
          → endpoint_of env p.name r ≡ ok e
          → IsEndpointOf region p e
      by_result (ok url) answer same =
          let made = ok_injective _ e same in
          (
            ap (λ (x : ProviderEndpoint). x.name) (sym made),
            answer ∙ ap (λ (x : ProviderEndpoint). some (ok x.url)) made,
          )
      by_result (err f) answer same = cc

  collected :
      (one : Result ResolveError ProviderEndpoint)
      (rest : Result ResolveError (List ProviderEndpoint)) (es : List ProviderEndpoint)
      → collect_endpoints env one rest ≡ ok es
      → (x : ProviderEndpoint) × (xs : List ProviderEndpoint) × (one ≡ ok x)
        × (rest ≡ ok xs)
        × (es ≡ x ∷ xs)
  unfolding collect_endpoints
  collected (err e) rest es h = cc
  collected (ok x) (err e) es h = cc
  collected (ok x) (ok xs) es h = (x, xs, refl, refl, sym (ok_injective _ _ h))

  resolve_all-Resolves :
      (ps : List ProviderConfig) (region : String) (es : List ProviderEndpoint)
      → resolve_all env ps region ≡ some (ok es)
      → Resolves region ps es
  unfolding resolve_all
  resolve_all-Resolves [] region [] h = tt
  resolve_all-Resolves [] region (e ∷ es) h = cc
  resolve_all-Resolves (p ∷ ps) region es h =
      let (one, e) = resolve_one-Returns p region in
      let (rest, f) = resolve_all-Returns ps region in
      let (x, xs, one_ok, rest_ok, same) =
        collected one rest es
          (some_same (resolve_all env (p ∷ ps) region) _ (ok es) (rw e rw f) h) in
      subst (λ ys. Resolves region (p ∷ ps) ys) (sym same)
        (
          one-IsEndpointOf p region x (e ∙ ap some one_ok),
          resolve_all-Resolves ps region xs (f ∙ ap some rest_ok),
        )

  abbrev pub provider_names : List ProviderConfig → List String
  provider_names ps = map (λ (p : ProviderConfig). p.name) ps

  module _ (region : String) where
    endpoint_from :
        (ps : List ProviderConfig) (es : List ProviderEndpoint) (e : ProviderEndpoint)
        → Resolves region ps es
        → Elem e es
        → (p : ProviderConfig) × Elem p ps × (IsEndpointOf region p e)
    endpoint_from [] [] e h m = absurd m
    endpoint_from [] (x ∷ es) e h m = absurd h
    endpoint_from (p ∷ ps) [] e h m = absurd h
    endpoint_from (p ∷ ps) (x ∷ es) e (h, hs) (inl same) =
        (p, inl refl, subst (λ y. IsEndpointOf region p y) (sym same) h)
    endpoint_from (p ∷ ps) (x ∷ es) e (h, hs) (inr m) =
        let (q, n, r) = endpoint_from ps es e hs m in (q, inr n, r)

    endpoint_for :
        (ps : List ProviderConfig) (es : List ProviderEndpoint) (p : ProviderConfig)
        → Resolves region ps es
        → Elem p ps
        → (e : ProviderEndpoint) × Elem e es × (IsEndpointOf region p e)
    endpoint_for [] es p h m = absurd m
    endpoint_for (q ∷ ps) [] p h m = absurd h
    endpoint_for (q ∷ ps) (x ∷ es) p (h, hs) (inl same) =
        (x, inl refl, subst (λ y. IsEndpointOf region y x) (sym same) h)
    endpoint_for (q ∷ ps) (x ∷ es) p (h, hs) (inr m) =
        let (e, n, r) = endpoint_for ps es p hs m in (e, inr n, r)

    names_of_endpoints :
        (ps : List ProviderConfig) (es : List ProviderEndpoint)
        → Resolves region ps es
        → map (λ (e : ProviderEndpoint). e.name) es ≡ provider_names ps
    names_of_endpoints [] [] h = refl
    names_of_endpoints [] (x ∷ es) h = absurd h
    names_of_endpoints (p ∷ ps) [] h = absurd h
    names_of_endpoints (p ∷ ps) (x ∷ es) (h, hs) =
        rw h.0 (ap (λ names. p.name ∷ names) (names_of_endpoints ps es hs))

    -- What is known of the endpoints of a region.
    pub record IsResolution (ps : List ProviderConfig) (es : List ProviderEndpoint) : Type 0 where
      pub sound :
          (e : ProviderEndpoint)
          → Elem e es
          → (p : ProviderConfig) × Elem p ps
            × (serves_region p region ≡ true)
            × (IsEndpointOf region p e)
      pub complete :
          (p : ProviderConfig)
          → Elem p ps
          → serves_region p region ≡ true
          → (e : ProviderEndpoint) × Elem e es × (IsEndpointOf region p e)
      pub names :
          map (λ (e : ProviderEndpoint). e.name) es
          ≡ provider_names (keep (λ p. serves_region p region) ps)

    pub resolve_endpoints-IsResolution :
        (ps : List ProviderConfig) (es : List ProviderEndpoint)
        → resolve_endpoints env ps region ≡ some (ok es)
        → IsResolution ps es
    unfolding resolve_endpoints
    resolve_endpoints-IsResolution ps es h =
        let served = keep (λ p. serves_region p region) ps in
        let resolved : Resolves region served es = resolve_all-Resolves served region es h in
        record {
          sound = λ e m.
              let (p, n, r) = endpoint_from served es e resolved m in
              let (listed, serves) = (elem_keep (λ p. serves_region p region) p ps).0 n in
              (p, listed, serves, r);
          complete = λ p m serves.
              endpoint_for served es p resolved
                ((elem_keep (λ p. serves_region p region) p ps).1 (m, serves));
          names = names_of_endpoints served es resolved;
        }
