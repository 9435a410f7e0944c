-- ===== src/Providers.antt =====
-- src/providers.rs and src/geo.rs: the endpoints of a region. The environment is a parameter.
pub mod Substitute
pub mod Redacted
pub mod Resolved
use rpc_latency_monitor.Prelude.{
  ℕ, zero, suc, ◌+◌, String, Char, code, Bool, true, false, not, ◌||◌, Option, none, some, List, [],
  ◌∷◌, ◌==◌, nat_eq, string_eq, any, contains, keep, is_empty, lookup, unwrap_or, ◌<>◌, split_once,
  is_blank_text, if◌then◌else◌,
}
use rpc_latency_monitor.Prelude.Fallible.{Result, ok, err, ◌>>=◌, ◌>>◌, refuse}
use rpc_latency_monitor.Prelude.Maybe.{◌>>=◌ as ◌and_then◌}
use rpc_latency_monitor.Config.{ProviderConfig}

pub record ProviderEndpoint : Type 0 where
  pub name : String
  pub url : String

-- The text up to the first character that passes a test.
abbrev pub until : (ℕ → Bool) → String → String
until p String.[] = ""
until p (String.◌∷◌ c s) = let rest = until p s in if p (code c) then "" else String.◌∷◌ c rest

-- `s.rsplit('@').next()`: the text after the last one, from the text since the last so far
abbrev pub since_at : String → String → String
since_at last String.[] = last
since_at last (String.◌∷◌ c s) = since_at (if code c == b'@' then s else last) s

abbrev pub ends_authority : ℕ → Bool
ends_authority n = n == b'/' || n == b'?'

abbrev pub host_of : String → String
host_of rest = let authority = until ends_authority rest in since_at authority authority

unfoldable pub redacted_url : String → String
redacted_url url =
    let (scheme, rest) = unwrap_or (split_once "://" url) ("", url) in
    if is_blank_text scheme then host_of rest else scheme <> "://" <> host_of rest

pub data SubstituteError : Type 0 where
  missing_var : String → SubstituteError
  unterminated : SubstituteError

pub data ResolveError : Type 0 where
  missing_env : String → String → ResolveError
  unterminated_url : String → ResolveError

with_provider : String → SubstituteError → ResolveError
with_provider provider (missing_var var) = missing_env provider var
with_provider provider unterminated = unterminated_url provider

-- The number of characters.
abbrev pub size : String → ℕ
size String.[] = 0
size (String.◌∷◌ c s) = suc (size s)

module _ (env : String → Option String) where
  -- A placeholder, cut at its end, and what goes on after it.
  abbrev pub replace :
      (String → String → Option (Result SubstituteError String))
      → String
      → Option (String × String)
      → Option (Result SubstituteError String)
  replace go_on out none = some (err unterminated)
  replace go_on out (some (name, rest)) = elim (env name) [
    | none ↦ some (err (missing_var name))
    | some value ↦ go_on (out <> value) rest
  ]

  abbrev pub next_placeholder :
      (String → String → Option (Result SubstituteError String))
      → String
      → String
      → Option (String × String)
      → Option (Result SubstituteError String)
  next_placeholder go_on out rest none = some (ok (out <> rest))
  next_placeholder go_on out rest (some (before, after)) =
      replace go_on (out <> before) (split_once "}" after)

  -- The loop, with its output and its rest; none if the fuel runs out.
  unfoldable pub substitute_from : ℕ → String → String → Option (Result SubstituteError String)
  substitute_from zero out rest = none
  substitute_from (suc fuel) out rest =
      next_placeholder (λ o r. substitute_from fuel o r) out rest (split_once "${" rest)

  unfoldable pub substitute : String → Option (Result SubstituteError String)
  unfolding substitute_from
  substitute input = substitute_from (suc (size input)) "" input

abbrev pub known_geos : List String
known_geos = "us-east" ∷ "us-west" ∷ "eu-central" ∷ "eu-west" ∷ "ap-northeast" ∷ "ap-southeast" ∷ []

-- src/geo.rs
unfoldable pub geo_for : String → String
geo_for region =
    if contains ("us-east4" ∷ "us-east-1" ∷ "nyc" ∷ "ewr" ∷ "ewr2" ∷ "pit" ∷ "pit1" ∷ []) region
    then "us-east"
    else if contains ("us-west2" ∷ "us-west-1" ∷ "lax" ∷ "lax1" ∷ []) region
    then "us-west"
    else if contains
        ("europe-west3" ∷ "eu-central-1" ∷ "fra" ∷ "fra2" ∷ "europe-west4" ∷ "ams" ∷ "ams3" ∷ [])
        region
    then "eu-central"
    else if contains ("europe-west2" ∷ "eu-west-2" ∷ "eu-west-1" ∷ "lon" ∷ "lon1" ∷ []) region
    then "eu-west"
    else if contains ("asia-northeast1" ∷ "ap-northeast-1" ∷ "tyo" ∷ "tyo2" ∷ []) region
    then "ap-northeast"
    else if contains ("asia-southeast1" ∷ "ap-southeast-1" ∷ "sgp" ∷ "sgp2" ∷ []) region
    then "ap-southeast"
    else "unknown"

unfoldable pub serves_region : ProviderConfig → String → Bool
unfolding geo_for
serves_region provider region =
    is_empty provider.geos || any (λ g. g == geo_for region) provider.geos

-- The provider and the place that is not known.
unfoldable pub validate_geos : List ProviderConfig → Result {0, 0} (String × String) Unit
validate_geos [] = ok tt
validate_geos (p ∷ ps) = do known p.geos; validate_geos ps
  where
    known : List String → Result {0, 0} (String × String) Unit
    known [] = ok tt
    known (g ∷ gs) = do refuse (not (contains known_geos g)) (p.name, g); known gs

module _ (env : String → Option String) where
  -- `map_err(|e| e.with_provider(&provider.name))`, and the endpoint.
  unfoldable pub endpoint_of :
      String → Result SubstituteError String → Result ResolveError ProviderEndpoint
  unfolding with_provider
  endpoint_of name (ok url) = ok (record { name = name; url = url })
  endpoint_of name (err e) = err (with_provider name e)

  unfoldable pub resolve_one :
      ProviderConfig → String → Option (Result ResolveError ProviderEndpoint)
  unfolding substitute endpoint_of
  resolve_one provider region =
      substitute env (unwrap_or (lookup region provider.region_urls) provider.url) and_then λ url.
      some (endpoint_of provider.name url)

  -- `collect` into a `Result`: up to the first error.
  unfoldable pub collect_endpoints :
      Result ResolveError ProviderEndpoint
      → Result ResolveError (List ProviderEndpoint)
      → Result ResolveError (List ProviderEndpoint)
  collect_endpoints (err e) rest = err e
  collect_endpoints (ok p) (err e) = err e
  collect_endpoints (ok p) (ok ps) = ok (p ∷ ps)

  unfoldable pub resolve_all :
      List ProviderConfig → String → Option (Result ResolveError (List ProviderEndpoint))
  unfolding resolve_one collect_endpoints
  resolve_all [] region = some (ok [])
  resolve_all (p ∷ ps) region = resolve_one p region and_then λ one.
      resolve_all ps region and_then λ rest. some (collect_endpoints one rest)

  unfoldable pub resolve_endpoints :
      List ProviderConfig → String → Option (Result ResolveError (List ProviderEndpoint))
  unfolding resolve_all serves_region
  resolve_endpoints providers region =
      resolve_all (keep (λ p. serves_region p region) providers) region

  unfoldable pub url_of : String → Result SubstituteError String → Result ResolveError String
  unfolding with_provider
  url_of context (ok url) = ok url
  url_of context (err e) = err (with_provider context e)

  unfoldable pub resolve_url : String → String → Option (Result ResolveError String)
  unfolding substitute url_of
  resolve_url context url = substitute env url and_then λ r. some (url_of context r)
