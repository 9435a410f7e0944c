-- ===== src/RawApi/Settings/Complete.antt =====
-- When `RawApiConfig::from_env` of src/raw_api.rs succeeds, and with what.
use rpc_latency_monitor.Prelude.{
  ◌⊎◌, inl, inr, or, ◌≡◌, ◌↔◌, ◌≢◌, refl, String, Char, code, Bool, true, false, not-false, ◌&&◌,
  Option, none, some, ◌==◌, nat_eq, is_blank_text, unwrap_or, if◌then◌else◌,
}
use rpc_latency_monitor.Prelude.Fallible.{ok, ◌>>=◌, ok_or-ok, bind_ok, guard_ok}
use rpc_latency_monitor.Crates.{Crates}
use rpc_latency_monitor.RawApi.App.{RawApiConfig}
use rpc_latency_monitor.RawApi.Settings.{trim_slashes, bind_text, token_text, IsComplete, from_env}

-- The last character of a text is no slash.
abbrev pub ends_in_slash : String → Bool
ends_in_slash String.[] = false
ends_in_slash (String.◌∷◌ c String.[]) = code c == b'/'
ends_in_slash (String.◌∷◌ c s) = ends_in_slash s

not_none : (o : Option String) (a : String) → o ≡ some a → o ≢ none
not_none none a h e = cc
not_none (some b) a h e = cc

either_set : (o p : Option String) (a : String) → or o p ≡ some a → (o ≢ none) ⊎ (p ≢ none)
either_set none p a h = inr (not_none p a h)
either_set (some b) p a h = inl (λ e. cc)

set_of : (o p : Option String) → (o ≢ none) ⊎ (p ≢ none) → or o p ≢ none
set_of none p (inl h) e = h refl
set_of none p (inr h) e = h e
set_of (some b) p h e = cc

value_of : (o : Option String) → o ≢ none → (a : String) × (o ≡ some a)
value_of none h = absurd (h refl)
value_of (some a) h = (a, refl)

last_char :
    (c : Char) (b : Bool)
    → (code c == b'/') ≡ b
    → ends_in_slash (if b then "" else String.◌∷◌ c "") ≡ false
last_char c true e = refl
last_char c false e = e

one_more :
    (c : Char) (s : String)
    → ends_in_slash s ≡ false
    → ends_in_slash (if is_blank_text s && code c == b'/' then "" else String.◌∷◌ c s) ≡ false
one_more c String.[] h = last_char c _ refl
one_more c (String.◌∷◌ d s) h = h

trim_slashes-end : (s : String) → ends_in_slash (trim_slashes s) ≡ false
trim_slashes-end String.[] = refl
trim_slashes-end (String.◌∷◌ c s) = one_more c (trim_slashes s) (trim_slashes-end s)

module _ ⦃c : Crates⦄ (env : String → Option String) where
  open c use {is_socket_addr}

  -- The settings that are read, whatever the variables hold.
  complete_of : (config : RawApiConfig) → from_env env ≡ ok config → IsComplete env
  unfolding from_env
  complete_of config h = guard_ok _ _ _ _ h λ address h1. bind_ok _ _ _ h1 λ secret es h2.
      bind_ok _ _ _ h2 λ url eu h3. bind_ok _ _ _ h3 λ token et h4.
        bind_ok _ _ _ h4 λ database ed h5. record {
          address = not-false _ address;
          secret = not_none _ _ (ok_or-ok _ _ _ es);
          url = not_none _ _ (ok_or-ok _ _ _ eu);
          token = either_set _ _ _ (ok_or-ok _ _ _ et);
          database = not_none _ _ (ok_or-ok _ _ _ ed);
        }

  abbrev pub MadeWell : RawApiConfig → Type 0
  MadeWell config = (from_env env ≡ ok config) × (ends_in_slash config.grafana_url ≡ false)

  settings_of : String → String → String → String → RawApiConfig
  settings_of secret url token database = record {
    bind = bind_text env;
    jwt_secret = secret;
    grafana_url = trim_slashes url;
    grafana_token = token;
    datasource_uid = unwrap_or (env "GRAFANA_DATASOURCE_UID") "grafanacloud-prom";
    database_url = database;
  }

  made_with :
      (secret url token database : String)
      → is_socket_addr (bind_text env) ≡ true
      → env "RAW_API_JWT_SECRET" ≡ some secret
      → env "GRAFANA_API_URL" ≡ some url
      → token_text env ≡ some token
      → env "SAMPLES_DATABASE_URL" ≡ some database
      → from_env env ≡ ok (settings_of secret url token database)
  unfolding from_env ◌>>=◌ settings_of
  made_with secret url token database address es eu et ed = rw address rw es rw eu rw et rw ed

  made_of : IsComplete env → (config : RawApiConfig) × MadeWell config
  unfolding settings_of
  made_of h =
      let (secret, es) = value_of _ h.secret in
      let (url, eu) = value_of _ h.url in
      let (token, et) = value_of _ (set_of _ _ h.token) in
      let (database, ed) = value_of _ h.database in
      (
        settings_of secret url token database,
        (made_with secret url token database h.address es eu et ed, trim_slashes-end url),
      )

  -- The settings of the raw API are read, and with an address of Grafana that ends in no slash,
  -- exactly if the address to bind is one and the secret, the address of Grafana, one of the two
  -- tokens and the address of the database are set.
  pub from_env_iff : ((config : RawApiConfig) × MadeWell config) ↔ IsComplete env
  from_env_iff = ((λ (config, (made, url)). complete_of config made), made_of)
