-- ===== src/RawApi/Settings.antt =====
-- `RawApiConfig::from_env` of src/raw_api.rs. The environment is a parameter.
pub mod Complete
use rpc_latency_monitor.Prelude.{
  ◌⊎◌, ◌≡◌, ◌↔◌, ◌≢◌, refl, String, Char, code, Bool, true, false, not, ◌&&◌, Option, none, some,
  ◌==◌, nat_eq, is_blank_text, unwrap_or, or, if◌then◌else◌,
}
use rpc_latency_monitor.Prelude.Fallible.{
  Result, ok, err, ◌>>=◌, ◌>>◌, ok_or, ok_or-ok, bind_ok, refuse, guard_ok, ok_injective,
}
use rpc_latency_monitor.Crates.{Crates}
use rpc_latency_monitor.RawApi.App.{RawApiConfig}

pub data SettingsError : Type 0 where
  bad_bind not_set : String → SettingsError

-- `trim_end_matches('/')`
abbrev pub trim_slashes : String → String
trim_slashes String.[] = ""
trim_slashes (String.◌∷◌ c s) =
    let rest = trim_slashes s in
    if is_blank_text rest && code c == b'/' then "" else String.◌∷◌ c rest

module _ ⦃c : Crates⦄ (env : String → Option String) where
  open c use {is_socket_addr}

  abbrev need : String → Result SettingsError String
  need key = ok_or (env key) (not_set key)

  abbrev pub bind_text : String
  bind_text = unwrap_or (env "RAW_API_BIND") "0.0.0.0:8080"

  abbrev pub token_text : Option String
  token_text = or (env "RAW_API_GRAFANA_TOKEN") (env "GRAFANA_API_TOKEN")

  unfoldable pub from_env : Result SettingsError RawApiConfig
  from_env = do
    refuse (not (is_socket_addr bind_text)) (bad_bind bind_text)
    secret ← need "RAW_API_JWT_SECRET"
    url ← need "GRAFANA_API_URL"
    token ← ok_or token_text (not_set "GRAFANA_API_TOKEN")
    database ← need "SAMPLES_DATABASE_URL"
    ok (record {
      bind = bind_text;
      jwt_secret = secret;
      grafana_url = trim_slashes url;
      grafana_token = token;
      datasource_uid = unwrap_or (env "GRAFANA_DATASOURCE_UID") "grafanacloud-prom";
      database_url = database;
    })

  -- What the environment must hold.
  pub record IsComplete : Type 0 where
    pub address : is_socket_addr (unwrap_or (env "RAW_API_BIND") "0.0.0.0:8080") ≡ true
    pub secret : env "RAW_API_JWT_SECRET" ≢ none
    pub url : env "GRAFANA_API_URL" ≢ none
    pub token : (env "RAW_API_GRAFANA_TOKEN" ≢ none) ⊎ (env "GRAFANA_API_TOKEN" ≢ none)
    pub database : env "SAMPLES_DATABASE_URL" ≢ none
