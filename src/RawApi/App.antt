-- ===== src/RawApi/App.antt =====
-- The state and the settings of src/raw_api.rs, and its replies.
use rpc_latency_monitor.Prelude.{ℕ, String, Option, List, [], ◌∷◌}
use rpc_latency_monitor.Prelude.Fallible.{Result, ok, err, ok_or}
use rpc_latency_monitor.Crates.{Crates}
use rpc_latency_monitor.RawApi.RateLimit.{RateWindows}

pub record RawApiConfig : Type 0 where
  pub bind : String
  pub jwt_secret : String
  pub grafana_url : String
  pub grafana_token : String
  pub datasource_uid : String
  pub database_url : String

abbrev pub max_upstream_concurrency : ℕ
max_upstream_concurrency = 8

-- What a request upstream, or one of the database, can fail with.
pub data UpstreamError : Type 0 where
  not_sent no_document connection_failed statement_failed : UpstreamError
  http_status : ℕ → UpstreamError
  prometheus unhandled_template : String → UpstreamError

module _ ⦃c : Crates⦄ where
  open c use {Value, HttpClient, World, of_object, of_str}

  -- `windows` behind its mutex, and the permits that `upstream` has left.
  pub record AppState : Type 0 where
    pub config : RawApiConfig
    pub http : HttpClient
    pub windows : RateWindows
    pub permits : ℕ

  pub data Body : Type 0 where
    json : Value → Body
    text : String → Body

  pub record Reply : Type 0 where
    pub status : ℕ
    pub headers : List (String × String)
    pub body : Body

  abbrev pub no_store : String × String
  no_store = ("Cache-Control", "no-store")

  abbrev pub error_response : ℕ → String → Reply
  error_response status message = record {
    status = status;
    headers = no_store ∷ [];
    body = json (of_object (("error", of_str message) ∷ []));
  }

  -- Code with `?` that calls the outside.
  abbrev pub Upstream : Type 0 → Type 0
  Upstream A = World → Result UpstreamError A × World

  module _ {A B : Type 0} where
    abbrev pub after : (A → Upstream B) → Result UpstreamError A → Upstream B
    after f (ok a) w = f a w
    after f (err e) w = (err e, w)

    infixl 5 ◌>>=◌
    unfoldable pub ◌>>=◌ : Upstream A → (A → Upstream B) → Upstream B
    ◌>>=◌ m f w = after f (m w).0 (m w).1

  module _ {A : Type 0} where
    abbrev pub returned : A → Upstream A
    returned a w = (ok a, w)

    abbrev pub raised : UpstreamError → Upstream A
    raised e w = (err e, w)

    -- A call whose failure is the given error.
    unfoldable pub named : UpstreamError → (World → Option A × World) → Upstream A
    named e call w = (ok_or (call w).0 e, (call w).1)
