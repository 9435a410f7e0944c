-- ===== src/Rpc/Client.antt =====
-- `RpcClient` of src/rpc/mod.rs. The calls of one client share its counter and its table of HTTP
-- clients; each runs on the state that the one before left.
pub mod Reuse
pub mod Failures
use rpc_latency_monitor.Prelude.{
  ℕ, ◌+◌, ◌-◌, ◌%◌, String, Bool, true, false, Option, none, some, List, [], ◌∷◌, leb, length,
  lookup, insert, string_eq, Map, unwrap_or, word, if◌then◌else◌,
}
use rpc_latency_monitor.Prelude.State.{State, pure, ◌>>=◌, ◌>>◌}
use rpc_latency_monitor.Crates.{Crates}
use rpc_latency_monitor.Method.{RpcMethod, rpc_name}
use rpc_latency_monitor.Rpc.{
  RequestContext, CallResult, CallStatus, ErrorKind, ClaimPayload, error, timeout, transport,
}
use rpc_latency_monitor.Rpc.Classify.{Parsed, parsed_error, is_http_success, classify, error_code}
use rpc_latency_monitor.Methods.Results.{build_params}

abbrev pub large_body_bytes : ℕ
large_body_bytes = 131072

module _ ⦃c : Crates⦄ where
  open c use {
    Value, get, from_slice, of_str, of_u64, of_object, World, HttpClient, Response, build_client,
    post, status, remote_ip, bytes, joined, now,
  }

  pub record RpcClient : Type 0 where
    pub request_timeout : ℕ
    pub fallback : HttpClient
    pub clients : Map String HttpClient
    pub next_id : ℕ

  client_over : ℕ → Option HttpClient → Option RpcClient
  client_over limit none = none
  client_over limit (some http) =
      some (record { request_timeout = limit; fallback = http; clients = []; next_id = 1 })

  -- `RpcClient::new`
  unfoldable pub new_rpc_client : ℕ → World → Option RpcClient × World
  unfolding client_over
  new_rpc_client limit w = let (built, w') = build_client limit w in (client_over limit built, w')

  -- A client, and the world outside.
  pub record Env : Type 0 where
    pub client : RpcClient
    pub world : World

  pub data RawResponse : Type 0 where
    result : Value → RawResponse
    rpc_error : ℕ → RawResponse
    unavailable : RawResponse

  -- A step of the world alone.
  abbrev pub outside : {A : Type 0} → (World → A × World) → State Env A
  outside f e = ((f e.world).0, record e { world = (f e.world).1 })

  new_client : String → State Env HttpClient
  new_client url e =
      let (built, w) = build_client e.client.request_timeout e.world in
      let http = unwrap_or built e.client.fallback in
      (
        http,
        record {
          client = record e.client { clients = insert url http e.client.clients };
          world = w;
        },
      )

  unfoldable pub client_for : String → State Env HttpClient
  unfolding new_client
  client_for url e = elim (lookup url e.client.clients) [
    | some http ↦ (http, e)
    | none ↦ new_client url e
  ]

  -- `next_id.fetch_add(1)`
  unfoldable pub take_id : State Env ℕ
  take_id e = (
    e.client.next_id,
    record e { client = record e.client { next_id = (e.client.next_id + 1) % word } },
  )

  abbrev request_body : ℕ → String → Value → Value
  request_body id method params = of_object (
      ("jsonrpc", of_str "2.0")
      ∷ ("id", of_u64 id)
      ∷ ("method", of_str method)
      ∷ ("params", params)
      ∷ [])

  -- `serde_json::from_slice`, away from the runtime for a large body
  parse_body : List ℕ → State Env (Option Value)
  parse_body body =
      if leb large_body_bytes (length body)
      then (do ran ← outside joined; pure (if ran then from_slice body else none))
      else pure (from_slice body)

  raw_result : Option Value → RawResponse
  raw_result none = unavailable
  raw_result (some v) = result v

  raw_reply : Option Value → Option Value → RawResponse
  unfolding raw_result
  raw_reply (some e) found = rpc_error (error_code e)
  raw_reply none found = raw_result found

  raw_json : Option Value → RawResponse
  unfolding raw_reply
  raw_json none = unavailable
  raw_json (some json) = raw_reply (get json "error") (get json "result")

  raw_body : Option (List ℕ) → State Env RawResponse
  unfolding parse_body raw_json
  raw_body none = pure unavailable
  raw_body (some body) = do json ← parse_body body; pure (raw_json json)

  raw_response : Option Response → State Env RawResponse
  unfolding raw_body
  raw_response none = pure unavailable
  raw_response (some response) =
      if is_http_success (status response)
      then (do body ← outside (bytes response); raw_body body)
      else pure unavailable

  unfoldable pub raw_call_checked : String → String → Value → State Env RawResponse
  unfolding take_id client_for raw_response
  raw_call_checked url method params = do
    id ← take_id
    http ← client_for url
    sent ← outside (post http url (request_body id method params) none)
    raw_response sent.0

  abbrev pub raw_ok : RawResponse → Option Value
  raw_ok (result v) = some v
  raw_ok _ = none

  unfoldable pub raw_call : String → String → Value → State Env (Option Value)
  raw_call url method params = do r ← raw_call_checked url method params; pure (raw_ok r)

  unfoldable pub send_error_kind : Bool → ErrorKind
  send_error_kind true = timeout
  send_error_kind false = transport

  abbrev call_result : ℕ → Option String → Parsed → CallResult
  call_result latency ip p = record {
    latency = latency;
    status = p.status;
    observed_slot = p.observed_slot;
    signature = p.signature;
    archival_signature = p.archival_signature;
    accounts = p.accounts;
    claim = p.claim;
    endpoint_ip = ip;
  }

  -- The body of an answer, classified; away from the runtime if it is large.
  classify_body : ℕ → Option (List ℕ) → RpcMethod → RequestContext → State Env Parsed
  classify_body http_status none m ctx = pure (parsed_error transport)
  classify_body http_status (some body) m ctx =
      if leb large_body_bytes (length body)
      then (do
        ran ← outside joined
        pure (if ran then classify http_status body m ctx else parsed_error transport))
      else pure (classify http_status body m ctx)

  -- `start.elapsed()`
  abbrev pub elapsed : ℕ → State Env ℕ
  elapsed start e = (now e.world - start, e)

  call_response : ℕ → Option Response × Bool → RpcMethod → RequestContext → State Env CallResult
  unfolding classify_body send_error_kind
  call_response start (none, is_timeout) m ctx = do
    latency ← elapsed start
    pure (call_result latency none (parsed_error (send_error_kind is_timeout)))
  call_response start (some response, is_timeout) m ctx = do
    body ← outside (bytes response)
    latency ← elapsed start
    parsed ← classify_body (status response) body m ctx
    pure (call_result latency (remote_ip response) parsed)

  call_with : Value → String → RpcMethod → RequestContext → Option ℕ → State Env CallResult
  unfolding take_id client_for call_response
  call_with params url m ctx limit = do
    id ← take_id
    http ← client_for url
    start ← (λ e. (now e.world, e))
    sent ← outside (post http url (request_body id (rpc_name m) params) limit)
    call_response start sent m ctx

  unfoldable pub call :
      String → RpcMethod → RequestContext → Option ℕ → State Env (Option CallResult)
  unfolding call_with
  call url m ctx limit = elim (build_params m ctx) [
    | none ↦ pure none
    | some params ↦ (do r ← call_with params url m ctx limit; pure (some r))
  ]
