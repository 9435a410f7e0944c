-- ===== src/Crates.antt =====
-- What the program calls and does not implement: serde_json, the base64 and bs58 crates, reqwest,
-- the clocks and the random numbers. Every definition that uses one takes it as a parameter.
use rpc_latency_monitor.Prelude.{ℕ, String, Bool, Option, List}

-- A 64-bit signed number is its bit pattern, below `word`.
pub record Crates : Type 1 where
  -- serde_json: `Value`, its accessors, and what `json!` builds
  pub Value : Type 0
  pub get : Value → String → Option Value
  pub as_str : Value → Option String
  pub as_u64 : Value → Option ℕ
  pub as_i64 : Value → Option ℕ
  pub as_array : Value → Option (List Value)
  pub is_null : Value → Bool
  pub of_bool : Bool → Value
  pub of_u64 : ℕ → Value
  pub of_str : String → Value
  pub of_array : List Value → Value
  pub of_object : List (String × Value) → Value
  pub to_string : Value → String
  pub null : Value
  pub as_object : Value → Option (List (String × Value))
  pub from_slice : List ℕ → Option Value
  -- base64 (STANDARD) and bs58
  pub decode_base64 : String → Option (List ℕ)
  pub decode_bs58 : String → Option (List ℕ)
  pub encode_bs58 : List ℕ → String
  -- reqwest and tokio, over a state of the world outside the program
  pub World : Type 0
  pub HttpClient : Type 0
  pub Response : Type 0
  pub build_client : ℕ → World → Option HttpClient × World
  -- the request that was sent: an answer, or none with `is_timeout` of the error
  pub post : HttpClient → String → Value → Option ℕ → World → (Option Response × Bool) × World
  pub status : Response → ℕ
  pub remote_ip : Response → Option String
  pub bytes : Response → World → Option (List ℕ) × World
  -- whether a task given to `spawn_blocking` ran to its end
  pub joined : World → Bool × World
  -- `Instant::now()` in nanoseconds, `SystemTime::now()` in nanoseconds since the epoch
  pub now : World → ℕ
  pub unix_time : World → ℕ
  pub random_range : ℕ → ℕ → World → ℕ × World
  -- humantime: the seconds since the epoch, with none inside for a time before it
  pub parse_rfc3339 : String → Option (Option ℕ)
  -- base64 (URL_SAFE_NO_PAD), and `verify_slice` of an HMAC-SHA256: the secret, the message, the tag
  pub decode_base64_url : String → Option (List ℕ)
  pub verify_hmac : String → String → List ℕ → Bool
  -- `f64`
  pub F64 : Type 0
  pub as_f64 : Value → Option F64
  pub of_f64 : F64 → Value
  pub of_i64 : ℕ → Value
  pub parse_f64 : String → Option F64
  pub is_finite : F64 → Bool
  pub f64_le : F64 → F64 → Bool
  pub f64_of : ℕ → F64
  pub f64_to_u64 : F64 → ℕ
  pub f64_mul : F64 → F64 → F64
  pub f64_div : F64 → F64 → F64
  pub f64_round : F64 → F64
  pub f64_max : F64
  -- `as_secs_f64` of a duration in nanoseconds
  pub secs_f64 : ℕ → F64
  -- a GET of the raw API: the address, the bearer token and the query
  pub get_request :
      HttpClient → String → String → List (String × String) → World → Option Response × World
  -- humantime: a time in nanoseconds since the epoch, in RFC 3339 to the second
  pub format_rfc3339 : ℕ → String
  -- tokio_postgres: a connection, a statement with its parameters, and a column of a row as JSON
  pub Connection : Type 0
  pub Row : Type 0
  pub pg_connect : String → World → Option Connection × World
  pub pg_query : Connection → String → List Value → World → Option (List Row) × World
  pub column : Row → String → Value
  -- `batch_execute`, and whether a text is the address of a socket
  pub batch_execute : Connection → String → World → Option (Unit {0}) × World
  pub is_socket_addr : String → Bool
