-- ===== src/Tests/Toy.antt =====
-- A small JSON, a clock that counts the requests, and a server with a few answers.
use rpc_latency_monitor.Prelude.{
  ℕ, zero, suc, ◌%◌, String, Bool, true, false, not, Option, none, some, List, [], ◌∷◌, ◌==◌,
  string_eq, if◌then◌else◌, max, min, parse_u64, leb, ◌*◌, ◌/◌,
}
use rpc_latency_monitor.Crates.{Crates}
use rpc_latency_monitor.Target.{token_program}
use rpc_latency_monitor.Rpc.{RequestContext, negative}
use rpc_latency_monitor.Rpc.Client.{Env}

-- A list is `item x rest` up to `end`, an object `field k v rest` up to `end`.
pub data Json : Type 0 where
  null end : Json
  number : ℕ → Json
  text : String → Json
  item : Json → Json → Json
  field : String → Json → Json → Json

abbrev pub json_get : Json → String → Option Json
json_get (field k v rest) key = if k == key then some v else json_get rest key
json_get _ key = none

abbrev cons_to : Json → Option (List Json) → Option (List Json)
cons_to x none = none
cons_to x (some xs) = some (x ∷ xs)

abbrev pub items : Json → Option (List Json)
items end = some []
items (item x rest) = cons_to x (items rest)
items _ = none

abbrev of_items : List Json → Json
of_items [] = end
of_items (x ∷ xs) = item x (of_items xs)

abbrev of_fields : List (String × Json) → Json
of_fields [] = end
of_fields ((k, v) ∷ fs) = field k v (of_fields fs)

abbrev with_field : String → Json → Option (List (String × Json)) → Option (List (String × Json))
with_field k v none = none
with_field k v (some fs) = some ((k, v) ∷ fs)

abbrev fields_of : Json → Option (List (String × Json))
fields_of end = some []
fields_of (field k v rest) = with_field k v (fields_of rest)
fields_of _ = none

abbrev text_of : Json → Option String
text_of (text s) = some s
text_of _ = none

abbrev number_of : Json → Option ℕ
number_of (number n) = some n
number_of _ = none

abbrev null_of : Json → Bool
null_of null = true
null_of _ = false

-- An account of the token program, as `getMultipleAccounts` shows it.
abbrev token_account : Json
token_account = field "owner" (text token_program) (field "data" (item (text "account") end) end)

abbrev pub block_a : Json
block_a = field "blockhash" (text "a") (
    field "slot" (number 20000000) (
      field "transactions"
        (item (field "transaction" (field "signatures" (item (text "sig") end) end) end) end)
        (field "value" (item token_account end) end)))

abbrev pub block_b : Json
block_b =
    field "blockhash" (text "b") (field "value" (item token_account (item token_account end)) end)

-- The bodies that the server sends, by their first byte.
abbrev document : ℕ → Json
document zero = field "result" block_a end
document (suc zero) = field "error" (field "code" (number (negative 32007)) end) end
document (suc (suc zero)) = field "result" block_b end
document (suc (suc (suc zero))) = field "result" (number 250) end
document (suc (suc (suc (suc zero)))) = field "alg" (text "HS256") end
document (suc (suc (suc (suc (suc zero))))) =
    field "sub" (text "fleet") (field "exp" (number 5) end)
document (suc (suc (suc (suc (suc (suc zero)))))) = field "status" (text "success") end
document _ = field "result" end end

abbrev parse : List ℕ → Option Json
parse [] = none
parse (n ∷ ns) = some (document n)

abbrev copies : ℕ → List ℕ
copies zero = []
copies (suc n) = 1 ∷ copies n

abbrev digits : String → Option (List ℕ)
digits s =
    if s == "" then none else if s == "account" then some (copies 165) else some (7 ∷ 8 ∷ 9 ∷ [])

-- The key of a program has 32 bytes, all else has two.
abbrev key_bytes : String → Option (List ℕ)
key_bytes s =
    if s == "" then none else if s == token_program then some (copies 32) else some (8 ∷ 9 ∷ [])

-- The parts of a token: its header, its payload, and anything else for the signature.
abbrev key_part : String → Option (List ℕ)
key_part s = if s == "head" then some (4 ∷ []) else if s == "body" then some (5 ∷ []) else some []

abbrev pub toy : Crates
toy = record {
  Value = Json;
  get = json_get;
  as_str = text_of;
  as_u64 = number_of;
  as_i64 = number_of;
  as_array = items;
  is_null = null_of;
  of_bool = λ b. if b then number 1 else number 0;
  of_u64 = number;
  of_str = text;
  of_array = of_items;
  of_object = of_fields;
  to_string = λ v. "json";
  null = null;
  as_object = fields_of;
  from_slice = parse;
  decode_base64 = digits;
  decode_bs58 = key_bytes;
  encode_bs58 = λ bytes. "bs58";
  World = ℕ;
  HttpClient = ℕ;
  Response = ℕ;
  build_client = λ timeout w. (some timeout, w);
  post = λ http url body limit w. ((some (w % 3), false), suc w);
  status = λ r. 200;
  remote_ip = λ r. none;
  bytes = λ r w. (some (r ∷ []), w);
  joined = λ w. (true, w);
  now = λ w. w;
  unix_time = λ w. w;
  random_range = λ floor ceil w. (max floor (min ceil w), suc w);
  parse_rfc3339 = λ s. none;
  decode_base64_url = λ s. key_part s;
  verify_hmac = λ secret message tag. secret == "secret";
  F64 = ℕ;
  as_f64 = number_of;
  of_f64 = number;
  of_i64 = number;
  parse_f64 = parse_u64;
  is_finite = λ x. true;
  f64_le = leb;
  f64_of = λ n. n;
  f64_to_u64 = λ x. x;
  f64_mul = λ x y. x * y;
  f64_div = λ x y. x / y;
  f64_round = λ x. x;
  f64_max = 1000000;
  secs_f64 = λ n. n / 1000000000;
  get_request = λ http url bearer query w. (some 6, suc w);
  format_rfc3339 = λ n. "now";
  Connection = ℕ;
  Row = ℕ;
  pg_connect = λ url w. (some 0, suc w);
  pg_query = λ connection sql params w. (some (1 ∷ 2 ∷ []), suc w);
  column = λ row name. number row;
  batch_execute = λ connection sql w. (if leb 4 w then some tt else none, suc w);
  is_socket_addr = λ s. not (s == "");
}

abbrev pub plain : RequestContext
plain = record {
  tip_slot = none;
  recent_signature = none;
  archival_signature = none;
  recent_accounts = [];
  gpa_target = none;
  gsfa_anchor = none;
}

abbrev pub anchored : RequestContext
anchored = record plain { gsfa_anchor = some (100, "sig") }

abbrev pub start : Env ⦃c = toy⦄
start = record {
  client = record { request_timeout = 10; fallback = 0; clients = []; next_id = 1 };
  world = 0;
}
