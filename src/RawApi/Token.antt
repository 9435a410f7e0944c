-- ===== src/RawApi/Token.antt =====
-- `verify_token` of src/raw_api.rs: a JSON web token signed with HS256. The time is an argument, in
-- nanoseconds since the epoch, and a secret of any length is a key.
pub mod Signed
use rpc_latency_monitor.Prelude.{
  ℕ, String, not, Option, none, some, List, [], ◌∷◌, ◌==◌, string_eq, ◌<>◌, split_at, is_blank_text,
}
use rpc_latency_monitor.Prelude.Steps.{◌>>=◌, ◌>>◌, need}
use rpc_latency_monitor.Crates.{Crates}

-- The three parts of a token, and no fourth.
abbrev three_parts : List String → Option (String × String × String)
three_parts (h ∷ p ∷ s ∷ []) = some (h, p, s)
three_parts _ = none

module _ ⦃c : Crates⦄ where
  open c use {
    Value, get, as_str, as_f64, from_slice, decode_base64_url, verify_hmac, f64_le, secs_f64,
  }

  -- `serde_json::from_slice(&URL_SAFE_NO_PAD.decode(part)?)`
  unfoldable pub part_value : String → Option Value
  part_value part = do bytes ← decode_base64_url part; from_slice bytes

  unfoldable pub verify_token : ℕ → String → String → Option String
  unfolding part_value
  verify_token now token secret = do
    (header_part, payload_part, signature_part) ← three_parts (split_at b'.' token)
    signature ← decode_base64_url signature_part
    need (verify_hmac secret (header_part <> "." <> payload_part) signature)
    header ← part_value header_part
    alg ← get header "alg"
    name ← as_str alg
    need (name == "HS256")
    payload ← part_value payload_part
    subject ← get payload "sub"
    sub ← as_str subject
    need (not (is_blank_text sub))
    expiry ← get payload "exp"
    exp ← as_f64 expiry
    need (not (f64_le exp (secs_f64 now)))
    some sub
