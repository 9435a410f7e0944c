-- ===== src/Methods/Values.antt =====
-- The readers of a JSON answer in src/rpc/methods.rs.
use rpc_latency_monitor.Prelude.{
  ℕ, ◌+◌, ◌*◌, String, Bool, not, Option, some, List, [], ◌∷◌, ◌==◌, string_eq, first, range,
  unwrap_or, is_some_and, filter_option,
}
use rpc_latency_monitor.Prelude.Maybe.{◌>>=◌}
use rpc_latency_monitor.Crates.{Crates}

-- `u64::from_le_bytes`, and the bit pattern of `i64::from_le_bytes`
abbrev pub from_le_bytes : List ℕ → ℕ
from_le_bytes [] = 0
from_le_bytes (b ∷ bs) = b + 256 * from_le_bytes bs

module _ ⦃c : Crates⦄ where
  open c use {Value, get, as_str, as_array, decode_base64}

  abbrev pub value_of : Value → Value
  value_of result = unwrap_or (get result "value") result

  abbrev pub non_empty_str : Option Value → Bool
  non_empty_str value = is_some_and (value >>= as_str) (λ s. not (s == ""))

  abbrev pub non_empty_string : Option Value → Option String
  non_empty_string value = filter_option (λ s. not (s == "")) (value >>= as_str)

  -- `.get("data").and_then(Value::as_array).and_then(|a| a.first()).and_then(Value::as_str)`
  abbrev pub account_base64 : Value → Option String
  account_base64 account = do
    found ← get account "data"
    parts ← as_array found
    part ← first parts
    as_str part

  unfoldable pub clock_slot_from_value : Value → Option ℕ
  clock_slot_from_value value = do
    b64 ← account_base64 value
    bytes ← decode_base64 b64
    slot ← range 0 8 bytes
    some (from_le_bytes slot)
