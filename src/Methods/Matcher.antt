-- ===== src/Methods/Matcher.antt =====
-- `GpaMatcher` and `entries_match` of src/rpc/methods.rs: the filters of an account query, applied
-- again to the accounts of the answer.
pub mod Filters
use rpc_latency_monitor.Prelude.{
  ℕ, ◌+◌, ◌%◌, String, Bool, true, false, not, ◌&&◌, Option, none, some, List, [], ◌∷◌, map, ◌==◌,
  if◌then◌else◌, nat_eq, string_eq, list_eq, length, all, is_empty, is_some_and, unwrap_or, range,
  word, is_some,
}
use rpc_latency_monitor.Prelude.Maybe.{◌>>=◌}
use rpc_latency_monitor.Crates.{Crates}
use rpc_latency_monitor.Target.{GpaTarget, MemcmpFilter}
use rpc_latency_monitor.Methods.Values.{value_of, account_base64}

pub record GpaMatcher : Type 0 where
  pub program : String
  pub data_size : Option ℕ
  pub memcmp : List (ℕ × List ℕ)

-- `bytes.get(*off..off + want.len()) == Some(want)`, with the sum of `usize`
abbrev pub filter_holds : List ℕ → ℕ × List ℕ → Bool
filter_holds bytes (off, want) =
    is_some_and (range off ((off + length want) % word) bytes) (λ found. found == want)

-- the size filter and the memcmp filters
abbrev pub bytes_match : GpaMatcher → List ℕ → Bool
bytes_match m bytes =
    not (is_some_and m.data_size (λ n. not (length bytes == n)))
    && all (filter_holds bytes) m.memcmp

module _ ⦃c : Crates⦄ where
  open c use {Value, get, as_str, as_array, decode_base64, decode_bs58}

  new_filter : MemcmpFilter → ℕ × List ℕ
  new_filter f = (f.offset, unwrap_or (decode_bs58 f.bytes) [])

  unfoldable pub new : GpaTarget → GpaMatcher
  unfolding new_filter
  new target = record {
    program = target.program;
    data_size = target.data_size;
    memcmp = map new_filter target.memcmp;
  }

  abbrev pub account_of : Value → Value
  account_of entry = unwrap_or (get entry "account") entry

  unfoldable pub matches : GpaMatcher → Value → Bool
  matches m entry =
      if is_some_and (get (account_of entry) "owner" >>= as_str) (λ owner. owner == m.program)
      then is_some_and (account_base64 (account_of entry) >>= decode_base64) (bytes_match m)
      else false

  unfoldable pub entries_match : Value → GpaTarget → Bool
  entries_match result target =
      is_some_and (as_array (value_of result))
        (λ entries. not (is_empty entries) && all (matches (new target)) entries)
