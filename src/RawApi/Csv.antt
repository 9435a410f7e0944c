-- ===== src/RawApi/Csv.antt =====
-- The CSV of src/raw_api.rs: `to_csv`, `rows_to_csv` and `escape_csv`.
pub mod Reader
pub mod RoundTrip
use Prim.Native.Nat.{Ordering}
use Prim.Native.String.{compare}
use rpc_latency_monitor.Prelude.{
  ℕ, String, Char, code, Bool, true, false, ◌||◌, Option, none, some, List, [], ◌∷◌, ◌++◌, map,
  ◌==◌, nat_eq, string_eq, get_elem?, any, is_some, unwrap_or, ◌<>◌, has_char, join, if◌then◌else◌,
  contains,
}
use rpc_latency_monitor.Prelude.Maybe.{◌>>=◌}
use rpc_latency_monitor.Crates.{Crates}

-- `field.replace('"', "\"\"")`
abbrev double_quotes : String → String
double_quotes String.[] = ""
double_quotes (String.◌∷◌ c s) =
    if code c == b'"' then "\"\"" <> double_quotes s else String.◌∷◌ c (double_quotes s)

unfoldable pub escape_csv : String → String
escape_csv field =
    if has_char b',' field || has_char b'"' field || has_char b'\n' field
    then "\"" <> double_quotes field <> "\""
    else field

-- The last lines of `to_csv`: every field is escaped.
unfoldable pub render_rows : List (List String) → String
unfolding escape_csv
render_rows rows = join "\n" (map (λ (row : List String). join "," (map escape_csv row)) rows)

-- `sort` and `dedup` of texts
abbrev insert_text : String → List String → List String
insert_text s [] = s ∷ []
insert_text s (t ∷ ts) =
    let rest = insert_text s ts in elim (compare t s) [ Ordering.gt ↦ s ∷ t ∷ ts | _ ↦ t ∷ rest ]

abbrev sort : List String → List String
sort [] = []
sort (s ∷ ss) = insert_text s (sort ss)

abbrev dedup_after : String → List String → List String
dedup_after s [] = []
dedup_after s (t ∷ ts) =
    let same = dedup_after s ts in
    let other = dedup_after t ts in if t == s then same else t ∷ other

abbrev dedup : List String → List String
dedup [] = []
dedup (s ∷ ss) = s ∷ dedup_after s ss

-- `SAMPLE_FIELDS`
abbrev pub sample_fields : List String
sample_fields =
    "ts" ∷ "provider" ∷ "method" ∷ "infra" ∷ "region" ∷ "target" ∷ "status" ∷ "error_kind"
    ∷ "latency_ms" ∷ "slot" ∷ "endpoint_ip" ∷ []

abbrev concat {ℓ} : {A : Type ℓ} → List (List A) → List A
concat [] = []
concat (xs ∷ xss) = xs ++ concat xss

module _ ⦃c : Crates⦄ where
  open c use {Value, get, as_str, as_array, as_object, is_null, null, to_string}

  -- `value[key]` and `value[index]`
  abbrev pub at_key : Value → String → Value
  at_key v key = unwrap_or (get v key) null

  abbrev pub value_at : Value → ℕ → Value
  value_at v i = unwrap_or (as_array v >>= λ a. get_elem? a i) null

  -- `value.as_array().into_iter().flatten()`
  abbrev pub elements : Value → List Value
  elements v = unwrap_or (as_array v) []

  abbrev pub label_text : Value → String → String
  label_text entry key = unwrap_or (as_str (at_key (at_key entry "labels") key)) ""

  entry_keys : Value → List String
  entry_keys entry =
      unwrap_or
        (as_object (at_key entry "labels") >>= λ o. some (map (λ (p : String × Value). p.0) o)) []

  unfoldable pub label_keys : List Value → List String
  unfolding entry_keys
  label_keys series = dedup (sort (concat (map entry_keys series)))

  abbrev labels_row : List String → Value → List String
  labels_row keys entry = map (label_text entry) keys

  summary_row : List String → Value → List String
  summary_row keys entry =
      labels_row keys entry
      ++ to_string (at_key entry "wins")
        ∷ to_string (at_key entry "samples")
        ∷ to_string (at_key entry "winPct")
        ∷ []

  point_row : List String → Value → Value → List String
  point_row keys entry point =
      to_string (value_at point 0) ∷ labels_row keys entry ++ to_string (value_at point 1) ∷ []

  point_rows : List String → Value → List (List String)
  unfolding point_row
  point_rows keys entry = map (point_row keys entry) (elements (at_key entry "points"))

  -- The rows of `to_csv`, its header first.
  unfoldable pub csv_rows : List Value → List (List String)
  unfolding summary_row point_rows label_keys
  csv_rows series =
      let keys = label_keys series in
      if any (λ s. is_some (get s "winPct")) series
      then (keys ++ "wins" ∷ "samples" ∷ "win_pct" ∷ []) ∷ map (summary_row keys) series
      else ("timestamp" ∷ keys ++ "value" ∷ []) ∷ concat (map (point_rows keys) series)

  unfoldable pub to_csv : List Value → String
  unfolding render_rows csv_rows
  to_csv series = render_rows (csv_rows series)

  -- A field of a sample: numbers are written as they are.
  text_field : Value → Option String → String
  text_field value none = to_string value
  text_field value (some s) = escape_csv s

  sample_field : Value → String
  unfolding text_field escape_csv
  sample_field value = if is_null value then "" else text_field value (as_str value)

  unfoldable pub rows_to_csv : List Value → String
  unfolding sample_field
  rows_to_csv rows = join "\n" (
      join "," sample_fields
      ∷ map (λ row. join "," (map (λ key. sample_field (at_key row key)) sample_fields)) rows)
