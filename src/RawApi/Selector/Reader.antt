-- ===== src/RawApi/Selector/Reader.antt =====
-- A selector of PromQL read back: the labels that it matches, and their texts. A text with an escape
-- is refused.
use rpc_latency_monitor.Prelude.{
  String, Char, code, Bool, Option, none, some, List, [], ◌∷◌, ◌++◌, ◌<>◌, single, ◌==◌, nat_eq,
  if◌then◌else◌,
}

pub data Place : Type 0 where
  opening in_name quote in_value after_value closed failed : Place

pub record Reader : Type 0 where
  pub place : Place
  pub name : String
  pub value : String
  pub matchers : List (String × String)

abbrev fail : Reader → Reader
fail r = record r { place = failed }

abbrev expect : Bool → Place → Reader → Reader
expect found p r = if found then record r { place = p } else fail r

abbrev pub step : Char → Place → Reader → Reader
step c opening r = expect (code c == b'{') in_name r
step c in_name r =
    if code c == b'=' then record r { place = quote } else record r { name = r.name <> single c }
step c quote r = expect (code c == b'"') in_value r
step c in_value r =
    if code c == b'"'
    then record {
      place = after_value;
      name = "";
      value = "";
      matchers = r.matchers ++ (r.name, r.value) ∷ [];
    }
    else if code c == b'\\'
    then fail r
    else record r { value = r.value <> single c }
step c after_value r =
    if code c == b',' then record r { place = in_name } else expect (code c == b'}') closed r
step c closed r = fail r
step c failed r = r

abbrev pub run : String → Reader → Reader
run String.[] r = r
run (String.◌∷◌ c s) r = run s (step c r.place r)

-- An empty text matches everything.
abbrev pub finish : Place → Reader → Option (List (String × String))
finish opening r = some []
finish closed r = some r.matchers
finish _ r = none

abbrev pub start : Reader
start = record { place = opening; name = ""; value = ""; matchers = [] }

unfoldable pub read_selector : String → Option (List (String × String))
read_selector s = finish (run s start).place (run s start)
