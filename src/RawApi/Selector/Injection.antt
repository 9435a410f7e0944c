-- ===== src/RawApi/Selector/Injection.antt =====
-- The selector reads as the filters that were asked for, and as no others.
use rpc_latency_monitor.Prelude.{
  arith, ℕ, ◌≡◌, refl, sym, ap, ◌∙◌, String, code, false, or_false, Option, none, some, List, [],
  ◌∷◌, ◌++◌, map, All, All-concat, ◌<>◌, single, join, has_char, text-append_assoc, text-append-nil,
  ◌==◌, nat_eq,
}
use mathlib.Core.List.{append_assoc, append-nil, map-append}
use rpc_latency_monitor.Crates.{Crates}
use rpc_latency_monitor.Prelude.Fallible.{ok}
use rpc_latency_monitor.RawApi.Query.{RawQuery, Params, parse_query}
use rpc_latency_monitor.RawApi.Query.Valid.{IsFilter, parse_query-IsValidQuery}
use rpc_latency_monitor.RawApi.Selector.{matcher, push_matcher, in_braces, build_selector}
use rpc_latency_monitor.RawApi.Selector.Reader.{
  Place, in_name, in_value, after_value, Reader, step, run, finish, read_selector,
}

-- A name without `=`, and a text without quotes and escapes.
abbrev pub IsMatcher : String × String → Type 0
IsMatcher (name, value) =
    (has_char b'=' name ≡ false) × (has_char b'"' value ≡ false) × (has_char b'\\' value ≡ false)

abbrev at_place : Place → String → String → List (String × String) → Reader
at_place p n v ms = record { place = p; name = n; value = v; matchers = ms }

run-append : (s t : String) (r : Reader) → run (s <> t) r ≡ run t (run s r)
run-append String.[] t r = refl
run-append (String.◌∷◌ c s) t r = run-append s t (step c r.place r)

run_name :
    (n a : String) (ms : List (String × String))
    → has_char b'=' n ≡ false
    → run n (at_place in_name a "" ms) ≡ at_place in_name (a <> n) "" ms
run_name String.[] a ms h = rw (text-append-nil a) refl
run_name (String.◌∷◌ c s) a ms h =
    let (other, rest) = or_false (code c == b'=') (has_char b'=' s) h in
    rw other (
      run_name s (a <> single c) ms rest
      ∙ ap (λ x. at_place in_name x "" ms) (text-append_assoc a (single c) s))

run_value :
    (v n a : String) (ms : List (String × String))
    → has_char b'"' v ≡ false
    → has_char b'\\' v ≡ false
    → run v (at_place in_value n a ms) ≡ at_place in_value n (a <> v) ms
run_value String.[] n a ms h k = rw (text-append-nil a) refl
run_value (String.◌∷◌ c s) n a ms h k =
    let (other, rest) = or_false (code c == b'"') (has_char b'"' s) h in
    let (plain, rest2) = or_false (code c == b'\\') (has_char b'\\' s) k in
    rw (other, plain)
      (run_value s n (a <> single c) ms rest rest2
        ∙ ap (λ x. at_place in_value n x ms) (text-append_assoc a (single c) s))

run-matcher :
    (m : String × String) (t : String) (ms : List (String × String))
    → IsMatcher m
    → run (matcher m.0 m.1 <> t) (at_place in_name "" "" ms)
      ≡ run t (at_place after_value "" "" (ms ++ m ∷ []))
run-matcher (n, v) t ms (named, quoted, plain) =
    run-append (matcher n v) t (at_place in_name "" "" ms)
    ∙ ap (run t) (
        run-append n ("=\"" <> v <> "\"") (at_place in_name "" "" ms)
        ∙ ap (run ("=\"" <> v <> "\"")) (run_name n "" ms named)
        ∙ run-append v "\"" (at_place in_value n "" ms)
        ∙ ap (run "\"") (run_value v n "" ms quoted plain))

abbrev matcher_text : String × String → String
matcher_text (name, value) = matcher name value

run-join :
    (m : String × String) (rest : List (String × String)) (t : String) (ms : List (String × String))
    → All IsMatcher (m ∷ rest)
    → run (join "," (map matcher_text (m ∷ rest)) <> t) (at_place in_name "" "" ms)
      ≡ run t (at_place after_value "" "" (ms ++ m ∷ rest))
run-join m [] t ms (h, _) = run-matcher m t ms h
run-join m (y ∷ ys) t ms (h, hs) =
    ap (λ s. run s (at_place in_name "" "" ms))
      (text-append_assoc (matcher_text m) ("," <> join "," (map matcher_text (y ∷ ys))) t)
    ∙ run-matcher m ("," <> join "," (map matcher_text (y ∷ ys)) <> t) ms h
    ∙ run-join y ys t (ms ++ m ∷ []) hs
    ∙ ap (λ l. run t (at_place after_value "" "" l)) (append_assoc ms (m ∷ []) (y ∷ ys))

read-in_braces :
    (ms : List (String × String))
    → All IsMatcher ms
    → read_selector (in_braces (map matcher_text ms)) ≡ some ms
unfolding read_selector
read-in_braces [] h = refl
read-in_braces (m ∷ ms) h = ap (λ (r : Reader). finish r.place r) (run-join m ms "}" [] h)

-- The label and its text, if the query asks for it.
abbrev pub asked : String → Option String → List (String × String)
asked name none = []
asked name (some v) = (name, v) ∷ []

push-asked :
    (name : String) (o : Option String) (ms : List (String × String))
    → push_matcher name o (map matcher_text ms) ≡ map matcher_text (ms ++ asked name o)
push-asked name none ms = ap (map matcher_text) (sym (append-nil ms))
push-asked name (some v) ms = sym (map-append matcher_text ms ((name, v) ∷ []))

asked-IsMatcher :
    (name : String) (o : Option String) (ms : List (String × String))
    → has_char b'=' name ≡ false
    → IsFilter o
    → All IsMatcher ms
    → All IsMatcher (ms ++ asked name o)
asked-IsMatcher name none ms named f h = rw (append-nil ms) h
asked-IsMatcher name (some v) ms named f h =
    All-concat IsMatcher ms h
      (named, f.plain b'"' (λ h. ground arith), f.plain b'\\' (λ h. ground arith))

-- The filters of a query on a selector: not its status.
abbrev pub all_asked : RawQuery → List (String × String) → List (String × String)
all_asked q extra =
    (((extra ++ asked "provider" q.provider) ++ asked "method" q.method) ++ asked "infra" q.infra)
    ++ asked "region" q.region

selector-asked :
    (q : RawQuery) (extra : List (String × String))
    → build_selector q (map matcher_text extra) ≡ in_braces (map matcher_text (all_asked q extra))
unfolding build_selector
selector-asked q extra =
    ap
      (λ ms. in_braces (
        push_matcher "region" q.region
          (push_matcher "infra" q.infra (push_matcher "method" q.method ms))))
      (push-asked "provider" q.provider extra)
    ∙ ap (λ ms. in_braces (push_matcher "region" q.region (push_matcher "infra" q.infra ms)))
        (push-asked "method" q.method (extra ++ asked "provider" q.provider))
    ∙ ap (λ ms. in_braces (push_matcher "region" q.region ms)) (push-asked "infra" q.infra _)
    ∙ ap in_braces (push-asked "region" q.region _)

module _ ⦃c : Crates⦄ where
  -- The selector that is built for the query of any request, and matchers of the program's own with
  -- plain texts, reads as those matchers, then the provider, the method, the infrastructure and the
  -- region that the query asks for, in that order: no text of a request adds or changes a matcher.
  pub build_selector-reads :
      (now : ℕ) (template : String) (params : Params) (q : RawQuery)
      (extra : List (String × String))
      → parse_query now template params ≡ ok q
      → All IsMatcher extra
      → read_selector (build_selector q (map matcher_text extra)) ≡ some (all_asked q extra)
  build_selector-reads now template params q extra parsed h =
      let valid = parse_query-IsValidQuery now template params q parsed in
      let (p, m, i, r, _) = valid.labels in
      ap read_selector (selector-asked q extra)
      ∙ read-in_braces (all_asked q extra) (
          asked-IsMatcher "region" q.region _ refl r (
            asked-IsMatcher "infra" q.infra _ refl i (
              asked-IsMatcher "method" q.method _ refl m
                (asked-IsMatcher "provider" q.provider extra refl p h))))
