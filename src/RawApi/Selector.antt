-- ===== src/RawApi/Selector.antt =====
-- `build_selector` of src/raw_api.rs: the label matchers of a PromQL selector.
pub mod Reader
pub mod Injection
use rpc_latency_monitor.Prelude.{String, Option, none, some, List, [], ◌∷◌, ◌++◌, ◌<>◌, join}
use rpc_latency_monitor.RawApi.Query.{RawQuery}

-- A label and its text, as the selector has them.
abbrev pub matcher : String → String → String
matcher name value = name <> "=\"" <> value <> "\""

-- `if let Some(v) = ... { matchers.push(...) }`
abbrev pub push_matcher : String → Option String → List String → List String
push_matcher name none matchers = matchers
push_matcher name (some v) matchers = matchers ++ matcher name v ∷ []

abbrev pub in_braces : List String → String
in_braces [] = ""
in_braces (m ∷ ms) = "{" <> join "," (m ∷ ms) <> "}"

unfoldable pub build_selector : RawQuery → List String → String
build_selector query extra = in_braces (
    push_matcher "region" query.region (
      push_matcher "infra" query.infra
        (push_matcher "method" query.method (push_matcher "provider" query.provider extra))))
