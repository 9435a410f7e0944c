-- ===== src/Tests/Endpoints.antt =====
-- Runs of providers.rs.
use rpc_latency_monitor.Prelude.{
  ◌≡◌, refl, String, Option, none, some, List, [], ◌∷◌, ◌==◌, string_eq, ◌<>◌, texts_differ,
  if◌then◌else◌,
}
use rpc_latency_monitor.Prelude.Fallible.{Result, ok}
use rpc_latency_monitor.Providers.{SubstituteError, redacted_url, substitute}
use rpc_latency_monitor.Providers.Substitute.{
  Piece, literal, placeholder, render, fill, substitute-fill,
}
use rpc_latency_monitor.Providers.Redacted.{redacted_url-host}

abbrev environment : String → Option String
environment name = if name == "KEY" then some "k1" else none

abbrev pieces : List Piece
pieces = literal "https://h/" ∷ placeholder "KEY" ∷ literal "/x" ∷ []

substitute-fill_example : substitute environment (render pieces) ≡ some (fill environment pieces)
substitute-fill_example = substitute-fill environment pieces (refl, (refl, (refl, tt)))

-- It is the text with the value.
abbrev filled : Result SubstituteError String
filled = fill environment pieces

filled_text : filled ≡ ok "https://h/k1/x"
filled_text = refl

redacted_url-host_example :
    redacted_url ("https" <> ("://" <> (("me:pw" <> ("@" <> "host.example:8899")) <> "/SECRET")))
    ≡ "https" <> "://" <> "host.example:8899"
redacted_url-host_example =
    redacted_url-host "https" "me:pw" "host.example:8899" "SECRET" "/"
      (texts_differ "https" "" refl) refl refl refl (refl, refl, refl) refl
