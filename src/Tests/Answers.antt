-- ===== src/Tests/Answers.antt =====
-- Runs of the modules about an answer: rpc/mod.rs and rpc/methods.rs.
use rpc_latency_monitor.Prelude.{
  ◌≡◌, ◌≢◌, ◌↔◌, refl, true, false, String, none, some, List, [], ◌∷◌, All, arith,
}
use rpc_latency_monitor.Target.{builtin_token_owner_target}
use rpc_latency_monitor.Method.{get_slot, get_block_recent, get_signatures_for_address}
use rpc_latency_monitor.Rpc.{is_success, CallResult}
use rpc_latency_monitor.Rpc.Classify.{classify}
use rpc_latency_monitor.Rpc.Classify.Outcomes.{IsAccepted, classify-success_iff, classify-anchored}
use rpc_latency_monitor.Rpc.Client.{call}
use rpc_latency_monitor.Rpc.Client.Failures.{IsBare, call-IsBare}
use rpc_latency_monitor.Methods.Matcher.{new, entries_match}
use rpc_latency_monitor.Methods.Matcher.Filters.{Answers, entries_match_iff}
use rpc_latency_monitor.Methods.Results.{is_valid_result, build_params}
use rpc_latency_monitor.Methods.Results.Anchored.{IsOlder, anchored-IsOlder}
use rpc_latency_monitor.Tests.Toy.{
  toy, Json, end, number, text, item, field, items, plain, anchored, start,
}

classify-success_iff_example :
    (is_success (classify ⦃c = toy⦄ 200 (3 ∷ []) get_slot plain).status ≡ true)
    ↔ ((result : Json) × IsAccepted ⦃c = toy⦄ 200 (3 ∷ []) get_slot plain result)
classify-success_iff_example = classify-success_iff ⦃c = toy⦄ 200 (3 ∷ []) get_slot plain

classify-anchored_example :
    ((classify ⦃c = toy⦄ 200 (4 ∷ []) get_signatures_for_address anchored).observed_slot ≡ none)
    × ((classify ⦃c = toy⦄ 200 (4 ∷ []) get_signatures_for_address anchored).signature ≡ none)
    × ((classify ⦃c = toy⦄ 200 (4 ∷ []) get_signatures_for_address anchored).claim ≡ none)
classify-anchored_example = classify-anchored ⦃c = toy⦄ 200 (4 ∷ []) anchored (100, "sig") refl

call-IsBare_example :
    ((r : CallResult)
      → (call ⦃c = toy⦄ "node" get_block_recent plain none start).0 ≡ some r
      → is_success r.status ≡ false
      → IsBare r)
    × (build_params ⦃c = toy⦄ get_block_recent plain ≡ none
        → call ⦃c = toy⦄ "node" get_block_recent plain none start ≡ (none, start))
call-IsBare_example = call-IsBare ⦃c = toy⦄ "node" get_block_recent plain none start

abbrev pool : List String
pool = "k0" ∷ "k1" ∷ "k2" ∷ "k3" ∷ []

-- An account of the answer to an account query.
abbrev entry : Json
entry = field "pubkey" (text "key") (
    field "account"
      (field "owner" (text "program")
        (field "data" (item (text "AAA") (item (text "base64") end)) end))
      end)

entries_match_iff_example :
    (entries_match ⦃c = toy⦄ (item entry end) builtin_token_owner_target ≡ true)
    ↔ Answers ⦃c = toy⦄ (item entry end) builtin_token_owner_target
unfolding new
entries_match_iff_example =
    entries_match_iff ⦃c = toy⦄ (item entry end) builtin_token_owner_target (omega arith, tt)

abbrev page : Json
page = item (field "signature" (text "s") (field "slot" (number 90) end)) end

anchored-IsOlder_example :
    (entries : List Json) × (items page ≡ some entries)
    × (entries ≢ [])
    × All (IsOlder ⦃c = toy⦄ 100) entries
unfolding is_valid_result
anchored-IsOlder_example = anchored-IsOlder ⦃c = toy⦄ page anchored 100 "sig" refl refl
