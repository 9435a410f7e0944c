-- ===== src/GpaDerive.antt =====
-- src/gpa_derive.rs: account queries that are derived from the accounts that answers mention.
pub mod Counted
pub mod Derived
pub mod Shapes
use rpc_latency_monitor.Prelude.{
  ℕ, suc, String, Bool, true, false, not, ◌&&◌, Option, none, some, List, [], ◌∷◌, ◌++◌, map, ◌==◌,
  nat_eq, string_eq, leb, length, take, drop, first, any, contains, unwrap_or, is_empty, Eq,
  if◌then◌else◌,
}
use rpc_latency_monitor.Prelude.Maybe.{◌>>=◌ as ◌and_then◌}
use rpc_latency_monitor.Prelude.State.{State, pure, ◌>>=◌, ◌>>◌}
use rpc_latency_monitor.Crates.{Crates}
use rpc_latency_monitor.Config.{GpaDeriveConfig}
use rpc_latency_monitor.Methods.Params.{gpa_count_params}
use rpc_latency_monitor.Rpc.Client.{Env, raw_call}
use rpc_latency_monitor.Target.{
  GpaTarget, token_program, high_volume_mints, token_account_len, token_account_mint_offset,
  token_account_owner_offset,
}

abbrev pub by_mint_name : String
by_mint_name = "derived_token_by_mint"

abbrev pub by_owner_name : String
by_owner_name = "derived_token_by_owner"

abbrev pub shape_count : ℕ
shape_count = 2

abbrev pub max_preflights : ℕ
max_preflights = 12

-- The targets behind the mutex.
abbrev pub DerivedTargets : Type 0
DerivedTargets = List GpaTarget

-- A target takes the place of the one of its name, or the last place.
unfoldable pub update_one : GpaTarget → DerivedTargets → DerivedTargets
update_one target [] = target ∷ []
update_one target (t ∷ ts) =
    let rest = update_one target ts in if t.name == target.name then target ∷ ts else t ∷ rest

unfoldable pub update : List GpaTarget → DerivedTargets → DerivedTargets
unfolding update_one
update [] targets = targets
update (target ∷ fresh) targets = update fresh (update_one target targets)

pub record TokenAnchor : Type 0 where
  pub mint : String
  pub owner : String

abbrev same_anchor : TokenAnchor → TokenAnchor → Bool
same_anchor a b = a.mint == b.mint && a.owner == b.owner

abbrev pub token_target : String → ℕ → String → GpaTarget
token_target name offset anchor = record {
  name = name;
  program = token_program;
  data_size = some token_account_len;
  memcmp = record { offset = offset; bytes = anchor } ∷ [];
}

abbrev pub candidates_of : TokenAnchor → List GpaTarget
candidates_of anchor =
    let by_owner = token_target by_owner_name token_account_owner_offset anchor.owner ∷ [] in
    if contains high_volume_mints anchor.mint
    then by_owner
    else token_target by_mint_name token_account_mint_offset anchor.mint ∷ by_owner

unfoldable pub candidate_targets : List TokenAnchor → List GpaTarget
candidate_targets [] = []
candidate_targets (anchor ∷ anchors) = candidates_of anchor ++ candidate_targets anchors

module _ ⦃c : Crates⦄ where
  open c use {Value, get, as_str, as_array, of_str, of_array, of_object, decode_base64, encode_bs58}

  -- `result.get("value").unwrap_or(result)`
  abbrev value_of : Value → Value
  value_of result = unwrap_or (get result "value") result

  unfoldable pub gpa_count : Value → Option ℕ
  gpa_count result = as_array (value_of result) and_then λ a. some (length a)

  -- The bytes of an account of the token program.
  entry_bytes : Value → Option (List ℕ)
  entry_bytes entry = get entry "owner" and_then λ o. as_str o and_then λ owner.
      if owner == token_program
      then (get entry "data" and_then λ d.
          as_array d and_then λ a. first a and_then λ f. as_str f and_then λ b64. decode_base64 b64)
      else none

  anchor_of : List ℕ → Option TokenAnchor
  anchor_of bytes =
      if length bytes == token_account_len
      then some (record {
        mint = encode_bs58 (take 32 bytes);
        owner = encode_bs58 (take 32 (drop 32 bytes));
      })
      else none

  add_anchor : Option TokenAnchor → List TokenAnchor → List TokenAnchor
  add_anchor none out = out
  add_anchor (some anchor) out = if any (same_anchor anchor) out then out else out ++ anchor ∷ []

  anchors_from : List Value → List TokenAnchor → List TokenAnchor
  unfolding entry_bytes anchor_of add_anchor
  anchors_from [] out = out
  anchors_from (entry ∷ entries) out =
      anchors_from entries (add_anchor (entry_bytes entry and_then anchor_of) out)

  unfoldable pub token_anchors : Value → List TokenAnchor
  unfolding anchors_from
  token_anchors result = anchors_from (unwrap_or (as_array (value_of result)) []) []

  -- A candidate whose count is known, and whether the loop ends with it.
  pick_counted : GpaDeriveConfig → GpaTarget → Option ℕ → List GpaTarget → List GpaTarget × Bool
  pick_counted config candidate none picked = (picked, false)
  pick_counted config candidate (some count) picked =
      if leb config.min_accounts count && leb count config.max_accounts
      then (picked ++ candidate ∷ [], length (picked ++ candidate ∷ []) == shape_count)
      else (picked, false)

  -- One round of the loop over the candidates.
  unfoldable pub preflight :
      GpaDeriveConfig → GpaTarget → List GpaTarget → State Env (List GpaTarget × Bool)
  unfolding pick_counted gpa_count
  preflight config candidate picked e =
      if any (λ (t : GpaTarget). t.name == candidate.name) picked
      then ((picked, false), e)
      else (let (answer, e') =
            raw_call config.endpoint "getProgramAccounts" (gpa_count_params candidate) e in
          (pick_counted config candidate (answer and_then gpa_count) picked, e'))

  unfoldable pub preflights :
      GpaDeriveConfig → List GpaTarget → List GpaTarget → State Env (List GpaTarget)
  unfolding preflight
  preflights config [] picked e = (picked, e)
  preflights config (candidate ∷ candidates) picked e =
      let ((picked', ended), e') = preflight config candidate picked e in
      elim ended [ true ↦ (picked', e') | false ↦ preflights config candidates picked' e' ]

  -- `getMultipleAccounts` of the accounts.
  pub accounts_params : List String → Value
  accounts_params accounts = of_array (
      of_array (map of_str accounts)
      ∷ of_object (("encoding", of_str "base64") ∷ ("commitment", of_str "confirmed") ∷ [])
      ∷ [])

  derive_from : GpaDeriveConfig → DerivedTargets → Option Value → State Env DerivedTargets
  unfolding preflights token_anchors candidate_targets update
  derive_from config targets none e = (targets, e)
  derive_from config targets (some result) e =
      let (picked, e') =
        preflights config (take max_preflights (candidate_targets (token_anchors result))) [] e in
      (update picked targets, e')

  unfoldable pub derive_once :
      GpaDeriveConfig → List String → DerivedTargets → State Env DerivedTargets
  unfolding accounts_params derive_from
  derive_once config accounts targets e =
      if is_empty accounts
      then (targets, e)
      else (let (answer, e') =
            raw_call config.endpoint "getMultipleAccounts" (accounts_params accounts) e in
          derive_from config targets answer e')

  -- The rounds of `run`, each with the accounts that the pool has at its start; between two rounds
  -- the other tasks go on.
  unfoldable pub run :
      GpaDeriveConfig → (Env → Env) → List (List String) → DerivedTargets → State Env DerivedTargets
  run config meanwhile [] targets e = (targets, e)
  run config meanwhile (accounts ∷ pools) targets e =
      let (targets', e') = derive_once config accounts targets e in
      run config meanwhile pools targets' (meanwhile e')
