-- ===== src/ReferenceCheck/Archival/Round/Moves.antt =====
-- What the calls of a round of the archival check settle.
use mathlib.Core.Path.{subst}
use rpc_latency_monitor.Prelude.{
  sym, ℕ, ◌≡◌, refl, ap, String, ◌⊎◌, inl, inr, Option, none, some, List, arith, leb, Map,
  Bool-cases, map, Distinct,
}
use rpc_latency_monitor.Crates.{Crates}
use rpc_latency_monitor.Metrics.{Metrics}
use rpc_latency_monitor.ReferenceSlot.{set}
use rpc_latency_monitor.Rpc.Client.{Env}
use rpc_latency_monitor.Providers.{ProviderEndpoint}
use rpc_latency_monitor.ReferenceCheck.Archival.{Observed, majority_block}
use rpc_latency_monitor.ReferenceCheck.Archival.Round.Confirmed.{
  IsOrder, HasTwo, two_confirm, ask_blocks-names,
}
use rpc_latency_monitor.ReferenceCheck.Archival.Round.{
  Archive, Schedule, hash_verdicts, ask_blocks, ask_transactions, confirm_signature, judge_majority,
  round_on,
}

module _ ⦃c : Crates⦄ (schedule : Schedule) (walk : Map String ℕ → List (String × ℕ))
    (providers : List ProviderEndpoint) where
  -- The answers of the round about the block, if its calls begin here.
  abbrev pub heard : ℕ → Env × Metrics → List Observed × (Env × Metrics)
  heard slot s = ask_blocks slot (schedule.blocks providers) s

  -- They are of different providers, and their majority comes with the signature.
  abbrev pub IsAgreed : ℕ → String → String → Env × Metrics → Type 0
  IsAgreed slot sig truth s =
      (majority_block walk (heard slot s).0 ≡ some (truth, some sig))
      × Distinct (map (λ (o : Observed). o.name) (heard slot s).0)

  -- Then two different providers are asked about the transaction, and place it in the slot.
  abbrev pub IsConfirmed : ℕ → String → Env × Metrics → Type 0
  IsConfirmed slot sig s = HasTwo sig slot providers (schedule.transactions providers) s

  -- The whole round on a slot, from where its calls begin: it agrees on the signature, counts the
  -- verdicts on the hash, and has the signature confirmed.
  abbrev pub Settles : ℕ → String → Env × Metrics → Type 0
  Settles slot sig s =
      (truth : String) × IsAgreed slot sig truth s
      × IsConfirmed slot sig
          ((heard slot s).1.0, hash_verdicts truth (heard slot s).0 (heard slot s).1.1)

  -- The anchor stays, or becomes the slot with a signature for which P holds.
  abbrev pub Moves : ℕ → (String → Type 0) → Archive → Archive → Type 0
  Moves slot P a a' =
      (a'.anchor ≡ a.anchor) ⊎ ((sig : String) × (a'.anchor.inner ≡ some (slot, sig)) × P sig)

  module _ (blocks_order : IsOrder providers (schedule.blocks providers))
      (transactions_order : IsOrder providers (schedule.transactions providers)) where
    confirm-Moves :
        (slot : ℕ) (sig : Option String) (a : Archive)
        → ((confirm_signature schedule walk providers slot sig a).used ≡ a.used)
          × Moves slot
              (λ s. (sig ≡ some s) × IsConfirmed slot s (a.env, a.metrics))
              a
              (confirm_signature schedule walk providers slot sig a)
    unfolding confirm_signature set
    confirm-Moves slot none a = (refl, inl refl)
    confirm-Moves slot (some sig) a =
        let ended = schedule.transactions providers in
        elim (Bool-cases (leb 2 (ask_transactions sig slot ended 0 (a.env, a.metrics)).0)) [
          | inl enough ↦ rw enough (
            refl,
            inr (
              sig,
              refl,
              (
                refl,
                two_confirm sig slot providers ended (a.env, a.metrics) transactions_order
                    (ground arith),
              ),
            ),
          )
          | inr few ↦ rw few (refl, inl refl)
        ]

    judge-Moves :
        (slot : ℕ) (observed : List Observed) (majority : Option (String × Option String))
        (a : Archive)
        → ((judge_majority schedule walk providers slot observed majority a).used ≡ a.used)
          × Moves slot
              (λ s.
                (truth : String) × (majority ≡ some (truth, some s))
                × IsConfirmed slot s (a.env, hash_verdicts truth observed a.metrics))
              a
              (judge_majority schedule walk providers slot observed majority a)
    unfolding judge_majority
    judge-Moves slot observed none a = (refl, inl refl)
    judge-Moves slot observed (some (truth, sig)) a =
        let (used, moved) =
          confirm-Moves slot sig (record a { metrics = hash_verdicts truth observed a.metrics }) in
        (
          used,
          elim moved [
            | inl stays ↦ inl stays
            | inr (s, set_to, (given, confirmed)) ↦
                inr (s, set_to, (truth, ap (λ x. some (truth, x)) given, confirmed))
          ],
        )

    pub round_on-Moves :
        (slot : ℕ) (a : Archive)
        → ((round_on schedule walk providers (some slot) a).used ≡ a.used)
          × Moves slot
              (λ s. Settles slot s (a.env, a.metrics))
              a
              (round_on schedule walk providers (some slot) a)
    unfolding round_on
    round_on-Moves slot a =
        let answers = heard slot (a.env, a.metrics) in
        let (used, moved) =
          judge-Moves slot answers.0 (majority_block walk answers.0)
            (record a { env = answers.1.0; metrics = answers.1.1 }) in
        let apart =
          subst Distinct
            (sym (ask_blocks-names slot (schedule.blocks providers) (a.env, a.metrics)))
            blocks_order.0 in
        (
          used,
          elim moved [
            | inl stays ↦ inl stays
            | inr (s, set_to, (truth, agreed, confirmed)) ↦
                inr (s, set_to, (truth, (agreed, apart), confirmed))
          ],
        )
