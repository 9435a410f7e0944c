-- ===== src/ReferenceCheck/Archival/Round/Anchored.antt =====
-- When a round of the archival check moves the anchor.
use mathlib.Core.Path.{subst}
use rpc_latency_monitor.Prelude.{
  sym, ℕ, ◌+◌, ◌-◌, ◌≤◌, ◌≡◌, refl, String, ◌⊎◌, inl, inr, Option, none, some, List, arith, leb,
  Elem, Map, Bool-cases, checked_sub,
}
use rpc_latency_monitor.Prelude.Maybe
use rpc_latency_monitor.Crates.{Crates}
use rpc_latency_monitor.Metrics.{Metrics}
use rpc_latency_monitor.ReferenceSlot.{ReferenceSlot, current}
use rpc_latency_monitor.Rpc.Client.{Env}
use rpc_latency_monitor.Providers.{ProviderEndpoint}
use rpc_latency_monitor.ReferenceCheck.Archival.{UsedSlots, pick_unused_slot}
use rpc_latency_monitor.ReferenceCheck.Archival.Slots.{Picks, pick_unused_slot-Picks}
use rpc_latency_monitor.ReferenceCheck.Archival.Round.Confirmed.{IsOrder}
use rpc_latency_monitor.ReferenceCheck.Archival.Round.Moves.{Settles, round_on-Moves}
use rpc_latency_monitor.ReferenceCheck.Archival.Round.{
  Archive, Schedule, archival_floor, archival_min_depth, round_on, round_below, round_with,
  run_archival_round,
}

tip_above :
    (known : Option ℕ) (ceil : ℕ)
    → Maybe.◌>>=◌ known (λ tip. checked_sub tip archival_min_depth) ≡ some ceil
    → (tip : ℕ) × (known ≡ some tip)
      × (ceil + archival_min_depth ≤ tip)
      × (ceil ≡ tip - archival_min_depth)
tip_above none ceil h = cc
tip_above (some tip) ceil h = (tip, refl, ground arith, ground arith)

module _ ⦃c : Crates⦄ (schedule : Schedule) (walk : Map String ℕ → List (String × ℕ))
    (providers : List ProviderEndpoint) where
  open c use {World, random_range}

  -- Where the calls of a round begin: behind the choice of a slot up to the ceiling.
  abbrev pub chosen : ℕ → Archive → Option ℕ × (UsedSlots × World)
  chosen ceil a = pick_unused_slot archival_floor ceil (a.used, a.env.world)

  abbrev pub calls_begin : ℕ → Archive → Env × Metrics
  calls_begin ceil a = (record a.env { world = (chosen ceil a).1.1 }, a.metrics)

  -- The slot of an anchor: known to be old, in the range, not remembered as used before and
  -- remembered now, agreed on and confirmed by the calls of this round.
  abbrev pub Anchors : ReferenceSlot → Archive → Archive → ℕ → String → Type 0
  Anchors reference a a' slot sig =
      (tip : ℕ) × (current reference ≡ some tip)
      × (slot + archival_min_depth ≤ tip)
      × (archival_floor ≤ slot)
      × ¬ Elem slot a.used.set
      × Elem slot a'.used.order
      × Settles schedule walk providers slot sig (calls_begin (tip - archival_min_depth) a)

  module _ (blocks_order : IsOrder providers (schedule.blocks providers))
      (transactions_order : IsOrder providers (schedule.transactions providers)) where
    module _
        (in_range : (floor ceil : ℕ) (w : World)
          → floor ≤ ceil
          → (floor ≤ (random_range floor ceil w).0) × ((random_range floor ceil w).0 ≤ ceil)) where
      -- What is known of an anchor that a round with this ceiling sets.
      abbrev Sets : ℕ → Archive → Archive → Type 0
      Sets ceil a a' =
          (a'.anchor ≡ a.anchor)
          ⊎ ((slot : ℕ) × (sig : String) × (a'.anchor.inner ≡ some (slot, sig))
              × (archival_floor ≤ slot)
              × (slot ≤ ceil)
              × ¬ Elem slot a.used.set
              × Elem slot a'.used.order
              × Settles schedule walk providers slot sig (calls_begin ceil a))

      below-Sets :
          (ceil : ℕ) (a : Archive)
          → archival_floor ≤ ceil
          → Sets ceil a (round_below schedule walk providers ceil a)
      unfolding round_below round_on
      below-Sets ceil a h = by_slot (chosen ceil a).0 (
          pick_unused_slot-Picks archival_floor ceil (λ w. in_range archival_floor ceil w h) a.used
            a.env.world)
        where
          after : Archive
          after = record a {
            used = (chosen ceil a).1.0;
            env = record a.env { world = (chosen ceil a).1.1 };
          }

          by_slot :
              (o : Option ℕ)
              → Picks archival_floor ceil a.used o (chosen ceil a).1.0
              → Sets ceil a (round_on schedule walk providers o after)
          by_slot none picks = inl refl
          by_slot (some slot) picks =
              let (low, high, unseen, there, _) = picks in
              let (used, moved) =
                round_on-Moves schedule walk providers blocks_order transactions_order slot after in
              elim moved [
                | inl stays ↦ inl stays
                | inr (sig, set_to, settles) ↦ inr (
                  slot,
                  sig,
                  set_to,
                  low,
                  high,
                  unseen,
                  subst (λ (u : UsedSlots). Elem slot u.order) (sym used) there,
                  settles,
                )
              ]

      with-Sets :
          (ceil : ℕ) (a : Archive) → Sets ceil a (round_with schedule walk providers (some ceil) a)
      unfolding round_with
      with-Sets ceil a = elim (Bool-cases (leb ceil archival_floor)) [
        | inl shallow ↦ rw shallow (inl refl)
        | inr deep ↦ rw deep (below-Sets ceil a (ground arith))
      ]

      -- Where the random numbers lie in the range that is asked for, and the tasks of a set that end
      -- are those of the providers, one each at most: a round of the archival check leaves the anchor
      -- as it was, or moves it to a slot that is not below 20,000,000 and at least 40,000,000 behind
      -- the tip, that was not among the remembered slots and now is. The signature is the one that
      -- comes with the majority hash of the answers that this round got from different providers for
      -- this slot; and two different providers, asked behind that, placed its transaction in the slot.
      pub run_archival_round-Anchors :
          (reference : ReferenceSlot) (a : Archive)
          → ((run_archival_round schedule walk providers reference a).anchor ≡ a.anchor)
            ⊎ ((slot : ℕ) × (sig : String) × ((run_archival_round schedule walk providers reference
                    a).anchor.inner
                  ≡ some (slot, sig))
                × Anchors reference a
                    (run_archival_round schedule walk providers reference a)
                    slot
                    sig)
      unfolding run_archival_round round_with
      run_archival_round-Anchors reference a =
          by_ceiling (Maybe.◌>>=◌ (current reference) (λ tip. checked_sub tip archival_min_depth))
            refl
        where
          by_ceiling :
              (o : Option ℕ)
              → Maybe.◌>>=◌ (current reference) (λ tip. checked_sub tip archival_min_depth) ≡ o
              → ((round_with schedule walk providers o a).anchor ≡ a.anchor)
                ⊎ ((slot : ℕ) × (sig : String) × ((round_with schedule walk providers o
                        a).anchor.inner
                      ≡ some (slot, sig))
                    × Anchors reference a (round_with schedule walk providers o a) slot sig)
          by_ceiling none h = inl refl
          by_ceiling (some ceil) h =
              let (tip, known, deep, same) = tip_above (current reference) ceil h in
              elim (with-Sets ceil a) [
                | inl stays ↦ inl stays
                | inr (slot, sig, set_to, low, high, unseen, there, settles) ↦ inr (
                  slot,
                  sig,
                  set_to,
                  (
                    tip,
                    known,
                    omega arith,
                    low,
                    unseen,
                    there,
                    subst (λ k. Settles schedule walk providers slot sig (calls_begin k a)) same
                        settles,
                  ),
                )
              ]
