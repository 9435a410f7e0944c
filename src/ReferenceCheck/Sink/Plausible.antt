-- ===== src/ReferenceCheck/Sink/Plausible.antt =====
-- Which results `submit` flags as implausible.
use rpc_latency_monitor.Prelude.{
  ℕ, ◌+◌, ◌-◌, ◌≤◌, ◌<◌, ◌≡◌, ◌≢◌, ◌↔◌, ◌⊎◌, ◌∙◌, sym, refl, Bool, true, false, ◌&&◌, inl, inr,
  Option, none, some, arith, leb, word, is_some_and, saturating_add, Bool-cases,
}
use mathlib.Core.Option.{some-injective}
use rpc_latency_monitor.Prelude.Maybe.{◌>>=◌}
use rpc_latency_monitor.Rpc.{clock}
use rpc_latency_monitor.ReferenceSlot.{ReferenceSlot, current}
use rpc_latency_monitor.ReferenceCheck.Sink.{
  ClaimSink, node_tip, node_lag, slot_implausible, beyond, clock_implausible, clock_drift_secs,
}

-- The node has a tip, trails the fleet by the margin at most, and the slot is beyond the node's tip by
-- more than the margin.
abbrev pub IsBeyond : ℕ → ReferenceSlot → ℕ → ClaimSink → Type 0
IsBeyond now fleet slot sink =
    (node fleet_tip : ℕ) × (node_tip now sink ≡ some node)
    × (current fleet ≡ some fleet_tip)
    × (fleet_tip ≤ node + sink.margin)
    × (saturating_add node sink.margin < slot)

abbrev flagged : Option ℕ → Option ℕ → ℕ → ℕ → Bool
flagged node fleet_tip slot margin =
    is_some_and (do n ← node; t ← fleet_tip; some (t - n)) (λ lag. leb lag margin)
    && beyond node (some slot) margin

flagged_iff :
    (node fleet_tip : Option ℕ) (slot margin : ℕ)
    → (flagged node fleet_tip slot margin ≡ true) ↔ (
        (n t : ℕ) × (node ≡ some n)
        × (fleet_tip ≡ some t)
        × (t ≤ n + margin)
        × (saturating_add n margin < slot))
flagged_iff none fleet_tip slot margin = (λ h. cc, λ (n, t, e, f, a, b). cc)
flagged_iff (some n) none slot margin = (λ h. cc, λ (n', t, e, f, a, b). cc)
flagged_iff (some n) (some t) slot margin =
    (λ h. (n, t, refl, refl, ground arith, ground arith), λ (n', t', e, f, a, b). ground arith)

-- A slot is flagged exactly when the node is caught up with the fleet and the slot lies beyond the
-- node's tip by more than the margin.
pub slot_implausible_iff :
    (now : ℕ) (fleet : ReferenceSlot) (slot : ℕ) (sink : ClaimSink)
    → (slot_implausible now fleet (some slot) sink ≡ true) ↔ IsBeyond now fleet slot sink
unfolding slot_implausible node_lag
slot_implausible_iff now fleet slot sink =
    flagged_iff (node_tip now sink) (current fleet) slot sink.margin

not_beyond :
    (node margin slot tip : ℕ)
    → tip ≤ node + margin
    → tip < word
    → slot ≤ tip
    → ¬ (saturating_add node margin < slot)
not_beyond node margin slot tip a b h far = ground arith

-- A slot that the fleet has already reached is never flagged, however far the node is behind.
pub fleet_slot_plausible :
    (now : ℕ) (fleet : ReferenceSlot) (slot tip : ℕ) (sink : ClaimSink)
    → current fleet ≡ some tip
    → tip < word
    → slot ≤ tip
    → slot_implausible now fleet (some slot) sink ≡ false
fleet_slot_plausible now fleet slot tip sink e small h =
    elim (Bool-cases (slot_implausible now fleet (some slot) sink)) [
      | inr good ↦ good
      | inl bad ↦
          let (node, fleet_tip, n, t, near, far) =
            (slot_implausible_iff now fleet slot sink).0 bad in
          let same : fleet_tip ≡ tip = some-injective _ _ (sym t ∙ e) in
          absurd (not_beyond node sink.margin slot tip (omega arith) small h far)
    ]

abbrev half : ℕ
half = 9223372036854775808

-- The distance from the time of the monitor to the time of the provider, as a signed number, is more
-- than 120 seconds.
abbrev pub Drifts : ℕ → ℕ → Type 0
Drifts unix time =
    ((time < half) × ((unix + clock_drift_secs < time) ⊎ (time + clock_drift_secs < unix)))
    ⊎ ((half ≤ time) × (clock_drift_secs < unix + (word - time)))

-- But for one bit pattern, a clock is flagged exactly when it drifts by more than 120 seconds.
pub clock_implausible_iff :
    (unix slot time : ℕ)
    → unix < 4611686018427387904
    → time < word
    → time ≢ unix + half
    → (clock_implausible unix (some (clock slot time)) ≡ true) ↔ Drifts unix time
unfolding clock_implausible
clock_implausible_iff unix slot time u t ne = (λ h. ground arith, λ d. ground arith)

-- The time that is 2^63 seconds before the clock of the monitor, in release arithmetic, is not flagged.
pub least_clock_escapes :
    (unix slot : ℕ)
    → unix < 4611686018427387904
    → Drifts unix (unix + half) × (clock_implausible unix (some (clock slot (unix + half))) ≡ false)
unfolding clock_implausible
least_clock_escapes unix slot u = (inr (omega arith, omega arith), ground arith)
