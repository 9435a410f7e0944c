-- ===== src/ReferenceSlot.antt =====
-- src/reference_slot.rs: the highest slot that any provider has shown, and the archival anchor.
-- The atomic and the mutex are states that each call reads and writes in one step.
pub mod Tip
mod Tests
use rpc_latency_monitor.Prelude.{ℕ, zero, suc, ◌-◌, max, String, Option, none, some, List, [], ◌∷◌}
use rpc_latency_monitor.Rpc.{CallResult}

-- `tip` is 0 before the first observation.
pub record ReferenceSlot : Type 0 where
  pub tip : ℕ

abbrev pub new : ReferenceSlot
new = record { tip = 0 }

-- `fetch_max`
unfoldable pub observe : ReferenceSlot → ℕ → ReferenceSlot
observe r slot = record { tip = max r.tip slot }

abbrev non_zero : ℕ → Option ℕ
non_zero zero = none
non_zero (suc n) = some (suc n)

unfoldable pub current : ReferenceSlot → Option ℕ
current r = non_zero r.tip

abbrev behind : ℕ → Option ℕ → Option ℕ
behind observed none = none
behind observed (some tip) = some (tip - observed)

unfoldable pub lag_for : ReferenceSlot → ℕ → Option ℕ
unfolding current
lag_for r observed = behind observed (current r)

pub record ArchivalAnchor : Type 0 where
  pub inner : Option (ℕ × String)

unfoldable pub set : ArchivalAnchor → ℕ → String → ArchivalAnchor
set a slot signature = record { inner = some (slot, signature) }

unfoldable pub current_anchor : ArchivalAnchor → Option (ℕ × String)
current_anchor a = a.inner

abbrev pub observe_opt : ReferenceSlot → Option ℕ → ReferenceSlot
observe_opt r none = r
observe_opt r (some slot) = observe r slot

-- One tick of `poll_reference_endpoint`, with the result of its `getSlot` call.
poll_tick : ReferenceSlot → Option CallResult → ReferenceSlot
poll_tick r none = r
poll_tick r (some result) = observe_opt r result.observed_slot

-- The ticks of `poll_reference_endpoint`, in order.
pub poll_reference_endpoint : ReferenceSlot → List (Option CallResult) → ReferenceSlot
unfolding poll_tick
poll_reference_endpoint r [] = r
poll_reference_endpoint r (x ∷ xs) = poll_reference_endpoint (poll_tick r x) xs
