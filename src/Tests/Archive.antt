-- ===== src/Tests/Archive.antt =====
-- A run of the archival check of reference_check.rs, with five providers, and one of gpa_derive.rs.
use rpc_latency_monitor.Prelude.{
  ◌≡◌, ◌⊎◌, ℕ, String, none, some, List, [], ◌∷◌, All-elem, Elem, contains-false, string_eq, refl,
  arith,
}
use rpc_latency_monitor.Metrics.{new}
use rpc_latency_monitor.ReferenceSlot.{ReferenceSlot}
use rpc_latency_monitor.Providers.{ProviderEndpoint}
use rpc_latency_monitor.ReferenceCheck.Archival.Round.{Schedule, Archive, run_archival_round}
use rpc_latency_monitor.ReferenceCheck.Archival.Round.Confirmed.{IsOrder}
use rpc_latency_monitor.ReferenceCheck.Archival.Round.Anchored.{Anchors, run_archival_round-Anchors}
use rpc_latency_monitor.Config.{GpaDeriveConfig}
use rpc_latency_monitor.GpaDerive.{run}
use rpc_latency_monitor.GpaDerive.Derived.{IsDerived, AreCounted, run-IsDerived}
use rpc_latency_monitor.Tests.Toy.{toy, start}

abbrev providers : List ProviderEndpoint
providers =
    record { name = "p"; url = "u" }
    ∷ record { name = "q"; url = "u" }
    ∷ record { name = "r"; url = "u" }
    ∷ record { name = "s"; url = "u" }
    ∷ record { name = "t"; url = "u" }
    ∷ []

providers-IsOrder : IsOrder providers providers
providers-IsOrder = (
  (
    contains-false ("q" ∷ "r" ∷ "s" ∷ "t" ∷ []) "p" refl,
    (
      contains-false ("r" ∷ "s" ∷ "t" ∷ []) "q" refl,
      (
        contains-false ("s" ∷ "t" ∷ []) "r" refl,
        (contains-false ("t" ∷ []) "s" refl, ((λ e. e), tt)),
      ),
    ),
  ),
  All-elem (λ p. Elem p providers) providers (λ p e. e),
)

abbrev in_order : Schedule
in_order = record { blocks = λ ps. ps; transactions = λ ps. ps }

abbrev tip : ReferenceSlot
tip = record { tip = 400000000 }

abbrev fresh : Archive ⦃c = toy⦄
fresh = record {
  env = record start { world = 2 };
  metrics = new;
  used = record { set = []; order = [] };
  anchor = record { inner = none };
}

abbrev one_round : Archive ⦃c = toy⦄
one_round = run_archival_round ⦃c = toy⦄ in_order (λ table. table) providers tip fresh

run_archival_round-Anchors_example :
    (one_round.anchor ≡ fresh.anchor)
    ⊎ ((slot : ℕ) × (sig : String) × (one_round.anchor.inner ≡ some (slot, sig))
        × Anchors ⦃c = toy⦄ in_order (λ table. table) providers tip fresh one_round slot sig)
run_archival_round-Anchors_example =
    run_archival_round-Anchors ⦃c = toy⦄ in_order (λ table. table) providers providers-IsOrder
      providers-IsOrder (λ floor ceil w h. (omega arith, omega arith)) tip fresh

abbrev bounds : GpaDeriveConfig
bounds = record { endpoint = "url"; interval = 5; min_accounts = 1; max_accounts = 9 }

abbrev pools : List (List String)
pools = [] ∷ ("key" ∷ []) ∷ ("key" ∷ []) ∷ []

run-IsDerived_example :
    IsDerived ⦃c = toy⦄ bounds (λ e. e) (run ⦃c = toy⦄ bounds (λ e. e) pools [] start).0
    × AreCounted ⦃c = toy⦄ bounds
        (λ e. e)
        start
        (run ⦃c = toy⦄ bounds (λ e. e) pools [] start).0
        (run ⦃c = toy⦄ bounds (λ e. e) pools [] start).1
run-IsDerived_example = run-IsDerived ⦃c = toy⦄ bounds (λ e. e) pools start
