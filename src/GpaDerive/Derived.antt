-- ===== src/GpaDerive/Derived.antt =====
-- What the derived targets of src/gpa_derive.rs are, round after round.
use rpc_latency_monitor.Prelude.{
  ◌≤◌, String, List, [], ◌∷◌, nat_eq, string_eq, length, All, Distinct,
}
use rpc_latency_monitor.Crates.{Crates}
use rpc_latency_monitor.Config.{GpaDeriveConfig}
use rpc_latency_monitor.Rpc.Client.{Env}
use rpc_latency_monitor.GpaDerive.{DerivedTargets, run}
use rpc_latency_monitor.GpaDerive.Counted.{Log, Trace, begun, IsCounted, IsPicked, rounds-Counted}
use rpc_latency_monitor.GpaDerive.Shapes.{names, IsShape, at_most_two}

module _ ⦃c : Crates⦄ (config : GpaDeriveConfig) (meanwhile : Env → Env) where
  -- Two names, each once, and each query of a shape.
  abbrev pub IsDerived : DerivedTargets → Type 0
  IsDerived targets = Distinct (names targets) × All IsShape targets × (length targets ≤ 2)

  -- The log of the calls that lead from the start to the end has a count of each target.
  abbrev pub AreCounted : Env → DerivedTargets → Env → Type 0
  AreCounted start targets e =
      (log : Log config meanwhile) × Trace config meanwhile start log e
      × All (IsCounted config meanwhile log) targets

  shapes :
      (log : Log config meanwhile) (ts : DerivedTargets)
      → All (IsPicked config meanwhile log) ts
      → All IsShape ts
  shapes log [] h = tt
  shapes log (t ∷ ts) ((shape, _), h) = (shape, shapes log ts h)

  counts :
      (log : Log config meanwhile) (ts : DerivedTargets)
      → All (IsPicked config meanwhile log) ts
      → All (IsCounted config meanwhile log) ts
  counts log [] h = tt
  counts log (t ∷ ts) ((_, count_of), h) = (count_of, counts log ts h)

  -- After any number of rounds, and whatever the other tasks do between them, there are two derived
  -- targets at most, with different names, each a query of the token program's accounts of 165 bytes
  -- with one filter: at offset 0 the mint, which is not among the common ones, or at offset 32 the
  -- owner. The calls that led from the start of the run to its end have asked the endpoint for the
  -- number of accounts of each of these queries, and an answer to it was within the configured bounds.
  pub run-IsDerived :
      (pools : List (List String)) (e : Env)
      → IsDerived (run config meanwhile pools [] e).0
        × AreCounted e (run config meanwhile pools [] e).0 (run config meanwhile pools [] e).1
  run-IsDerived pools e =
      let ts = (run config meanwhile pools [] e).0 in
      let (d, log, trace, fine) =
        rounds-Counted config meanwhile e pools [] e (tt, [], begun, tt) in
      (
        (d, shapes log ts fine, at_most_two ts d (shapes log ts fine)),
        (log, trace, counts log ts fine),
      )
