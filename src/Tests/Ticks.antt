-- ===== src/Tests/Ticks.antt =====
-- Runs of the claim checker's tick, of reference_check.rs.
use rpc_latency_monitor.Prelude.{some, List, [], ◌∷◌}
use rpc_latency_monitor.Config.{ReferenceCheckConfig, default_reference_check}
use rpc_latency_monitor.Metrics as Metrics
use rpc_latency_monitor.Target.{builtin_token_owner_target}
use rpc_latency_monitor.Rpc.{AccountSample}
use rpc_latency_monitor.ReferenceCheck.Judge.{judge_accounts}
use rpc_latency_monitor.ReferenceCheck.Judge.Sampled.{
  SaysAccounts, account_answer, judge_accounts-SaysAccounts,
}
use rpc_latency_monitor.ReferenceCheck.Sink.{node_stale}
use rpc_latency_monitor.ReferenceCheck.Tick.{Checker, run_verify_tick}
use rpc_latency_monitor.ReferenceCheck.Tick.Counted.{
  IsCounted, poll_time, run_verify_tick-IsCounted,
}
use rpc_latency_monitor.Tests.Checks.{fleet, full_sink}
use rpc_latency_monitor.Tests.Toy.{toy, start}

abbrev config : ReferenceCheckConfig
config = record default_reference_check { rpc_url = "node" }

abbrev checker : Checker ⦃c = toy⦄
checker = record {
  judging = record { env = start; blocks = []; gpa_counts = [] };
  metrics = Metrics.new;
  sink = full_sink;
}

run_verify_tick-IsCounted_example :
    IsCounted ⦃c = toy⦄
      (node_stale
        (poll_time ⦃c = toy⦄ config fleet checker)
        fleet
        (run_verify_tick ⦃c = toy⦄ config fleet checker).sink)
      checker
      (run_verify_tick ⦃c = toy⦄ config fleet checker)
run_verify_tick-IsCounted_example = run_verify_tick-IsCounted ⦃c = toy⦄ config fleet checker

abbrev sampled : List AccountSample
sampled = record { pubkey = "k"; account_data = "account" } ∷ []

judge_accounts-SaysAccounts_example :
    SaysAccounts ⦃c = toy⦄
      (some 3)
      1
      8
      sampled
      builtin_token_owner_target
      (account_answer ⦃c = toy⦄ "node" sampled start)
      (judge_accounts ⦃c = toy⦄ "node" 1 sampled builtin_token_owner_target (some 3) 8 start).0
judge_accounts-SaysAccounts_example =
    judge_accounts-SaysAccounts ⦃c = toy⦄ "node" 1 sampled builtin_token_owner_target (some 3) 8
      start
