-- ===== src/Scheduler/Spawn.antt =====
-- `spawn_checks` of src/scheduler.rs: the tasks that it starts, as data.
use rpc_latency_monitor.Prelude.{
  String, Bool, true, false, not, none, List, [], ◌∷◌, map, keep, ℕ, ◌<>◌,
}
use rpc_latency_monitor.Target.{GpaTarget}
use rpc_latency_monitor.Method.{RpcMethod, get_block_archival, get_transaction_archival}
use rpc_latency_monitor.Config.{CheckConfig}
use rpc_latency_monitor.Providers.{ProviderEndpoint}
use rpc_latency_monitor.Scheduler.{CheckTask, SharedState}

-- `SharedState::default()`
abbrev pub default_shared : SharedState
default_shared = record { recent_signature = none; archival_signature = none; recent_accounts = [] }

-- The methods that the archival round asks for, and no check.
abbrev pub is_archival : RpcMethod → Bool
is_archival get_block_archival = true
is_archival get_transaction_archival = true
is_archival _ = false

abbrev pub check_task : ℕ → List GpaTarget → ProviderEndpoint → CheckConfig → CheckTask
check_task max_slot_lag gpa_targets endpoint check = record {
  provider = endpoint.name;
  url = endpoint.url;
  check = check;
  max_slot_lag = max_slot_lag;
  gpa_targets = gpa_targets;
}

abbrev pub is_scheduled : CheckConfig → Bool
is_scheduled check = not (is_archival check.method)

-- A thread with its name, and the tasks that its runtime starts.
pub record ProviderThread : Type 0 where
  pub name : String
  pub tasks : List CheckTask

abbrev pub spawn_provider_runtime : String → List CheckTask → ProviderThread
spawn_provider_runtime provider tasks = record { name = "checks-" <> provider; tasks = tasks }

unfoldable pub spawn_checks :
    List ProviderEndpoint → List CheckConfig → ℕ → List GpaTarget → List ProviderThread
spawn_checks [] checks max_slot_lag gpa_targets = []
spawn_checks (endpoint ∷ endpoints) checks max_slot_lag gpa_targets =
    spawn_provider_runtime endpoint.name
      (map (check_task max_slot_lag gpa_targets endpoint) (keep is_scheduled checks))
    ∷ spawn_checks endpoints checks max_slot_lag gpa_targets
