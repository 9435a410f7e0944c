-- ===== src/Tests/Rounds.antt =====
-- Runs of scheduler.rs.
use rpc_latency_monitor.Prelude.{
  ◌≢◌, inl, ℕ, ◌≤◌, ◌≡◌, refl, none, some, List, [], ◌∷◌, nat_eq, max,
}
use rpc_latency_monitor.Target.{GpaTarget, builtin_token_owner_target}
use rpc_latency_monitor.Method.{get_slot}
use rpc_latency_monitor.Metrics.{new}
use rpc_latency_monitor.Rpc.{CallResult, success}
use rpc_latency_monitor.ReferenceSlot.{current}
use rpc_latency_monitor.Scheduler.{CheckTask, Board, Turn, is_stale, record_probe}
use rpc_latency_monitor.Scheduler.Recorded.{
  IsRenewed, record_probe-unsuccessful, record_probe-success,
}

abbrev task : CheckTask
task = record {
  provider = "p";
  url = "u";
  check = record { method = get_slot; interval = 1; jitter = 0; timeout = none };
  max_slot_lag = 150;
  gpa_targets = builtin_token_owner_target ∷ [];
}

abbrev board : Board
board = record {
  metrics = new;
  reference = record { tip = 1000 };
  shared = record { recent_signature = none; archival_signature = none; recent_accounts = [] };
  claims = none;
  samples = none;
}

abbrev shows : ℕ → CallResult
shows slot = record {
  latency = 5;
  status = success;
  observed_slot = some slot;
  signature = some "sig";
  archival_signature = none;
  accounts = [];
  claim = none;
  endpoint_ip = none;
}

record_probe-unsuccessful_example :
    ((record_probe task 5 5 "" (shows 700) board).reference ≡ board.reference)
    × ((record_probe task 5 5 "" (shows 700) board).shared ≡ board.shared)
    × ((record_probe task 5 5 "" (shows 700) board).claims ≡ board.claims)
    × ((record_probe task 5 5 "" (shows 700) board).metrics.slot_lag ≡ board.metrics.slot_lag)
unfolding is_stale current
record_probe-unsuccessful_example =
    record_probe-unsuccessful task 5 5 "" (shows 700) board (inl refl)

record_probe-success_example :
    (board.reference.tip ≤ (record_probe task 5 5 "" (shows 1200) board).reference.tip)
    × ((slot : ℕ)
        → (shows 1200).observed_slot ≡ some slot
        → (record_probe task 5 5 "" (shows 1200) board).reference.tip
          ≡ max board.reference.tip slot)
    × IsRenewed
        (shows 1200).signature
        board.shared.recent_signature
        (record_probe task 5 5 "" (shows 1200) board).shared.recent_signature
    × IsRenewed
        (shows 1200).archival_signature
        board.shared.archival_signature
        (record_probe task 5 5 "" (shows 1200) board).shared.archival_signature
    × ((shows 1200).accounts ≢ []
        → (record_probe task 5 5 "" (shows 1200) board).shared.recent_accounts
          ≡ (shows 1200).accounts)
    × ((shows 1200).accounts ≡ []
        → (record_probe task 5 5 "" (shows 1200) board).shared.recent_accounts
          ≡ board.shared.recent_accounts)
unfolding is_stale current
record_probe-success_example = record_probe-success task 5 5 "" (shows 1200) board refl refl

abbrev one : List GpaTarget
one = builtin_token_owner_target ∷ []

abbrev turn : Turn
turn = record { rotation = 4; used_anchor = some "old" }
