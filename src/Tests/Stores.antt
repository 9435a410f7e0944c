-- ===== src/Tests/Stores.antt =====
-- Runs of config.rs, metrics.rs and sample_log.rs.
use rpc_latency_monitor.Prelude.{
  List, ◌≤◌, ◌≡◌, refl, true, none, some, [], ◌∷◌, length, list_eq, string_eq, arith,
}
use rpc_latency_monitor.Target.{token_program}
use rpc_latency_monitor.Method.{get_slot}
use rpc_latency_monitor.Rpc.{CallResult, error, timeout}
use rpc_latency_monitor.Config.{Config, endpoint, default_reference_check}
use rpc_latency_monitor.Metrics.{Labels, new}
use rpc_latency_monitor.Metrics.Families.Arity.{
  IsLabelled, Recording, called, sample_flushed, node_lagged, record_all, record_all-IsLabelled,
}
use rpc_latency_monitor.SampleLog.{
  Sample, Flusher, accepted, failed, received, closed, ticked, flush_all, flush_loop, max_buffered,
}
use rpc_latency_monitor.SampleLog.Bounded.{flush_loop-le}
use rpc_latency_monitor.SampleLog.Drained.{flush_all-drains}

abbrev pub config : Config
config = record {
  region = "fra";
  server = record { bind = "0.0.0.0:9090" };
  reference_slot = record { source = endpoint; endpoint = some "url"; poll_interval = 1 };
  providers =
      record { name = "p"; url = "u"; geos = []; region_urls = [] }
      ∷ record { name = "q"; url = "u"; geos = []; region_urls = [] }
      ∷ [];
  checks = record { method = get_slot; interval = 1; jitter = 0; timeout = none } ∷ [];
  gpa_targets =
      record {
        name = "owner";
        program = token_program;
        data_size = none;
        memcmp = record { offset = 32; bytes = "key" } ∷ [];
      }
      ∷ [];
  gpa_derive = some (record { endpoint = "url"; interval = 5; min_accounts = 1; max_accounts = 9 });
  request_timeout = 1;
  archival_interval = 1;
  archival_timeout = 1;
  max_slot_lag = 150;
  reference_check = default_reference_check;
  claim_checks = true;
}

abbrev slow : CallResult
slow = record {
  latency = 900;
  status = error timeout;
  observed_slot = none;
  signature = none;
  archival_signature = none;
  accounts = [];
  claim = none;
  endpoint_ip = none;
}

abbrev only_p : Labels
only_p = "p" ∷ []

abbrev row : Sample
row = record {
  ts = 1;
  provider = "p";
  method = "getSlot";
  infra = "eu";
  region = "eu";
  target = "";
  status = "error";
  error_kind = "timeout";
  latency = 900;
  slot = none;
  endpoint_ip = none;
}

abbrev waiting : Flusher
waiting = record { buffer = row ∷ row ∷ []; metrics = new }

flush_loop-le_example :
    length (flush_loop (λ n. failed) (received row ∷ ticked ∷ closed ∷ []) (waiting, 0)).0.buffer
    ≤ max_buffered
flush_loop-le_example =
    flush_loop-le (λ n. failed) (received row ∷ ticked ∷ closed ∷ []) waiting 0 (omega arith)

flush_all-drains_example : (flush_all (λ n. accepted) (waiting, 0)).0.buffer ≡ []
flush_all-drains_example = flush_all-drains (λ n. accepted) waiting 0 (λ k. refl)

abbrev recordings : List Recording
recordings =
    called "p" get_slot slow (error timeout) "" ∷ sample_flushed "ok" 1 ∷ node_lagged 5 ∷ []

record_all-IsLabelled_example : IsLabelled (record_all recordings new)
record_all-IsLabelled_example = record_all-IsLabelled recordings
