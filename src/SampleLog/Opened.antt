-- ===== src/SampleLog/Opened.antt =====
-- `SampleLogger::from_env` of src/sample_log.rs, and the start of its task. The environment is a
-- parameter.
use rpc_latency_monitor.Prelude.{
  ℕ, String, not, Option, none, some, List, [], ◌==◌, string_eq, unwrap_or, filter_option,
}
use rpc_latency_monitor.Prelude.Maybe.{◌>>=◌}
use rpc_latency_monitor.Crates.{Crates}
use rpc_latency_monitor.Metrics.{Metrics}
use rpc_latency_monitor.SampleLog.{SampleLogger, Flusher, Answers, Wake, flush_loop}

-- `.filter(|v| !v.is_empty())`
abbrev pub non_empty : Option String → Option String
non_empty v = filter_option (λ s. not (s == "")) v

-- What the task that sends the batches is given: the address and the token.
pub record FlushTask : Type 0 where
  pub url : String
  pub token : String

unfoldable pub from_env : (String → Option String) → String → Option (SampleLogger × FlushTask)
from_env env region = do
  url ← non_empty (env "SAMPLE_LOG_URL")
  token ← non_empty (env "SAMPLE_LOG_TOKEN")
  some (
    record { channel = []; infra = unwrap_or (env "MONITOR_INFRA") "gcp"; region = region },
    record { url = url; token = token },
  )

module _ ⦃c : Crates⦄ where
  open c use {World, HttpClient, build_client}

  -- 20 seconds
  abbrev flush_timeout : ℕ
  flush_timeout = 20000000000

  abbrev run_with : Answers → List Wake → Flusher → Option HttpClient → Flusher
  run_with answers wakes f none = f
  run_with answers wakes f (some http) = (flush_loop answers wakes (f, 0)).0

  -- The task from its start: without a client it returns at once.
  unfoldable pub run_flush_task : Answers → List Wake → Metrics → World → Flusher × World
  run_flush_task answers wakes metrics w =
      let (http, w') = build_client flush_timeout w in
      (run_with answers wakes (record { buffer = []; metrics = metrics }) http, w')
