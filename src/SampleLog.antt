-- ===== src/SampleLog.antt =====
-- src/sample_log.rs: every result is a row, rows are sent in batches, and a batch that fails is kept.
-- Floating-point times and latencies are the nanoseconds that they are computed from.
pub mod Bounded
pub mod Drained
pub mod Opened
use rpc_latency_monitor.Prelude.{
  ℕ, zero, suc, ◌+◌, ◌-◌, String, Bool, true, false, Option, none, some, List, [], ◌∷◌, ◌++◌, ltb,
  leb, length, take, drop, min, unwrap_or, is_empty, if◌then◌else◌,
}
use rpc_latency_monitor.Method.{RpcMethod, label}
use rpc_latency_monitor.Metrics.{Metrics, record_sample_flush}
use rpc_latency_monitor.Rpc.{CallResult, CallStatus, status_label, error_kind}

abbrev pub channel_size : ℕ
channel_size = 4096

abbrev pub flush_rows : ℕ
flush_rows = 500

abbrev pub max_buffered : ℕ
max_buffered = 10000

pub record Sample : Type 0 where
  pub ts : ℕ
  pub provider : String
  pub method : String
  pub infra : String
  pub region : String
  pub target : String
  pub status : String
  pub error_kind : String
  pub latency : ℕ
  pub slot : Option ℕ
  pub endpoint_ip : Option String

-- The sending end of the channel, with the rows that are in it.
pub record SampleLogger : Type 0 where
  pub channel : List Sample
  pub infra : String
  pub region : String

-- `try_send` drops the row if the channel is full.
unfoldable pub log :
    ℕ → String → RpcMethod → CallStatus → String → CallResult → SampleLogger → SampleLogger
log ts provider m status target result logger =
    if ltb (length logger.channel) channel_size
    then record logger {
      channel =
          logger.channel
          ++ record {
            ts = ts;
            provider = provider;
            method = label m;
            infra = logger.infra;
            region = logger.region;
            target = target;
            status = status_label status;
            error_kind = unwrap_or (error_kind status) "none";
            latency = result.latency;
            slot = result.observed_slot;
            endpoint_ip = result.endpoint_ip;
          }
            ∷ [];
    }
    else logger

-- The answer to a batch: accepted, refused, or not sent.
pub data Posted : Type 0 where
  accepted rejected failed : Posted

-- The rows that wait, and the counters.
pub record Flusher : Type 0 where
  pub buffer : List Sample
  pub metrics : Metrics

-- A batch that was not taken goes back to the front, if there is room for it.
abbrev put_back : String → List Sample → List Sample → Metrics → Bool × Flusher
put_back outcome rows rest metrics =
    let counted = record_sample_flush outcome 1 metrics in
    if leb (length rows + length rest) max_buffered
    then (false, record { buffer = rows ++ rest; metrics = counted })
    else (false, record { buffer = rest; metrics = record_sample_flush "dropped" 1 counted })

unfoldable pub flush_chunk : Posted → Flusher → Bool × Flusher
flush_chunk posted f =
    let n = min (length f.buffer) flush_rows in
    let rows = take n f.buffer in
    let rest = drop n f.buffer in
    elim posted [
      | accepted ↦ (true, record { buffer = rest; metrics = record_sample_flush "ok" 1 f.metrics })
      | rejected ↦ put_back "rejected" rows rest f.metrics
      | failed ↦ put_back "failed" rows rest f.metrics
    ]

-- The answers to the batches, in the order in which the batches are sent: each request has a timeout,
-- so that each has an answer.
abbrev pub Answers : Type 0
Answers = ℕ → Posted

-- The loop of `flush`, from the n-th batch on. The fuel is the number of rounds.
pub flush : ℕ → Answers → Flusher × ℕ → Flusher × ℕ
unfolding flush_chunk
flush zero answers s = s
flush (suc fuel) answers (f, n) =
    let (sent, f') = flush_chunk (answers n) f in
    let rest = flush fuel answers (f', suc n) in
    if is_empty f.buffer then (f, n) else if sent then rest else (f', suc n)

-- What `select!` wakes for: a row, the end of the channel, or the timer.
pub data Wake : Type 0 where
  received : Sample → Wake
  closed : Wake
  ticked : Wake

-- A buffer of k rows is empty after k batches at most.
abbrev pub flush_all : Answers → Flusher × ℕ → Flusher × ℕ
flush_all answers (f, n) = flush (suc (length f.buffer)) answers (f, n)

unfoldable pub flush_step : Answers → Wake → Flusher × ℕ → Flusher × ℕ
unfolding flush
flush_step answers (received sample) (f, n) =
    let f' : Flusher = record f { buffer = f.buffer ++ sample ∷ [] } in
    if leb flush_rows (length f'.buffer) then flush_all answers (f', n) else (f', n)
flush_step answers closed s = flush_all answers s
flush_step answers ticked (f, n) = if is_empty f.buffer then (f, n) else flush_all answers (f, n)

-- `flush_loop`, which returns at the end of the channel.
unfoldable pub flush_loop : Answers → List Wake → Flusher × ℕ → Flusher × ℕ
flush_loop answers [] s = s
flush_loop answers (closed ∷ ws) s = flush_step answers closed s
flush_loop answers (w ∷ ws) s = flush_loop answers ws (flush_step answers w s)
