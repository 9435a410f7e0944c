-- ===== src/Server.antt =====
-- src/server.rs: the page of metrics. The text encoder, `encode` of src/metrics.rs, belongs to the
-- prometheus crate and is a parameter, as is the server.
use rpc_latency_monitor.Prelude.{ℕ, String}
use rpc_latency_monitor.Prelude.Fallible.{Result, ok, err}
use rpc_latency_monitor.Metrics.{Metrics}

-- The status and the body.
abbrev pub page : Result String String → ℕ × String
page (ok body) = (200, body)
page (err message) = (500, message)

unfoldable pub metrics_handler : (Metrics → Result String String) → Metrics → ℕ × String
metrics_handler encode metrics = page (encode metrics)
