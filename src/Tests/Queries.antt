-- ===== src/Tests/Queries.antt =====
-- A run of the parameters of a query, of raw_api.rs.
use rpc_latency_monitor.Prelude.{◌≡◌, arith}
use rpc_latency_monitor.Prelude.Fallible.{ok}
use rpc_latency_monitor.RawApi.Query.{parse_query}
use rpc_latency_monitor.RawApi.Query.Valid.{parse_query-IsValidQuery}
use rpc_latency_monitor.RawApi.Query.Printed.{printed, parse_query-printed}
use rpc_latency_monitor.Tests.Api.{query, params, read}
use rpc_latency_monitor.Tests.Toy.{toy}

parse_query-printed_example : parse_query ⦃c = toy⦄ 50000 "latency" (printed query) ≡ ok query
parse_query-printed_example =
    parse_query-printed ⦃c = toy⦄ 50000 query
      (parse_query-IsValidQuery ⦃c = toy⦄ 50000 "latency" params query read) (λ e. cc) (omega arith)
      (omega arith)
