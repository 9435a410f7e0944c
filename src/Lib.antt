-- ===== src/Lib.antt =====
-- Verification of rpc-latency-monitor: the models of the program and the theorems about them.
--
-- The program probes Solana RPC providers on a schedule, times each answer, and checks the answers
-- against each other and against a trusted node. A probe goes through the client
-- (`RpcClient::call`), whose answer `classify` judges with the methods' own rules
-- (`RpcMethod::is_valid_result` and the others). Its observed slot moves the reference slot; its
-- claim goes to the `ClaimSink`, from which `run_verify_tick` takes the settled claims and asks the
-- node about them; its row goes to the sample log, which sends batches. Every outcome is counted in
-- the metrics. All of this is started by `main`, once the configuration is valid and the placeholders
-- of its urls are filled.
--
-- Which file models which part (paths from the repository's root):
--   Start                    src/main.rs: `main`, up to what it spawns (Start), what then runs
--                            (Wired, Probes, Running), and that it ends (Ends)
--   Server                   src/server.rs: `metrics_handler`
--   Target, Config           src/config.rs: the configuration, `validate`; the document with its
--                            defaults and `load` (Load)
--   Providers                src/providers.rs, src/geo.rs: the endpoints of a region,
--                            `substitute`, `redacted_url`
--   GpaDerive                src/gpa_derive.rs: `token_anchors`, `candidate_targets`,
--                            `derive_once`, `run`
--   Metrics                  src/metrics.rs: the recording operations, as tables from label values;
--                            what `new` registers (Families)
--   Method, Methods          src/rpc/methods.rs: parameters (Params, Batch), readers of an answer
--                            (Values, Results, Accounts), the account matcher (Matcher), the
--                            sample (Samples)
--   Rpc                      src/rpc/mod.rs: the types and their labels; `classify` (Classify);
--                            the client with its requests (Client)
--   ReferenceSlot            src/reference_slot.rs: the tip, the lag, the anchor, the poller's
--                            ticks
--   ReferenceCheck           src/reference_check.rs: `ClaimSink` (Sink), the node and its caches
--                            (Node), the verdicts (Judge), `run_verify_tick` and `run_round`
--                            (Tick), the archival check: slots and majority (Archival),
--                            `run_archival_round` (Archival.Round)
--   SampleLog                src/sample_log.rs: `log`, `flush_chunk`, `flush`, `flush_loop`,
--                            `from_env` (Opened)
--   Scheduler                src/scheduler.rs: a round of `CheckTask::run`, `record`,
--                            `rotated_target`, `spawn_checks` (Spawn)
--   RawApi                   src/raw_api.rs: the state and the replies (App), `parse_query`
--                            (Query), `build_selector` (Selector), `verify_token` (Token),
--                            `take_rate_limit_slot` (RateLimit), `run_query` and `to_series`
--                            (Prom), `compute_win_rates` (WinRate), the statements of the database
--                            (Samples), `to_csv` and `rows_to_csv` (Csv), `raw_handler` and
--                            `ingest_handler` (Handler), `from_env` (Settings), `ensure_schema`
--                            and `schema_then_retention` (Database)
--   Crates                   what the program calls and does not implement, as the fields of one
--                            record: JSON values, base64 and base58, HMAC, floating-point numbers,
--                            HTTP, the database, clocks, random numbers, and the outside world as
--                            a state that each request changes
--   Prelude                  lists, maps, texts, decimal numbers, Boolean tests, and the
--                            monads of state, option and result
--   Tests                    a small stand-in for the crates, and runs at concrete inputs
--
-- How the models correspond to the code. A method that changes an object is a function from the
-- object's state to its state; an asynchronous function is a function on the state of the client
-- and the world, whose requests happen in the code's order. A mutex is a state: no lock is
-- poisoned. A number of 64 bits keeps its wrap-around; an i64 is its bit pattern. An operation that
-- reads the clock several times takes one time. A `HashMap` is a table without a meaningful order:
-- where the program walks one (`majority_block`), the order is a parameter. So is the order in
-- which the tasks of a `JoinSet` end. In `raw_handler` a permit is taken by one step and given back
-- by another, with the steps of other requests between them. A text is a list of characters, and a
-- message of an error is the constructor that says which test failed.
--
-- Bounds and fuel. `decimal` writes 20 digits at most, as many as a u64 has. `flush` runs on fuel,
-- one more than the rows of the buffer: a round that goes on takes at least one row out.
-- `substitute` has one round more than the text has characters, and each placeholder takes three or
-- more of them. `pick_unused_slot` has the 32 tries of the code. The window of `judge_window_block`
-- has 9 slots at most, and its loop recurs on the distance to the floor.
--
-- What is spawned is data: a task with what it is given. `main` is a function from the document of the
-- configuration, the environment and the registry to the tasks in the order in which they are
-- spawned, or to its first error; a start that fails ends the process, and with it every task. The
-- schema and the retention of the database run in rounds, between which anything may happen outside.
-- `main` has an error for a loop that runs out of fuel, which the code has not.
--
-- Not modelled: figment, which reads and merges the file and the environment of `Config::load`; the
-- HTTP servers (`serve` of src/server.rs and of src/raw_api.rs), the arguments of the command line and
-- the tracing; the text encoder of the metrics; the loops that only sleep between two rounds; the gate
-- that limits how many large bodies are parsed at once.
mod Prelude
pub mod Crates
pub mod Server
pub mod Start
pub mod Target
pub mod Method
pub mod Config
pub mod Providers
pub mod Metrics
pub mod ReferenceSlot
pub mod Rpc
pub mod Methods
pub mod ReferenceCheck
pub mod GpaDerive
pub mod SampleLog
pub mod Scheduler
pub mod RawApi
pub mod Tests
