-- ===== src/RawApi.antt =====
-- src/raw_api.rs: the HTTP interface to the samples and the metrics.
pub mod App
pub mod Csv
pub mod Database
pub mod Handler
pub mod Prom
pub mod Query
pub mod RateLimit
pub mod Samples
pub mod Selector
pub mod Settings
pub mod Token
pub mod WinRate
