-- ===== src/ReferenceCheck.antt =====
-- src/reference_check.rs: what a provider says of the chain, checked against a trusted node.
pub mod Sink
pub mod Node
pub mod Judge
pub mod Tick
pub mod Archival
