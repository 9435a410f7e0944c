-- ===== src/Tests.antt =====
-- Runs of the program's parts at concrete inputs, over a small stand-in for the crates.
pub mod Toy
pub mod Answers
pub mod Api
pub mod Archive
pub mod Boot
pub mod Checks
pub mod Endpoints
pub mod Rounds
pub mod Queries
pub mod Storage
pub mod Stores
pub mod Ticks
