-- ===== src/Methods.antt =====
-- src/rpc/methods.rs: what each method asks for, and what it reads from an answer.
pub mod Values
pub mod Params
pub mod Batch
pub mod Matcher
pub mod Samples
pub mod Accounts
pub mod Results
