-- ===== src/Core.antt =====
-- crates/core/src/lib.rs: property values, node and edge records, write batches and the types of
-- the transactions.
pub mod Value
pub mod Records
pub mod Batch
