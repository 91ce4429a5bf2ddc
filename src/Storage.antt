-- ===== src/Storage.antt =====
-- crates/storage/src/lib.rs: the storage engine. `Batch` applies write batches to the maps,
-- `Versions` keeps the history that open transactions read, `Engine` is the state and the write
-- path, `Transactions` the sessions, `Recovery` checkpoints, compaction and the opening of a
-- directory. The other modules are proofs.
pub mod Batch
pub mod Versions
pub mod Engine
pub mod Transactions
pub mod Recovery
