-- ===== src/Wal.antt =====
-- crates/wal/src/lib.rs: the write-ahead log. `Record` has the records and their frames, `Segments`
-- the reading of the log directory, `Log` the writer. The other modules are proofs.
pub mod Record
pub mod Segments
pub mod Log
pub mod Framing
pub mod Replay
pub mod Append
