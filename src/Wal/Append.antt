-- ===== src/Wal/Append.antt =====
-- `append`: what it writes, and what the log says when the write fails.
mod Order
pub mod Invariant
pub mod Outcome
pub mod Torn
