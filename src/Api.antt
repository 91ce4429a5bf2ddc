-- ===== src/Api.antt =====
-- crates/api/src/lib.rs: the database behind the handlers. `Mutation` is what a batch changes in
-- the published snapshot and its index, `Plan` what the planned maps hold, `Snapshot` and
-- `Published` the agreement of the snapshot with itself and with the engine, `Follows` that a write
-- keeps it, `Diverged` a write that does not, `Overlaid`,
-- `ReadYourWrites` and `Candidates` what a transaction reads.
pub mod Mutation
pub mod Snapshot
pub mod Plan
pub mod Published
pub mod Follows
pub mod Diverged
pub mod Overlaid
pub mod Candidates
pub mod ReadYourWrites
