-- ===== src/Query.antt =====
-- crates/query/src/lib.rs: the queries. `View` is what they read the graph through, `Overlay` what
-- the view of a transaction over a snapshot reads, `Plan` the planner, `Limits` the limits of a
-- query, `Filter`, `Neighbors`, `Distances` and `Path` its parts, `Response` what it streams.
pub mod View
pub mod Overlay
pub mod Limits
pub mod Response
pub mod Distances
pub mod Filter
pub mod Plan
pub mod Neighbors
pub mod Path
