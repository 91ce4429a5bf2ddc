-- ===== src/Lib.antt =====
-- UNDR9: a graph and memory database. This library models the crates that store its data, that
-- index and query it, and that decide who leads and who may write, and proves what they promise.
--
-- The parts and their files:
-- - crates/common/src/lib.rs: Common (errors, identifiers), Common/Decimal (the names of
--   transactions).
-- - crates/core/src/lib.rs: Core/Value (property values and their conversions), Core/Records
--   (nodes and edges), Core/Batch (write batches, the types of transactions).
-- - crates/auth/src/lib.rs: Auth (roles, `authenticate`, `secure_compare`).
-- - crates/wal/src/lib.rs: Wal/Record (records, `encode_record`), Wal/Segments
--   (`replay_from_dir`), Wal/Log (`append`, rotation, `open`, truncation).
-- - crates/storage/src/lib.rs: Storage/Batch (normalisation, validation, application, effects),
--   Storage/Versions (lineage, history, the visible value), Storage/Engine (the state of
--   `StorageEngine` and `apply_write_batch`), Storage/Transactions (sessions), Storage/Recovery
--   (`recover`, `rebuild_lineage`, `open`).
-- - crates/index/src/lib.rs: Index/Buckets (the sets of identifiers by key), Index/Vectors (the
--   exact index of vectors and the one of hnsw_stable), Index/Graph (`GraphIndex` and its
--   upserts and deletions), Index/Build (`rebuild`), Index/Search (the lookups).
-- - crates/query/src/lib.rs: Query/View (the trait `GraphView`, the snapshot and the overlay of
--   a transaction), Query/Plan (the planner), Query/Limits, Query/Filter, Query/Neighbors,
--   Query/Distances (`graph_distances`), Query/Path (`shortest_path`), Query/Response (responses
--   as streams of lines).
-- - crates/api/src/lib.rs: Api/Mutation (`plan_batch_mutation`, `snapshot_with_mutation`).
-- - crates/cluster/src/lib.rs: Cluster. crates/replication/src/lib.rs: Replication.
-- The engine holds the log and writes a batch to it before it changes its maps; a transaction
-- stages a batch and commits it by the same write; recovery reads the log back. The database
-- plans on the maps of the engine what a batch removes and adds, and applies this plan to the
-- snapshot it publishes and to the index of the snapshot; queries read the published snapshot
-- through a view, and those of a transaction the same snapshot under an overlay with the plan of
-- the staged batch.
--
-- State is passed explicitly: an operation takes the struct as a record and returns its answer
-- beside the new record, on error paths too. `Result` has a third case, for a panic. What the
-- file system answers to an append is an argument (`AppendIo`), and what the serialisers do is a
-- record of functions (`Codec`, `StorageCodec`), with postcard's reading back of what it wrote
-- as a hypothesis where a theorem needs it. The graphs of the crate hnsw_stable are values of a
-- type, with its calls as a record of functions (`HnswLibrary`); that clones of an index share
-- one such graph is not modelled. A `BTreeMap` is the list of its entries and a `BTreeSet` the
-- list of its elements, in the order of the keys. A u64 that is counted up is taken modulo 2^64.
-- Floating-point numbers are their bit patterns.
--
-- Bounds and fuel: the loop over the frames of a segment has the length of the segment and one
-- more as its fuel, and takes eight bytes or more in a round; printing a u64 has fuel for 20
-- digits. The loop of `graph_distances` takes its fuel as an argument, and Query/Distances/Ends
-- says how much is enough; that of `shortest_path` has as many rounds as the limit of the query
-- and one more, and the parents of a node are followed as often as the depth allows and once
-- more. The clock is read by an argument, once a round. Segment sizes and the replay limit enter
-- the theorems as hypotheses.
--
-- Base has the shared names, the tests, and the maps and sets with their laws. Tests applies the
-- theorems to small concrete data.
--
-- Not modelled: the texts of errors, the paths and bytes of files other than the segments of the
-- log, checkpoints and their snapshots, compaction, backup and restore, import and export,
-- consolidation, the difference of a transaction from the current state; of the index the graphs
-- stored in files and the catalog; of the queries the execution of scans and traversals and the
-- ranked search; of the api the handlers, the metrics, the serving and the operations of the
-- database around the mutation; of crates/memory all but the scores of a result; the crates
-- config (but for the structs that other crates read), observability and cli.
pub mod Base
pub mod Common
pub mod Core
pub mod Auth
pub mod Wal
pub mod Index
pub mod Storage
pub mod Cluster
pub mod Replication
pub mod Query
pub mod Api
pub mod Tests
