-- ===== src/Index.antt =====
-- crates/index/src/lib.rs: `GraphIndex`, the sets and buckets of identifiers that queries start
-- from. `Buckets` has the laws of the buckets, `Vectors` the two indexes of vectors, `Agreement`
-- what an index says of the records it was built from, `Build` the rebuilding, `Rebuilt`
-- what a rebuilt index says, `Search` the lookups, `Found` and `Semantic` what they find.
pub mod Lookup
pub mod Buckets
pub mod Vectors
pub mod Graph
pub mod Agreement
pub mod Build
pub mod Rebuilt
pub mod Search
pub mod Found
pub mod Semantic
