-- ===== src/Index/Vectors.antt =====
-- `ExactVectorIndex`, `HnswVectorIndex` and `VectorIndexState`. The graph and the vectors that the
-- crate hnsw_stable keeps are a value of a type R, and its calls the functions of `HnswLibrary`,
-- which answer `none` where they fail. That clones of an index share one such graph is not
-- modelled: no function here reads it but the search.
pub mod Exact
pub mod Spaces
pub mod Hnsw
pub mod Collected
pub mod Known
pub mod Measured
pub mod State
