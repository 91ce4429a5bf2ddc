-- ===== src/Index/Vectors/State.antt =====
-- `VectorIndexState`: the calls of either index. Where the code answers for the exact one by
-- itself, so does the function here.
use undr.Base.{ℕ, Bool, true, String, List, [], Option, none}
use undr.Base.Map.{BTreeMap}
use undr.Base.Set.{BTreeSet}
use undr.Common.{NodeId}
use undr.Core.Records.{NodeRecord}
use undr.Index.Vectors.Exact
use undr.Index.Vectors.Exact.{ExactVectorIndex}
use undr.Index.Vectors.Spaces
use undr.Index.Vectors.Spaces.{Vector, HnswLibrary, HnswVectorIndex}
use undr.Index.Vectors.Hnsw
use undr.Index.Vectors.Collected.{HnswConfig, build}

pub data VectorIndexState (R : Type 0) : Type 0 where
  exact : ExactVectorIndex → VectorIndexState R
  hnsw : HnswVectorIndex R → VectorIndexState R

-- `ExactVectorIndex::default()`
abbrev pub no_vectors : ExactVectorIndex
no_vectors = record { candidate_ids_by_name = [] }

pub data VectorIndexBackendConfig : Type 0 where
  exact_backend hnsw_backend : VectorIndexBackendConfig

pub record VectorIndexConfig : Type 0 where
  pub backend : VectorIndexBackendConfig
  pub settings : HnswConfig

unfoldable pub from_config :
    {R : Type 0} → VectorIndexBackendConfig → HnswConfig → List NodeRecord → VectorIndexState R
from_config exact_backend config nodes = exact no_vectors
from_config hnsw_backend config nodes = hnsw (build nodes config)

module _ {R : Type 0} where
  unfoldable pub candidate_ids_iter : VectorIndexState R → String → List NodeId
  unfolding Exact.candidate_ids_iter Hnsw.candidate_ids_iter
  candidate_ids_iter (exact index) name = Exact.candidate_ids_iter index name
  candidate_ids_iter (hnsw index) name = Hnsw.candidate_ids_iter index name

  unfoldable pub candidate_count : VectorIndexState R → ℕ
  candidate_count (exact index) = Exact.candidate_count index
  candidate_count (hnsw index) = Hnsw.candidate_count index

  unfoldable pub space_count : VectorIndexState R → ℕ
  space_count (exact index) = Exact.space_count index
  space_count (hnsw index) = Hnsw.space_count index

  unfoldable pub backend_name : VectorIndexState R → String
  backend_name (exact index) = "exact"
  backend_name (hnsw index) = "hnsw"

  unfoldable pub runtime_ready : VectorIndexState R → Bool
  runtime_ready (exact index) = true
  runtime_ready (hnsw index) = Hnsw.runtime_ready index

  unfoldable pub dimensions : VectorIndexState R → BTreeMap String ℕ
  dimensions (exact index) = []
  dimensions (hnsw index) = Hnsw.dimensions index

module _ {R : Type 0} (library : HnswLibrary R) where
  unfoldable pub upsert_node : VectorIndexState R → NodeRecord → VectorIndexState R
  upsert_node (exact index) node = exact (Exact.upsert_node index node)
  upsert_node (hnsw index) node = hnsw (Spaces.upsert_node library index node)

  unfoldable pub delete_node : VectorIndexState R → NodeRecord → VectorIndexState R
  delete_node (exact index) node = exact (Exact.delete_node index node)
  delete_node (hnsw index) node = hnsw (Spaces.delete_node library index node)

  unfoldable pub semantic_candidate_ids :
      VectorIndexState R
      → Vector
      → String
      → ℕ
      → Option ℕ
      → Option (BTreeSet NodeId)
      → Option (List NodeId)
  semantic_candidate_ids (exact index) query name limit top_k allowed = none
  semantic_candidate_ids (hnsw index) query name limit top_k allowed =
      Hnsw.semantic_candidate_ids library index query name limit top_k allowed

  unfoldable pub initialize_runtime_from_nodes :
      VectorIndexState R → List NodeRecord → VectorIndexState R
  initialize_runtime_from_nodes (exact index) nodes = exact index
  initialize_runtime_from_nodes (hnsw index) nodes =
      hnsw (Hnsw.initialize_runtime_from_nodes library index nodes)
