-- ===== src/Index/Vectors/Collected.antt =====
-- The spaces that `HnswVectorIndex::build` finds among the nodes.
use undr.Base.{
  ℕ, ◌+◌, ◌-◌, ◌^◌, max, min, String, List, [], ◌∷◌, ◌++◌, Option, none, some, length, nat_beq,
  string_key, if◌then◌else◌,
}
use undr.Base.Map
use undr.Base.Map.{BTreeMap, keys, values, is_some}
use undr.Common.{NodeId}
use undr.Core.Records.{NodeRecord}
use undr.Index.Buckets.{push_at, or_default}
use undr.Index.Vectors.Spaces.{Vector, HnswVectorSpace, HnswVectorIndex}

-- The loop of `shared_dimension` with the value of `dimension` so far.
unfoldable pub shared_dimension : Option ℕ → List Vector → Option ℕ
shared_dimension dimension [] = dimension
shared_dimension none (v ∷ vectors) = shared_dimension (some (length v)) vectors
shared_dimension (some existing) (v ∷ vectors) =
    let rest = shared_dimension (some existing) vectors in
    if nat_beq existing (length v) then rest else none

-- The two loops of `hnsw_spaces_from_nodes` fill two maps; each is written on its own here.
unfoldable pub push_vectors :
    BTreeMap String Vector → BTreeMap String (List Vector) → BTreeMap String (List Vector)
push_vectors [] by_name = by_name
push_vectors ((name, v) ∷ vectors) by_name =
    push_vectors vectors (Map.insert name (or_default (Map.get name by_name) ++ v ∷ []) by_name)

unfoldable pub collect_vectors :
    List NodeRecord → BTreeMap String (List Vector) → BTreeMap String (List Vector)
collect_vectors [] by_name = by_name
collect_vectors (node ∷ nodes) by_name = collect_vectors nodes (push_vectors node.vectors by_name)

unfoldable pub push_candidates :
    List String → NodeId → BTreeMap String (List NodeId) → BTreeMap String (List NodeId)
push_candidates [] id by_name = by_name
push_candidates (name ∷ names) id by_name = push_candidates names id (push_at name id by_name)

unfoldable pub collect_candidates :
    List NodeRecord → BTreeMap String (List NodeId) → BTreeMap String (List NodeId)
collect_candidates [] by_name = by_name
collect_candidates (node ∷ nodes) by_name =
    collect_candidates nodes (push_candidates (keys node.vectors) node.id by_name)

unfoldable pub hnsw_spaces_from_nodes :
    {R : Type 0} → List NodeRecord → BTreeMap String (HnswVectorSpace R)
unfolding collect_vectors collect_candidates shared_dimension
hnsw_spaces_from_nodes nodes =
    let vectors_by_name = collect_vectors nodes [] in
    Map.map_values
      (λ name ids. record {
        candidate_ids = ids;
        dimension = shared_dimension none (or_default (Map.get name vectors_by_name));
        runtime = none;
      })
      (collect_candidates nodes [])

-- The fields of `VectorIndexConfig` but the backend.
pub record HnswConfig : Type 0 where
  pub semantic_top_k : ℕ
  pub exact_fallback_threshold : ℕ
  pub hnsw_m : ℕ
  pub hnsw_ef_construction : ℕ
  pub hnsw_ef_search : ℕ

unfoldable pub build : {R : Type 0} → List NodeRecord → HnswConfig → HnswVectorIndex R
unfolding hnsw_spaces_from_nodes
build nodes config = record {
  spaces = hnsw_spaces_from_nodes nodes;
  max_nodes = max (min (length nodes + 1024) (2 ^ 64 - 1)) 1;
  semantic_top_k = config.semantic_top_k;
  exact_fallback_threshold = config.exact_fallback_threshold;
  m = config.hnsw_m;
  ef_construction = config.hnsw_ef_construction;
  ef_search = config.hnsw_ef_search;
}
