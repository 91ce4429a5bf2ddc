-- ===== src/Index/Vectors/Exact.antt =====
-- `ExactVectorIndex`: the nodes that have a vector, by its name.
use undr.Base.{ℕ, ◌+◌, not, String, List, [], ◌∷◌, is_empty, length, string_key, if◌then◌else◌}
use undr.Base.Map
use undr.Base.Map.{BTreeMap, keys, values, is_some}
use undr.Common.{NodeId}
use undr.Core.Records.{NodeRecord, vector}
use undr.Index.Buckets.{push_unique, retain_not, push_at, bucket}

pub record ExactVectorIndex : Type 0 where
  pub candidate_ids_by_name : BTreeMap String (List NodeId)

-- The first loop of `upsert_node` on one bucket.
abbrev pub refresh_bucket : NodeRecord → String → List NodeId → List NodeId
refresh_bucket node vector_name candidate_ids =
    if is_some (vector node vector_name)
    then push_unique candidate_ids node.id
    else retain_not node.id candidate_ids

-- `map.retain(|_, values| !values.is_empty())`
abbrev pub drop_empty : BTreeMap String (List NodeId) → BTreeMap String (List NodeId)
drop_empty buckets = Map.retain (λ ids. not (is_empty ids)) buckets

-- The second loop, over the names of the node's vectors.
unfoldable pub push_under :
    List String → NodeId → BTreeMap String (List NodeId) → BTreeMap String (List NodeId)
push_under [] node_id buckets = buckets
push_under (name ∷ names) node_id buckets = push_under names node_id (push_at name node_id buckets)

unfoldable pub upsert_node : ExactVectorIndex → NodeRecord → ExactVectorIndex
upsert_node index node = record index {
  candidate_ids_by_name =
      push_under (keys node.vectors) node.id
        (drop_empty (Map.map_values (refresh_bucket node) index.candidate_ids_by_name));
}

unfoldable pub delete_node : ExactVectorIndex → NodeRecord → ExactVectorIndex
delete_node index node = record index {
  candidate_ids_by_name =
      drop_empty (Map.map_values (λ _ ids. retain_not node.id ids) index.candidate_ids_by_name);
}

unfoldable pub candidate_ids_iter : ExactVectorIndex → String → List NodeId
candidate_ids_iter index vector_name = bucket vector_name index.candidate_ids_by_name

-- `.map(Vec::len).sum::<usize>()`
unfoldable pub sum_lengths : List (List NodeId) → ℕ
sum_lengths [] = 0
sum_lengths (ids ∷ rest) = length ids + sum_lengths rest

unfoldable pub candidate_count : ExactVectorIndex → ℕ
candidate_count index = sum_lengths (values index.candidate_ids_by_name)

unfoldable pub space_count : ExactVectorIndex → ℕ
space_count index = length index.candidate_ids_by_name
