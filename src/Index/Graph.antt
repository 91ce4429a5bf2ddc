-- ===== src/Index/Graph.antt =====
-- `GraphIndex`: the record, and its updates by a node or an edge.
use undr.Base.{Bool, String, List, [], Option, none, some, ◌==◌, string_key, Key, if◌then◌else◌}
use undr.Base.Int.{ℤ, int_key}
use undr.Base.Map
use undr.Base.Map.{BTreeMap}
use undr.Base.Set
use undr.Base.Set.{BTreeSet}
use undr.Common.{NodeId, EdgeId}
use undr.Core.Value.{PropertyValue, string}
use undr.Core.Records.{NodeRecord, EdgeRecord, timestamp_ms}
use undr.Index.Buckets.{push_at, remove_from_bucket, bucket}
use undr.Index.Vectors.Spaces.{HnswLibrary}
use undr.Index.Vectors.State
use undr.Index.Vectors.State.{VectorIndexState, VectorIndexConfig, exact, no_vectors, from_config}

pub record GraphIndex (R : Type 0) : Type 0 where
  pub node_ids : BTreeSet NodeId
  pub unique_key_index : BTreeMap String NodeId
  pub adjacency_index : BTreeMap NodeId (List EdgeId)
  pub reverse_adjacency_index : BTreeMap NodeId (List EdgeId)
  pub label_type_index : BTreeMap String (List NodeId)
  pub temporal_index : BTreeMap ℤ (List NodeId)
  pub vector_index : VectorIndexState R

-- `GraphIndex::default()`, with the state of the vectors.
unfoldable pub empty_index : {R : Type 0} → VectorIndexState R → GraphIndex R
empty_index vectors = record {
  node_ids = [];
  unique_key_index = [];
  adjacency_index = [];
  reverse_adjacency_index = [];
  label_type_index = [];
  temporal_index = [];
  vector_index = vectors;
}

-- `if let Some(PropertyValue::String(unique_key))`
abbrev pub as_unique_key : Option PropertyValue → Option String
as_unique_key (some (string key)) = some key
as_unique_key value = none

unfoldable pub unique_key : NodeRecord → Option String
unique_key node = as_unique_key (Map.get "unique_key" node.properties)

-- `if let Some(key) = key { push_unique(index.entry(key).or_default(), id) }`
abbrev pub push_some {ℓ} :
    {K : Type ℓ} ⦃key : Key K⦄
    → Option K
    → String
    → BTreeMap K (List String)
    → BTreeMap K (List String)
push_some none id index = index
push_some (some k) id index = push_at k id index

-- `if let Some(key) = key { remove_from_bucket(index, &key, id) }`
abbrev pub remove_some {ℓ} :
    {K : Type ℓ} ⦃key : Key K⦄
    → Option K
    → String
    → BTreeMap K (List String)
    → BTreeMap K (List String)
remove_some none id index = index
remove_some (some k) id index = remove_from_bucket k id index

abbrev pub insert_unique : Option String → NodeId → BTreeMap String NodeId → BTreeMap String NodeId
insert_unique none id index = index
insert_unique (some key) id index = Map.insert key id index

-- `if unique_key_index.get(key) == Some(&node.id) { unique_key_index.remove(key); }`
abbrev pub remove_owned :
    String → NodeId → Option NodeId → BTreeMap String NodeId → BTreeMap String NodeId
remove_owned key id none index = index
remove_owned key id (some owner) index = if owner == id then Map.remove key index else index

abbrev pub remove_unique : Option String → NodeId → BTreeMap String NodeId → BTreeMap String NodeId
remove_unique none id index = index
remove_unique (some key) id index = remove_owned key id (Map.get key index) index

module _ {R : Type 0} (library : HnswLibrary R) where
  unfoldable pub upsert_node : GraphIndex R → NodeRecord → GraphIndex R
  upsert_node index node = record index {
    node_ids = Set.insert node.id index.node_ids;
    label_type_index = push_at node.node_type node.id index.label_type_index;
    temporal_index = push_some (timestamp_ms node) node.id index.temporal_index;
    vector_index = State.upsert_node library index.vector_index node;
    unique_key_index = insert_unique (unique_key node) node.id index.unique_key_index;
  }

  unfoldable pub delete_node : GraphIndex R → NodeRecord → GraphIndex R
  delete_node index node = record index {
    node_ids = Set.remove node.id index.node_ids;
    label_type_index = remove_from_bucket node.node_type node.id index.label_type_index;
    temporal_index = remove_some (timestamp_ms node) node.id index.temporal_index;
    vector_index = State.delete_node library index.vector_index node;
    unique_key_index = remove_unique (unique_key node) node.id index.unique_key_index;
  }

module _ {R : Type 0} where
  unfoldable pub upsert_edge : GraphIndex R → EdgeRecord → GraphIndex R
  upsert_edge index edge = record index {
    adjacency_index = push_at edge.source edge.id index.adjacency_index;
    reverse_adjacency_index = push_at edge.target edge.id index.reverse_adjacency_index;
  }

  unfoldable pub delete_edge : GraphIndex R → EdgeRecord → GraphIndex R
  delete_edge index edge = record index {
    adjacency_index = remove_from_bucket edge.source edge.id index.adjacency_index;
    reverse_adjacency_index = remove_from_bucket edge.target edge.id index.reverse_adjacency_index;
  }

  unfoldable pub contains_node : GraphIndex R → NodeId → Bool
  contains_node index id = Set.contains id index.node_ids

  unfoldable pub lookup_unique_key : GraphIndex R → String → Option NodeId
  lookup_unique_key index key = Map.get key index.unique_key_index

  unfoldable pub node_ids_by_type : GraphIndex R → String → List NodeId
  node_ids_by_type index node_type = bucket node_type index.label_type_index
