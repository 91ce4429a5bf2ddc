-- ===== src/Query/View.antt =====
-- `GraphSnapshot`, `GraphMutation` and the trait `GraphView`, with its two implementations.
use undr.Base.{
  ℕ, Bool, false, not, ◌&&◌, String, List, [], ◌∷◌, Option, none, some, map, keep, find, string_key,
  if◌then◌else◌, ◌==◌,
}
use undr.Base.Int.{ℤ}
use undr.Base.Map
use undr.Base.Map.{BTreeMap, keys, values, is_some, mapped}
use undr.Base.Set
use undr.Base.Set.{BTreeSet}
use undr.Common.{NodeId, EdgeId, Result, ok, ◌>>=◌}
use undr.Core.Records.{NodeRecord, EdgeRecord, timestamp_ms, vector, and_then}
use undr.Index.Lookup.{Lookup, has, EdgeDirection, touches, has_type, is_within}
use undr.Index.Graph.{GraphIndex, unique_key, contains_node, lookup_unique_key, node_ids_by_type}
use undr.Index.Search.{
  edge_ids_for_iter, node_ids_in_time_range, vector_candidate_ids_iter, semantic_candidate_ids,
}
use undr.Index.Vectors.Spaces.{Vector, HnswLibrary}

pub record GraphSnapshot (R : Type 0) : Type 0 where
  pub nodes : BTreeMap NodeId NodeRecord
  pub edges : BTreeMap EdgeId EdgeRecord
  pub indexes : GraphIndex R

pub record GraphMutation : Type 0 where
  pub removed_node_ids : BTreeSet NodeId
  pub removed_edge_ids : BTreeSet EdgeId
  pub added_nodes : BTreeMap NodeId NodeRecord
  pub added_edges : BTreeMap EdgeId EdgeRecord

pub record SemanticCandidateQuery : Type 0 where
  pub query_vector : Vector
  pub vector_name : String
  pub node_type : Option String
  pub limit : ℕ
  pub top_k_override : Option ℕ

pub record GraphView : Type 0 where
  pub get_node : NodeId → Option NodeRecord
  pub get_edge : EdgeId → Option EdgeRecord
  pub contains_node : NodeId → Bool
  pub lookup_unique_key : String → Option NodeId
  pub node_ids_by_type : String → List NodeId
  pub edge_ids_for_iter : NodeId → EdgeDirection → Option String → List EdgeId
  pub node_ids_in_time_range_iter : ℤ → ℤ → Result (List NodeId)
  pub vector_candidate_ids_iter : String → List NodeId
  pub semantic_candidate_ids_iter : SemanticCandidateQuery → List NodeId
  pub all_nodes_iter : List NodeRecord

unfoldable pub snapshot_view : {R : Type 0} → HnswLibrary R → GraphSnapshot R → GraphView
snapshot_view library snapshot = record {
  get_node = λ id. Map.get id snapshot.nodes;
  get_edge = λ id. Map.get id snapshot.edges;
  contains_node = λ id. contains_node snapshot.indexes id;
  lookup_unique_key = λ key. lookup_unique_key snapshot.indexes key;
  node_ids_by_type = λ node_type. node_ids_by_type snapshot.indexes node_type;
  edge_ids_for_iter = λ id direction edge_type.
      edge_ids_for_iter snapshot.indexes id direction (λ e. Map.get e snapshot.edges) edge_type;
  node_ids_in_time_range_iter = λ from to. node_ids_in_time_range snapshot.indexes from to;
  vector_candidate_ids_iter = λ name. vector_candidate_ids_iter snapshot.indexes name;
  semantic_candidate_ids_iter = λ query.
      semantic_candidate_ids library snapshot.indexes query.query_vector query.vector_name
        query.node_type query.limit query.top_k_override;
  all_nodes_iter = values snapshot.nodes;
}

-- What was added counts first, then what was removed, then the base.
abbrev pub overlaid : {A : Type 0} → Option A → Bool → Option A → Option A
overlaid (some a) removed base = some a
overlaid none removed base = if removed then none else base

unfoldable pub overlay_node : GraphMutation → Lookup NodeRecord → Lookup NodeRecord
overlay_node mutation base id =
    overlaid (Map.get id mutation.added_nodes) (Set.contains id mutation.removed_node_ids) (base id)

unfoldable pub overlay_edge : GraphMutation → Lookup EdgeRecord → Lookup EdgeRecord
overlay_edge mutation base id =
    overlaid (Map.get id mutation.added_edges) (Set.contains id mutation.removed_edge_ids) (base id)

-- `edge_matches`
unfoldable pub edge_matches : EdgeRecord → NodeId → EdgeDirection → Option String → Bool
edge_matches edge node_id direction edge_type =
    touches node_id direction edge && has_type edge_type edge

unfoldable pub within_required_time_range : NodeRecord → ℤ → ℤ → Bool
within_required_time_range node from to = is_within from to (timestamp_ms node)

-- The identifiers of the base whose records pass in the overlay, and those of the added records
-- that pass, as a set.
unfoldable pub overlay_ids :
    {A : Type 0}
    → (A → String)
    → (A → Bool)
    → Lookup A
    → BTreeMap String A
    → List String
    → BTreeSet String
overlay_ids id test get added base_ids =
    Set.extend (Set.extend [] (keep (λ i. has test (get i)) base_ids))
      (map id (keep test (values added)))

abbrev pub is_key : String → Option String → Bool
is_key key none = false
is_key key (some k) = k == key

-- `option.filter(test)`
abbrev pub filtered {ℓ} : {A : Type ℓ} → (A → Bool) → Option A → Option A
filtered test none = none
filtered test (some a) = if test a then some a else none

-- `ids.filter_map(get)`
unfoldable pub records_of : {A : Type 0} → Lookup A → List String → List A
records_of get [] = []
records_of get (id ∷ ids) = elim (get id) [
  | none ↦ records_of get ids
  | some a ↦ a ∷ records_of get ids
]

abbrev pub id_of : NodeRecord → NodeId
id_of node = node.id

abbrev pub edge_id_of : EdgeRecord → EdgeId
edge_id_of edge = edge.id

-- `first.or_else(second)`
abbrev pub or_else {ℓ} : {A : Type ℓ} → Option A → Option A → Option A
or_else none second = second
or_else (some a) second = some a

module _ (base : GraphView) (base_ids : List NodeId) (mutation : GraphMutation) where
  unfoldable pub overlay_unique_key : String → Option NodeId
  unfolding overlay_node
  overlay_unique_key key =
      let get = overlay_node mutation base.get_node in
      or_else
        (mapped id_of (find (λ node. is_key key (unique_key node)) (values mutation.added_nodes)))
        (filtered (λ id. is_key key (and_then (get id) unique_key))
          (filtered (λ id. is_some (get id)) (base.lookup_unique_key key)))

  unfoldable pub overlay_by_type : String → List NodeId
  unfolding overlay_node overlay_ids
  overlay_by_type node_type =
      overlay_ids id_of (λ node. node.node_type == node_type) (overlay_node mutation base.get_node)
        mutation.added_nodes (base.node_ids_by_type node_type)

  unfoldable pub overlay_candidates : String → List NodeId
  unfolding overlay_node overlay_ids
  overlay_candidates name =
      overlay_ids id_of (λ node. is_some (vector node name)) (overlay_node mutation base.get_node)
        mutation.added_nodes (base.vector_candidate_ids_iter name)

  -- `semantic_candidate_ids_iter`, which leaves the vector, the limit and top_k aside.
  abbrev pub overlay_semantic : Option String → String → List NodeId
  overlay_semantic none name = overlay_candidates name
  overlay_semantic (some node_type) name =
      keep (λ id. has (λ node. is_some (vector node name)) (overlay_node mutation base.get_node id))
        (overlay_by_type node_type)

  -- The base's `nodes.keys()` are `base_ids`.
  unfoldable pub overlay_view : GraphView
  unfolding overlay_node overlay_edge overlay_ids overlay_unique_key overlay_by_type
      overlay_candidates records_of edge_matches within_required_time_range
  overlay_view = record {
    get_node = overlay_node mutation base.get_node;
    get_edge = overlay_edge mutation base.get_edge;
    contains_node = λ id. is_some (overlay_node mutation base.get_node id);
    lookup_unique_key = overlay_unique_key;
    node_ids_by_type = overlay_by_type;
    edge_ids_for_iter = λ id direction edge_type.
        overlay_ids edge_id_of (λ edge. edge_matches edge id direction edge_type)
          (overlay_edge mutation base.get_edge) mutation.added_edges
          (base.edge_ids_for_iter id direction edge_type);
    node_ids_in_time_range_iter = λ from to. do
      ids ← base.node_ids_in_time_range_iter from to
      ok (
          overlay_ids id_of (λ node. within_required_time_range node from to)
            (overlay_node mutation base.get_node) mutation.added_nodes ids);
    vector_candidate_ids_iter = overlay_candidates;
    semantic_candidate_ids_iter = λ query. overlay_semantic query.node_type query.vector_name;
    all_nodes_iter = records_of (overlay_node mutation base.get_node) (
        Set.extend
          (Set.extend [] (keep (λ id. not (Set.contains id mutation.removed_node_ids)) base_ids))
          (keys mutation.added_nodes));
  }

-- `OverlayGraphView::new`
abbrev pub overlay_graph_view :
    {R : Type 0} → HnswLibrary R → GraphSnapshot R → GraphMutation → GraphView
overlay_graph_view library base mutation =
    overlay_view (snapshot_view library base) (keys base.nodes) mutation
