-- ===== src/Index/Build.antt =====
-- `GraphIndex::rebuild`: an index that is built from some records agrees with them.
use undr.Base.{
  ◌≡◌, refl, Bool, false, String, List, [], ◌∷◌, none, some, map, arith, string_key, if◌then◌else◌,
}
use undr.Base.Int.{int_key}
use undr.Base.Set.{contains}
use undr.Common.{NodeId}
use undr.Core.Records.{NodeRecord, EdgeRecord}
use undr.Index.Lookup.{Lookup, updated}
use undr.Index.Graph.{GraphIndex, empty_index, upsert_node, upsert_edge}
use undr.Index.Agreement.{
  IsIndexOf, HasCandidates, nothing_pending, upsert_node-IsIndexOf, upsert_edge-IsIndexOf,
  upsert-HasCandidates, HasCandidates-imp,
}
use undr.Index.Vectors.Spaces.{HnswLibrary}
use undr.Index.Vectors.State
use undr.Index.Vectors.State.{VectorIndexState, exact, hnsw, VectorIndexConfig, from_config}

module _ {R : Type 0} where
  unfoldable pub upsert_edges : GraphIndex R → List EdgeRecord → GraphIndex R
  upsert_edges index [] = index
  upsert_edges index (edge ∷ edges) = upsert_edges (upsert_edge index edge) edges

  abbrev pub initialized : HnswLibrary R → List NodeRecord → GraphIndex R → GraphIndex R
  initialized library nodes index = record index {
    vector_index = State.initialize_runtime_from_nodes library index.vector_index nodes;
  }

module _ {R : Type 0} (library : HnswLibrary R) where
  unfoldable pub upsert_nodes : GraphIndex R → List NodeRecord → GraphIndex R
  upsert_nodes index [] = index
  upsert_nodes index (node ∷ nodes) = upsert_nodes (upsert_node library index node) nodes

  -- `rebuild_with_config`, which loads no graph.
  unfoldable pub rebuild_with_config :
      List NodeRecord → List EdgeRecord → VectorIndexConfig → GraphIndex R
  unfolding upsert_nodes upsert_edges
  rebuild_with_config nodes edges config =
      let start = empty_index (from_config config.backend config.settings nodes) in
      initialized library nodes (upsert_edges (upsert_nodes start nodes) edges)

-- The records of a list, added one after the other.
abbrev pub with_all : {A : Type 0} → (A → String) → List A → Lookup A → Lookup A
with_all id [] records = records
with_all id (a ∷ rest) records = with_all id rest (updated (id a) (some a) records)

-- No identifier stands twice or is there already.
abbrev pub AreNew : {A : Type 0} → (A → String) → List A → Lookup A → Type 0
AreNew id [] records = Unit
AreNew id (a ∷ rest) records =
    (records (id a) ≡ none) × AreNew id rest (updated (id a) (some a) records)

abbrev pub node_id : NodeRecord → String
node_id node = node.id

abbrev pub edge_id : EdgeRecord → String
edge_id edge = edge.id

abbrev pub ids_of : List NodeRecord → NodeId → Bool
ids_of nodes id = contains id (map node_id nodes)

module _ {R : Type 0} (library : HnswLibrary R) where
  pub upsert_nodes-IsIndexOf :
      (added : List NodeRecord) (nodes : Lookup NodeRecord) (edges : Lookup EdgeRecord)
      (index : GraphIndex R)
      → AreNew node_id added nodes
      → IsIndexOf nodes edges index
      → IsIndexOf (with_all node_id added nodes) edges (upsert_nodes library index added)
  unfolding upsert_nodes
  upsert_nodes-IsIndexOf [] nodes edges index new h = h
  upsert_nodes-IsIndexOf (node ∷ added) nodes edges index new h =
      upsert_nodes-IsIndexOf added (updated node.id (some node) nodes) edges
        (upsert_node library index node) new.1
        (upsert_node-IsIndexOf library nodes edges index node new.0 h)

  -- With all of them nothing is pending any more.
  pub upsert_nodes-HasCandidates :
      (added : List NodeRecord) (nodes : Lookup NodeRecord) (index : GraphIndex R)
      → HasCandidates (ids_of added) nodes index.vector_index
      → HasCandidates nothing_pending
          (with_all node_id added nodes)
          (upsert_nodes library index added).vector_index
  unfolding upsert_nodes upsert_node contains
  upsert_nodes-HasCandidates [] nodes index h = h
  upsert_nodes-HasCandidates (node ∷ added) nodes index h =
      let vectors = State.upsert_node library index.vector_index node in
      let nodes' = updated node.id (some node) nodes in
      upsert_nodes-HasCandidates added nodes' (upsert_node library index node) (
        HasCandidates-imp
          (λ id. if string_key.beq node.id id then false else ids_of (node ∷ added) id) nodes'
          (ids_of added) vectors (λ id. ground arith)
          (upsert-HasCandidates library (ids_of (node ∷ added)) nodes node index.vector_index h))

module _ {R : Type 0} where
  pub upsert_edges-IsIndexOf :
      (added : List EdgeRecord) (nodes : Lookup NodeRecord) (edges : Lookup EdgeRecord)
      (index : GraphIndex R)
      → AreNew edge_id added edges
      → IsIndexOf nodes edges index
      → IsIndexOf nodes (with_all edge_id added edges) (upsert_edges index added)
  unfolding upsert_edges
  upsert_edges-IsIndexOf [] nodes edges index new h = h
  upsert_edges-IsIndexOf (edge ∷ added) nodes edges index new h =
      upsert_edges-IsIndexOf added nodes (updated edge.id (some edge) edges)
        (upsert_edge index edge) new.1 (upsert_edge-IsIndexOf nodes edges index edge new.0 h)

  pub upsert_edges-vectors :
      (added : List EdgeRecord) (index : GraphIndex R)
      → (upsert_edges index added).vector_index ≡ index.vector_index
  unfolding upsert_edges upsert_edge
  upsert_edges-vectors [] index = refl
  upsert_edges-vectors (edge ∷ added) index = upsert_edges-vectors added (upsert_edge index edge)
