-- ===== src/Api/Candidates.antt =====
-- The searches by vector of a transaction, with the exact index: the candidates of the overlay,
-- compared with those of the snapshot that has the mutation in it.
use undr.Base.{
  ◌≡◌, refl, sym, ◌∙◌, ap, Bool, true, false, ◌&&◌, String, List, [], ◌∷◌, Option, none, some,
  arith, nat_beq, string_key, ◌==◌,
}
use undr.Base.Map
use undr.Base.Map.{is_some, keys, values}
use undr.Base.Set.{contains}
use undr.Common.{NodeId}
use undr.Core.Records.{NodeRecord, EdgeRecord, vector}
use undr.Index.Lookup.{Lookup, has}
use undr.Index.Graph.{
  GraphIndex, delete_edge, delete_node, upsert_edge, upsert_node, node_ids_by_type,
}
use undr.Index.Agreement.{IsIndexOf}
use undr.Index.Build.{upsert_nodes, upsert_edges}
use undr.Index.Found.{contains-keep}
use undr.Index.Rebuilt.{stored}
use undr.Index.Search.{vector_candidate_ids_iter, allowed_ids, is_in_allowed}
use undr.Index.Semantic.{candidates-exact, semantic-exact, allowed-of_type}
use undr.Index.Vectors.Exact.{ExactVectorIndex}
use undr.Index.Vectors.Spaces.{HnswLibrary}
use undr.Index.Vectors.State
use undr.Index.Vectors.State.{VectorIndexState, exact, hnsw}
use undr.Query.View.{
  GraphSnapshot, GraphView, SemanticCandidateQuery, snapshot_view, overlay_graph_view, overlay_node,
  overlay_by_type, overlay_candidates, overlay_semantic, overlay_view, id_of,
}
use undr.Query.Overlay.{contains-overlay_ids}
use undr.Api.Mutation.{
  BatchMutation, graph_mutation_from_batch, delete_edges, delete_nodes, indexes_with_mutation,
  snapshot_with_mutation,
}
use undr.Api.Snapshot.{IsMutation, IsConsistent, snapshot_with_mutation-IsConsistent}
use undr.Api.Overlaid.{after, get, overlay_node-mutated}

-- The backend is the exact index.
abbrev pub IsBruteForce : {R : Type 0} → VectorIndexState R → Type 0
IsBruteForce (exact index) = Unit
IsBruteForce (hnsw index) = ⊥

vectors_of :
    {R : Type 0} (state : VectorIndexState R)
    → IsBruteForce state
    → (vectors : ExactVectorIndex) × (state ≡ exact vectors)
vectors_of (exact index) h = (index, refl)
vectors_of (hnsw index) h = absurd h

module _ {R : Type 0} (library : HnswLibrary R) where
  state_upsert-IsBruteForce :
      (state : VectorIndexState R) (node : NodeRecord)
      → IsBruteForce state
      → IsBruteForce (State.upsert_node library state node)
  unfolding State.upsert_node
  state_upsert-IsBruteForce (exact index) node h = tt
  state_upsert-IsBruteForce (hnsw index) node h = absurd h

  state_delete-IsBruteForce :
      (state : VectorIndexState R) (node : NodeRecord)
      → IsBruteForce state
      → IsBruteForce (State.delete_node library state node)
  unfolding State.delete_node
  state_delete-IsBruteForce (exact index) node h = tt
  state_delete-IsBruteForce (hnsw index) node h = absurd h

  upsert_nodes-IsBruteForce :
      (nodes : List NodeRecord) (index : GraphIndex R)
      → IsBruteForce index.vector_index
      → IsBruteForce (upsert_nodes library index nodes).vector_index
  unfolding upsert_nodes upsert_node
  upsert_nodes-IsBruteForce [] index h = h
  upsert_nodes-IsBruteForce (node ∷ nodes) index h =
      upsert_nodes-IsBruteForce nodes (upsert_node library index node)
        (state_upsert-IsBruteForce index.vector_index node h)

  delete_nodes-IsBruteForce :
      (nodes : List NodeRecord) (index : GraphIndex R)
      → IsBruteForce index.vector_index
      → IsBruteForce (delete_nodes library index nodes).vector_index
  unfolding delete_nodes delete_node
  delete_nodes-IsBruteForce [] index h = h
  delete_nodes-IsBruteForce (node ∷ nodes) index h =
      delete_nodes-IsBruteForce nodes (delete_node library index node)
        (state_delete-IsBruteForce index.vector_index node h)

module _ {R : Type 0} where
  upsert_edges-IsBruteForce :
      (edges : List EdgeRecord) (index : GraphIndex R)
      → IsBruteForce index.vector_index
      → IsBruteForce (upsert_edges index edges).vector_index
  unfolding upsert_edges upsert_edge
  upsert_edges-IsBruteForce [] index h = h
  upsert_edges-IsBruteForce (edge ∷ edges) index h =
      upsert_edges-IsBruteForce edges (upsert_edge index edge) h

  delete_edges-IsBruteForce :
      (edges : List EdgeRecord) (index : GraphIndex R)
      → IsBruteForce index.vector_index
      → IsBruteForce (delete_edges index edges).vector_index
  unfolding delete_edges delete_edge
  delete_edges-IsBruteForce [] index h = h
  delete_edges-IsBruteForce (edge ∷ edges) index h =
      delete_edges-IsBruteForce edges (delete_edge index edge) h

-- The index has a bucket for the type that is asked for, if one is.
abbrev pub HasBucket : {R : Type 0} → Option String → GraphIndex R → Type 0
HasBucket none index = Unit
HasBucket (some t) index = is_some (Map.get t index.label_type_index) ≡ true

-- What a search starts from: the nodes with such a vector, and of the type if one is asked for.
abbrev pub is_wanted : Option String → String → Option NodeRecord → Bool
is_wanted none name o = has (λ node. is_some (vector node name)) o
is_wanted (some t) name o =
    has (λ (node : NodeRecord). node.node_type == t) o && has (λ node. is_some (vector node name)) o

module _ {R : Type 0} (library : HnswLibrary R) (nodes : Lookup NodeRecord)
    (edges : Lookup EdgeRecord) (index : GraphIndex R) (vectors : ExactVectorIndex) where
  allowed-is_wanted :
      (node_type : Option String) (name : String) (id : NodeId)
      → IsIndexOf nodes edges index
      → HasBucket node_type index
      → (is_in_allowed (allowed_ids index node_type) id
          && has (λ node. is_some (vector node name)) (nodes id))
        ≡ is_wanted node_type name (nodes id)
  unfolding allowed_ids
  allowed-is_wanted none name id h bucket = refl
  allowed-is_wanted (some t) name id h bucket =
      ap (λ b. b && has (λ node. is_some (vector node name)) (nodes id))
        (allowed-of_type library nodes edges index vectors t id h bucket)

module _ {R : Type 0} (library : HnswLibrary R) (base : GraphSnapshot R)
    (mutation : BatchMutation) where
  after-IsBruteForce :
      IsBruteForce base.indexes.vector_index
      → IsBruteForce (after library base mutation).indexes.vector_index
  unfolding snapshot_with_mutation indexes_with_mutation
  after-IsBruteForce h =
      let without_edges = delete_edges base.indexes (values mutation.removed_edges) in
      let without_nodes = delete_nodes library without_edges (values mutation.removed_nodes) in
      let with_nodes = upsert_nodes library without_nodes (values mutation.added_nodes) in
      upsert_edges-IsBruteForce (values mutation.added_edges) with_nodes (
        upsert_nodes-IsBruteForce library (values mutation.added_nodes) without_nodes (
          delete_nodes-IsBruteForce library (values mutation.removed_nodes) without_edges
            (delete_edges-IsBruteForce (values mutation.removed_edges) base.indexes h)))

  overlay_candidates-exact :
      (name : String) (id : NodeId)
      → IsMutation base mutation
      → IsConsistent base
      → IsBruteForce base.indexes.vector_index
      → contains id (
          overlay_candidates
            (snapshot_view library base)
            (keys base.nodes)
            (graph_mutation_from_batch mutation)
            name)
        ≡ has (λ node. is_some (vector node name)) (get library base mutation id)
  unfolding overlay_candidates overlay_node snapshot_view graph_mutation_from_batch
      vector_candidate_ids_iter
  overlay_candidates-exact name id m consistent exactly =
      let (vectors, e) = vectors_of base.indexes.vector_index exactly in
      contains-overlay_ids id_of (λ node. is_some (vector node name)) id (get library base mutation)
        (stored base.nodes) (contains id (keys mutation.removed_nodes)) mutation.added_nodes
        (vector_candidate_ids_iter base.indexes name) m.0.added_unique m.0.added_keyed refl
        (candidates-exact library (stored base.nodes) (stored base.edges) base.indexes vectors name
          id e consistent.1)

  overlay_by_type-exact :
      (t : String) (id : NodeId)
      → IsMutation base mutation
      → IsConsistent base
      → contains id (
          overlay_by_type
            (snapshot_view library base)
            (keys base.nodes)
            (graph_mutation_from_batch mutation)
            t)
        ≡ has (λ (node : NodeRecord). node.node_type == t) (get library base mutation id)
  unfolding overlay_by_type overlay_node snapshot_view graph_mutation_from_batch node_ids_by_type
  overlay_by_type-exact t id m consistent =
      contains-overlay_ids id_of (λ (node : NodeRecord). node.node_type == t) id
        (get library base mutation) (stored base.nodes) (contains id (keys mutation.removed_nodes))
        mutation.added_nodes (node_ids_by_type base.indexes t) m.0.added_unique m.0.added_keyed refl
        (consistent.0.types t id)

  overlay_semantic-exact :
      (node_type : Option String) (name : String) (id : NodeId)
      → IsMutation base mutation
      → IsConsistent base
      → IsBruteForce base.indexes.vector_index
      → contains id (
          overlay_semantic
            (snapshot_view library base)
            (keys base.nodes)
            (graph_mutation_from_batch mutation)
            node_type
            name)
        ≡ is_wanted node_type name (get library base mutation id)
  unfolding snapshot_view
  overlay_semantic-exact none name id m consistent exactly =
      overlay_candidates-exact name id m consistent exactly
  overlay_semantic-exact (some t) name id m consistent exactly = ground (
    arith,
    contains-keep (λ i. has (λ node. is_some (vector node name)) (get library base mutation i)) id
        (overlay_by_type (snapshot_view library base) (keys base.nodes)
          (graph_mutation_from_batch mutation) t),
    overlay_by_type-exact t id m consistent,
  )

  after_semantic-exact :
      (query : SemanticCandidateQuery) (id : NodeId)
      → nat_beq query.limit 0 ≡ false
      → HasBucket query.node_type (after library base mutation).indexes
      → IsMutation base mutation
      → IsConsistent base
      → IsBruteForce base.indexes.vector_index
      → contains id
          ((snapshot_view library (after library base mutation)).semantic_candidate_ids_iter query)
        ≡ is_wanted query.node_type query.vector_name
            (Map.get id (after library base mutation).nodes)
  unfolding snapshot_view
  after_semantic-exact query id positive bucket m consistent exactly =
      let changed = after library base mutation in
      let (h, candidates) =
        snapshot_with_mutation-IsConsistent library base mutation m consistent in
      let (vectors, e) = vectors_of changed.indexes.vector_index (after-IsBruteForce exactly) in
      semantic-exact library (stored changed.nodes) (stored changed.edges) changed.indexes vectors
        query.query_vector query.vector_name query.node_type query.limit query.top_k_override id e
        positive candidates
      ∙ allowed-is_wanted library (stored changed.nodes) (stored changed.edges) changed.indexes
          vectors query.node_type query.vector_name id h bucket

  abbrev pub overlay : GraphView
  overlay = overlay_graph_view library base (graph_mutation_from_batch mutation)

  abbrev pub published : GraphView
  published = snapshot_view library (after library base mutation)

  -- With the exact index, where it agrees with the records of a snapshot, for a mutation that removes
  -- what is there and adds what is new or what it removes, and for a query with a limit above 0 that
  -- asks for no type or for one that the mutated snapshot has a bucket for: the overlay of the
  -- mutation and the snapshot with the mutation in it list the same candidates for the name of the
  -- query's vector, and start the search from the same nodes. The order is left aside.
  pub overlay-semantic_candidates :
      (query : SemanticCandidateQuery) (id : NodeId)
      → nat_beq query.limit 0 ≡ false
      → HasBucket query.node_type (after library base mutation).indexes
      → IsMutation base mutation
      → IsConsistent base
      → IsBruteForce base.indexes.vector_index
      → (contains id (overlay.vector_candidate_ids_iter query.vector_name)
          ≡ contains id (published.vector_candidate_ids_iter query.vector_name))
        × (contains id (overlay.semantic_candidate_ids_iter query)
            ≡ contains id (published.semantic_candidate_ids_iter query))
  unfolding overlay_view snapshot_view vector_candidate_ids_iter
  overlay-semantic_candidates query id positive bucket m consistent exactly =
      let changed = after library base mutation in
      let name = query.vector_name in
      let (h, candidates) =
        snapshot_with_mutation-IsConsistent library base mutation m consistent in
      let (vectors, e) = vectors_of changed.indexes.vector_index (after-IsBruteForce exactly) in
      (
        overlay_candidates-exact name id m consistent exactly
            ∙ ap (has (λ node. is_some (vector node name)))
                (overlay_node-mutated library base mutation id m)
            ∙ sym (
                candidates-exact library (stored changed.nodes) (stored changed.edges)
                  changed.indexes vectors name id e candidates),
        overlay_semantic-exact query.node_type name id m consistent exactly
            ∙ ap (is_wanted query.node_type name) (overlay_node-mutated library base mutation id m)
            ∙ sym (after_semantic-exact query id positive bucket m consistent exactly),
      )
