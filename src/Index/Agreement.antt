-- ===== src/Index/Agreement.antt =====
-- What an index says of the records it holds, and that its updates keep it. The records are given
-- as a function from their identifiers.
use undr.Base.{
  ◌≡◌, Bool, true, false, String, List, Option, none, some, arith, string_key, Key, Option-cases,
  inl, inr,
}
use undr.Base.Int.{int_key}
use undr.Base.Map
use undr.Base.Map.{BTreeMap, is_some}
use undr.Base.Set
use undr.Common.{NodeId}
use undr.Core.Records.{NodeRecord, EdgeRecord, timestamp_ms}
use undr.Index.Lookup.{Lookup, updated, has}
use undr.Index.Buckets.{
  bucket, contains-push_at, contains-remove_from_bucket, push_at-Unique, remove_from_bucket-Unique,
}
use undr.Index.Graph.{
  GraphIndex, unique_key, push_some, remove_some, insert_unique, remove_unique, upsert_node,
  delete_node, upsert_edge, delete_edge,
}
use undr.Index.Vectors.Spaces.{HnswLibrary}
use undr.Index.Vectors.State
use undr.Index.Vectors.State.{VectorIndexState, exact, hnsw}
use undr.Index.Vectors.Known.{IsExact, upsert-IsExact, delete-IsExact}
use undr.Index.Vectors.Measured.{
  IsMeasured, but_not, upsert-IsMeasured, delete-IsMeasured, IsMeasured-imp,
}

abbrev pub is_at {ℓ} : {K : Type ℓ} ⦃key : Key K⦄ → K → Option K → Bool
is_at k none = false
is_at ⦃key⦄ k (some j) = key.beq j k

-- The bucket of a key has the identifiers of the records with this key.
abbrev pub IsBucketed {ℓ} :
    {A : Type 0} {K : Type ℓ} ⦃key : Key K⦄
    → (A → Option K)
    → Lookup A
    → BTreeMap K (List String)
    → Type ℓ
IsBucketed {K = K} field records index =
    (k : K) (id : String)
    → Set.contains id (bucket k index) ≡ has (λ a. is_at k (field a)) (records id)

module _ {ℓ} {A : Type 0} {K : Type ℓ} ⦃key : Key K⦄ (field : A → Option K) (records : Lookup A)
    (index : BTreeMap K (List String)) where
  pub IsBucketed-push :
      (id : String) (a : A)
      → records id ≡ none
      → IsBucketed field records index
      → IsBucketed field (updated id (some a) records) (push_some (field a) id index)
  IsBucketed-push id a absent h k j = elim (Option-cases (field a)) [
    | inl keyless ↦ ground (arith, h k j, string_key.beq_iff id j)
    | inr (i, keyed) ↦
        ground (arith, h k j, contains-push_at i k id j index, string_key.beq_iff id j)
  ]

  pub IsBucketed-remove :
      (id : String) (a : A)
      → records id ≡ some a
      → IsBucketed field records index
      → IsBucketed field (updated id none records) (remove_some (field a) id index)
  IsBucketed-remove id a present h k j = elim (Option-cases (field a)) [
    | inl keyless ↦ ground (arith, h k j, string_key.beq_iff id j)
    | inr (i, keyed) ↦
        ground (arith, h k j, contains-remove_from_bucket i k id j index, string_key.beq_iff id j)
  ]

module _ {ℓ} {K : Type ℓ} ⦃key : Key K⦄ where
  push_some-Unique :
      (field : Option K) (id : String) (index : BTreeMap K (List String))
      → Map.Unique index
      → Map.Unique (push_some field id index)
  push_some-Unique none id index u = u
  push_some-Unique (some k) id index u = push_at-Unique k id index u

  remove_some-Unique :
      (field : Option K) (id : String) (index : BTreeMap K (List String))
      → Map.Unique index
      → Map.Unique (remove_some field id index)
  remove_some-Unique none id index u = u
  remove_some-Unique (some k) id index u = remove_from_bucket-Unique k id index u

-- An owner of a unique key has this key.
abbrev pub IsOwned : Lookup NodeRecord → BTreeMap String NodeId → Type 0
IsOwned nodes index =
    (key : String) (id : NodeId)
    → Map.get key index ≡ some id
    → has (λ node. is_at key (unique_key node)) (nodes id) ≡ true

abbrev node_type_of : NodeRecord → Option String
node_type_of node = some node.node_type

abbrev source_of : EdgeRecord → Option String
source_of edge = some edge.source

abbrev target_of : EdgeRecord → Option String
target_of edge = some edge.target

pub record IsIndexOf {R : Type 0} (nodes : Lookup NodeRecord) (edges : Lookup EdgeRecord)
    (index : GraphIndex R) : Type 0 where
  pub ids : (id : NodeId) → Set.contains id index.node_ids ≡ is_some (nodes id)
  pub types : IsBucketed node_type_of nodes index.label_type_index
  pub times : IsBucketed timestamp_ms nodes index.temporal_index
  pub times_unique : Map.Unique index.temporal_index
  pub sources : IsBucketed source_of edges index.adjacency_index
  pub targets : IsBucketed target_of edges index.reverse_adjacency_index
  pub owners : IsOwned nodes index.unique_key_index

module _ (nodes : Lookup NodeRecord) (index : BTreeMap String NodeId) (node : NodeRecord) where
  insert-IsOwned :
      nodes node.id ≡ none
      → IsOwned nodes index
      → IsOwned (updated node.id (some node) nodes) (insert_unique (unique_key node) node.id index)
  insert-IsOwned absent h key id found = elim (Option-cases (unique_key node)) [
    | inl keyless ↦ ground (arith, h key id, string_key.beq_iff node.id id)
    | inr (u, keyed) ↦
        ground (arith, h key id, Map.get-insert u key node.id index, string_key.beq_iff node.id id)
  ]

  remove-IsOwned :
      nodes node.id ≡ some node
      → IsOwned nodes index
      → IsOwned (updated node.id none nodes) (remove_unique (unique_key node) node.id index)
  remove-IsOwned present h key id found = elim (Option-cases (unique_key node)) [
    | inl keyless ↦ ground (arith, h key id, string_key.beq_iff node.id id)
    | inr (u, keyed) ↦ elim (Option-cases (Map.get u index)) [
      | inl free ↦ ground (arith, h key id, string_key.beq_iff node.id id, string_key.beq_iff u key)
      | inr (owner, owned) ↦ ground (
        arith,
        h key id,
        Map.get-remove u key index,
        string_key.beq_iff node.id id,
        string_key.beq_iff owner node.id,
        string_key.beq_iff u key,
      )
    ]
  ]

module _ {R : Type 0} (library : HnswLibrary R) (nodes : Lookup NodeRecord)
    (edges : Lookup EdgeRecord) (index : GraphIndex R) where
  pub upsert_node-IsIndexOf :
      (node : NodeRecord)
      → nodes node.id ≡ none
      → IsIndexOf nodes edges index
      → IsIndexOf (updated node.id (some node) nodes) edges (upsert_node library index node)
  unfolding upsert_node
  upsert_node-IsIndexOf node absent h = record {
    ids = λ id. ground (arith, h.ids id, Set.contains-insert node.id id index.node_ids);
    types = IsBucketed-push node_type_of nodes index.label_type_index node.id node absent h.types;
    times = IsBucketed-push timestamp_ms nodes index.temporal_index node.id node absent h.times;
    times_unique = push_some-Unique (timestamp_ms node) node.id index.temporal_index h.times_unique;
    sources = h.sources;
    targets = h.targets;
    owners = insert-IsOwned nodes index.unique_key_index node absent h.owners;
  }

  pub delete_node-IsIndexOf :
      (node : NodeRecord)
      → nodes node.id ≡ some node
      → IsIndexOf nodes edges index
      → IsIndexOf (updated node.id none nodes) edges (delete_node library index node)
  unfolding delete_node
  delete_node-IsIndexOf node present h = record {
    ids = λ id. ground (arith, h.ids id, Set.contains-remove node.id id index.node_ids);
    types =
        IsBucketed-remove node_type_of nodes index.label_type_index node.id node present h.types;
    times = IsBucketed-remove timestamp_ms nodes index.temporal_index node.id node present h.times;
    times_unique =
        remove_some-Unique (timestamp_ms node) node.id index.temporal_index h.times_unique;
    sources = h.sources;
    targets = h.targets;
    owners = remove-IsOwned nodes index.unique_key_index node present h.owners;
  }

module _ {R : Type 0} (nodes : Lookup NodeRecord) (edges : Lookup EdgeRecord)
    (index : GraphIndex R) where
  pub upsert_edge-IsIndexOf :
      (edge : EdgeRecord)
      → edges edge.id ≡ none
      → IsIndexOf nodes edges index
      → IsIndexOf nodes (updated edge.id (some edge) edges) (upsert_edge index edge)
  unfolding upsert_edge
  upsert_edge-IsIndexOf edge absent h = record {
    ids = h.ids;
    types = h.types;
    times = h.times;
    times_unique = h.times_unique;
    sources = IsBucketed-push source_of edges index.adjacency_index edge.id edge absent h.sources;
    targets =
        IsBucketed-push target_of edges index.reverse_adjacency_index edge.id edge absent h.targets;
    owners = h.owners;
  }

  pub delete_edge-IsIndexOf :
      (edge : EdgeRecord)
      → edges edge.id ≡ some edge
      → IsIndexOf nodes edges index
      → IsIndexOf nodes (updated edge.id none edges) (delete_edge index edge)
  unfolding delete_edge
  delete_edge-IsIndexOf edge present h = record {
    ids = h.ids;
    types = h.types;
    times = h.times;
    times_unique = h.times_unique;
    sources =
        IsBucketed-remove source_of edges index.adjacency_index edge.id edge present h.sources;
    targets =
        IsBucketed-remove target_of edges index.reverse_adjacency_index edge.id edge present
          h.targets;
    owners = h.owners;
  }

-- The candidates of either index of vectors, but for nodes that are still to be put in.
abbrev pub HasCandidates :
    {R : Type 0} → (NodeId → Bool) → Lookup NodeRecord → VectorIndexState R → Type 0
HasCandidates pending nodes (exact index) = IsExact nodes index.candidate_ids_by_name
HasCandidates pending nodes (hnsw index) = IsMeasured pending nodes index.spaces

module _ {R : Type 0} (library : HnswLibrary R) (pending : NodeId → Bool)
    (nodes : Lookup NodeRecord) (node : NodeRecord) where
  pub upsert-HasCandidates :
      (vectors : VectorIndexState R)
      → HasCandidates pending nodes vectors
      → HasCandidates
          (but_not node.id pending)
          (updated node.id (some node) nodes)
          (State.upsert_node library vectors node)
  unfolding State.upsert_node
  upsert-HasCandidates (exact index) h = upsert-IsExact nodes node index h
  upsert-HasCandidates (hnsw index) h = upsert-IsMeasured library pending nodes node index h

  pub delete-HasCandidates :
      (vectors : VectorIndexState R)
      → HasCandidates pending nodes vectors
      → HasCandidates pending (updated node.id none nodes) (State.delete_node library vectors node)
  unfolding State.delete_node
  delete-HasCandidates (exact index) h = delete-IsExact nodes node index h
  delete-HasCandidates (hnsw index) h = delete-IsMeasured library pending nodes node index h

module _ {R : Type 0} (pending : NodeId → Bool) (nodes : Lookup NodeRecord) where
  pub HasCandidates-imp :
      (pending' : NodeId → Bool) (vectors : VectorIndexState R)
      → ((id : NodeId) → pending id ≡ true → pending' id ≡ true)
      → HasCandidates pending nodes vectors
      → HasCandidates pending' nodes vectors
  HasCandidates-imp pending' (exact index) more h = h
  HasCandidates-imp pending' (hnsw index) more h =
      IsMeasured-imp pending nodes pending' index.spaces more h

abbrev pub nothing_pending : NodeId → Bool
nothing_pending id = false

-- An index agrees with the records: every set and bucket of it, and the candidates.
abbrev pub Agrees : {R : Type 0} → Lookup NodeRecord → Lookup EdgeRecord → GraphIndex R → Type 0
Agrees nodes edges index =
    IsIndexOf nodes edges index × HasCandidates nothing_pending nodes index.vector_index
