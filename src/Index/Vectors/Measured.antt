-- ===== src/Index/Vectors/Measured.antt =====
-- With the index of hnsw_stable a candidate of a space has a vector of the dimension of the space,
-- but for nodes that are still to be put in.
use mathlib.Core.Option.{some-injective}
use undr.Base.{
  subst, ℕ, ◌≡◌, Bool, true, false, not, ◌||◌, String, List, [], ◌∷◌, Option, none, some, is_empty,
  length, nat_beq, arith, string_key, Bool-cases, Option-cases, inl, inr, if◌then◌else◌,
}
use undr.Base.Map
use undr.Base.Map.{BTreeMap, keys, Unique}
use undr.Base.Set.{contains}
use undr.Common.{NodeId}
use undr.Core.Records.{NodeRecord, vector}
use undr.Index.Buckets.{contains-push_unique, contains-retain_not}
use undr.Index.Lookup.{Lookup, updated, has}
use undr.Index.Vectors.Spaces.{
  Vector, HnswLibrary, HnswVectorSpace, HnswVectorIndex, new_space, lengths, or_new_space,
  upsert_vector, upsert_in_space, upsert_under, delete_from_space, drop_empty_spaces, upsert_node,
  delete_node,
}
use undr.Index.Vectors.Hnsw.{or_built, build_runtime, initialize_runtime_from_nodes}

abbrev pub fits : Option ℕ → Option Vector → Bool
fits none v = false
fits (some dimension) none = false
fits (some dimension) (some v) = nat_beq (length v) dimension

abbrev pub SpaceFits :
    {R : Type 0} → (NodeId → Bool) → Lookup NodeRecord → String → HnswVectorSpace R → Type 0
SpaceFits pending nodes name space =
    (id : NodeId)
    → contains id space.candidate_ids ≡ true
    → (pending id || has (λ node. fits space.dimension (vector node name)) (nodes id)) ≡ true

abbrev pub IsMeasured :
    {R : Type 0}
    → (NodeId → Bool)
    → Lookup NodeRecord
    → BTreeMap String (HnswVectorSpace R)
    → Type 0
IsMeasured {R} pending nodes spaces =
    Unique spaces
    × ((name : String) (space : HnswVectorSpace R)
        → Map.get name spaces ≡ some space
        → SpaceFits pending nodes name space)

module _ {R : Type 0} (library : HnswLibrary R) (pending : NodeId → Bool)
    (nodes : Lookup NodeRecord) (node : NodeRecord) where
  abbrev or_this : NodeId → Bool
  or_this id = string_key.beq node.id id || pending id

  SpaceFits-upsert :
      (name : String) (space : HnswVectorSpace R)
      → nodes node.id ≡ some node
      → SpaceFits or_this nodes name space
      → SpaceFits pending nodes name (upsert_in_space library name node space)
  unfolding upsert_in_space upsert_vector delete_from_space
  SpaceFits-upsert name space here h id = elim (Option-cases (vector node name)) [
    | inl absent ↦ ground (
      arith,
      h id,
      contains-retain_not node.id id space.candidate_ids,
      string_key.beq_iff node.id id,
    )
    | inr (v, present) ↦ elim (Option-cases space.dimension) [
      | inl free ↦ ground (
        arith,
        h id,
        contains-push_unique node.id id space.candidate_ids,
        string_key.beq_iff node.id id,
      )
      | inr (d, fixed) ↦ ground (
        arith,
        h id,
        contains-push_unique node.id id space.candidate_ids,
        contains-retain_not node.id id space.candidate_ids,
        string_key.beq_iff node.id id,
      )
    ]
  ]

  SpaceFits-weaken :
      (name : String) (space : HnswVectorSpace R)
      → SpaceFits pending nodes name space
      → SpaceFits or_this nodes name space
  SpaceFits-weaken name space h id = ground (arith, h id)

  SpaceFits-new :
      (name : String)
      → SpaceFits or_this nodes name (new_space {R = R} (lengths (vector node name)))
  unfolding new_space contains
  SpaceFits-new name id = ground arith

  or_new_space-SpaceFits :
      (name : String) (spaces : BTreeMap String (HnswVectorSpace R))
      → IsMeasured pending nodes spaces
      → SpaceFits or_this nodes name
          (or_new_space (lengths (vector node name)) (Map.get name spaces))
  or_new_space-SpaceFits name spaces h = elim (Option-cases (Map.get name spaces)) [
    | inl absent ↦ rw absent (SpaceFits-new name)
    | inr (space, found) ↦ rw found (SpaceFits-weaken name space (h.1 name space found))
  ]

  upsert_under-IsMeasured :
      (names : List String) (spaces : BTreeMap String (HnswVectorSpace R))
      → nodes node.id ≡ some node
      → IsMeasured pending nodes spaces
      → IsMeasured pending nodes (upsert_under library names node spaces)
  unfolding upsert_under
  upsert_under-IsMeasured [] spaces here h = h
  upsert_under-IsMeasured (name ∷ names) spaces here h =
      let old = or_new_space (lengths (vector node name)) (Map.get name spaces) in
      let new = upsert_in_space library name node old in
      upsert_under-IsMeasured names (Map.insert name new spaces) here (
        Map.insert-Unique name new spaces h.0,
        λ other space found. elim (Bool-cases (string_key.beq name other)) [
          | inl same ↦
              let new_fits =
                SpaceFits-upsert name old here (or_new_space-SpaceFits name spaces h) in
              subst (λ n. SpaceFits pending nodes n space) ((string_key.beq_iff name other).0 same)
                (subst (λ s. SpaceFits pending nodes name s)
                  (some-injective new space (ground (arith, Map.get-insert name other new spaces)))
                  new_fits)
          | inr different ↦ h.1 other space (ground (arith, Map.get-insert name other new spaces))
        ],
      )

module _ {R : Type 0} (pending : NodeId → Bool) (nodes : Lookup NodeRecord)
    (spaces : BTreeMap String (HnswVectorSpace R)) where
  drop_empty_spaces-IsMeasured :
      (library : HnswLibrary R)
      → IsMeasured pending nodes spaces
      → IsMeasured pending nodes (drop_empty_spaces library spaces)
  drop_empty_spaces-IsMeasured library (u, h) =
      let test : HnswVectorSpace R → Bool = λ space. not (is_empty space.candidate_ids) in
      (
        Map.retain-Unique test spaces u,
        λ name space found. elim (Option-cases (Map.get name spaces)) [
          | inl absent ↦ h name space (ground (arith, Map.get-retain name test spaces u))
          | inr (old, present) ↦ h name space (ground (arith, Map.get-retain name test spaces u))
        ],
      )

  -- Every space is changed on its own.
  map_values-IsMeasured :
      (pending' : NodeId → Bool) (nodes' : Lookup NodeRecord)
      (f : String → HnswVectorSpace R → HnswVectorSpace R)
      → ((name : String) (space : HnswVectorSpace R)
          → SpaceFits pending nodes name space
          → SpaceFits pending' nodes' name (f name space))
      → IsMeasured pending nodes spaces
      → IsMeasured pending' nodes' (Map.map_values f spaces)
  map_values-IsMeasured pending' nodes' f each (u, h) = (
    Map.map_values-Unique f spaces u,
    λ name space found. elim (Option-cases (Map.get name spaces)) [
      | inl absent ↦ ground (arith, Map.get-map_values f name spaces)
      | inr (old, present) ↦
          subst (λ s. SpaceFits pending' nodes' name s)
            (some-injective (f name old) space (ground (arith, Map.get-map_values f name spaces)))
            (each name old (h name old present))
    ],
  )

-- The nodes that are still to be put in, once this one is.
abbrev pub but_not : NodeId → (NodeId → Bool) → NodeId → Bool
but_not this pending id = if string_key.beq this id then false else pending id

module _ {R : Type 0} (library : HnswLibrary R) (pending : NodeId → Bool)
    (nodes : Lookup NodeRecord) (node : NodeRecord) (index : HnswVectorIndex R) where
  pub upsert-IsMeasured :
      IsMeasured pending nodes index.spaces
      → IsMeasured
          (but_not node.id pending)
          (updated node.id (some node) nodes)
          (upsert_node library index node).spaces
  unfolding upsert_node
  upsert-IsMeasured h =
      let nodes' = updated node.id (some node) nodes in
      let pending' = but_not node.id pending in
      let f =
        λ (name : String) (space : HnswVectorSpace R). upsert_in_space library name node space in
      let here : nodes' node.id ≡ some node = ground (arith, string_key.beq_iff node.id node.id) in
      let refreshed = Map.map_values f index.spaces in
      drop_empty_spaces-IsMeasured pending' nodes'
        (upsert_under library (keys node.vectors) node refreshed) library
        (upsert_under-IsMeasured library pending' nodes' node (keys node.vectors) refreshed here (
          map_values-IsMeasured pending nodes index.spaces pending' nodes' f
            (λ name space old.
              SpaceFits-upsert library pending' nodes' node name space here
                λ id among. ground (arith, old id among))
            h))

  pub delete-IsMeasured :
      IsMeasured pending nodes index.spaces
      → IsMeasured pending (updated node.id none nodes) (delete_node library index node).spaces
  unfolding delete_node
  delete-IsMeasured h =
      let nodes' = updated node.id none nodes in
      let f = λ (name : String) (space : HnswVectorSpace R). delete_from_space library space node in
      drop_empty_spaces-IsMeasured pending nodes' (Map.map_values f index.spaces) library (
        map_values-IsMeasured pending nodes index.spaces pending nodes' f
          (λ name space old. λ id among.
            unfold delete_from_space in
            ground (arith, old id, contains-retain_not node.id id space.candidate_ids))
          h)

-- The same spaces with fewer demands, and with other graphs.
module _ {R : Type 0} (pending : NodeId → Bool) (nodes : Lookup NodeRecord) where
  pub IsMeasured-imp :
      (pending' : NodeId → Bool) (spaces : BTreeMap String (HnswVectorSpace R))
      → ((id : NodeId) → pending id ≡ true → pending' id ≡ true)
      → IsMeasured pending nodes spaces
      → IsMeasured pending' nodes spaces
  IsMeasured-imp pending' spaces more (u, h) =
      (u, λ name space found id among. ground (arith, more id, h name space found id among))

  pub initialize-IsMeasured :
      (library : HnswLibrary R) (index : HnswVectorIndex R) (records : List NodeRecord)
      → IsMeasured pending nodes index.spaces
      → IsMeasured pending nodes (initialize_runtime_from_nodes library index records).spaces
  unfolding initialize_runtime_from_nodes
  initialize-IsMeasured library index records h =
      let f : String → HnswVectorSpace R → HnswVectorSpace R = λ name space. record space {
        runtime = or_built space.runtime (build_runtime library index name records space);
      } in
      map_values-IsMeasured pending nodes index.spaces pending nodes f (λ name space old. old) h
