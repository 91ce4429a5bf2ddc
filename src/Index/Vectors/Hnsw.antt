-- ===== src/Index/Vectors/Hnsw.antt =====
-- `HnswVectorIndex`: its measures, the building of the graphs and the search in them.
use undr.Base.{
  ℕ, max, min, Bool, not, ◌||◌, String, List, [], ◌∷◌, Option, none, some, length, all, any, map,
  leb, nat_beq, string_key, if◌then◌else◌,
}
use undr.Base.Map
use undr.Base.Map.{BTreeMap, keys, values, is_some}
use undr.Base.Set
use undr.Base.Set.{BTreeSet}
use undr.Common.{NodeId}
use undr.Core.Records.{NodeRecord, vector, and_then}
use undr.Index.Vectors.Exact.{sum_lengths}
use undr.Index.Vectors.Spaces.{Vector, HnswLibrary, HnswVectorSpace, HnswVectorIndex}

abbrev pub or_top_k : Option ℕ → ℕ → ℕ
or_top_k none k = k
or_top_k (some override) k = override

-- `Some(&|node_id| allowed_ids.contains(node_id))`
abbrev pub allows : Option (BTreeSet NodeId) → Option (NodeId → Bool)
allows none = none
allows (some allowed) = some (λ id. Set.contains id allowed)

-- The vectors of this name, in the order of the nodes.
unfoldable pub vectors_named : String → List NodeRecord → List Vector
vectors_named name [] = []
vectors_named name (node ∷ nodes) = elim (vector node name) [
  | none ↦ vectors_named name nodes
  | some v ↦ v ∷ vectors_named name nodes
]

abbrev pub or_built : {R : Type 0} → Option R → Option R → Option R
or_built none built = built
or_built (some r) built = some r

module _ {R : Type 0} where
  abbrev pub candidates_of : Option (HnswVectorSpace R) → List NodeId
  candidates_of none = []
  candidates_of (some space) = space.candidate_ids

  unfoldable pub candidate_ids_iter : HnswVectorIndex R → String → List NodeId
  candidate_ids_iter index vector_name = candidates_of (Map.get vector_name index.spaces)

  unfoldable pub candidate_count : HnswVectorIndex R → ℕ
  candidate_count index =
      sum_lengths (map (λ (space : HnswVectorSpace R). space.candidate_ids) (values index.spaces))

  unfoldable pub space_count : HnswVectorIndex R → ℕ
  space_count index = length index.spaces

  unfoldable pub candidate_limit : ℕ → Option ℕ → HnswVectorIndex R → HnswVectorSpace R → ℕ
  candidate_limit limit top_k_override index space =
      min (max limit (or_top_k top_k_override index.semantic_top_k)) (length space.candidate_ids)

  unfoldable pub runtime_ready : HnswVectorIndex R → Bool
  runtime_ready index =
      all
        (λ (space : HnswVectorSpace R).
          is_some space.runtime || leb (length space.candidate_ids) index.exact_fallback_threshold)
        (values index.spaces)

  unfoldable pub spaces_dimensions : BTreeMap String (HnswVectorSpace R) → BTreeMap String ℕ
  spaces_dimensions [] = []
  spaces_dimensions ((name, space) ∷ spaces) = elim space.dimension [
    | none ↦ spaces_dimensions spaces
    | some dimension ↦ (name, dimension) ∷ spaces_dimensions spaces
  ]

  unfoldable pub dimensions : HnswVectorIndex R → BTreeMap String ℕ
  dimensions index = spaces_dimensions index.spaces

module _ {R : Type 0} (library : HnswLibrary R) where
  -- `none` sends the caller to the exact candidates.
  unfoldable pub semantic_candidate_ids :
      HnswVectorIndex R
      → Vector
      → String
      → ℕ
      → Option ℕ
      → Option (BTreeSet NodeId)
      → Option (List NodeId)
  semantic_candidate_ids index query vector_name limit top_k_override allowed_ids =
      and_then (Map.get vector_name index.spaces) λ space. and_then space.runtime λ runtime.
        and_then space.dimension λ dimension.
          if nat_beq limit 0
            || leb (length space.candidate_ids) index.exact_fallback_threshold
            || not (nat_beq (length query) dimension)
          then none
          else library.search runtime query (candidate_limit limit top_k_override index space)
              (allows allowed_ids)

  -- `for node in nodes { if let Some(vector) { graph.insert(..).ok()?; } }`
  unfoldable pub insert_all : String → List NodeRecord → R → Option R
  insert_all name [] graph = some graph
  insert_all name (node ∷ nodes) graph = elim (vector node name) [
    | none ↦ insert_all name nodes graph
    | some v ↦ and_then (library.insert graph node.id v) (λ next. insert_all name nodes next)
  ]

  unfoldable pub build_runtime :
      HnswVectorIndex R → String → List NodeRecord → HnswVectorSpace R → Option R
  unfolding vectors_named insert_all
  build_runtime index vector_name nodes space = and_then space.dimension λ dimension.
      if nat_beq dimension 0 || leb (length space.candidate_ids) index.exact_fallback_threshold
      then none
      else if any (λ v. not (nat_beq (length v) dimension)) (vectors_named vector_name nodes)
      then none
      else insert_all vector_name nodes
          (library.create dimension index.max_nodes index.m index.ef_construction index.ef_search)

  unfoldable pub initialize_runtime_from_nodes :
      HnswVectorIndex R → List NodeRecord → HnswVectorIndex R
  unfolding build_runtime
  initialize_runtime_from_nodes index nodes = record index {
    spaces =
        Map.map_values
          (λ name (space : HnswVectorSpace R). record space {
            runtime = or_built space.runtime (build_runtime index name nodes space);
          })
          index.spaces;
  }
