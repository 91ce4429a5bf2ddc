-- ===== src/Index/Search.antt =====
-- The lookups of `GraphIndex` that combine several buckets, and its snapshot.
use undr.Base.{
  ℕ, Bool, true, false, ◌&&◌, String, List, [], ◌∷◌, ◌++◌, Option, none, some, length, keep,
  nat_beq, string_key, if◌then◌else◌, ◌==◌,
}
use undr.Base.Int.{ℤ, int_key, leb_ℤ, ltb_ℤ}
use undr.Base.Map
use undr.Base.Map.{BTreeMap, mapped}
use undr.Base.Set
use undr.Base.Set.{BTreeSet}
use undr.Common.{NodeId, EdgeId, Result, ok, panic}
use undr.Core.Records.{EdgeRecord, and_then}
use undr.Index.Lookup.{Lookup, has, EdgeDirection, outgoing, incoming, both}
use undr.Index.Buckets.{bucket}
use undr.Index.Graph.{GraphIndex}
use undr.Index.Vectors.Spaces.{Vector, HnswLibrary}
use undr.Index.Vectors.State

abbrev pub is_outgoing : EdgeDirection → Bool
is_outgoing outgoing = true
is_outgoing incoming = false
is_outgoing both = true

abbrev pub is_incoming : EdgeDirection → Bool
is_incoming outgoing = false
is_incoming incoming = true
is_incoming both = true

-- `edge_type.map(|value| edges.get_edge(id).map(|edge| edge.edge_type == value).unwrap_or(false))
-- .unwrap_or(true)`
unfoldable pub has_edge_type : Lookup EdgeRecord → Option String → EdgeId → Bool
has_edge_type edges none id = true
has_edge_type edges (some value) id =
    has (λ (edge : EdgeRecord). edge.edge_type == value) (edges id)

-- `temporal_index.range(from..=to).flat_map(..)`
unfoldable pub ids_within : ℤ → ℤ → BTreeMap ℤ (List NodeId) → List NodeId
ids_within from to [] = []
ids_within from to ((time, ids) ∷ index) =
    let rest = ids_within from to index in
    if leb_ℤ from time && leb_ℤ time to then ids ++ rest else rest

abbrev pub unwrap_or_else {ℓ} : {A : Type ℓ} → Option A → A → A
unwrap_or_else none a = a
unwrap_or_else (some b) a = b

-- `allowed_ids.map(|allowed| allowed.contains(id)).unwrap_or(true)`
abbrev pub is_in_allowed : Option (BTreeSet NodeId) → NodeId → Bool
is_in_allowed none id = true
is_in_allowed (some allowed) id = Set.contains id allowed

pub record IndexSnapshot : Type 0 where
  pub format_version : ℕ
  pub node_count : ℕ
  pub unique_key_count : ℕ
  pub adjacency_key_count : ℕ
  pub reverse_adjacency_key_count : ℕ
  pub label_bucket_count : ℕ
  pub temporal_bucket_count : ℕ
  pub vector_space_count : ℕ
  pub vector_candidate_count : ℕ
  pub vector_backend : String
  pub vector_runtime_ready : Bool
  pub vector_dimensions : BTreeMap String ℕ

module _ {R : Type 0} where
  unfoldable pub edge_ids_for_iter :
      GraphIndex R → NodeId → EdgeDirection → Lookup EdgeRecord → Option String → List EdgeId
  unfolding has_edge_type
  edge_ids_for_iter index node_id direction edges edge_type =
      let going = if is_outgoing direction then bucket node_id index.adjacency_index else [] in
      let coming =
        if is_incoming direction then bucket node_id index.reverse_adjacency_index else [] in
      keep (has_edge_type edges edge_type) (going ++ coming)

  -- `BTreeMap::range` panics where the range starts behind its end.
  unfoldable pub node_ids_in_time_range : GraphIndex R → ℤ → ℤ → Result (List NodeId)
  unfolding ids_within
  node_ids_in_time_range index from to =
      if ltb_ℤ to from then panic else ok (ids_within from to index.temporal_index)

  unfoldable pub vector_candidate_ids_iter : GraphIndex R → String → List NodeId
  vector_candidate_ids_iter index name = State.candidate_ids_iter index.vector_index name

  unfoldable pub exact_semantic_candidate_ids :
      GraphIndex R → String → Option (BTreeSet NodeId) → List NodeId
  exact_semantic_candidate_ids index name allowed =
      keep (is_in_allowed allowed) (State.candidate_ids_iter index.vector_index name)

  -- The nodes of the type, where the index has a bucket for it.
  unfoldable pub allowed_ids : GraphIndex R → Option String → Option (BTreeSet NodeId)
  allowed_ids index node_type =
      and_then node_type λ t. mapped (λ ids. Set.extend [] ids) (Map.get t index.label_type_index)

  unfoldable pub snapshot : GraphIndex R → IndexSnapshot
  snapshot index = record {
    format_version = 1;
    node_count = length index.node_ids;
    unique_key_count = length index.unique_key_index;
    adjacency_key_count = length index.adjacency_index;
    reverse_adjacency_key_count = length index.reverse_adjacency_index;
    label_bucket_count = length index.label_type_index;
    temporal_bucket_count = length index.temporal_index;
    vector_space_count = State.space_count index.vector_index;
    vector_candidate_count = State.candidate_count index.vector_index;
    vector_backend = State.backend_name index.vector_index;
    vector_runtime_ready = State.runtime_ready index.vector_index;
    vector_dimensions = State.dimensions index.vector_index;
  }

module _ {R : Type 0} (library : HnswLibrary R) where
  unfoldable pub semantic_candidate_ids :
      GraphIndex R → Vector → String → Option String → ℕ → Option ℕ → List NodeId
  unfolding allowed_ids exact_semantic_candidate_ids
  semantic_candidate_ids index query name node_type limit top_k_override =
      let allowed = allowed_ids index node_type in
      if nat_beq limit 0
      then []
      else unwrap_or_else
          (State.semantic_candidate_ids library index.vector_index query name limit top_k_override
            allowed)
          (exact_semantic_candidate_ids index name allowed)
