-- ===== src/Index/Semantic.antt =====
-- The candidates of a search by vector, with the exact index.
use undr.Base.{
  ℕ, ◌≡◌, refl, ap, ◌∙◌, subst, true, false, ◌&&◌, String, List, [], Option, none, some, keep,
  arith, nat_beq, string_key, Bool-cases, Option-cases, inl, inr, if◌then◌else◌, ◌==◌,
}
use undr.Base.Map
use undr.Base.Map.{is_some, mapped}
use undr.Base.Set.{contains, contains-extend}
use undr.Common.{NodeId}
use undr.Core.Records.{NodeRecord, EdgeRecord, vector}
use undr.Index.Lookup.{Lookup, has}
use undr.Index.Graph.{GraphIndex}
use undr.Index.Agreement.{IsIndexOf, Agrees, HasCandidates, nothing_pending}
use undr.Index.Search.{
  semantic_candidate_ids, exact_semantic_candidate_ids, allowed_ids, is_in_allowed, unwrap_or_else,
}
use undr.Index.Found.{contains-keep}
use undr.Index.Vectors.Exact
use undr.Index.Vectors.Exact.{ExactVectorIndex}
use undr.Index.Vectors.Spaces.{Vector, HnswLibrary}
use undr.Index.Vectors.State
use undr.Index.Vectors.State.{VectorIndexState, exact}

module _ {R : Type 0} (library : HnswLibrary R) (nodes : Lookup NodeRecord)
    (edges : Lookup EdgeRecord) (index : GraphIndex R) (vectors : ExactVectorIndex) where
  pub candidates-exact :
      (name : String) (id : NodeId)
      → index.vector_index ≡ exact vectors
      → HasCandidates nothing_pending nodes index.vector_index
      → contains id (State.candidate_ids_iter index.vector_index name)
        ≡ has (λ node. is_some (vector node name)) (nodes id)
  unfolding State.candidate_ids_iter Exact.candidate_ids_iter
  candidates-exact name id e h =
      rw e ((subst (λ v. HasCandidates nothing_pending nodes v) e h).1 name id)

  no_graph :
      (v : VectorIndexState R) (query : Vector) (name : String) (limit : ℕ) (top_k : Option ℕ)
      (allowed : Option (List NodeId)) (fallback : List NodeId)
      → v ≡ exact vectors
      → nat_beq limit 0 ≡ false
      → (if nat_beq limit 0
          then []
          else unwrap_or_else
              (State.semantic_candidate_ids library v query name limit top_k allowed)
              fallback)
        ≡ fallback
  unfolding State.semantic_candidate_ids
  no_graph v query name limit top_k allowed fallback e positive = rw (e, positive) refl

  pub semantic-exact :
      (query : Vector) (name : String) (node_type : Option String) (limit : ℕ) (top_k : Option ℕ)
      (id : NodeId)
      → index.vector_index ≡ exact vectors
      → nat_beq limit 0 ≡ false
      → HasCandidates nothing_pending nodes index.vector_index
      → contains id (semantic_candidate_ids library index query name node_type limit top_k) ≡ (
          is_in_allowed (allowed_ids index node_type) id
          && has (λ node. is_some (vector node name)) (nodes id))
  unfolding semantic_candidate_ids exact_semantic_candidate_ids
  semantic-exact query name node_type limit top_k id e positive h =
      let allowed = allowed_ids index node_type in
      let candidates = State.candidate_ids_iter index.vector_index name in
      ap (contains id) (
        no_graph index.vector_index query name limit top_k allowed
          (keep (is_in_allowed allowed) candidates) e positive)
      ∙ contains-keep (is_in_allowed allowed) id candidates
      ∙ ap (λ b. is_in_allowed allowed id && b) (candidates-exact name id e h)

  pub allowed-of_type :
      (t : String) (id : NodeId)
      → IsIndexOf nodes edges index
      → is_some (Map.get t index.label_type_index) ≡ true
      → is_in_allowed (allowed_ids index (some t)) id
        ≡ has (λ (node : NodeRecord). node.node_type == t) (nodes id)
  unfolding allowed_ids contains
  allowed-of_type t id h known = elim (Option-cases (Map.get t index.label_type_index)) [
    | inl unknown ↦ ground arith
    | inr (ids, found) ↦ ground (arith, h.types t id, contains-extend id [] ids)
  ]

  all_allowed :
      (t : String) (id : NodeId)
      → is_some (Map.get t index.label_type_index) ≡ false
      → is_in_allowed (allowed_ids index (some t)) id ≡ true
  unfolding allowed_ids
  all_allowed t id unknown = elim (Option-cases (Map.get t index.label_type_index)) [
    | inl absent ↦ ground arith
    | inr (ids, found) ↦ ground arith
  ]

  pub has-both :
      (name t : String) (o : Option NodeRecord)
      → (has (λ (node : NodeRecord). node.node_type == t) o
          && has (λ node. is_some (vector node name)) o)
        ≡ has (λ node. node.node_type == t && is_some (vector node name)) o
  has-both name t none = refl
  has-both name t (some node) = refl

  -- With the exact index, where it agrees with the records, and for a limit above 0: a search by
  -- vector among the nodes of a type that the index has a bucket for starts from the nodes of this
  -- type that have a vector of this name. For a type without a bucket it starts from all nodes that
  -- have such a vector, whatever their types.
  pub semantic_candidate_ids-of_type :
      (query : Vector) (name t : String) (limit : ℕ) (top_k : Option ℕ) (id : NodeId)
      → index.vector_index ≡ exact vectors
      → nat_beq limit 0 ≡ false
      → Agrees nodes edges index
      → contains id (semantic_candidate_ids library index query name (some t) limit top_k) ≡ (
          if is_some (Map.get t index.label_type_index)
          then has (λ node. node.node_type == t && is_some (vector node name)) (nodes id)
          else has (λ node. is_some (vector node name)) (nodes id))
  semantic_candidate_ids-of_type query name t limit top_k id e positive (h, candidates) =
      let found = semantic-exact query name (some t) limit top_k id e positive candidates in
      elim (Bool-cases (is_some (Map.get t index.label_type_index))) [
        | inl known ↦ rw known (
            found
            ∙ ap (λ b. b && has (λ node. is_some (vector node name)) (nodes id))
                (allowed-of_type t id h known)
            ∙ has-both name t (nodes id))
        | inr unknown ↦ rw unknown (
            found
            ∙ ap (λ b. b && has (λ node. is_some (vector node name)) (nodes id))
                (all_allowed t id unknown))
      ]
