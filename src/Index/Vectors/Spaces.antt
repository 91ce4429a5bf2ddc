-- ===== src/Index/Vectors/Spaces.antt =====
-- `HnswVectorIndex` and its spaces, one for each name of a vector.
use undr.Base.{
  ℕ, Bool, not, String, List, [], ◌∷◌, Option, none, some, is_empty, length, nat_beq, string_key,
  if◌then◌else◌,
}
use undr.Base.Map
use undr.Base.Map.{BTreeMap, keys, values, is_some}
use undr.Common.{NodeId}
use undr.Core.Records.{NodeRecord, vector}
use undr.Index.Buckets.{push_unique, retain_not}

abbrev pub Vector : Type 0
Vector = List ℕ

-- The calls of hnsw_stable: a new graph with its store, `insert`, `set`, `delete` and `search`
-- with a filter or without one.
pub record HnswLibrary (R : Type 0) : Type 0 where
  pub create : (dimension max_nodes m ef_construction ef_search : ℕ) → R
  pub insert : R → NodeId → Vector → Option R
  pub set : R → NodeId → Vector → Option R
  pub delete : R → NodeId → R
  pub search : R → Vector → ℕ → Option (NodeId → Bool) → Option (List NodeId)

pub record HnswVectorSpace (R : Type 0) : Type 0 where
  pub candidate_ids : List NodeId
  pub dimension : Option ℕ
  pub runtime : Option R

pub record HnswVectorIndex (R : Type 0) : Type 0 where
  pub spaces : BTreeMap String (HnswVectorSpace R)
  pub max_nodes : ℕ
  pub semantic_top_k : ℕ
  pub exact_fallback_threshold : ℕ
  pub m : ℕ
  pub ef_construction : ℕ
  pub ef_search : ℕ

unfoldable pub new_space : {R : Type 0} → Option ℕ → HnswVectorSpace R
new_space dimension = record { candidate_ids = []; dimension = dimension; runtime = none }

abbrev pub lengths : Option Vector → Option ℕ
lengths none = none
lengths (some v) = some (length v)

-- `spaces.entry(name).or_insert_with(..)`
abbrev pub or_new_space : {R : Type 0} → Option ℕ → Option (HnswVectorSpace R) → HnswVectorSpace R
or_new_space dimension none = new_space dimension
or_new_space dimension (some space) = space

module _ {R : Type 0} (library : HnswLibrary R) where
  abbrev pub set_runtime : Option R → NodeId → Vector → Option R
  set_runtime none id v = none
  set_runtime (some r) id v = library.set r id v

  abbrev pub delete_runtime : Option R → NodeId → Option R
  delete_runtime none id = none
  delete_runtime (some r) id = some (library.delete r id)

  unfoldable pub delete_from_space : HnswVectorSpace R → NodeRecord → HnswVectorSpace R
  delete_from_space space node = record space {
    candidate_ids = retain_not node.id space.candidate_ids;
    runtime = delete_runtime space.runtime node.id;
  }

  -- The four arms of `HnswVectorSpace::upsert_node`.
  unfoldable pub upsert_vector :
      Option Vector → Option ℕ → HnswVectorSpace R → NodeRecord → HnswVectorSpace R
  unfolding delete_from_space
  upsert_vector (some v) (some dimension) space node =
      if nat_beq (length v) dimension
      then record space {
        candidate_ids = push_unique space.candidate_ids node.id;
        runtime = set_runtime space.runtime node.id v;
      }
      else record space { candidate_ids = retain_not node.id space.candidate_ids; runtime = none }
  upsert_vector (some v) none space node = record space {
    dimension = some (length v);
    candidate_ids = push_unique space.candidate_ids node.id;
    runtime = none;
  }
  upsert_vector none dimension space node = delete_from_space space node

  unfoldable pub upsert_in_space : String → NodeRecord → HnswVectorSpace R → HnswVectorSpace R
  upsert_in_space vector_name node space =
      upsert_vector (vector node vector_name) space.dimension space node

  unfoldable pub upsert_under :
      List String
      → NodeRecord
      → BTreeMap String (HnswVectorSpace R)
      → BTreeMap String (HnswVectorSpace R)
  upsert_under [] node spaces = spaces
  upsert_under (name ∷ names) node spaces = upsert_under names node (
      Map.insert name
        (upsert_in_space name node
          (or_new_space (lengths (vector node name)) (Map.get name spaces)))
        spaces)

  abbrev pub drop_empty_spaces :
      BTreeMap String (HnswVectorSpace R) → BTreeMap String (HnswVectorSpace R)
  drop_empty_spaces spaces =
      Map.retain (λ (space : HnswVectorSpace R). not (is_empty space.candidate_ids)) spaces

  unfoldable pub upsert_node : HnswVectorIndex R → NodeRecord → HnswVectorIndex R
  upsert_node index node = record index {
    spaces = drop_empty_spaces (
        upsert_under (keys node.vectors) node
          (Map.map_values (λ name space. upsert_in_space name node space) index.spaces));
  }

  unfoldable pub delete_node : HnswVectorIndex R → NodeRecord → HnswVectorIndex R
  delete_node index node = record index {
    spaces =
        drop_empty_spaces (Map.map_values (λ _ space. delete_from_space space node) index.spaces);
  }
