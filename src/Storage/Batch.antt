-- ===== src/Storage/Batch.antt =====
-- Write batches: normalisation, validation, application to the maps, and what a batch touches.
pub mod Pointwise
pub mod Effects
pub mod Integrity
use undr.Base.{
  Bool, true, false, ◌&&◌, ◌||◌, not, String, List, [], ◌∷◌, ◌++◌, Option, none, some, map,
  is_empty, before_first, string_key, Key, if◌then◌else◌,
}
use undr.Base.Map
use undr.Base.Map.{BTreeMap, values}
use undr.Base.Set
use undr.Base.Set.{BTreeSet}
use undr.Common.{NodeId, EdgeId, Result, ok, err, validation, ensure, ◌>>=◌, ◌>>◌}
use undr.Core.Records.{NodeRecord, EdgeRecord, normalize_memory_metadata}
use undr.Core.Batch.{
  WriteBatch, empty_batch, TransactionOperation, upsert_node, upsert_edge, delete_node, delete_edge,
}

abbrev pub Nodes : Type 0
Nodes = BTreeMap NodeId NodeRecord

abbrev pub Edges : Type 0
Edges = BTreeMap EdgeId EdgeRecord

-- `for item in items { check(item)?; }`
unfoldable pub check_each {ℓ} : {A : Type ℓ} → (A → Result (Unit {0})) → List A → Result (Unit {0})
check_each check [] = ok tt
check_each check (x ∷ xs) = do check x; check_each check xs

abbrev pub same_namespace : Option String → Option String → Bool
same_namespace none none = true
same_namespace (some a) (some b) = string_key.beq a b
same_namespace none (some b) = false
same_namespace (some a) none = false

unfoldable pub validate_namespaced_edge : EdgeRecord → Result (Unit {0})
validate_namespaced_edge edge =
    ensure (same_namespace (before_first b':' edge.source) (before_first b':' edge.target))
      validation

unfoldable pub normalize_write_batch : WriteBatch → Result WriteBatch
unfolding check_each validate_namespaced_edge
normalize_write_batch batch = do
  check_each normalize_memory_metadata batch.nodes_upserted
  check_each validate_namespaced_edge batch.edges_upserted
  ok batch

-- `items.collect::<BTreeSet<_>>()`
abbrev pub collect : List String → BTreeSet String
collect ids = Set.extend [] ids

unfoldable pub validate_batch_against_maps : Nodes → Edges → WriteBatch → Result (Unit {0})
unfolding check_each
validate_batch_against_maps nodes edges batch =
    let upserted_node_ids = collect (map (λ (node : NodeRecord). node.id) batch.nodes_upserted) in
    check_each
      (λ (edge : EdgeRecord).
        ensure (Map.contains_key edge.source nodes || Set.contains edge.source upserted_node_ids)
          validation
        >> ensure (Map.contains_key edge.target nodes || Set.contains edge.target upserted_node_ids)
            validation)
      batch.edges_upserted

-- `for item in items { map.insert(id(item), item.clone()); }`
unfoldable pub insert_each {κ} :
    {V : Type κ} → (V → String) → BTreeMap String V → List V → BTreeMap String V
insert_each id m [] = m
insert_each id m (v ∷ vs) = insert_each id (Map.insert (id v) v m) vs

-- `for key in keys { map.remove(key); }`
unfoldable pub remove_each {κ} : {V : Type κ} → BTreeMap String V → List String → BTreeMap String V
remove_each m [] = m
remove_each m (k ∷ ks) = remove_each (Map.remove k m) ks

-- The edge starts or ends at a node of the set.
unfoldable pub incident : BTreeSet NodeId → EdgeRecord → Bool
incident deleted edge = Set.contains edge.source deleted || Set.contains edge.target deleted

unfoldable pub apply_batch_to_maps_unchecked : Nodes → Edges → WriteBatch → Nodes × Edges
unfolding insert_each remove_each
apply_batch_to_maps_unchecked nodes edges batch =
    let deleted_nodes = collect batch.deleted_node_ids in
    let inserted = insert_each (λ (edge : EdgeRecord). edge.id) edges batch.edges_upserted in
    let retained =
      if is_empty deleted_nodes
      then inserted
      else Map.retain (λ edge. not (incident deleted_nodes edge)) inserted in
    (
      remove_each (insert_each (λ (node : NodeRecord). node.id) nodes batch.nodes_upserted)
          deleted_nodes,
      remove_each retained batch.deleted_edge_ids,
    )

unfoldable pub apply_batch_to_maps : Nodes → Edges → WriteBatch → Result (Nodes × Edges)
apply_batch_to_maps nodes edges batch = do
  validate_batch_against_maps nodes edges batch
  ok (apply_batch_to_maps_unchecked nodes edges batch)

unfoldable pub batch_for_operation : TransactionOperation → WriteBatch
batch_for_operation (upsert_node node) = record empty_batch { nodes_upserted = node ∷ [] }
batch_for_operation (upsert_edge edge) = record empty_batch { edges_upserted = edge ∷ [] }
batch_for_operation (delete_node node_id) = record empty_batch { deleted_node_ids = node_id ∷ [] }
batch_for_operation (delete_edge edge_id) = record empty_batch { deleted_edge_ids = edge_id ∷ [] }

unfoldable pub merge_write_batches : WriteBatch → WriteBatch → WriteBatch
merge_write_batches existing incoming = record {
  nodes_upserted = existing.nodes_upserted ++ incoming.nodes_upserted;
  edges_upserted = existing.edges_upserted ++ incoming.edges_upserted;
  deleted_node_ids = existing.deleted_node_ids ++ incoming.deleted_node_ids;
  deleted_edge_ids = existing.deleted_edge_ids ++ incoming.deleted_edge_ids;
}

-- The two parts of `extend_touched_sets`, which extends both sets.
unfoldable pub extend_touched_nodes : BTreeSet NodeId → WriteBatch → BTreeSet NodeId
extend_touched_nodes touched batch =
    Set.extend (Set.extend touched (map (λ (node : NodeRecord). node.id) batch.nodes_upserted))
      batch.deleted_node_ids

unfoldable pub extend_touched_edges : BTreeSet EdgeId → WriteBatch → BTreeSet EdgeId
extend_touched_edges touched batch =
    Set.extend (Set.extend touched (map (λ (edge : EdgeRecord). edge.id) batch.edges_upserted))
      batch.deleted_edge_ids

pub record BatchEffects : Type 0 where
  pub touched_node_ids : BTreeSet NodeId
  pub touched_edge_ids : BTreeSet EdgeId

-- `for edge in edges.values() { if incident { touched.insert(edge.id.clone()); } }`
unfoldable pub touch_incident :
    BTreeSet NodeId → BTreeSet EdgeId → List EdgeRecord → BTreeSet EdgeId
touch_incident deleted touched [] = touched
touch_incident deleted touched (edge ∷ edges) =
    touch_incident deleted (if incident deleted edge then Set.insert edge.id touched else touched)
      edges

unfoldable pub batch_effects : Edges → WriteBatch → BatchEffects
unfolding extend_touched_nodes extend_touched_edges touch_incident
batch_effects edges batch =
    let deleted_nodes = collect batch.deleted_node_ids in
    let touched = extend_touched_edges [] batch in
    record {
      touched_node_ids = extend_touched_nodes [] batch;
      touched_edge_ids =
          if is_empty deleted_nodes
          then touched
          else touch_incident deleted_nodes touched (values edges);
    }
