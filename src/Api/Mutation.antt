-- ===== src/Api/Mutation.antt =====
-- `BatchMutation`: what a batch removes from the published snapshot and adds to it, planned on the
-- engine's maps and applied to the snapshot and its index.
use undr.Base.{
  Bool, not, ◌&&◌, String, List, [], ◌∷◌, Option, none, some, map, is_empty, string_key,
  if◌then◌else◌,
}
use undr.Base.Map
use undr.Base.Map.{BTreeMap, keys, values}
use undr.Base.Set
use undr.Base.Set.{BTreeSet}
use undr.Common.{NodeId, EdgeId, Result, ok, ◌>>◌}
use undr.Core.Records.{NodeRecord, EdgeRecord, normalize_memory_metadata}
use undr.Core.Batch.{WriteBatch}
use undr.Storage.Batch.{Nodes, Edges, check_each, collect, incident, remove_each}
use undr.Index.Graph.{GraphIndex, delete_node, delete_edge}
use undr.Index.Build.{upsert_nodes, upsert_edges, node_id, edge_id}
use undr.Index.Vectors.Spaces.{HnswLibrary}
use undr.Query.View.{GraphSnapshot, GraphMutation}

pub record BatchMutation : Type 0 where
  pub removed_nodes : BTreeMap NodeId NodeRecord
  pub removed_edges : BTreeMap EdgeId EdgeRecord
  pub added_nodes : BTreeMap NodeId NodeRecord
  pub added_edges : BTreeMap EdgeId EdgeRecord

abbrev insert_found : {V : Type 0} → String → Option V → BTreeMap String V → BTreeMap String V
insert_found key none removed = removed
insert_found key (some previous) removed = Map.insert key previous removed

-- `for key in keys { if let Some(previous) = map.get(key) { removed.insert(key, previous); } }`
unfoldable pub remove_found :
    {V : Type 0} → BTreeMap String V → List String → BTreeMap String V → BTreeMap String V
remove_found stored [] removed = removed
remove_found stored (key ∷ ids) removed =
    remove_found stored ids (insert_found key (Map.get key stored) removed)

-- `for record in records { if test { added.insert(record.id, record); } }`
unfoldable pub insert_passing :
    {V : Type 0} → (V → String) → (V → Bool) → List V → BTreeMap String V → BTreeMap String V
insert_passing id test [] added = added
insert_passing id test (v ∷ vs) added =
    insert_passing id test vs (if test v then Map.insert (id v) v added else added)

-- The loop over all edges of the engine, for the two maps it changes.
unfoldable pub remove_incident :
    BTreeSet NodeId → List EdgeRecord → BTreeMap EdgeId EdgeRecord → BTreeMap EdgeId EdgeRecord
remove_incident deleted [] removed = removed
remove_incident deleted (edge ∷ edges) removed =
    remove_incident deleted edges
      (if incident deleted edge then Map.insert edge.id edge removed else removed)

unfoldable pub drop_incident :
    BTreeSet NodeId → List EdgeRecord → BTreeMap EdgeId EdgeRecord → BTreeMap EdgeId EdgeRecord
drop_incident deleted [] added = added
drop_incident deleted (edge ∷ edges) added =
    drop_incident deleted edges (if incident deleted edge then Map.remove edge.id added else added)

-- The part of `plan_batch_mutation` after the normalisation. It reads the engine's maps alone.
unfoldable pub mutation_of : Nodes → Edges → WriteBatch → BatchMutation
unfolding remove_found insert_passing remove_incident drop_incident
mutation_of nodes edges batch =
    let deleted_nodes = collect batch.deleted_node_ids in
    let deleted_edges = collect batch.deleted_edge_ids in
    let found_edges =
      remove_found edges batch.deleted_edge_ids
        (remove_found edges (map edge_id batch.edges_upserted) []) in
    let passing_edges =
      insert_passing edge_id
        (λ edge. not (Set.contains edge.id deleted_edges) && not (incident deleted_nodes edge))
        batch.edges_upserted [] in
    record {
      removed_nodes =
          remove_found nodes batch.deleted_node_ids
            (remove_found nodes (map node_id batch.nodes_upserted) []);
      removed_edges =
          if is_empty deleted_nodes
          then found_edges
          else remove_incident deleted_nodes (values edges) found_edges;
      added_nodes =
          insert_passing node_id (λ node. not (Set.contains node.id deleted_nodes))
            batch.nodes_upserted [];
      added_edges =
          if is_empty deleted_nodes
          then passing_edges
          else drop_incident deleted_nodes (values edges) passing_edges;
    }

unfoldable pub plan_batch_mutation : Nodes → Edges → WriteBatch → Result BatchMutation
unfolding mutation_of
plan_batch_mutation nodes edges batch = do
  check_each normalize_memory_metadata batch.nodes_upserted
  ok (mutation_of nodes edges batch)

unfoldable pub graph_mutation_from_batch : BatchMutation → GraphMutation
graph_mutation_from_batch mutation = record {
  removed_node_ids = keys mutation.removed_nodes;
  removed_edge_ids = keys mutation.removed_edges;
  added_nodes = mutation.added_nodes;
  added_edges = mutation.added_edges;
}

-- `for (key, record) in added { map.insert(key, record); }`
unfoldable pub insert_entries :
    {V : Type 0} → BTreeMap String V → BTreeMap String V → BTreeMap String V
insert_entries [] m = m
insert_entries ((key, v) ∷ added) m = insert_entries added (Map.insert key v m)

module _ {R : Type 0} where
  unfoldable pub delete_edges : GraphIndex R → List EdgeRecord → GraphIndex R
  delete_edges index [] = index
  delete_edges index (edge ∷ edges) = delete_edges (delete_edge index edge) edges

module _ {R : Type 0} (library : HnswLibrary R) where
  unfoldable pub delete_nodes : GraphIndex R → List NodeRecord → GraphIndex R
  delete_nodes index [] = index
  delete_nodes index (node ∷ nodes) = delete_nodes (delete_node library index node) nodes

  unfoldable pub indexes_with_mutation : GraphIndex R → BatchMutation → GraphIndex R
  unfolding delete_edges delete_nodes
  indexes_with_mutation base mutation =
      let without_edges = delete_edges base (values mutation.removed_edges) in
      let without_nodes = delete_nodes without_edges (values mutation.removed_nodes) in
      let with_nodes = upsert_nodes library without_nodes (values mutation.added_nodes) in
      upsert_edges with_nodes (values mutation.added_edges)

  unfoldable pub snapshot_with_mutation : GraphSnapshot R → BatchMutation → GraphSnapshot R
  unfolding indexes_with_mutation insert_entries
  snapshot_with_mutation base mutation = record {
    nodes =
        insert_entries mutation.added_nodes (remove_each base.nodes (keys mutation.removed_nodes));
    edges =
        insert_entries mutation.added_edges (remove_each base.edges (keys mutation.removed_edges));
    indexes = indexes_with_mutation base.indexes mutation;
  }
