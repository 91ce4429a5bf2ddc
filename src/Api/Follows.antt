-- ===== src/Api/Follows.antt =====
-- The published snapshot after a batch is the engine after it.
use mathlib.Core.Path.{fun_ext}
use undr.Base.{
  ◌≡◌, sym, ◌∙◌, ap, subst, not, String, [], arith, string_key, is_empty, Bool-cases, inl, inr,
}
use undr.Base.Map
use undr.Base.Map.{BTreeMap, Unique, values, is_some}
use undr.Base.Set
use undr.Common.{NodeId, EdgeId, ok}
use undr.Core.Records.{normalize_memory_metadata}
use undr.Core.Batch.{WriteBatch}
use undr.Storage.Batch.{Nodes, Edges, check_each, collect, apply_batch_to_maps_unchecked}
use undr.Storage.Batch.Pointwise.{apply_batch_pointwise, node_after}
use undr.Storage.Batch.Integrity.{IsSound}
use undr.Storage.Engine.Atomic.{then_ok}
use undr.Index.Build.{node_id, edge_id}
use undr.Index.Rebuilt.{stored, IsKeyed}
use undr.Index.Vectors.Spaces.{HnswLibrary}
use undr.Query.View.{GraphSnapshot}
use undr.Api.Mutation.{BatchMutation, mutation_of, plan_batch_mutation, snapshot_with_mutation}
use undr.Api.Plan.{remove_incident-Unique, drop_incident-Unique, insert_passing-Unique}
use undr.Api.Snapshot.{
  IsChange, IsMutation, IsConsistent, mutated, get_node-mutated, get_edge-mutated,
  snapshot_with_mutation-IsConsistent,
}
use undr.Api.Published.{
  IsApart, found_edges, passing_edges, passes, found-Unique, found-IsChange, mutated-after,
  get-removed_edges, get-added_edges, edge-mutated, All-true, passes-asks,
}

module _ (nodes : Nodes) (edges : Edges) (batch : WriteBatch) (unique : Unique edges)
    (keyed : IsKeyed edge_id edges) where
  removed_edges-Unique : Unique (mutation_of nodes edges batch).removed_edges
  unfolding mutation_of
  removed_edges-Unique =
      let start = found-Unique edge_id edges batch.edges_upserted batch.deleted_edge_ids in
      elim (Bool-cases (is_empty (collect batch.deleted_node_ids))) [
        | inl none_deleted ↦ rw none_deleted start
        | inr deleted ↦ rw deleted (
            remove_incident-Unique (collect batch.deleted_node_ids) (values edges)
              (found_edges nodes edges batch unique keyed) start)
      ]

  pub added_edges-Unique : Unique (mutation_of nodes edges batch).added_edges
  unfolding mutation_of
  added_edges-Unique =
      let start =
        insert_passing-Unique edge_id (passes nodes edges batch unique keyed) batch.edges_upserted
          [] tt in
      elim (Bool-cases (is_empty (collect batch.deleted_node_ids))) [
        | inl none_deleted ↦ rw none_deleted start
        | inr deleted ↦ rw deleted (
            drop_incident-Unique (collect batch.deleted_node_ids) (values edges)
              (passing_edges nodes edges batch unique keyed) start)
      ]

  edges-IsChange :
      IsApart edges batch
      → IsChange edge_id
          (stored edges)
          (mutation_of nodes edges batch).removed_edges
          (mutation_of nodes edges batch).added_edges
  edges-IsChange apart =
      let asks = passes-asks nodes edges batch unique keyed batch.edges_upserted apart.ends in
      let plain =
        found-IsChange edge_id edges batch.edges_upserted batch.deleted_edge_ids
          (passes nodes edges batch unique keyed) asks keyed in
      record {
        removed_unique = removed_edges-Unique;
        added_unique = added_edges-Unique;
        removed_keyed = λ j e here. ground (
          arith,
          get-removed_edges nodes edges batch unique keyed j,
          plain.removed_keyed j e,
          keyed j e,
        );
        added_keyed = λ j e here.
            ground (arith, get-added_edges nodes edges batch unique keyed j, plain.added_keyed j e);
        present = λ j e here.
            ground (arith, get-removed_edges nodes edges batch unique keyed j, plain.present j e);
        free = λ j here. ground (
          arith,
          get-removed_edges nodes edges batch unique keyed j,
          get-added_edges nodes edges batch unique keyed j,
          plain.free j,
        );
      }

-- The snapshot has the records of the engine, under the same keys, and its index agrees with them.
pub record IsPublished {R : Type 0} (nodes : Nodes) (edges : Edges) (snapshot : GraphSnapshot R)
    : Type 0 where
  pub same_nodes : (key : NodeId) → Map.get key snapshot.nodes ≡ Map.get key nodes
  pub same_edges : (key : EdgeId) → Map.get key snapshot.edges ≡ Map.get key edges
  pub consistent : IsConsistent snapshot

plan-ok :
    (nodes : Nodes) (edges : Edges) (batch : WriteBatch) (mutation : BatchMutation)
    → plan_batch_mutation nodes edges batch ≡ ok mutation
    → mutation_of nodes edges batch ≡ mutation
unfolding plan_batch_mutation
plan-ok nodes edges batch mutation planned =
    let checked =
      then_ok (check_each normalize_memory_metadata batch.nodes_upserted)
        (ok (mutation_of nodes edges batch)) mutation planned in
    let last : ok (mutation_of nodes edges batch) ≡ ok mutation = checked.1 in cc last

module _ {R : Type 0} (library : HnswLibrary R) (nodes : Nodes) (edges : Edges) (batch : WriteBatch)
    (snapshot : GraphSnapshot R) where
  pub mutation_of-IsMutation :
      IsSound nodes edges
      → IsApart edges batch
      → IsPublished nodes edges snapshot
      → IsMutation snapshot (mutation_of nodes edges batch)
  mutation_of-IsMutation sound apart published = (
    subst
        (λ f.
          IsChange node_id f (mutation_of nodes edges batch).removed_nodes
            (mutation_of nodes edges batch).added_nodes)
        (sym (fun_ext published.same_nodes))
        (unfold mutation_of in
          found-IsChange node_id nodes batch.nodes_upserted batch.deleted_node_ids
            (λ node. not (Set.contains node.id (collect batch.deleted_node_ids)))
            (All-true (λ node. not (Set.contains node.id (collect batch.deleted_node_ids)))
              batch.nodes_upserted)
            sound.keyed_nodes),
    subst
        (λ f.
          IsChange edge_id f (mutation_of nodes edges batch).removed_edges
            (mutation_of nodes edges batch).added_edges)
        (sym (fun_ext published.same_edges))
        (edges-IsChange nodes edges batch sound.unique_edges sound.keyed_edges apart),
  )

  node-mutated :
      (key : NodeId)
      → mutated
          (mutation_of nodes edges batch).removed_nodes
          (mutation_of nodes edges batch).added_nodes
          (stored nodes)
          key
        ≡ node_after batch key (Map.get key nodes)
  unfolding mutation_of
  node-mutated key =
      mutated-after node_id nodes batch.nodes_upserted batch.deleted_node_ids
        (λ node. not (Set.contains node.id (collect batch.deleted_node_ids)))
        (All-true (λ node. not (Set.contains node.id (collect batch.deleted_node_ids)))
          batch.nodes_upserted)
        key

  mutated-IsPublished :
      IsSound nodes edges
      → IsApart edges batch
      → IsPublished nodes edges snapshot
      → IsPublished
          (apply_batch_to_maps_unchecked nodes edges batch).0
          (apply_batch_to_maps_unchecked nodes edges batch).1
          (snapshot_with_mutation library snapshot (mutation_of nodes edges batch))
  mutated-IsPublished sound apart published =
      let mutation = mutation_of nodes edges batch in
      let changes = mutation_of-IsMutation sound apart published in
      let after =
        λ (key : String). apply_batch_pointwise nodes edges batch key sound.unique_edges in
      record {
        same_nodes = λ key.
            get_node-mutated library snapshot mutation key changes.0.added_unique
            ∙ ap (λ f. mutated mutation.removed_nodes mutation.added_nodes f key)
                (fun_ext published.same_nodes)
            ∙ node-mutated key
            ∙ sym (after key).0;
        same_edges = λ key.
            get_edge-mutated library snapshot mutation key changes.1.added_unique
            ∙ ap (λ f. mutated mutation.removed_edges mutation.added_edges f key)
                (fun_ext published.same_edges)
            ∙ edge-mutated nodes edges batch sound.unique_edges sound.keyed_edges key apart
            ∙ sym (after key).1;
        consistent =
            snapshot_with_mutation-IsConsistent library snapshot mutation changes
              published.consistent;
      }

  -- Where the engine's maps are sound and the snapshot published for them has their records and an
  -- index that agrees with them: after a batch for which a mutation can be planned, the mutated
  -- snapshot has the records of the engine after the batch, and its index agrees with them. No edge
  -- that the batch upserts may end, as it comes or as it is stored, at a node that it deletes.
  pub snapshot_with_mutation-IsPublished :
      (mutation : BatchMutation)
      → IsSound nodes edges
      → IsApart edges batch
      → IsPublished nodes edges snapshot
      → plan_batch_mutation nodes edges batch ≡ ok mutation
      → IsPublished
          (apply_batch_to_maps_unchecked nodes edges batch).0
          (apply_batch_to_maps_unchecked nodes edges batch).1
          (snapshot_with_mutation library snapshot mutation)
  snapshot_with_mutation-IsPublished mutation sound apart published planned =
      subst
        (λ m.
          IsPublished (apply_batch_to_maps_unchecked nodes edges batch).0
            (apply_batch_to_maps_unchecked nodes edges batch).1
            (snapshot_with_mutation library snapshot m))
        (plan-ok nodes edges batch mutation planned) (mutated-IsPublished sound apart published)
