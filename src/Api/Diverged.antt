-- ===== src/Api/Diverged.antt =====
-- Where the published snapshot does not follow the engine.
use undr.Base.{◌≡◌, ◌∙◌, true, false, [], ◌∷◌, none, some, arith, string_key}
use undr.Base.Map
use undr.Base.Map.{BTreeMap}
use undr.Base.Set
use undr.Common.{NodeId}
use undr.Core.Records.{EdgeRecord}
use undr.Core.Batch.{WriteBatch, empty_batch}
use undr.Storage.Batch.{Nodes, Edges, incident, apply_batch_to_maps_unchecked}
use undr.Storage.Batch.Pointwise.{apply_batch_pointwise}
use undr.Storage.Batch.Integrity.{IsSound}
use undr.Index.Vectors.Spaces.{HnswLibrary}
use undr.Query.View.{GraphSnapshot}
use undr.Api.Mutation.{mutation_of, snapshot_with_mutation}
use undr.Api.Snapshot.{get_edge-mutated}
use undr.Api.Published.{get-removed_edges, get-added_edges}
use undr.Api.Follows.{IsPublished, added_edges-Unique}

-- A batch that gives an edge other ends and deletes a node.
abbrev pub reroute : EdgeRecord → NodeId → WriteBatch
reroute edge dead = record empty_batch { edges_upserted = edge ∷ []; deleted_node_ids = dead ∷ [] }

-- A batch that leads a stored edge away from a node and deletes this node: where the engine's maps
-- are sound and the snapshot is the one published for them, the engine keeps the edge as it came,
-- and the snapshot loses it.
pub rerouted_edge_lost :
    (R : Type 0) (library : HnswLibrary R) (nodes : Nodes) (edges : Edges)
    (snapshot : GraphSnapshot R) (old new : EdgeRecord) (dead : NodeId)
    → IsSound nodes edges
    → IsPublished nodes edges snapshot
    → Map.get new.id edges ≡ some old
    → incident (dead ∷ []) old ≡ true
    → incident (dead ∷ []) new ≡ false
    → (Map.get new.id (apply_batch_to_maps_unchecked nodes edges (reroute new dead)).1 ≡ some new)
      × (Map.get new.id
            (snapshot_with_mutation library snapshot
              (mutation_of nodes edges (reroute new dead))).edges
          ≡ none)
rerouted_edge_lost R library nodes edges snapshot old new dead sound published found touched apart =
    let batch = reroute new dead in
    let mutation = mutation_of nodes edges batch in
    let unique = sound.unique_edges in
    let keyed = sound.keyed_edges in
    (
      (apply_batch_pointwise nodes edges batch new.id unique).1
          ∙ (unfold Set.contains in ground (arith, string_key.beq_iff new.id new.id)),
      get_edge-mutated library snapshot mutation new.id
            (added_edges-Unique nodes edges batch unique keyed)
          ∙ ground (
            arith,
            get-removed_edges nodes edges batch unique keyed new.id,
            get-added_edges nodes edges batch unique keyed new.id,
          ),
    )
