-- ===== src/Storage/Batch/Pointwise.antt =====
-- A batch as an update of each key on its own.
use undr.Base.{
  ◌≡◌, refl, sym, ap, ◌∙◌, Bool, true, false, not, String, List, [], ◌∷◌, Option, none, some,
  is_empty, arith, string_key, Bool-cases, inl, inr, if◌then◌else◌,
}
use undr.Base.Map
use undr.Base.Map.{BTreeMap, kept, Unique, values}
use undr.Base.Set
use undr.Base.Set.{BTreeSet}
use undr.Common.{NodeId, EdgeId}
use undr.Core.Records.{NodeRecord, EdgeRecord}
use undr.Core.Batch.{WriteBatch}
use undr.Storage.Batch.{
  Nodes, Edges, collect, insert_each, remove_each, incident, apply_batch_to_maps_unchecked,
}

-- The last of some items with a given identifier, or what was there before.
abbrev pub latest {κ} : {V : Type κ} → (V → String) → String → List V → Option V → Option V
latest id key [] old = old
latest id key (v ∷ vs) old = latest id key vs (if string_key.beq (id v) key then some v else old)

abbrev pub node_id : NodeRecord → String
node_id node = node.id

abbrev pub edge_id : EdgeRecord → String
edge_id edge = edge.id

abbrev pub unless {κ} : {V : Type κ} → Bool → Option V → Option V
unless b v = if b then none else v

-- A node after a batch: gone if it is deleted, else the last one upserted, else as before.
abbrev pub node_after : WriteBatch → NodeId → Option NodeRecord → Option NodeRecord
node_after batch key old =
    unless (Set.contains key batch.deleted_node_ids) (latest node_id key batch.nodes_upserted old)

-- An edge after a batch: gone if it is deleted or if an end of it is, else the last one upserted,
-- else as before.
abbrev pub edge_after : WriteBatch → EdgeId → Option EdgeRecord → Option EdgeRecord
edge_after batch key old = unless (Set.contains key batch.deleted_edge_ids) (
    kept (λ edge. not (incident batch.deleted_node_ids edge))
      (latest edge_id key batch.edges_upserted old))

module _ {κ} {V : Type κ} where
  pub get-insert_each :
      (id : V → String) (key : String) (m : BTreeMap String V) (vs : List V)
      → Map.get key (insert_each id m vs) ≡ latest id key vs (Map.get key m)
  unfolding insert_each
  get-insert_each id key m [] = refl
  get-insert_each id key m (v ∷ vs) =
      get-insert_each id key (Map.insert (id v) v m) vs
      ∙ ap (latest id key vs) (Map.get-insert (id v) key v m)

  pub get-remove_each :
      (key : String) (m : BTreeMap String V) (ks : List String)
      → Map.get key (remove_each m ks) ≡ unless (Set.contains key ks) (Map.get key m)
  unfolding remove_each Set.contains
  get-remove_each key m [] = refl
  get-remove_each key m (k ∷ ks) =
      ground (arith, get-remove_each key (Map.remove k m) ks, Map.get-remove k key m)

  insert_each-Unique :
      (id : V → String) (m : BTreeMap String V) (vs : List V)
      → Unique m
      → Unique (insert_each id m vs)
  unfolding insert_each
  insert_each-Unique id m [] u = u
  insert_each-Unique id m (v ∷ vs) u =
      insert_each-Unique id (Map.insert (id v) v m) vs (Map.insert-Unique (id v) v m u)

  pub remove_each-Unique :
      (m : BTreeMap String V) (ks : List String) → Unique m → Unique (remove_each m ks)
  unfolding remove_each
  remove_each-Unique m [] u = u
  remove_each-Unique m (k ∷ ks) u = remove_each-Unique (Map.remove k m) ks (Map.remove-Unique k m u)

pub contains-collect :
    (key : String) (ids : List String) → Set.contains key (collect ids) ≡ Set.contains key ids
contains-collect key ids = Set.contains-extend key [] ids ∙ (unfold Set.contains in refl)

pub incident-collect :
    (ids : List String) (edge : EdgeRecord) → incident (collect ids) edge ≡ incident ids edge
unfolding incident
incident-collect ids edge = rw (contains-collect edge.source ids, contains-collect edge.target ids)

pub incident_empty :
    (s : BTreeSet String) (edge : EdgeRecord) → is_empty s ≡ true → incident s edge ≡ false
unfolding incident Set.contains
incident_empty [] edge h = refl
incident_empty (k ∷ s) edge h = cc

module _ (nodes : Nodes) (edges : Edges) (batch : WriteBatch) where
  -- A batch changes each node by itself.
  pub get_node-apply :
      (key : NodeId)
      → Map.get key (apply_batch_to_maps_unchecked nodes edges batch).0
        ≡ node_after batch key (Map.get key nodes)
  unfolding apply_batch_to_maps_unchecked
  get_node-apply key =
      get-remove_each key (insert_each node_id nodes batch.nodes_upserted)
        (collect batch.deleted_node_ids)
      ∙ rw (
        contains-collect key batch.deleted_node_ids,
        get-insert_each node_id key nodes batch.nodes_upserted,
      )

  kept_all :
      (o : Option EdgeRecord)
      → is_empty (collect batch.deleted_node_ids) ≡ true
      → kept (λ edge. not (incident batch.deleted_node_ids edge)) o ≡ o
  kept_all none h = refl
  kept_all (some edge) h = rw (
    sym (incident-collect batch.deleted_node_ids edge),
    incident_empty (collect batch.deleted_node_ids) edge h,
  )

  kept_same :
      (o : Option EdgeRecord)
      → kept (λ edge. not (incident (collect batch.deleted_node_ids) edge)) o
        ≡ kept (λ edge. not (incident batch.deleted_node_ids edge)) o
  kept_same none = refl
  kept_same (some edge) = rw (incident-collect batch.deleted_node_ids edge)

  pub get_edge-apply :
      (key : EdgeId)
      → Unique edges
      → Map.get key (apply_batch_to_maps_unchecked nodes edges batch).1
        ≡ edge_after batch key (Map.get key edges)
  unfolding apply_batch_to_maps_unchecked
  get_edge-apply key unique =
      let inserted = insert_each edge_id edges batch.edges_upserted in
      let here = get-insert_each edge_id key edges batch.edges_upserted in
      elim (Bool-cases (is_empty (collect batch.deleted_node_ids))) [
        | inl none_deleted ↦ rw none_deleted (
            get-remove_each key inserted batch.deleted_edge_ids
            ∙ rw (
              here,
              kept_all (latest edge_id key batch.edges_upserted (Map.get key edges)) none_deleted,
            ))
        | inr deleted ↦ rw deleted (
            get-remove_each key
              (Map.retain (λ edge. not (incident (collect batch.deleted_node_ids) edge)) inserted)
              batch.deleted_edge_ids
            ∙ rw (
              Map.get-retain key (λ edge. not (incident (collect batch.deleted_node_ids) edge))
                  inserted (insert_each-Unique edge_id edges batch.edges_upserted unique),
              here,
              kept_same (latest edge_id key batch.edges_upserted (Map.get key edges)),
            ))
      ]

  pub apply-Unique :
      Unique nodes
      → Unique edges
      → Unique (apply_batch_to_maps_unchecked nodes edges batch).0
        × Unique (apply_batch_to_maps_unchecked nodes edges batch).1
  unfolding apply_batch_to_maps_unchecked
  apply-Unique un ue =
      let inserted = insert_each edge_id edges batch.edges_upserted in
      let inserted_unique = insert_each-Unique edge_id edges batch.edges_upserted ue in
      (
        remove_each-Unique (insert_each node_id nodes batch.nodes_upserted)
            (collect batch.deleted_node_ids)
            (insert_each-Unique node_id nodes batch.nodes_upserted un),
        elim (Bool-cases (is_empty (collect batch.deleted_node_ids))) [
          | inl none_deleted ↦
              rw none_deleted (remove_each-Unique inserted batch.deleted_edge_ids inserted_unique)
          | inr deleted ↦ rw deleted (
              remove_each-Unique
                (Map.retain (λ edge. not (incident (collect batch.deleted_node_ids) edge)) inserted)
                batch.deleted_edge_ids
                (Map.retain-Unique (λ edge. not (incident (collect batch.deleted_node_ids) edge))
                  inserted inserted_unique))
        ],
      )

-- Where no key of the edges stands twice, applying a batch is the update of each node and of
-- each edge on its own that the batch describes: upserts first, the last of one identifier
-- counting, then deletions, and an edge goes with either of its ends. No other key changes.
pub apply_batch_pointwise :
    (nodes : Nodes) (edges : Edges) (batch : WriteBatch) (key : String)
    → Unique edges
    → (Map.get key (apply_batch_to_maps_unchecked nodes edges batch).0
        ≡ node_after batch key (Map.get key nodes))
      × (Map.get key (apply_batch_to_maps_unchecked nodes edges batch).1
          ≡ edge_after batch key (Map.get key edges))
apply_batch_pointwise nodes edges batch key unique =
    (get_node-apply nodes edges batch key, get_edge-apply nodes edges batch key unique)
