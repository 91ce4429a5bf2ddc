-- ===== src/Storage/Batch/Effects.antt =====
-- `batch_effects` names every key that a batch changes.
use undr.Base.{
  ◌≡◌, refl, ap, ◌∙◌, true, false, ◌||◌, String, List, [], ◌∷◌, Option, none, some, map, is_empty,
  arith, string_key, Bool-cases, Option-cases, inl, inr, if◌then◌else◌,
}
use undr.Base.Map
use undr.Base.Map.{BTreeMap, kept, Unique, values}
use undr.Base.Set
use undr.Base.Set.{BTreeSet}
use undr.Common.{NodeId, EdgeId}
use undr.Core.Records.{EdgeRecord}
use undr.Core.Batch.{WriteBatch}
use undr.Storage.Batch.{
  Nodes, Edges, collect, incident, apply_batch_to_maps_unchecked, batch_effects,
  extend_touched_nodes, extend_touched_edges, touch_incident,
}
use undr.Storage.Batch.Pointwise.{
  latest, node_id, edge_id, get_node-apply, get_edge-apply, contains-collect, incident-collect,
  incident_empty,
}

latest_other {κ} :
    {V : Type κ} (id : V → String) (key : String) (vs : List V) (old : Option V)
    → Set.contains key (map id vs) ≡ false
    → latest id key vs old ≡ old
unfolding Set.contains
latest_other id key [] old h = refl
latest_other id key (v ∷ vs) old h = ground (arith, latest_other id key vs old)

contains-touched_nodes :
    (key : NodeId) (batch : WriteBatch)
    → Set.contains key (extend_touched_nodes [] batch) ≡ (
        Set.contains key (map node_id batch.nodes_upserted)
        || Set.contains key batch.deleted_node_ids)
unfolding extend_touched_nodes
contains-touched_nodes key batch =
    Set.contains-extend key (Set.extend [] (map node_id batch.nodes_upserted))
      batch.deleted_node_ids
    ∙ ap (λ t. t || Set.contains key batch.deleted_node_ids)
        (contains-collect key (map node_id batch.nodes_upserted))

contains-touched_edges :
    (key : EdgeId) (batch : WriteBatch)
    → Set.contains key (extend_touched_edges [] batch) ≡ (
        Set.contains key (map edge_id batch.edges_upserted)
        || Set.contains key batch.deleted_edge_ids)
unfolding extend_touched_edges
contains-touched_edges key batch =
    Set.contains-extend key (Set.extend [] (map edge_id batch.edges_upserted))
      batch.deleted_edge_ids
    ∙ ap (λ t. t || Set.contains key batch.deleted_edge_ids)
        (contains-collect key (map edge_id batch.edges_upserted))

touch_incident_keeps :
    (key : EdgeId) (deleted : BTreeSet NodeId) (touched : BTreeSet EdgeId) (edges : List EdgeRecord)
    → Set.contains key touched ≡ true
    → Set.contains key (touch_incident deleted touched edges) ≡ true
unfolding touch_incident
touch_incident_keeps key deleted touched [] h = h
touch_incident_keeps key deleted touched (edge ∷ edges) h =
    touch_incident_keeps key deleted
      (if incident deleted edge then Set.insert edge.id touched else touched) edges
      (ground (arith, Set.contains-insert edge.id key touched))

touch_incident_finds :
    (key : EdgeId) (deleted : BTreeSet NodeId) (touched : BTreeSet EdgeId) (edges : Edges)
    (edge : EdgeRecord)
    → Map.get key edges ≡ some edge
    → edge.id ≡ key
    → incident deleted edge ≡ true
    → Set.contains key (touch_incident deleted touched (values edges)) ≡ true
unfolding touch_incident Map.get
touch_incident_finds key deleted touched [] edge found keyed hit = cc
touch_incident_finds key deleted touched ((j, first) ∷ edges) edge found keyed hit =
    elim (Bool-cases (string_key.beq j key)) [
      | inl here ↦
          touch_incident_keeps key deleted
            (if incident deleted first then Set.insert first.id touched else touched) (values edges)
            (ground (arith, Set.contains-insert first.id key touched, string_key.beq_iff key key))
      | inr there ↦
          touch_incident_finds key deleted
            (if incident deleted first then Set.insert first.id touched else touched) edges edge
            (ground arith) keyed hit
    ]

abbrev pub Keyed {κ} : {V : Type κ} → (V → String) → BTreeMap String V → Type κ
Keyed {V} id m = (key : String) (v : V) → Map.get key m ≡ some v → id v ≡ key

module _ (nodes : Nodes) (edges : Edges) (batch : WriteBatch) where
  pub untouched_node :
      (key : NodeId)
      → Set.contains key (batch_effects edges batch).touched_node_ids ≡ false
      → Map.get key (apply_batch_to_maps_unchecked nodes edges batch).0 ≡ Map.get key nodes
  unfolding batch_effects
  untouched_node key h =
      get_node-apply nodes edges batch key
      ∙ ground (
        arith,
        contains-touched_nodes key batch,
        latest_other node_id key batch.nodes_upserted (Map.get key nodes),
      )

  not_incident :
      (key : EdgeId) (edge : EdgeRecord)
      → Keyed edge_id edges
      → Set.contains key (batch_effects edges batch).touched_edge_ids ≡ false
      → Map.get key edges ≡ some edge
      → incident (collect batch.deleted_node_ids) edge ≡ false
  unfolding batch_effects
  not_incident key edge keyed h found =
      elim (Bool-cases (is_empty (collect batch.deleted_node_ids))) [
        | inl none_deleted ↦ incident_empty (collect batch.deleted_node_ids) edge none_deleted
        | inr deleted ↦ ground (
          arith,
          touch_incident_finds key (collect batch.deleted_node_ids) (extend_touched_edges [] batch)
              edges edge found (keyed key edge found),
        )
      ]

  not_in_batch :
      (key : EdgeId)
      → Set.contains key (batch_effects edges batch).touched_edge_ids ≡ false
      → Set.contains key (extend_touched_edges [] batch) ≡ false
  unfolding batch_effects
  not_in_batch key h = elim (Bool-cases (Set.contains key (extend_touched_edges [] batch))) [
    | inl yes_there ↦ ground (
      arith,
      touch_incident_keeps key (collect batch.deleted_node_ids) (extend_touched_edges [] batch)
          (values edges) yes_there,
    )
    | inr not_there ↦ not_there
  ]

  pub untouched_edge :
      (key : EdgeId)
      → Unique edges
      → Keyed edge_id edges
      → Set.contains key (batch_effects edges batch).touched_edge_ids ≡ false
      → Map.get key (apply_batch_to_maps_unchecked nodes edges batch).1 ≡ Map.get key edges
  untouched_edge key unique keyed h =
      get_edge-apply nodes edges batch key unique ∙ elim (Option-cases (Map.get key edges)) [
        | inl absent ↦ rw absent (
            ground (
              arith,
              contains-touched_edges key batch,
              not_in_batch key h,
              latest_other edge_id key batch.edges_upserted none,
            ))
        | inr (edge, found) ↦ rw found (
            ground (
              arith,
              contains-touched_edges key batch,
              not_in_batch key h,
              latest_other edge_id key batch.edges_upserted (some edge),
              not_incident key edge keyed h found,
              incident-collect batch.deleted_node_ids edge,
            ))
      ]

-- Where no key of the edges stands twice and each stands for its own edge: a key that is not
-- among the effects of a batch has the same node, or the same edge, after it.
pub batch_effects_complete :
    (nodes : Nodes) (edges : Edges) (batch : WriteBatch) (key : String)
    → Unique edges
    → Keyed edge_id edges
    → (Set.contains key (batch_effects edges batch).touched_node_ids ≡ false
        → Map.get key (apply_batch_to_maps_unchecked nodes edges batch).0 ≡ Map.get key nodes)
      × (Set.contains key (batch_effects edges batch).touched_edge_ids ≡ false
          → Map.get key (apply_batch_to_maps_unchecked nodes edges batch).1 ≡ Map.get key edges)
batch_effects_complete nodes edges batch key unique keyed =
    (untouched_node nodes edges batch key, untouched_edge nodes edges batch key unique keyed)
