-- ===== src/Storage/Batch/Integrity.antt =====
-- Referential integrity: no edge without its two nodes.
use mathlib.Core.Option.{some-injective}
use undr.Base.{
  subst, All-imp, ◌≡◌, refl, sym, ◌∙◌, Bool, true, false, ◌||◌, not, String, List, [], ◌∷◌, Option,
  none, some, map, arith, string_key, All, Bool-cases, inl, inr, if◌then◌else◌,
}
use undr.Base.Map
use undr.Base.Map.{BTreeMap, kept, Unique, is_some}
use undr.Base.Set
use undr.Base.Set.{BTreeSet}
use undr.Common.{NodeId, EdgeId, Result, ok, err, panic, validation, ensure, ◌>>◌}
use undr.Core.Records.{EdgeRecord}
use undr.Core.Batch.{WriteBatch}
use undr.Storage.Batch.{
  Nodes, Edges, collect, incident, check_each, validate_batch_against_maps,
  apply_batch_to_maps_unchecked,
}
use undr.Storage.Batch.Pointwise.{
  latest, node_id, edge_id, unless, get_node-apply, get_edge-apply, apply-Unique, contains-collect,
}
use undr.Storage.Batch.Effects.{Keyed}

-- The two maps agree with their keys, and every edge starts and ends at a node.
pub record IsSound (nodes : Nodes) (edges : Edges) : Type 0 where
  pub unique_nodes : Unique nodes
  pub unique_edges : Unique edges
  pub keyed_nodes : Keyed node_id nodes
  pub keyed_edges : Keyed edge_id edges
  pub attached :
      (key : EdgeId) (edge : EdgeRecord)
      → Map.get key edges ≡ some edge
      → (is_some (Map.get edge.source nodes) ≡ true) × (is_some (Map.get edge.target nodes) ≡ true)

latest_found {κ} :
    {V : Type κ} (id : V → String) (key : String) (vs : List V) (old : Option V)
    → (is_some old || Set.contains key (map id vs)) ≡ true
    → is_some (latest id key vs old) ≡ true
unfolding Set.contains
latest_found id key [] old h = ground arith
latest_found id key (v ∷ vs) old h =
    ground (arith, latest_found id key vs (if string_key.beq (id v) key then some v else old))

latest_from {κ μ} :
    {V : Type κ} (P : V → Type μ) (id : V → String) (key : String) (vs : List V) (old : Option V)
    (v : V)
    → All P vs
    → (old ≡ some v → P v)
    → latest id key vs old ≡ some v
    → P v
latest_from P id key [] old v a p h = p h
latest_from P id key (x ∷ vs) old v a p h =
    latest_from P id key vs (if string_key.beq (id x) key then some x else old) v a.1
      (λ e. elim (Bool-cases (string_key.beq (id x) key)) [
        | inl same ↦ subst P (some-injective x v (rw same at e)) a.0
        | inr other ↦ p (rw other at e)
      ])
      h

latest_keyed {κ} :
    {V : Type κ} (id : V → String) (key : String) (vs : List V) (old : Option V) (v : V)
    → (old ≡ some v → id v ≡ key)
    → latest id key vs old ≡ some v
    → id v ≡ key
latest_keyed id key [] old v p h = p h
latest_keyed id key (x ∷ vs) old v p h =
    latest_keyed id key vs (if string_key.beq (id x) key then some x else old) v
      (λ e. elim (Bool-cases (string_key.beq (id x) key)) [
        | inl same ↦
            subst (λ w. id w ≡ key) (some-injective x v (rw same at e))
              ((string_key.beq_iff (id x) key).0 same)
        | inr other ↦ p (rw other at e)
      ])
      h

-- What an update that may drop a value returns was there before the drop.
unless-some {κ} :
    {V : Type κ} (b : Bool) (o : Option V) (v : V)
    → unless b o ≡ some v
    → (b ≡ false) × (o ≡ some v)
unless-some true o v h = cc
unless-some false o v h = (refl, h)

kept-some {κ} :
    {V : Type κ} (test : V → Bool) (o : Option V) (v : V)
    → kept test o ≡ some v
    → (test v ≡ true) × (o ≡ some v)
kept-some test none v h = cc
kept-some test (some w) v h = elim (Bool-cases (test w)) [
  | inl good ↦
      let e : some w ≡ some v = rw good at h in
      (subst (λ u. test u ≡ true) (some-injective w v e) good, e)
  | inr bad ↦ cc (sym (rw bad at h))
]

-- The end of an edge is there: in the map, or upserted with it.
abbrev Known : Nodes → WriteBatch → NodeId → Type 0
Known nodes batch id =
    (Map.contains_key id nodes || Set.contains id (collect (map node_id batch.nodes_upserted)))
    ≡ true

ensure_ok : (b : Bool) → ensure b validation ≡ ok tt → b ≡ true
ensure_ok true h = refl
ensure_ok false h = cc

both_ok : (a b : Result (Unit {0})) → (a >> b) ≡ ok tt → (a ≡ ok tt) × (b ≡ ok tt)
both_ok (ok x) b h = (refl, h)
both_ok (err e) b h = cc
both_ok panic b h = cc

check_each-All {κ} :
    {A : Type κ} (check : A → Result (Unit {0})) (xs : List A)
    → check_each check xs ≡ ok tt
    → All (λ x. check x ≡ ok tt) xs
unfolding check_each
check_each-All check [] h = tt
check_each-All check (x ∷ xs) h =
    let both = both_ok (check x) (check_each check xs) h in (both.0, check_each-All check xs both.1)

validated :
    (nodes : Nodes) (edges : Edges) (batch : WriteBatch)
    → validate_batch_against_maps nodes edges batch ≡ ok tt
    → All
        (λ (edge : EdgeRecord). Known nodes batch edge.source × Known nodes batch edge.target)
        batch.edges_upserted
unfolding validate_batch_against_maps
validated nodes edges batch h =
    All-imp (λ edge c. let both = both_ok _ _ c in (ensure_ok _ both.0, ensure_ok _ both.1))
      batch.edges_upserted (check_each-All _ batch.edges_upserted h)

module _ (nodes : Nodes) (edges : Edges) (batch : WriteBatch) (sound : IsSound nodes edges) where
  -- A known node that the batch does not delete is there afterwards.
  still_there :
      (id : NodeId)
      → Known nodes batch id
      → Set.contains id batch.deleted_node_ids ≡ false
      → is_some (Map.get id (apply_batch_to_maps_unchecked nodes edges batch).0) ≡ true
  still_there id known kept_node =
      rw (get_node-apply nodes edges batch id, kept_node)
        (latest_found node_id id batch.nodes_upserted (Map.get id nodes) (
          ground (
            arith,
            contains-collect id (map node_id batch.nodes_upserted),
            Map.contains_key-eq id nodes,
          )))

  Known-old : (id : NodeId) → is_some (Map.get id nodes) ≡ true → Known nodes batch id
  Known-old id h = ground (arith, Map.contains_key-eq id nodes)

  attached_after :
      validate_batch_against_maps nodes edges batch ≡ ok tt
      → (key : EdgeId) (edge : EdgeRecord)
      → Map.get key (apply_batch_to_maps_unchecked nodes edges batch).1 ≡ some edge
      → (is_some (Map.get edge.source (apply_batch_to_maps_unchecked nodes edges batch).0) ≡ true)
        × (is_some (Map.get edge.target (apply_batch_to_maps_unchecked nodes edges batch).0) ≡ true)
  unfolding incident
  attached_after valid key edge found =
      let after = sym (get_edge-apply nodes edges batch key sound.unique_edges) ∙ found in
      let undeleted = unless-some (Set.contains key batch.deleted_edge_ids) _ edge after in
      let retained = kept-some (λ e. not (incident batch.deleted_node_ids e)) _ edge undeleted.1 in
      let known =
        latest_from (λ (e : EdgeRecord). Known nodes batch e.source × Known nodes batch e.target)
          edge_id key batch.edges_upserted (Map.get key edges) edge
          (validated nodes edges batch valid)
          (λ old.
            let ends = sound.attached key edge old in
            (Known-old edge.source ends.0, Known-old edge.target ends.1))
          retained.1 in
      (
        still_there edge.source known.0 (ground arith),
        still_there edge.target known.1 (ground arith),
      )

  -- A batch that passes validation against sound maps leaves them sound: every edge has both its
  -- nodes, every record stands under its own identifier, and no key stands twice.
  pub apply-IsSound :
      validate_batch_against_maps nodes edges batch ≡ ok tt
      → IsSound
          (apply_batch_to_maps_unchecked nodes edges batch).0
          (apply_batch_to_maps_unchecked nodes edges batch).1
  apply-IsSound valid = record {
    unique_nodes = (apply-Unique nodes edges batch sound.unique_nodes sound.unique_edges).0;
    unique_edges = (apply-Unique nodes edges batch sound.unique_nodes sound.unique_edges).1;
    keyed_nodes = λ key node found.
        let after = sym (get_node-apply nodes edges batch key) ∙ found in
        let undeleted = unless-some (Set.contains key batch.deleted_node_ids) _ node after in
        latest_keyed node_id key batch.nodes_upserted (Map.get key nodes) node
          (sound.keyed_nodes key node) undeleted.1;
    keyed_edges = λ key edge found.
        let after = sym (get_edge-apply nodes edges batch key sound.unique_edges) ∙ found in
        let undeleted = unless-some (Set.contains key batch.deleted_edge_ids) _ edge after in
        let retained =
          kept-some (λ e. not (incident batch.deleted_node_ids e)) _ edge undeleted.1 in
        latest_keyed edge_id key batch.edges_upserted (Map.get key edges) edge
          (sound.keyed_edges key edge) retained.1;
    attached = attached_after valid;
  }
