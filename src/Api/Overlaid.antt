-- ===== src/Api/Overlaid.antt =====
-- The parts of a snapshot after a mutation, and what the overlay of the mutation lists of them.
use undr.Base.{
  ◌≡◌, refl, sym, ◌∙◌, ap, Bool, true, not, ◌&&◌, String, List, [], ◌∷◌, some, map, keep, arith,
  All, All-imp, find, find-All, string_key, Option-cases, inl, inr,
}
use undr.Base.Int.{ℤ}
use undr.Base.Map
use undr.Base.Map.{BTreeMap, is_some, keys, values, Unique}
use undr.Base.Set
use undr.Base.Set.{contains, contains-keys, contains-extend}
use undr.Common.{NodeId, EdgeId, Result, ok, err, panic, ◌>>=◌}
use undr.Core.Records.{NodeRecord, timestamp_ms}
use undr.Storage.Batch.{remove_each}
use undr.Storage.Batch.Pointwise.{remove_each-Unique}
use undr.Index.Lookup.{Lookup, has, is_within}
use undr.Index.Agreement.{is_at}
use undr.Index.Build.{node_id}
use undr.Index.Graph.{unique_key}
use undr.Index.Found.{TimeRange, contains-keep}
use undr.Index.Rebuilt.{stored, IsKeyed}
use undr.Index.Vectors.Spaces.{HnswLibrary}
use undr.Query.View.{
  GraphSnapshot, overlay_node, overlay_edge, overlay_ids, overlaid, id_of, records_of,
  overlay_unique_key, snapshot_view, is_key, within_required_time_range,
}
use undr.Query.Overlay.{
  contains-overlay_ids, records_of-AreStored, contains-records_of, values-AreStored,
}
use undr.Api.Mutation.{
  BatchMutation, graph_mutation_from_batch, insert_entries, snapshot_with_mutation,
}
use undr.Api.Snapshot.{IsMutation, get_node-mutated, get_edge-mutated}

insert_entries-Unique :
    {V : Type 0} (added m : BTreeMap String V) → Unique m → Unique (insert_entries added m)
unfolding insert_entries
insert_entries-Unique [] m u = u
insert_entries-Unique ((key, v) ∷ added) m u =
    insert_entries-Unique added (Map.insert key v m) (Map.insert-Unique key v m u)

-- Every key once, and every record under its own identifier.
abbrev pub IsTable : BTreeMap NodeId NodeRecord → Type 0
IsTable nodes = Unique nodes × IsKeyed node_id nodes

-- Two answers with the same identifiers, or two panics.
abbrev pub IsSameListing : Result (List String) → Result (List String) → Type 0
IsSameListing (ok xs) (ok ys) = (id : String) → contains id xs ≡ contains id ys
IsSameListing panic panic = Unit
IsSameListing xs ys = ⊥

module _ {R : Type 0} (library : HnswLibrary R) (base : GraphSnapshot R)
    (mutation : BatchMutation) where
  abbrev pub after : GraphSnapshot R
  after = snapshot_with_mutation library base mutation

  abbrev pub get : Lookup NodeRecord
  get = overlay_node (graph_mutation_from_batch mutation) (stored base.nodes)

  pub overlay_node-mutated :
      (id : NodeId) → IsMutation base mutation → get id ≡ Map.get id after.nodes
  unfolding overlay_node graph_mutation_from_batch
  overlay_node-mutated id m =
      ap (λ b. overlaid (Map.get id mutation.added_nodes) b (Map.get id base.nodes))
        (contains-keys id mutation.removed_nodes)
      ∙ sym (get_node-mutated library base mutation id m.0.added_unique)

  pub overlay_edge-mutated :
      (id : EdgeId)
      → IsMutation base mutation
      → overlay_edge (graph_mutation_from_batch mutation) (stored base.edges) id
        ≡ Map.get id after.edges
  unfolding overlay_edge graph_mutation_from_batch
  overlay_edge-mutated id m =
      ap (λ b. overlaid (Map.get id mutation.added_edges) b (Map.get id base.edges))
        (contains-keys id mutation.removed_edges)
      ∙ sym (get_edge-mutated library base mutation id m.1.added_unique)

  get-IsKeyed :
      (id : NodeId) (node : NodeRecord)
      → IsMutation base mutation
      → IsTable base.nodes
      → get id ≡ some node
      → node.id ≡ id
  unfolding overlay_node graph_mutation_from_batch
  get-IsKeyed id node m table found = elim (Option-cases (Map.get id mutation.added_nodes)) [
    | inl old ↦ ground (arith, table.1 id node)
    | inr (new, added) ↦ ground (arith, m.0.added_keyed id new added)
  ]

  pub after-IsTable : IsMutation base mutation → IsTable base.nodes → IsTable after.nodes
  unfolding snapshot_with_mutation
  after-IsTable m table = (
    insert_entries-Unique mutation.added_nodes
        (remove_each base.nodes (keys mutation.removed_nodes))
        (remove_each-Unique base.nodes (keys mutation.removed_nodes) table.0),
    λ id node found. get-IsKeyed id node m table (overlay_node-mutated id m ∙ found),
  )

  -- `all_nodes_iter` of the overlay: the identifiers, and the records.
  abbrev pub all_ids : List NodeId
  all_ids =
      Set.extend
        (Set.extend []
          (keep (λ id. not (Set.contains id (keys mutation.removed_nodes))) (keys base.nodes)))
        (keys mutation.added_nodes)

  contains-all_ids : (id : NodeId) → (is_some (get id) && contains id all_ids) ≡ is_some (get id)
  unfolding overlay_node graph_mutation_from_batch contains
  contains-all_ids id = ground (
    arith,
    contains-extend id
        (Set.extend []
          (keep (λ i. not (Set.contains i (keys mutation.removed_nodes))) (keys base.nodes)))
        (keys mutation.added_nodes),
    contains-extend id []
        (keep (λ i. not (Set.contains i (keys mutation.removed_nodes))) (keys base.nodes)),
    contains-keep (λ i. not (Set.contains i (keys mutation.removed_nodes))) id (keys base.nodes),
    contains-keys id base.nodes,
    contains-keys id mutation.added_nodes,
  )

  pub listed-AreStored :
      IsMutation base mutation
      → IsTable base.nodes
      → All (λ node. get (id_of node) ≡ some node) (records_of get all_ids)
        × ((id : NodeId) → contains id (map id_of (records_of get all_ids)) ≡ is_some (get id))
  listed-AreStored m table =
      let keyed : (id : NodeId) (node : NodeRecord) → get id ≡ some node → id_of node ≡ id =
        λ id node found. get-IsKeyed id node m table found in
      (
        records_of-AreStored id_of get all_ids keyed,
        λ id. contains-records_of id_of id get all_ids keyed ∙ contains-all_ids id,
      )

  -- The overlay of a range of times, where the ranges of the base and of the snapshot after the
  -- mutation are right.
  pub range-IsSameListing :
      (from to : ℤ) (here there : Result (List NodeId))
      → IsMutation base mutation
      → TimeRange (stored base.nodes) from to here
      → TimeRange (stored after.nodes) from to there
      → IsSameListing
          (here >>= λ ids. ok (
            overlay_ids id_of
              (λ node. within_required_time_range node from to)
              get
              mutation.added_nodes
              ids))
          there
  unfolding within_required_time_range overlay_node graph_mutation_from_batch
  range-IsSameListing from to (ok xs) (ok ys) m here there = λ id.
      contains-overlay_ids id_of (λ node. within_required_time_range node from to) id get
        (stored base.nodes) (contains id (keys mutation.removed_nodes)) mutation.added_nodes xs
        m.0.added_unique m.0.added_keyed refl (here.1 id)
      ∙ ap (has (λ node. is_within from to (timestamp_ms node))) (overlay_node-mutated id m)
      ∙ sym (there.1 id)
  range-IsSameListing from to (ok xs) (err e) m here there = there
  range-IsSameListing from to (ok xs) panic m here there = ground arith
  range-IsSameListing from to (err e) ys m here there = absurd here
  range-IsSameListing from to panic (ok ys) m here there = ground arith
  range-IsSameListing from to panic (err e) m here there = there
  range-IsSameListing from to panic panic m here there = tt

  added-AreRead :
      IsMutation base mutation
      → All (λ (node : NodeRecord). get node.id ≡ some node) (values mutation.added_nodes)
  unfolding overlay_node graph_mutation_from_batch
  added-AreRead m =
      All-imp
        (λ node found.
          ap
            (λ o.
              overlaid o (contains node.id (keys mutation.removed_nodes))
                (Map.get node.id base.nodes))
            found)
        (values mutation.added_nodes)
        (values-AreStored id_of mutation.added_nodes m.0.added_unique m.0.added_keyed)

  -- The overlay answers only owners of a unique key that still have it.
  pub overlay_unique_key-IsOwned :
      (key : String) (id : NodeId)
      → IsMutation base mutation
      → overlay_unique_key
          (snapshot_view library base)
          (keys base.nodes)
          (graph_mutation_from_batch mutation)
          key
        ≡ some id
      → has (λ node. is_at key (unique_key node)) (get id) ≡ true
  unfolding overlay_unique_key snapshot_view overlay_node graph_mutation_from_batch
  overlay_unique_key-IsOwned key id m found =
      let owns : NodeRecord → Bool = λ node. is_key key (unique_key node) in
      elim (Option-cases (find owns (values mutation.added_nodes))) [
        | inl none_added ↦ ground arith
        | inr (node, first) ↦
            let (read, owner) =
              find-All (λ (n : NodeRecord). get n.id ≡ some n) owns (values mutation.added_nodes)
                node (added-AreRead m) first in
            ground arith
      ]
