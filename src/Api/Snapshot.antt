-- ===== src/Api/Snapshot.antt =====
-- A mutation of a published snapshot: the records it leaves, and that its index agrees with them.
use mathlib.Core.Path.{fun_ext}
use undr.Base.{
  ◌≡◌, refl, sym, ◌∙◌, subst, true, String, [], ◌∷◌, none, some, arith, string_key, Option-cases,
  inl, inr, if◌then◌else◌,
}
use undr.Base.Map
use undr.Base.Map.{BTreeMap, keys, Unique, values, is_some}
use undr.Base.Set.{contains-keys}
use undr.Common.{NodeId, EdgeId}
use undr.Core.Records.{NodeRecord, EdgeRecord}
use undr.Storage.Batch.{remove_each}
use undr.Storage.Batch.Pointwise.{get-remove_each}
use undr.Index.Lookup.{Lookup, updated}
use undr.Index.Graph.{GraphIndex, delete_node, delete_edge}
use undr.Index.Agreement.{
  Agrees, HasCandidates, nothing_pending, delete_node-IsIndexOf, delete_edge-IsIndexOf,
  delete-HasCandidates, HasCandidates-imp,
}
use undr.Index.Build.{
  node_id, edge_id, upsert_nodes, upsert_edges, with_all, ids_of, upsert_nodes-IsIndexOf,
  upsert_nodes-HasCandidates, upsert_edges-IsIndexOf, upsert_edges-vectors,
}
use undr.Index.Rebuilt.{
  stored, IsKeyed, IsKeyed-head, IsKeyed-tail, AreNew-values, with_all-values, with_all-stored,
}
use undr.Index.Vectors.Spaces.{HnswLibrary}
use undr.Query.View.{GraphSnapshot, or_else, overlaid}
use undr.Api.Mutation.{
  BatchMutation, delete_edges, delete_nodes, insert_entries, indexes_with_mutation,
  snapshot_with_mutation,
}

-- The records without those of a map, and then with those of another.
abbrev pub leaving : {A : Type 0} → BTreeMap String A → Lookup A → Lookup A
leaving removed records id = if is_some (Map.get id removed) then none else records id

abbrev pub mutated : {A : Type 0} → BTreeMap String A → BTreeMap String A → Lookup A → Lookup A
mutated removed added records id =
    overlaid (Map.get id added) (is_some (Map.get id removed)) (records id)

-- What a mutation removes is there, what it adds is new or removed before, and every record stands
-- under its own identifier.
pub record IsChange {A : Type 0} (id : A → String) (records : Lookup A)
    (removed added : BTreeMap String A) : Type 0 where
  pub removed_unique : Unique removed
  pub added_unique : Unique added
  pub removed_keyed : IsKeyed id removed
  pub added_keyed : IsKeyed id added
  pub present : (key : String) (a : A) → Map.get key removed ≡ some a → records key ≡ some a
  pub free :
      (key : String) → is_some (Map.get key added) ≡ true → leaving removed records key ≡ none

module _ {A : Type 0} (id : A → String) where
  -- The head of the removed records goes first.
  leaving-cons :
      (key : String) (a : A) (m : BTreeMap String A) (records : Lookup A)
      → id a ≡ key
      → leaving m (updated (id a) none records) ≡ leaving ((key, a) ∷ m) records
  unfolding Map.get
  leaving-cons key a m records here =
      fun_ext λ j. ground (arith, string_key.beq_iff key j, string_key.beq_iff (id a) j)

  present-tail :
      (key : String) (a : A) (m : BTreeMap String A) (records : Lookup A)
      → id a ≡ key
      → Map.get key m ≡ none
      → ((j : String) (b : A) → Map.get j ((key, a) ∷ m) ≡ some b → records j ≡ some b)
      → (j : String) (b : A) → Map.get j m ≡ some b
      → updated (id a) none records j ≡ some b
  unfolding Map.get
  present-tail key a m records here fresh h j b found =
      ground (arith, h j b, string_key.beq_iff key j, string_key.beq_iff (id a) j)

  present-head :
      (key : String) (a : A) (m : BTreeMap String A) (records : Lookup A)
      → id a ≡ key
      → ((j : String) (b : A) → Map.get j ((key, a) ∷ m) ≡ some b → records j ≡ some b)
      → records (id a) ≡ some a
  unfolding Map.get
  present-head key a m records here h = h (id a) a (ground (arith, string_key.beq_iff key (id a)))

  with_all-mutated :
      (removed added : BTreeMap String A) (records : Lookup A)
      → Unique added
      → IsKeyed id added
      → with_all id (values added) (leaving removed records) ≡ mutated removed added records
  with_all-mutated removed added records u k =
      let left = leaving removed records in
      fun_ext λ j. elim (Option-cases (Map.get j added)) [
        | inl absent ↦ with_all-values id added left j u k absent ∙ ground arith
        | inr (b, found) ↦ with_all-stored id added left j b u k found ∙ ground arith
      ]

module _ {R : Type 0} (library : HnswLibrary R) where
  delete_edges-Agrees :
      (removed : BTreeMap String EdgeRecord) (nodes : Lookup NodeRecord) (edges : Lookup EdgeRecord)
      (index : GraphIndex R)
      → Unique removed
      → IsKeyed edge_id removed
      → ((key : String) (e : EdgeRecord) → Map.get key removed ≡ some e → edges key ≡ some e)
      → Agrees nodes edges index
      → Agrees nodes (leaving removed edges) (delete_edges index (values removed))
  unfolding delete_edges delete_edge Map.get
  delete_edges-Agrees [] nodes edges index u k present h = h
  delete_edges-Agrees ((key, e) ∷ removed) nodes edges index u k present (h, c) =
      let here = IsKeyed-head edge_id key e removed k in
      subst (λ f. Agrees nodes f (delete_edges (delete_edge index e) (values removed)))
        (leaving-cons edge_id key e removed edges here)
        (delete_edges-Agrees removed nodes (updated e.id none edges) (delete_edge index e) u.1
          (IsKeyed-tail edge_id key e removed u.0 k)
          (present-tail edge_id key e removed edges here u.0 present)
          (
            delete_edge-IsIndexOf nodes edges index e
                (present-head edge_id key e removed edges here present) h,
            c,
          ))

  delete_nodes-Agrees :
      (removed : BTreeMap String NodeRecord) (nodes : Lookup NodeRecord) (edges : Lookup EdgeRecord)
      (index : GraphIndex R)
      → Unique removed
      → IsKeyed node_id removed
      → ((key : String) (n : NodeRecord) → Map.get key removed ≡ some n → nodes key ≡ some n)
      → Agrees nodes edges index
      → Agrees (leaving removed nodes) edges (delete_nodes library index (values removed))
  unfolding delete_nodes delete_node Map.get
  delete_nodes-Agrees [] nodes edges index u k present h = h
  delete_nodes-Agrees ((key, n) ∷ removed) nodes edges index u k present (h, c) =
      let here = IsKeyed-head node_id key n removed k in
      subst
        (λ f. Agrees f edges (delete_nodes library (delete_node library index n) (values removed)))
        (leaving-cons node_id key n removed nodes here)
        (delete_nodes-Agrees removed (updated n.id none nodes) edges (delete_node library index n)
          u.1 (IsKeyed-tail node_id key n removed u.0 k)
          (present-tail node_id key n removed nodes here u.0 present)
          (
            delete_node-IsIndexOf library nodes edges index n
                (present-head node_id key n removed nodes here present) h,
            delete-HasCandidates library nothing_pending nodes n index.vector_index c,
          ))

  upsert_nodes-Agrees :
      (removed added : BTreeMap String NodeRecord) (nodes : Lookup NodeRecord)
      (edges : Lookup EdgeRecord) (index : GraphIndex R)
      → IsChange node_id nodes removed added
      → Agrees (leaving removed nodes) edges index
      → Agrees (mutated removed added nodes) edges (upsert_nodes library index (values added))
  upsert_nodes-Agrees removed added nodes edges index change (h, c) =
      let left = leaving removed nodes in
      subst (λ f. Agrees f edges (upsert_nodes library index (values added)))
        (with_all-mutated node_id removed added nodes change.added_unique change.added_keyed)
        (
          upsert_nodes-IsIndexOf library (values added) left edges index
              (AreNew-values node_id added left change.added_unique change.added_keyed change.free)
              h,
          upsert_nodes-HasCandidates library (values added) left index (
              HasCandidates-imp nothing_pending left (ids_of (values added)) index.vector_index
                (λ id impossible. cc) c),
        )

module _ {R : Type 0} where
  upsert_edges-Agrees :
      (removed added : BTreeMap String EdgeRecord) (nodes : Lookup NodeRecord)
      (edges : Lookup EdgeRecord) (index : GraphIndex R)
      → IsChange edge_id edges removed added
      → Agrees nodes (leaving removed edges) index
      → Agrees nodes (mutated removed added edges) (upsert_edges index (values added))
  upsert_edges-Agrees removed added nodes edges index change (h, c) =
      let left = leaving removed edges in
      subst (λ f. Agrees nodes f (upsert_edges index (values added)))
        (with_all-mutated edge_id removed added edges change.added_unique change.added_keyed)
        (
          upsert_edges-IsIndexOf (values added) nodes left index
              (AreNew-values edge_id added left change.added_unique change.added_keyed change.free)
              h,
          subst (λ v. HasCandidates nothing_pending nodes v)
              (sym (upsert_edges-vectors (values added) index)) c,
        )

-- The records of a snapshot after a mutation.
module _ {V : Type 0} where
  get-insert_entries :
      (key : String) (added m : BTreeMap String V)
      → Unique added
      → Map.get key (insert_entries added m) ≡ or_else (Map.get key added) (Map.get key m)
  unfolding insert_entries Map.get
  get-insert_entries key [] m u = refl
  get-insert_entries key ((j, v) ∷ added) m u = ground (
    arith,
    get-insert_entries key added (Map.insert j v m) u.1,
    Map.get-insert j key v m,
    string_key.beq_iff j key,
  )

  get-mutated :
      (key : String) (removed added m : BTreeMap String V)
      → Unique added
      → Map.get key (insert_entries added (remove_each m (keys removed)))
        ≡ mutated removed added (stored m) key
  get-mutated key removed added m u = ground (
    arith,
    get-insert_entries key added (remove_each m (keys removed)) u,
    get-remove_each key m (keys removed),
    contains-keys key removed,
  )

abbrev pub IsMutation : {R : Type 0} → GraphSnapshot R → BatchMutation → Type 0
IsMutation base mutation =
    IsChange node_id (stored base.nodes) mutation.removed_nodes mutation.added_nodes
    × IsChange edge_id (stored base.edges) mutation.removed_edges mutation.added_edges

-- The index of a snapshot agrees with its records.
abbrev pub IsConsistent : {R : Type 0} → GraphSnapshot R → Type 0
IsConsistent snapshot = Agrees (stored snapshot.nodes) (stored snapshot.edges) snapshot.indexes

module _ {R : Type 0} (library : HnswLibrary R) (base : GraphSnapshot R)
    (mutation : BatchMutation) where
  pub get_node-mutated :
      (key : NodeId)
      → Unique mutation.added_nodes
      → Map.get key (snapshot_with_mutation library base mutation).nodes
        ≡ mutated mutation.removed_nodes mutation.added_nodes (stored base.nodes) key
  unfolding snapshot_with_mutation
  get_node-mutated key u = get-mutated key mutation.removed_nodes mutation.added_nodes base.nodes u

  pub get_edge-mutated :
      (key : EdgeId)
      → Unique mutation.added_edges
      → Map.get key (snapshot_with_mutation library base mutation).edges
        ≡ mutated mutation.removed_edges mutation.added_edges (stored base.edges) key
  unfolding snapshot_with_mutation
  get_edge-mutated key u = get-mutated key mutation.removed_edges mutation.added_edges base.edges u

  -- A mutation that removes what is there, and adds what is new or what it removes, keeps a snapshot
  -- consistent: the index that is updated in place agrees with the updated records.
  pub snapshot_with_mutation-IsConsistent :
      IsMutation base mutation
      → IsConsistent base
      → IsConsistent (snapshot_with_mutation library base mutation)
  unfolding snapshot_with_mutation indexes_with_mutation
  snapshot_with_mutation-IsConsistent (node_change, edge_change) h =
      let nodes = stored base.nodes in
      let edges = stored base.edges in
      let left_edges = leaving mutation.removed_edges edges in
      let nodes' = mutated mutation.removed_nodes mutation.added_nodes nodes in
      let edges' = mutated mutation.removed_edges mutation.added_edges edges in
      let without_edges = delete_edges base.indexes (values mutation.removed_edges) in
      let without_nodes = delete_nodes library without_edges (values mutation.removed_nodes) in
      let with_nodes = upsert_nodes library without_nodes (values mutation.added_nodes) in
      let index = upsert_edges with_nodes (values mutation.added_edges) in
      let agreed : Agrees nodes' edges' index =
        upsert_edges-Agrees mutation.removed_edges mutation.added_edges nodes' edges with_nodes
          edge_change
          (upsert_nodes-Agrees library mutation.removed_nodes mutation.added_nodes nodes left_edges
            without_nodes node_change
            (delete_nodes-Agrees library mutation.removed_nodes nodes left_edges without_edges
              node_change.removed_unique node_change.removed_keyed node_change.present
              (delete_edges-Agrees library mutation.removed_edges nodes edges base.indexes
                edge_change.removed_unique edge_change.removed_keyed edge_change.present h))) in
      subst (λ f. Agrees f (stored (snapshot_with_mutation library base mutation).edges) index)
        (sym (fun_ext λ key. get_node-mutated key node_change.added_unique))
        (subst (λ g. Agrees nodes' g index)
          (sym (fun_ext λ key. get_edge-mutated key edge_change.added_unique)) agreed)
