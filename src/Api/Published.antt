-- ===== src/Api/Published.antt =====
-- The published snapshot follows the engine: the mutation planned for a batch does to the snapshot
-- what the batch does to the engine's maps.
use undr.Base.{
  ◌≡◌, refl, sym, ◌∙◌, ap, subst, Bool, true, false, not, ◌&&◌, ◌||◌, String, List, [], ◌∷◌, Option,
  none, some, map, All, arith, string_key, is_empty, Bool-cases, Option-cases, inl, inr,
  if◌then◌else◌,
}
use undr.Base.Map
use undr.Base.Map.{BTreeMap, keys, Unique, values, is_some, kept}
use undr.Base.Set.{contains}
use undr.Common.{NodeId, EdgeId}
use undr.Core.Records.{EdgeRecord}
use undr.Core.Batch.{WriteBatch}
use undr.Storage.Batch.{Nodes, Edges, collect, incident}
use undr.Storage.Batch.Pointwise.{
  latest, unless, edge_after, contains-collect, incident-collect, incident_empty,
}
use undr.Index.Lookup.{has}
use undr.Index.Build.{edge_id}
use undr.Index.Rebuilt.{stored, IsKeyed}
use undr.Api.Mutation.{mutation_of, remove_found, insert_passing}
use undr.Api.Plan.{
  get-remove_found, remove_found-Unique, latest-old, is_some-latest, latest-keyed,
  get-insert_passing, insert_passing-Unique, get-remove_incident, get-drop_incident,
}
use undr.Api.Snapshot.{IsChange, mutated}

-- Removing what is found among the upserted and the deleted keys, and adding the latest of the
-- upserted ones that are not deleted.
module _ {V : Type 0} (id : V → String) (src : BTreeMap String V) (ups : List V)
    (dels : List String) where
  abbrev pub found : BTreeMap String V
  found = remove_found src dels (remove_found src (map id ups) [])

  pub get-found :
      (j : String)
      → Map.get j found
        ≡ (if (contains j dels || contains j (map id ups)) then Map.get j src else none)
  unfolding Map.get
  get-found j = ground (
    arith,
    get-remove_found j src dels (remove_found src (map id ups) []),
    get-remove_found j src (map id ups) [],
  )

  pub found-Unique : Unique found
  found-Unique =
      remove_found-Unique src dels (remove_found src (map id ups) [])
        (remove_found-Unique src (map id ups) [] tt)

  -- The test of the loop asks whether the key is deleted.
  module _ (test : V → Bool)
      (asks : All (λ v. test v ≡ not (contains (id v) (collect dels))) ups) where
    abbrev pub passing : BTreeMap String V
    passing = insert_passing id test ups []

    pub get-passing :
        (j : String) → Map.get j passing ≡ (if contains j dels then none else latest id j ups none)
    unfolding Map.get
    get-passing j = ground (
      arith,
      get-insert_passing id j test (λ i. not (contains i (collect dels))) ups [] asks,
      contains-collect j dels,
    )

    pub passing-IsKeyed : IsKeyed id passing
    passing-IsKeyed j v here =
        latest-keyed id j ups none (λ x impossible. cc) v (ground (arith, get-passing j))

    pub mutated-after :
        (j : String)
        → mutated found passing (stored src) j
          ≡ unless (contains j dels) (latest id j ups (Map.get j src))
    mutated-after j = ground (
      arith,
      get-found j,
      get-passing j,
      latest-old id j ups (Map.get j src),
      is_some-latest id j ups,
    )

    pub found-IsChange : IsKeyed id src → IsChange id (stored src) found passing
    found-IsChange keyed = record {
      removed_unique = found-Unique;
      added_unique = insert_passing-Unique id test ups [] tt;
      removed_keyed = λ j v here. keyed j v (ground (arith, get-found j));
      added_keyed = passing-IsKeyed;
      present = λ j v here. ground (arith, get-found j);
      free = λ j here. ground (arith, get-found j, get-passing j, is_some-latest id j ups);
    }

-- No edge that the batch upserts has an end that it deletes, neither as it comes nor as it is stored.
pub record IsApart (edges : Edges) (batch : WriteBatch) : Type 0 where
  pub ends : All (λ edge. incident batch.deleted_node_ids edge ≡ false) batch.edges_upserted
  pub before :
      All
        (λ (edge : EdgeRecord).
          has (incident batch.deleted_node_ids) (Map.get edge.id edges) ≡ false)
        batch.edges_upserted

latest-All :
    (test : EdgeRecord → Bool) (j : String) (vs : List EdgeRecord) (old : Option EdgeRecord)
    → All (λ v. test v ≡ false) vs
    → has test old ≡ false
    → has test (latest edge_id j vs old) ≡ false
latest-All test j [] old h o = o
latest-All test j (v ∷ vs) old h o =
    latest-All test j vs (if string_key.beq v.id j then some v else old) h.1 (ground (arith, h.0))

before-All :
    (test : EdgeRecord → Bool) (j : String) (vs : List EdgeRecord) (edges : Edges)
    → All (λ (v : EdgeRecord). has test (Map.get v.id edges) ≡ false) vs
    → contains j (map edge_id vs) ≡ true
    → has test (Map.get j edges) ≡ false
unfolding contains
before-All test j [] edges h among = ground arith
before-All test j (v ∷ vs) edges h among = elim (Bool-cases (string_key.beq v.id j)) [
  | inl same ↦
      subst (λ x. has test (Map.get x edges) ≡ false) ((string_key.beq_iff v.id j).0 same) h.0
  | inr other ↦ before-All test j vs edges h.1 (ground arith)
]

pub All-true : {V : Type 0} (f : V → Bool) (vs : List V) → All (λ v. f v ≡ f v) vs
All-true f [] = tt
All-true f (v ∷ vs) = (refl, All-true f vs)

has-collect :
    (ids : List String) (o : Option EdgeRecord)
    → has (incident (collect ids)) o ≡ has (incident ids) o
has-collect ids none = refl
has-collect ids (some edge) = incident-collect ids edge

has-empty :
    (ids : List String) (o : Option EdgeRecord)
    → is_empty (collect ids) ≡ true
    → has (incident ids) o ≡ false
has-empty ids none e = refl
has-empty ids (some edge) e = sym (incident-collect ids edge) ∙ incident_empty (collect ids) edge e

kept-clear :
    (test : EdgeRecord → Bool) (o : Option EdgeRecord)
    → has test o ≡ false
    → kept (λ edge. not (test edge)) o ≡ o
kept-clear test none h = refl
kept-clear test (some edge) h = ground arith

module _ (nodes : Nodes) (edges : Edges) (batch : WriteBatch) (unique : Unique edges)
    (keyed : IsKeyed edge_id edges) where
  abbrev pub dead : List NodeId
  dead = batch.deleted_node_ids

  abbrev pub passes : EdgeRecord → Bool
  passes edge =
      not (contains edge.id (collect batch.deleted_edge_ids)) && not (incident (collect dead) edge)

  abbrev pub found_edges : BTreeMap EdgeId EdgeRecord
  found_edges = found edge_id edges batch.edges_upserted batch.deleted_edge_ids

  abbrev pub passing_edges : BTreeMap EdgeId EdgeRecord
  passing_edges = insert_passing edge_id passes batch.edges_upserted []

  pub passes-asks :
      (es : List EdgeRecord)
      → All (λ edge. incident dead edge ≡ false) es
      → All
          (λ (edge : EdgeRecord).
            passes edge ≡ not (contains edge.id (collect batch.deleted_edge_ids)))
          es
  passes-asks [] h = tt
  passes-asks (e ∷ es) h = (ground (arith, h.0, incident-collect dead e), passes-asks es h.1)

  pub get-removed_edges :
      (j : EdgeId)
      → Map.get j (mutation_of nodes edges batch).removed_edges
        ≡ (if has (incident dead) (Map.get j edges) then Map.get j edges else Map.get j found_edges)
  unfolding mutation_of
  get-removed_edges j = elim (Bool-cases (is_empty (collect dead))) [
    | inl none_deleted ↦ rw (none_deleted, has-empty dead (Map.get j edges) none_deleted) refl
    | inr deleted ↦ rw deleted (
        get-remove_incident (collect dead) j edges found_edges unique keyed
        ∙ rw (has-collect dead (Map.get j edges)) refl)
  ]

  pub get-added_edges :
      (j : EdgeId)
      → Map.get j (mutation_of nodes edges batch).added_edges
        ≡ (if has (incident dead) (Map.get j edges) then none else Map.get j passing_edges)
  unfolding mutation_of
  get-added_edges j = elim (Bool-cases (is_empty (collect dead))) [
    | inl none_deleted ↦ rw (none_deleted, has-empty dead (Map.get j edges) none_deleted) refl
    | inr deleted ↦ rw deleted (
        get-drop_incident (collect dead) j edges passing_edges unique keyed
        ∙ rw (has-collect dead (Map.get j edges)) refl)
  ]

  -- A stored edge with a deleted end is not among the upserted ones, and goes.
  edge-hit :
      (j : EdgeId)
      → IsApart edges batch
      → has (incident dead) (Map.get j edges) ≡ true
      → mutated
          (mutation_of nodes edges batch).removed_edges
          (mutation_of nodes edges batch).added_edges
          (stored edges)
          j
        ≡ edge_after batch j (Map.get j edges)
  edge-hit j apart hit =
      let ups = batch.edges_upserted in
      let known = latest-old edge_id j ups (Map.get j edges) in
      elim (Bool-cases (contains j (map edge_id ups))) [
        | inl among ↦ ground (arith, before-All (incident dead) j ups edges apart.before among)
        | inr missing ↦ elim (Option-cases (Map.get j edges)) [
          | inl absent ↦ ground arith
          | inr (old, present) ↦
              ground (arith, get-removed_edges j, get-added_edges j, is_some-latest edge_id j ups)
        ]
      ]

  pub edge-mutated :
      (j : EdgeId)
      → IsApart edges batch
      → mutated
          (mutation_of nodes edges batch).removed_edges
          (mutation_of nodes edges batch).added_edges
          (stored edges)
          j
        ≡ edge_after batch j (Map.get j edges)
  edge-mutated j apart =
      let old = Map.get j edges in
      let ups = batch.edges_upserted in
      let after =
        mutated-after edge_id edges ups batch.deleted_edge_ids passes (passes-asks ups apart.ends)
          j in
      elim (Bool-cases (has (incident dead) old)) [
        | inl hit ↦ edge-hit j apart hit
        | inr clear ↦
            rw (get-removed_edges j, get-added_edges j, clear)
              (after
                ∙ ap (unless (contains j batch.deleted_edge_ids)) (
                    sym (
                      kept-clear (incident dead) (latest edge_id j ups old)
                        (latest-All (incident dead) j ups old apart.ends clear))))
      ]
