-- ===== src/Index/Found.antt =====
-- What the lookups of an index find, where it agrees with the records.
use undr.Base.{
  ◌≡◌, refl, ap, ◌∙◌, sym, subst, Bool, true, false, ◌&&◌, ◌||◌, String, List, [], ◌∷◌, ◌++◌,
  Option, none, some, keep, arith, string_key, Bool-cases, Option-cases, inl, inr, if◌then◌else◌,
}
use undr.Base.Int.{ℤ, int_key, leb_ℤ, ltb_ℤ}
use undr.Base.Map
use undr.Base.Map.{BTreeMap, is_some}
use undr.Base.Set.{contains}
use undr.Common.{NodeId, EdgeId, Result, ok, err, panic}
use undr.Core.Records.{NodeRecord, EdgeRecord, timestamp_ms}
use undr.Index.Lookup.{Lookup, has}
use undr.Index.Buckets.{bucket}
use undr.Index.Graph.{GraphIndex}
use undr.Index.Agreement.{IsIndexOf, is_at}
use undr.Index.Lookup.{EdgeDirection, outgoing, incoming, both, touches, has_type, is_within}
use undr.Index.Search.{
  has_edge_type, ids_within, edge_ids_for_iter, node_ids_in_time_range, is_outgoing, is_incoming,
}

pub contains-append :
    (j : String) (xs ys : List String) → contains j (xs ++ ys) ≡ (contains j xs || contains j ys)
unfolding contains
contains-append j [] ys = refl
contains-append j (x ∷ xs) ys = ground (arith, contains-append j xs ys)

pub contains-keep :
    (test : String → Bool) (j : String) (xs : List String)
    → contains j (keep test xs) ≡ (test j && contains j xs)
unfolding contains
contains-keep test j [] = ground arith
contains-keep test j (x ∷ xs) = ground (arith, contains-keep test j xs, string_key.beq_iff x j)

has_edge_type-eq :
    (edges : Lookup EdgeRecord) (edge_type : Option String) (test : EdgeRecord → Bool) (id : EdgeId)
    → (has_edge_type edges edge_type id && has test (edges id))
      ≡ has (λ edge. test edge && has_type edge_type edge) (edges id)
unfolding has_edge_type
has_edge_type-eq edges none test id = ground arith
has_edge_type-eq edges (some t) test id = ground arith

contains-ids_within :
    (from to : ℤ) (id : NodeId) (index : BTreeMap ℤ (List NodeId))
    → Map.Unique index
    → contains id (ids_within from to index) ≡ true
    → (time : ℤ) × ((leb_ℤ from time && leb_ℤ time to) ≡ true)
      × (contains id (bucket time index) ≡ true)
unfolding ids_within contains Map.get
contains-ids_within from to id [] u h = ground arith
contains-ids_within from to id ((time, ids) ∷ index) u h =
    elim (Bool-cases ((leb_ℤ from time && leb_ℤ time to) && contains id ids)) [
      | inl here ↦ (time, ground arith, ground (arith, int_key.beq_iff time time))
      | inr elsewhere ↦
          let (later, within, listed) =
            contains-ids_within from to id index u.1
              (ground (arith, contains-append id ids (ids_within from to index))) in
          (later, within, ground (arith, int_key.beq_iff time later))
    ]

ids_within-contains :
    (from to time : ℤ) (id : NodeId) (index : BTreeMap ℤ (List NodeId))
    → (leb_ℤ from time && leb_ℤ time to) ≡ true
    → contains id (bucket time index) ≡ true
    → contains id (ids_within from to index) ≡ true
unfolding ids_within contains Map.get
ids_within-contains from to time id [] within listed = ground arith
ids_within-contains from to time id ((first, ids) ∷ index) within listed =
    elim (Bool-cases (int_key.beq first time)) [
      | inl same ↦
          let here = (int_key.beq_iff first time).0 same in
          let within_first = subst (λ t. (leb_ℤ from t && leb_ℤ t to) ≡ true) (sym here) within in
          ground (arith, contains-append id ids (ids_within from to index))
      | inr other ↦
          let later = ids_within-contains from to time id index within (ground arith) in
          ground (arith, contains-append id ids (ids_within from to index))
    ]

is_at-within :
    (from to time : ℤ) (o : Option ℤ)
    → (leb_ℤ from time && leb_ℤ time to) ≡ true
    → is_at time o ≡ true
    → is_within from to o ≡ true
is_at-within from to time none within at = cc
is_at-within from to time (some t) within at =
    subst (λ x. (leb_ℤ from x && leb_ℤ x to) ≡ true) (sym ((int_key.beq_iff t time).0 at)) within

has_at-within :
    (from to time : ℤ) (o : Option NodeRecord)
    → (leb_ℤ from time && leb_ℤ time to) ≡ true
    → has (λ node. is_at time (timestamp_ms node)) o ≡ true
    → has (λ node. is_within from to (timestamp_ms node)) o ≡ true
has_at-within from to time none within at = at
has_at-within from to time (some node) within at =
    is_at-within from to time (timestamp_ms node) within at

within-has_at :
    (from to : ℤ) (o : Option NodeRecord)
    → has (λ node. is_within from to (timestamp_ms node)) o ≡ true
    → (time : ℤ) × ((leb_ℤ from time && leb_ℤ time to) ≡ true)
      × (has (λ node. is_at time (timestamp_ms node)) o ≡ true)
within-has_at from to none within = cc
within-has_at from to (some node) within = elim (Option-cases (timestamp_ms node)) [
  | inl timeless ↦ ground arith
  | inr (time, at) ↦ (time, ground arith, ground (arith, int_key.beq_iff time time))
]

-- What a range of times answers: a list for a range that does not start behind its end, and a panic
-- for one that does.
abbrev pub TimeRange : Lookup NodeRecord → ℤ → ℤ → Result (List NodeId) → Type 0
TimeRange nodes from to (ok ids) =
    (ltb_ℤ to from ≡ false)
    × ((id : NodeId)
        → contains id ids ≡ has (λ node. is_within from to (timestamp_ms node)) (nodes id))
TimeRange nodes from to (err e) = ⊥
TimeRange nodes from to panic = ltb_ℤ to from ≡ true

module _ {R : Type 0} (nodes : Lookup NodeRecord) (edges : Lookup EdgeRecord)
    (index : GraphIndex R) where
  contains-ends :
      (node_id : NodeId) (direction : EdgeDirection) (id : EdgeId)
      → IsIndexOf nodes edges index
      → contains id (
          (if is_outgoing direction then bucket node_id index.adjacency_index else [])
          ++ (if is_incoming direction then bucket node_id index.reverse_adjacency_index else []))
        ≡ has (touches node_id direction) (edges id)
  unfolding contains
  contains-ends node_id outgoing id h =
      ground
        (arith, h.sources node_id id, contains-append id (bucket node_id index.adjacency_index) [])
  contains-ends node_id incoming id h = ground (arith, h.targets node_id id)
  contains-ends node_id both id h = ground (
    arith,
    h.sources node_id id,
    h.targets node_id id,
    contains-append id (bucket node_id index.adjacency_index)
        (bucket node_id index.reverse_adjacency_index),
  )

  -- Where the index agrees with the records: the edges it lists for a node, a direction and a type
  -- are those that stand in the records with this end and this type.
  pub contains-edge_ids_for :
      (node_id : NodeId) (direction : EdgeDirection) (edge_type : Option String) (id : EdgeId)
      → IsIndexOf nodes edges index
      → contains id (edge_ids_for_iter index node_id direction edges edge_type)
        ≡ has (λ edge. touches node_id direction edge && has_type edge_type edge) (edges id)
  unfolding edge_ids_for_iter has_edge_type contains
  contains-edge_ids_for node_id direction edge_type id h =
      let ends =
        (if is_outgoing direction then bucket node_id index.adjacency_index else [])
        ++ (if is_incoming direction then bucket node_id index.reverse_adjacency_index else []) in
      contains-keep (has_edge_type edges edge_type) id ends
      ∙ ap (λ b. has_edge_type edges edge_type id && b) (contains-ends node_id direction id h)
      ∙ has_edge_type-eq edges edge_type (touches node_id direction) id

  range_of :
      (from to : ℤ) (id : NodeId)
      → IsIndexOf nodes edges index
      → contains id (ids_within from to index.temporal_index)
        ≡ has (λ node. is_within from to (timestamp_ms node)) (nodes id)
  range_of from to id h =
      elim (Bool-cases (contains id (ids_within from to index.temporal_index))) [
        | inl found ↦
            let (time, within, listed) =
              contains-ids_within from to id index.temporal_index h.times_unique found in
            found
            ∙ sym (has_at-within from to time (nodes id) within (sym (h.times time id) ∙ listed))
        | inr missing ↦
            elim (Bool-cases (has (λ node. is_within from to (timestamp_ms node)) (nodes id))) [
              | inl within ↦
                  let (time, inside, at) = within-has_at from to (nodes id) within in
                  ground (
                    arith,
                    ids_within-contains from to time id index.temporal_index inside
                        (h.times time id ∙ at),
                  )
              | inr outside ↦ missing ∙ sym outside
            ]
      ]

  -- Where the index agrees with the records: a range of times that does not start behind its end
  -- gives exactly the nodes whose timestamp is within it, both bounds included. A range that starts
  -- behind its end panics, and no other does; an error is never the answer.
  pub node_ids_in_time_range-finds :
      (from to : ℤ)
      → IsIndexOf nodes edges index
      → TimeRange nodes from to (node_ids_in_time_range index from to)
  unfolding node_ids_in_time_range
  node_ids_in_time_range-finds from to h = elim (Bool-cases (ltb_ℤ to from)) [
    | inl backwards ↦ rw backwards backwards
    | inr forwards ↦ rw forwards (forwards, λ id. range_of from to id h)
  ]
