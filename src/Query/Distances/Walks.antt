-- ===== src/Query/Distances/Walks.antt =====
-- What `graph_distances` finds: every distance is the length of a walk.
use mathlib.Core.Option.{some-injective}
use undr.Base.{
  ℕ, zero, suc, ◌≤◌, ◌≡◌, refl, sym, subst, true, String, List, [], ◌∷◌, Option, none, some, arith,
  leb, string_key, Bool-cases, inl, inr, All, All-append, All-imp,
}
use undr.Base.Map
use undr.Base.Set.{contains}
use undr.Common.{NodeId, EdgeId}
use undr.Core.Records.{EdgeRecord}
use undr.Index.Lookup.{both}
use undr.Query.View.{GraphView}
use undr.Query.Distances.{
  Queue, Distances, neighbor, discover, discover_end, visit, round, distance_loop, graph_distances,
}

pub All-contained : (ids : List String) → All (λ i. contains i ids ≡ true) ids
unfolding contains
All-contained [] = tt
All-contained (x ∷ ids) = (
  ground (arith, string_key.beq_iff x x),
  All-imp (λ i listed. ground arith) ids (All-contained ids),
)

module _ (view : GraphView) (edge_type : Option String) where
  -- An edge of the type that the view lists at the first node leads to the second.
  abbrev pub IsHop : NodeId → NodeId → Type 0
  IsHop a b =
      (id : EdgeId) × (edge : EdgeRecord) × (contains id (view.edge_ids_for_iter a both edge_type)
        ≡ true)
      × (view.get_edge id ≡ some edge)
      × (neighbor edge a ≡ b)

  abbrev pub IsWalk : ℕ → NodeId → NodeId → Type 0
  IsWalk zero a b = a ≡ b
  IsWalk (suc n) a b = (c : NodeId) × IsWalk n a c × IsHop c b

  module _ (start : NodeId) where
    abbrev IsNear : NodeId × ℕ → Type 0
    IsNear (id, depth) = IsWalk depth start id × (depth ≤ 3)

    -- Of the queue and the distances so far.
    abbrev AreNear : Queue × Distances → Type 0
    AreNear (queue, distances) =
        All IsNear queue
        × ((id : NodeId) (depth : ℕ) → Map.get id distances ≡ some depth → IsNear (id, depth))

    discover-AreNear :
        (id : NodeId) (depth : ℕ) (queue : Queue) (distances : Distances)
        → IsNear (id, depth)
        → AreNear (queue, distances)
        → AreNear (discover id depth (queue, distances))
    discover-AreNear id depth queue distances near (q, d) =
        elim (Bool-cases (Map.contains_key id distances)) [
          | inl known ↦ rw known (q, d)
          | inr new ↦ rw new (
            All-append IsNear queue ((id, depth) ∷ []) q (near, tt),
            λ j n found. elim (Bool-cases (string_key.beq id j)) [
              | inl same ↦
                  subst (λ m. IsNear (j, m))
                    (some-injective depth n (ground (arith, Map.get-insert id j depth distances)))
                    (subst (λ x. IsNear (x, depth)) ((string_key.beq_iff id j).0 same) near)
              | inr other ↦ d j n (ground (arith, Map.get-insert id j depth distances))
            ],
          )
        ]

    discover_end-AreNear :
        (id : NodeId) (i : EdgeId) (depth : ℕ) (edge : Option EdgeRecord)
        (state : Queue × Distances)
        → view.get_edge i ≡ edge
        → contains i (view.edge_ids_for_iter id both edge_type) ≡ true
        → IsWalk depth start id
        → suc depth ≤ 3
        → AreNear state
        → AreNear (discover_end edge id (suc depth) state)
    discover_end-AreNear id i depth none state e listed walk fits near = near
    discover_end-AreNear id i depth (some edge) (queue, distances) e listed walk fits near =
        discover-AreNear (neighbor edge id) (suc depth) queue distances
          ((id, walk, (i, edge, listed, e, refl)), fits) near

    visit-AreNear :
        (ids : List EdgeId) (id : NodeId) (depth : ℕ) (state : Queue × Distances)
        → All (λ i. contains i (view.edge_ids_for_iter id both edge_type) ≡ true) ids
        → IsWalk depth start id
        → suc depth ≤ 3
        → AreNear state
        → AreNear (visit view edge_type ids id (suc depth) state)
    unfolding visit
    visit-AreNear [] id depth state listed walk fits near = near
    visit-AreNear (i ∷ ids) id depth state listed walk fits near =
        visit-AreNear ids id depth (discover_end (view.get_edge i) id (suc depth) state) listed.1
          walk fits
          (discover_end-AreNear id i depth (view.get_edge i) state refl listed.0 walk fits near)

    round-AreNear :
        (id : NodeId) (depth : ℕ) (queue : Queue) (distances : Distances)
        → AreNear ((id, depth) ∷ queue, distances)
        → AreNear (round view edge_type id depth (queue, distances))
    round-AreNear id depth queue distances (((walk, fits), q), d) =
        elim (Bool-cases (leb 3 depth)) [
          | inl far ↦ rw far (q, d)
          | inr near ↦
              let edges = view.edge_ids_for_iter id both edge_type in
              rw near (
                visit-AreNear edges id depth (queue, distances) (All-contained edges) walk
                  (ground arith) (q, d))
        ]

    distance_loop-IsNear :
        (fuel : ℕ) (state : Queue × Distances) (distances : Distances)
        → AreNear state
        → distance_loop view edge_type fuel state ≡ some distances
        → (id : NodeId) (depth : ℕ) → Map.get id distances ≡ some depth
        → IsNear (id, depth)
    unfolding distance_loop
    distance_loop-IsNear zero state distances near ends = λ id depth here. cc
    distance_loop-IsNear (suc fuel) ([], found) distances near ends = λ id depth here.
        near.1 id depth
          (subst (λ m. Map.get id m ≡ some depth) (sym (some-injective found distances ends)) here)
    distance_loop-IsNear (suc fuel) ((i, n) ∷ queue, found) distances near ends =
        distance_loop-IsNear fuel (round view edge_type i n (queue, found)) distances
          (round-AreNear i n queue found near) ends

    first-IsNear : (j : NodeId) (n : ℕ) → Map.get j ((start, 0) ∷ []) ≡ some n → IsNear (j, n)
    unfolding Map.get
    first-IsNear j n here = elim (Bool-cases (string_key.beq start j)) [
      | inl same ↦
          subst (λ m. IsNear (j, m)) (some-injective 0 n (ground arith))
            ((string_key.beq_iff start j).0 same, omega arith)
      | inr other ↦ ground arith
    ]

-- Every distance that the search finds is at most 3, and the number of hops of a walk from the start
-- to the node, over edges that the view lists. It is asked of a search that ends.
pub graph_distances-IsWalk :
    (view : GraphView) (edge_type : Option String) (start : NodeId) (fuel : ℕ)
    (distances : Distances) (id : NodeId) (depth : ℕ)
    → graph_distances view edge_type fuel start ≡ some distances
    → Map.get id distances ≡ some depth
    → IsWalk view edge_type depth start id × (depth ≤ 3)
unfolding graph_distances Map.get
graph_distances-IsWalk view edge_type start fuel distances id depth ends found =
    elim (Bool-cases (view.contains_node start)) [
      | inl known ↦
          distance_loop-IsNear view edge_type start fuel ((start, 0) ∷ [], (start, 0) ∷ [])
            distances
            (((refl, omega arith), tt), λ j n here. first-IsNear view edge_type start j n here)
            (rw known at ends) id depth found
      | inr unknown ↦
          let empty : some [] ≡ some distances = rw unknown at ends in
          let absurd : none ≡ some depth =
            subst (λ m. Map.get id m ≡ some depth) (sym (some-injective [] distances empty))
              found in
          cc
    ]
