-- ===== src/Query/Distances/Ends.antt =====
-- The loop of `graph_distances` ends.
use undr.Base.{
  ℕ, zero, suc, ◌+◌, ◌-◌, ◌≤◌, ◌<◌, ◌≡◌, refl, ◌∙◌, ap, String, List, [], ◌∷◌, ◌++◌, Option, none,
  some, arith, leb, string_key, Bool-cases, inl, inr,
}
use undr.Base.Map
use undr.Common.{NodeId, EdgeId}
use undr.Core.Records.{EdgeRecord}
use undr.Index.Lookup.{both}
use undr.Query.View.{GraphView}
use undr.Query.Distances.{
  Queue, Distances, neighbor, discover, discover_end, visit, round, distance_loop, graph_distances,
}

module _ (view : GraphView) (edge_type : Option String) where
  abbrev end_cost : (NodeId → ℕ) → NodeId → Option EdgeRecord → ℕ
  end_cost f node_id none = 0
  end_cost f node_id (some edge) = f (neighbor edge node_id)

  unfoldable pub sum_costs : (NodeId → ℕ) → NodeId → List EdgeId → ℕ
  sum_costs f node_id [] = 0
  sum_costs f node_id (id ∷ ids) = end_cost f node_id (view.get_edge id) + sum_costs f node_id ids

  -- The rounds that an entry can cause, with so many hops left.
  unfoldable pub cost : ℕ → NodeId → ℕ
  cost zero node_id = 1
  cost (suc hops) node_id =
      suc (sum_costs (cost hops) node_id (view.edge_ids_for_iter node_id both edge_type))

  unfoldable work : Queue → ℕ
  work [] = 0
  work ((id, depth) ∷ queue) = cost (3 - depth) id + work queue

  work-append : (q r : Queue) → work (q ++ r) ≡ work q + work r
  unfolding work
  work-append [] r = omega arith
  work-append ((id, depth) ∷ q) r = omega (arith, work-append q r)

  discover-work :
      (id : NodeId) (depth : ℕ) (queue : Queue) (distances : Distances)
      → work (discover id depth (queue, distances)).0 ≤ work queue + cost (3 - depth) id
  unfolding work
  discover-work id depth queue distances = elim (Bool-cases (Map.contains_key id distances)) [
    | inl known ↦ rw known (omega arith)
    | inr new ↦ rw new (omega (arith, work-append queue ((id, depth) ∷ [])))
  ]

  discover_end-work :
      (edge : Option EdgeRecord) (id : NodeId) (depth : ℕ) (queue : Queue) (distances : Distances)
      → work (discover_end edge id depth (queue, distances)).0
        ≤ work queue + end_cost (cost (3 - depth)) id edge
  discover_end-work none id depth queue distances = omega arith
  discover_end-work (some edge) id depth queue distances =
      discover-work (neighbor edge id) depth queue distances

  visit-work :
      (ids : List EdgeId) (id : NodeId) (depth : ℕ) (state : Queue × Distances)
      → work (visit view edge_type ids id depth state).0
        ≤ work state.0 + sum_costs (cost (3 - depth)) id ids
  unfolding visit sum_costs
  visit-work [] id depth state = omega arith
  visit-work (i ∷ ids) id depth (queue, distances) = omega (
    arith,
    visit-work ids id depth (discover_end (view.get_edge i) id depth (queue, distances)),
    discover_end-work (view.get_edge i) id depth queue distances,
  )

  cost-zero : (id : NodeId) → cost 0 id ≡ 1
  unfolding cost
  cost-zero id = refl

  cost-suc :
      (hops : ℕ) (id : NodeId)
      → cost (suc hops) id
        ≡ suc (sum_costs (cost hops) id (view.edge_ids_for_iter id both edge_type))
  unfolding cost
  cost-suc hops id = refl

  pub cost-positive : (hops : ℕ) (id : NodeId) → 0 < cost hops id
  unfolding cost
  cost-positive zero id = omega arith
  cost-positive (suc hops) id = omega arith

  -- A round takes one from the work.
  round-work :
      (id : NodeId) (depth : ℕ) (queue : Queue) (distances : Distances)
      → work (round view edge_type id depth (queue, distances)).0 < work ((id, depth) ∷ queue)
  unfolding work
  round-work id depth queue distances = elim (Bool-cases (leb 3 depth)) [
    | inl far ↦ rw far (omega (arith, cost-positive (3 - depth) id))
    | inr near ↦
        let hops : 3 - depth ≡ suc (3 - suc depth) = ground arith in
        let here = ap (λ h. cost h id) hops ∙ cost-suc (3 - suc depth) id in
        rw near (
          omega (
            arith,
            here,
            visit-work (view.edge_ids_for_iter id both edge_type) id (suc depth) (queue, distances),
          ))
  ]

  distance_loop-ends :
      (fuel : ℕ) (state : Queue × Distances)
      → work state.0 < fuel
      → (distances : Distances) × (distance_loop view edge_type fuel state ≡ some distances)
  unfolding distance_loop
  distance_loop-ends zero state enough = (state.1, ground arith)
  distance_loop-ends (suc fuel) ([], distances) enough = (distances, refl)
  distance_loop-ends (suc fuel) ((id, depth) ∷ queue, distances) enough =
      distance_loop-ends fuel (round view edge_type id depth (queue, distances))
        (omega (arith, round-work id depth queue distances))

-- The search of the nodes within three hops ends: it takes at most one round for every walk of up
-- to three hops from the start, and one more.
pub graph_distances-ends :
    (view : GraphView) (edge_type : Option String) (start : NodeId) (fuel : ℕ)
    → cost view edge_type 3 start < fuel
    → (distances : Distances) × (graph_distances view edge_type fuel start ≡ some distances)
unfolding graph_distances work
graph_distances-ends view edge_type start fuel enough =
    elim (Bool-cases (view.contains_node start)) [
      | inl known ↦
          rw known (
            distance_loop-ends view edge_type fuel ((start, 0) ∷ [], (start, 0) ∷ []) (omega arith))
      | inr unknown ↦ ([], ground arith)
    ]
