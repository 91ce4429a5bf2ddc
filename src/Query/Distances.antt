-- ===== src/Query/Distances.antt =====
-- `graph_distances`: the nodes within three hops of a start, breadth first.
pub mod Ends
pub mod Walks
use undr.Base.{
  ℕ, zero, suc, ◌+◌, ◌≤◌, ◌<◌, ◌≡◌, refl, sym, ◌∙◌, ap, subst, Bool, true, false, String, List, [],
  ◌∷◌, ◌++◌, Option, none, some, arith, leb, string_key, ◌==◌, if◌then◌else◌, Bool-cases,
  Option-cases, inl, inr, All, All-append,
}
use undr.Base.Map
use undr.Base.Map.{BTreeMap}
use undr.Base.Set.{contains}
use undr.Common.{NodeId, EdgeId}
use undr.Core.Records.{EdgeRecord}
use undr.Index.Lookup.{both}
use undr.Query.View.{GraphView}

abbrev pub Queue : Type 0
Queue = List (NodeId × ℕ)

abbrev pub Distances : Type 0
Distances = BTreeMap NodeId ℕ

abbrev pub neighbor : EdgeRecord → NodeId → NodeId
neighbor edge node_id = if edge.source == node_id then edge.target else edge.source

-- `distances.entry(id).or_insert_with(|| { queue.push_back((id, depth)); depth })`
abbrev pub discover : NodeId → ℕ → Queue × Distances → Queue × Distances
discover id depth (queue, distances) =
    if Map.contains_key id distances
    then (queue, distances)
    else (queue ++ (id, depth) ∷ [], Map.insert id depth distances)

abbrev pub discover_end : Option EdgeRecord → NodeId → ℕ → Queue × Distances → Queue × Distances
discover_end none node_id depth state = state
discover_end (some edge) node_id depth state = discover (neighbor edge node_id) depth state

module _ (view : GraphView) (edge_type : Option String) where
  unfoldable pub visit : List EdgeId → NodeId → ℕ → Queue × Distances → Queue × Distances
  visit [] node_id depth state = state
  visit (id ∷ ids) node_id depth state =
      visit ids node_id depth (discover_end (view.get_edge id) node_id depth state)

  -- One round of the loop, on the entry in front.
  abbrev pub round : NodeId → ℕ → Queue × Distances → Queue × Distances
  round node_id depth state =
      if leb 3 depth
      then state
      else visit (view.edge_ids_for_iter node_id both edge_type) node_id (suc depth) state

  -- `none` where the fuel runs out.
  unfoldable pub distance_loop : ℕ → Queue × Distances → Option Distances
  unfolding visit
  distance_loop zero state = none
  distance_loop (suc fuel) ([], distances) = some distances
  distance_loop (suc fuel) ((node_id, depth) ∷ queue, distances) =
      distance_loop fuel (round node_id depth (queue, distances))

  unfoldable pub graph_distances : ℕ → NodeId → Option Distances
  unfolding distance_loop
  graph_distances fuel start =
      if view.contains_node start
      then distance_loop fuel ((start, 0) ∷ [], (start, 0) ∷ [])
      else some []
