-- ===== src/Query/Path.antt =====
-- `shortest_path`: a search from both ends, level by level.
pub mod Chains
pub mod Sizes
pub mod Trails
pub mod Answered
use undr.Base.{
  ℕ, zero, suc, ◌+◌, Bool, false, not, ◌&&◌, ◌||◌, String, List, [], ◌∷◌, ◌++◌, Option, none, some,
  map, keep, length, is_empty, nat_beq, leb, leb, string_key, ◌==◌, if◌then◌else◌,
}
use undr.Base.Map
use undr.Base.Map.{BTreeMap}
use undr.Base.Set.{contains}
use undr.Common.{NodeId, EdgeId}
use undr.Core.Records.{NodeRecord, EdgeRecord}
use undr.Index.Lookup.{EdgeDirection, outgoing, incoming, both}
use undr.Query.View.{GraphView, records_of}
use undr.Query.Limits.{TraversalConstraints, TraversalRuntime}
use undr.Query.Neighbors.{other_end}
use undr.Query.Response.{GraphPath}

unfoldable pub reverse_direction : EdgeDirection → EdgeDirection
reverse_direction outgoing = incoming
reverse_direction incoming = outgoing
reverse_direction both = both

-- `allowed.is_empty() || allowed.contains(value)`
abbrev pub constraint_allows : List String → String → Bool
constraint_allows allowed value = is_empty allowed || contains value allowed

abbrev pub has_label : List String → Option NodeRecord → Bool
has_label labels none = false
has_label labels (some node) = constraint_allows labels node.node_type

unfoldable pub expand_neighbors :
    GraphView → NodeId → EdgeDirection → TraversalConstraints → List (EdgeRecord × NodeId)
unfolding records_of
expand_neighbors view node_id direction constraints =
    map (λ edge. (edge, other_end direction node_id edge))
      (keep
        (λ edge.
          constraint_allows constraints.edge_types edge.edge_type
          && has_label constraints.node_labels (view.get_node (other_end direction node_id edge)))
        (records_of view.get_edge (view.edge_ids_for_iter node_id direction none)))

pub record PathParent : Type 0 where
  pub previous : Option NodeId
  pub via_edge : Option EdgeId

-- The queue of one side and the parents it has found.
abbrev pub Frontier : Type 0
Frontier = List (NodeId × ℕ) × BTreeMap NodeId PathParent

-- `return Some(meet)` from within a loop.
abbrev pub unless_met :
    Option NodeId × Frontier → (Frontier → Option NodeId × Frontier) → Option NodeId × Frontier
unless_met (some meet, side) rest = (some meet, side)
unless_met (none, side) rest = rest side

-- The body of the inner loop of `expand_frontier`, on one neighbour.
unfoldable pub enter :
    BTreeMap NodeId PathParent
    → NodeId
    → ℕ
    → EdgeRecord × NodeId
    → Frontier
    → Option NodeId × Frontier
enter other node_id depth (edge, id) (queue, parents) =
    if Map.contains_key id parents
    then (none, (queue, parents))
    else let found =
        Map.insert id (record { previous = some node_id; via_edge = some edge.id }) parents in
      if Map.contains_key id other
      then (some id, (queue, found))
      else (none, (queue ++ (id, suc depth) ∷ [], found))

unfoldable pub enter_each :
    BTreeMap NodeId PathParent
    → NodeId
    → ℕ
    → List (EdgeRecord × NodeId)
    → Frontier
    → Option NodeId × Frontier
unfolding enter
enter_each other node_id depth [] side = (none, side)
enter_each other node_id depth (found ∷ neighbors) side =
    unless_met (enter other node_id depth found side) (enter_each other node_id depth neighbors)

module _ (view : GraphView) (runtime : TraversalRuntime) where
  -- One round of the outer loop of `expand_frontier`, on the entry in front.
  abbrev pub expand_node :
      EdgeDirection → BTreeMap NodeId PathParent → NodeId → ℕ → Frontier → Option NodeId × Frontier
  expand_node direction other node_id depth side =
      if nat_beq depth runtime.max_depth
      then (none, side)
      else enter_each other node_id depth
          (expand_neighbors view node_id direction runtime.constraints) side

  -- The outer loop, for so many entries.
  unfoldable pub expand_level :
      EdgeDirection → BTreeMap NodeId PathParent → ℕ → Frontier → Option NodeId × Frontier
  unfolding enter_each expand_neighbors
  expand_level direction other zero side = (none, side)
  expand_level direction other (suc n) ([], parents) = (none, ([], parents))
  expand_level direction other (suc n) ((node_id, depth) ∷ queue, parents) =
      unless_met (expand_node direction other node_id depth (queue, parents))
        (expand_level direction other n)

  unfoldable pub expand_frontier :
      EdgeDirection → BTreeMap NodeId PathParent → Frontier → Option NodeId × Frontier
  unfolding expand_level
  expand_frontier direction other (queue, parents) =
      expand_level direction other (length queue) (queue, parents)

abbrev pub via : PathParent → List EdgeId
via parent = elim parent.via_edge [ none ↦ [] | some edge_id ↦ edge_id ∷ [] ]

abbrev pub add_step :
    List NodeId
    → List EdgeId
    → Option (List NodeId × List EdgeId)
    → Option (List NodeId × List EdgeId)
add_step nodes edges none = none
add_step nodes edges (some (ns, es)) = some (ns ++ nodes, es ++ edges)

abbrev pub lead_step :
    List NodeId
    → List EdgeId
    → Option (List NodeId × List EdgeId)
    → Option (List NodeId × List EdgeId)
lead_step nodes edges none = none
lead_step nodes edges (some (ns, es)) = some (nodes ++ ns, edges ++ es)

module _ (parents : BTreeMap NodeId PathParent) where
  -- `left_nodes` and `left_edges` after they are reversed. `none` where the fuel runs out.
  unfoldable pub left_part : ℕ → NodeId → Option (List NodeId × List EdgeId)
  left_part zero cursor = none
  left_part (suc fuel) cursor = elim (Map.get cursor parents) [
    | none ↦ some ([], [])
    | some parent ↦ elim parent.previous [
      | none ↦ some (cursor ∷ [], via parent)
      | some previous ↦ add_step (cursor ∷ []) (via parent) (left_part fuel previous)
    ]
  ]

  unfoldable pub right_part : ℕ → NodeId → Option (List NodeId × List EdgeId)
  right_part zero cursor = none
  right_part (suc fuel) cursor = elim (Map.get cursor parents) [
    | none ↦ some ([], [])
    | some parent ↦ elim parent.previous [
      | none ↦ some ([], [])
      | some previous ↦ lead_step (previous ∷ []) (via parent) (right_part fuel previous)
    ]
  ]

abbrev pub is_node : NodeId → Option NodeId → Bool
is_node node_id none = false
is_node node_id (some id) = id == node_id

unfoldable pub last : List NodeId → Option NodeId
last [] = none
last (id ∷ ids) = if is_empty ids then some id else last ids

abbrev pub first : List NodeId → Option NodeId
first [] = none
first (id ∷ ids) = some id

-- `none` where the fuel ran out, `some none` where no path is answered.
unfoldable pub join_parts :
    NodeId
    → NodeId
    → Option (List NodeId × List EdgeId)
    → Option (List NodeId × List EdgeId)
    → Option (Option GraphPath)
unfolding last
join_parts source target none right = none
join_parts source target (some left) none = none
join_parts source target (some (left_nodes, left_edges)) (some (right_nodes, right_edges)) =
    let node_ids = left_nodes ++ right_nodes in
    let edge_ids = left_edges ++ right_edges in
    if is_node source (first node_ids) && is_node target (last node_ids)
    then some
        (some (record { node_ids = node_ids; edge_ids = edge_ids; hop_count = length edge_ids }))
    else some none

unfoldable pub reconstruct_path :
    ℕ
    → NodeId
    → NodeId
    → NodeId
    → BTreeMap NodeId PathParent
    → BTreeMap NodeId PathParent
    → Option (Option GraphPath)
unfolding left_part right_part join_parts
reconstruct_path fuel source target meet forward_parents backward_parents =
    join_parts source target (left_part forward_parents fuel meet)
      (right_part backward_parents fuel meet)

abbrev pub start_at : NodeId → Frontier
start_at id = ((id, 0) ∷ [], (id, record { previous = none; via_edge = none }) ∷ [])

module _ (view : GraphView) (source target : NodeId) (direction : EdgeDirection)
    (runtime : TraversalRuntime) (expired : ℕ → Bool) where
  abbrev pub reconstructed : NodeId → Frontier → Frontier → Option (Option GraphPath)
  reconstructed meet forward backward =
      reconstruct_path (runtime.max_depth + 1) source target meet forward.1 backward.1

  abbrev pub after_backward :
      Frontier
      → Option NodeId × Frontier
      → (Frontier → Frontier → Option (Option GraphPath))
      → Option (Option GraphPath)
  after_backward forward (some meet, backward) rest = reconstructed meet forward backward
  after_backward forward (none, backward) rest = rest forward backward

  abbrev pub after_forward :
      Option NodeId × Frontier
      → Frontier
      → (Frontier → Frontier → Option (Option GraphPath))
      → Option (Option GraphPath)
  after_forward (some meet, forward) backward rest = reconstructed meet forward backward
  after_forward (none, forward) backward rest =
      after_backward forward
        (expand_frontier view runtime (reverse_direction direction) forward.1 backward) rest

  -- The `while` loop. The clock is read once a round: `expired n` says whether the time has run
  -- out when `n` more rounds are granted.
  unfoldable pub path_loop : ℕ → Frontier → Frontier → Option (Option GraphPath)
  unfolding expand_frontier reconstruct_path reverse_direction
  path_loop zero forward backward = none
  path_loop (suc fuel) forward backward =
      if is_empty forward.0 || is_empty backward.0
      then some none
      else if expired fuel
      then some none
      else if leb runtime.limit (length forward.1 + length backward.1)
      then some none
      else after_forward (expand_frontier view runtime direction backward.1 forward) backward
          (path_loop fuel)

  unfoldable pub shortest_path : Option (Option GraphPath)
  unfolding path_loop
  shortest_path =
      if not (view.contains_node source) || not (view.contains_node target)
      then some none
      else if source == target
      then some (some (record { node_ids = source ∷ []; edge_ids = []; hop_count = 0 }))
      else path_loop (runtime.limit + 1) (start_at source) (start_at target)
