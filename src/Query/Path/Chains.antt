-- ===== src/Query/Path/Chains.antt =====
-- The parents that `expand_frontier` finds lead back to the root of its side.
use undr.Base.{
  ℕ, zero, suc, ◌≤◌, ◌<◌, ◌≡◌, refl, sym, subst, true, false, ◌&&◌, List, [], ◌∷◌, ◌++◌, Option,
  none, some, map, keep, arith, nat_beq, length, string_key, Bool-cases, Option-cases, inl, inr,
  All, All-append, All-imp,
}
use undr.Base.Map
use undr.Base.Map.{BTreeMap}
use undr.Base.Set.{contains}
use undr.Common.{NodeId, EdgeId}
use undr.Core.Records.{EdgeRecord}
use undr.Index.Lookup.{EdgeDirection}
use undr.Query.View.{GraphView, records_of}
use undr.Query.Limits.{TraversalConstraints, TraversalRuntime}
use undr.Query.Neighbors.{other_end}
use undr.Query.Distances.Walks.{All-contained}
use undr.Query.Path.{
  PathParent, Frontier, constraint_allows, has_label, expand_neighbors, unless_met, enter,
  enter_each, expand_node, expand_level, expand_frontier,
}

abbrev pub no_parent : PathParent
no_parent = record { previous = none; via_edge = none }

abbrev pub parent_by : NodeId → EdgeId → PathParent
parent_by node_id edge_id = record { previous = some node_id; via_edge = some edge_id }

-- What holds of a state that is met holds after the rest too, and the rest is left to show.
pub unless_met-cases :
    (P Q : Option NodeId × Frontier → Type 0) (state : Option NodeId × Frontier)
    (rest : Frontier → Option NodeId × Frontier)
    → P state
    → ((side : Frontier) → P (none, side) → Q (rest side))
    → ((meet : NodeId) (side : Frontier) → P (some meet, side) → Q (some meet, side))
    → Q (unless_met state rest)
unless_met-cases P Q (none, side) rest p goes stops = goes side p
unless_met-cases P Q (some meet, side) rest p goes stops = stops meet side p

-- Where every chain of parents is long at most `bound`.
module _ (IsStep : NodeId → EdgeId → NodeId → Type 0) (root : NodeId) (bound : ℕ) where
  -- After so many parents the root is reached.
  abbrev pub IsChain : BTreeMap NodeId PathParent → ℕ → NodeId → Type 0
  IsChain parents zero id = (Map.get id parents ≡ some no_parent) × (id ≡ root)
  IsChain parents (suc n) id =
      (p : NodeId) × (e : EdgeId) × (Map.get id parents ≡ some (parent_by p e))
      × IsStep p e id
      × IsChain parents n p

  abbrev pub IsShort : BTreeMap NodeId PathParent → NodeId → Type 0
  IsShort parents id = (n : ℕ) × (n ≤ bound) × IsChain parents n id

  abbrev pub IsQueued : BTreeMap NodeId PathParent → NodeId × ℕ → Type 0
  IsQueued parents (id, depth) = (depth ≤ bound) × IsChain parents depth id

  abbrev pub IsSide : Frontier → Type 0
  IsSide (queue, parents) =
      All (IsQueued parents) queue
      × ((id : NodeId) (parent : PathParent)
          → Map.get id parents ≡ some parent
          → IsShort parents id)

  get-insert_new :
      (id j : NodeId) (v w : PathParent) (parents : BTreeMap NodeId PathParent)
      → Map.contains_key id parents ≡ false
      → Map.get j parents ≡ some w
      → Map.get j (Map.insert id v parents) ≡ some w
  unfolding Map.contains_key
  get-insert_new id j v w parents new found = elim (Bool-cases (string_key.beq id j)) [
    | inl same ↦
        let equal : id ≡ j = (string_key.beq_iff id j).0 same in
        let taken : Map.get id parents ≡ some w =
          subst (λ i. Map.get i parents ≡ some w) (sym equal) found in
        ground (arith, taken)
    | inr other ↦ rw (Map.get-insert id j v parents, other) found
  ]

  IsChain-insert :
      (parents : BTreeMap NodeId PathParent) (id : NodeId) (v : PathParent) (n : ℕ) (j : NodeId)
      → Map.contains_key id parents ≡ false
      → IsChain parents n j
      → IsChain (Map.insert id v parents) n j
  IsChain-insert parents id v zero j new (found, start) =
      (get-insert_new id j v no_parent parents new found, start)
  IsChain-insert parents id v (suc n) j new (p, e, found, step, chain) = (
    p,
    e,
    get-insert_new id j v (parent_by p e) parents new found,
    step,
    IsChain-insert parents id v n p new chain,
  )

  -- A node that was met stands on both sides.
  abbrev pub IsExpanded : BTreeMap NodeId PathParent → Option NodeId × Frontier → Type 0
  IsExpanded other (none, side) = IsSide side
  IsExpanded other (some meet, side) =
      IsSide side × (Map.contains_key meet side.1 ≡ true) × (Map.contains_key meet other ≡ true)

  module _ (other : BTreeMap NodeId PathParent) (node_id : NodeId) (depth : ℕ) where
    -- The same, of the neighbours of a node.
    abbrev IsVisited : Option NodeId × Frontier → Type 0
    IsVisited state = IsExpanded other state × IsChain state.1.1 depth node_id

    abbrev IsNeighbor : EdgeRecord × NodeId → Type 0
    IsNeighbor (edge, id) = IsStep node_id edge.id id

    insert-IsSide :
        (queue : List (NodeId × ℕ)) (parents : BTreeMap NodeId PathParent) (id : NodeId)
        (e : EdgeId)
        → depth < bound
        → IsStep node_id e id
        → IsChain parents depth node_id
        → Map.contains_key id parents ≡ false
        → IsSide (queue, parents)
        → IsSide (queue ++ (id, suc depth) ∷ [], Map.insert id (parent_by node_id e) parents)
          × IsSide (queue, Map.insert id (parent_by node_id e) parents)
          × IsChain (Map.insert id (parent_by node_id e) parents) depth node_id
    insert-IsSide queue parents id e fits step chain new (queued, found) =
        let v = parent_by node_id e in
        let more = Map.insert id v parents in
        let kept : IsChain more depth node_id =
          IsChain-insert parents id v depth node_id new chain in
        let added : IsChain more (suc depth) id = (
          node_id,
          e,
          ground (arith, Map.get-insert id id v parents, string_key.beq_iff id id),
          step,
          kept,
        ) in
        let requeued : All (IsQueued more) queue =
          All-imp (λ (j, n) q. (q.0, IsChain-insert parents id v n j new q.1)) queue queued in
        let refound : (j : NodeId) (w : PathParent) → Map.get j more ≡ some w → IsShort more j =
          λ j w here. elim (Bool-cases (string_key.beq id j)) [
            | inl same ↦
                subst (λ i. IsShort more i) ((string_key.beq_iff id j).0 same)
                  (suc depth, fits, added)
            | inr distinct ↦
                let short = found j w (ground (arith, Map.get-insert id j v parents)) in
                (short.0, short.1, IsChain-insert parents id v short.0 j new short.2)
          ] in
        (
          (
            All-append (IsQueued more) queue ((id, suc depth) ∷ []) requeued ((fits, added), tt),
            refound,
          ),
          (requeued, refound),
          kept,
        )

    enter-IsVisited :
        (found : EdgeRecord × NodeId) (side : Frontier)
        → depth < bound
        → IsNeighbor found
        → IsChain side.1 depth node_id
        → IsSide side
        → IsVisited (enter other node_id depth found side)
    unfolding enter
    enter-IsVisited (edge, id) (queue, parents) fits step chain side =
        elim (Bool-cases (Map.contains_key id parents)) [
          | inl known ↦ rw known (side, chain)
          | inr new ↦
              let v = parent_by node_id edge.id in
              let (longer, same, kept) =
                insert-IsSide queue parents id edge.id fits step chain new side in
              elim (Bool-cases (Map.contains_key id other)) [
                | inl there ↦
                    rw (new, there)
                      (
                        (
                          same,
                          ground (
                            arith,
                            Map.contains_key-eq id (Map.insert id v parents),
                            Map.get-insert id id v parents,
                            string_key.beq_iff id id,
                          ),
                          there,
                        ),
                        kept,
                      )
                | inr alone ↦ rw (new, alone) (longer, kept)
              ]
        ]

    enter_each-IsVisited :
        (neighbors : List (EdgeRecord × NodeId)) (side : Frontier)
        → depth < bound
        → All IsNeighbor neighbors
        → IsChain side.1 depth node_id
        → IsSide side
        → IsVisited (enter_each other node_id depth neighbors side)
    unfolding enter_each
    enter_each-IsVisited [] side fits steps chain ok = (ok, chain)
    enter_each-IsVisited (found ∷ neighbors) side fits steps chain ok =
        unless_met-cases IsVisited IsVisited (enter other node_id depth found side)
          (enter_each other node_id depth neighbors)
          (enter-IsVisited found side fits steps.0 chain ok)
          (λ next (good, kept). enter_each-IsVisited neighbors next fits steps.1 kept good)
          (λ meet next visited. visited)

-- An edge that the view lists at the first node, of an allowed type, leads to the second, which has
-- an allowed label.
abbrev pub IsStepOf :
    GraphView → TraversalConstraints → EdgeDirection → NodeId → EdgeId → NodeId → Type 0
IsStepOf view constraints direction a e b =
    (id : EdgeId) × (edge : EdgeRecord) × (contains id (view.edge_ids_for_iter a direction none)
      ≡ true)
    × (view.get_edge id ≡ some edge)
    × (edge.id ≡ e)
    × (other_end direction a edge ≡ b)
    × (constraint_allows constraints.edge_types edge.edge_type ≡ true)
    × (has_label constraints.node_labels (view.get_node b) ≡ true)

module _ (view : GraphView) (runtime : TraversalRuntime) (direction : EdgeDirection) where
  module _ (node_id : NodeId) where
    abbrev pub IsFound : EdgeRecord × NodeId → Type 0
    IsFound (edge, id) = IsStepOf view runtime.constraints direction node_id edge.id id

    neighbors-AreSteps :
        (ids : List EdgeId)
        → All (λ i. contains i (view.edge_ids_for_iter node_id direction none) ≡ true) ids
        → All IsFound (
            map
              (λ edge. (edge, other_end direction node_id edge))
              (keep
                (λ edge.
                  constraint_allows runtime.constraints.edge_types edge.edge_type
                  && has_label runtime.constraints.node_labels
                      (view.get_node (other_end direction node_id edge)))
                (records_of view.get_edge ids)))
    unfolding records_of
    neighbors-AreSteps [] listed = tt
    neighbors-AreSteps (i ∷ ids) listed = elim (Option-cases (view.get_edge i)) [
      | inl none_here ↦ rw (none_here, All) (neighbors-AreSteps ids listed.1)
      | inr (edge, here) ↦
          rw (here, All)
            (elim (Bool-cases (constraint_allows runtime.constraints.edge_types edge.edge_type)) [
              | inl allowed ↦
                  elim (Bool-cases (
                    has_label runtime.constraints.node_labels
                      (view.get_node (other_end direction node_id edge)))) [
                        | inl labelled ↦
                            rw (allowed, labelled, All)
                              (
                                (i, edge, listed.0, here, refl, refl, allowed, labelled),
                                neighbors-AreSteps ids listed.1,
                              )
                        | inr bare ↦ rw (allowed, bare, All) (neighbors-AreSteps ids listed.1)
                      ]
              | inr barred ↦ rw (barred, All) (neighbors-AreSteps ids listed.1)
            ])
    ]

  module _ (root : NodeId) (other : BTreeMap NodeId PathParent) where
    abbrev IsGrown : Option NodeId × Frontier → Type 0
    IsGrown = IsExpanded (IsStepOf view runtime.constraints direction) root runtime.max_depth other

    expand_node-IsExpanded :
        (node_id : NodeId) (depth : ℕ) (queue : List (NodeId × ℕ))
        (parents : BTreeMap NodeId PathParent)
        → IsSide
            (IsStepOf view runtime.constraints direction)
            root
            runtime.max_depth
            ((node_id, depth) ∷ queue, parents)
        → IsGrown (expand_node view runtime direction other node_id depth (queue, parents))
    unfolding expand_neighbors
    expand_node-IsExpanded node_id depth queue parents (((fits, chain), queued), found) =
        elim (Bool-cases (nat_beq depth runtime.max_depth)) [
          | inl deep ↦ rw deep (queued, found)
          | inr shallow ↦
              let ids = view.edge_ids_for_iter node_id direction none in
              rw shallow
                (enter_each-IsVisited (IsStepOf view runtime.constraints direction) root
                  runtime.max_depth other node_id depth
                  (expand_neighbors view node_id direction runtime.constraints) (queue, parents)
                  (ground arith) (neighbors-AreSteps node_id ids (All-contained ids)) chain
                  (queued, found)).0
        ]

    expand_level-IsExpanded :
        (n : ℕ) (side : Frontier)
        → IsSide (IsStepOf view runtime.constraints direction) root runtime.max_depth side
        → IsGrown (expand_level view runtime direction other n side)
    unfolding expand_level
    expand_level-IsExpanded zero side good = good
    expand_level-IsExpanded (suc n) ([], parents) good = good
    expand_level-IsExpanded (suc n) ((node_id, depth) ∷ queue, parents) good =
        unless_met-cases IsGrown IsGrown
          (expand_node view runtime direction other node_id depth (queue, parents))
          (expand_level view runtime direction other n)
          (expand_node-IsExpanded node_id depth queue parents good)
          (λ next. expand_level-IsExpanded n next) (λ meet next met. met)

    pub expand_frontier-IsExpanded :
        (side : Frontier)
        → IsSide (IsStepOf view runtime.constraints direction) root runtime.max_depth side
        → IsGrown (expand_frontier view runtime direction other side)
    unfolding expand_frontier
    expand_frontier-IsExpanded (queue, parents) good =
        expand_level-IsExpanded (length queue) (queue, parents) good
