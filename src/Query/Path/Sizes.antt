-- ===== src/Query/Path/Sizes.antt =====
-- `expand_frontier` queues no more nodes than it finds parents for.
use undr.Base.{
  ℕ, zero, suc, ◌+◌, ◌≤◌, ◌≡◌, refl, false, String, List, [], ◌∷◌, Option, none, some, arith,
  nat_beq, length, length-append, string_key, Bool-cases, inl, inr,
}
use undr.Base.Map
use undr.Base.Map.{BTreeMap}
use undr.Common.{NodeId}
use undr.Core.Records.{EdgeRecord}
use undr.Index.Lookup.{EdgeDirection}
use undr.Query.View.{GraphView}
use undr.Query.Limits.{TraversalRuntime}
use undr.Query.Path.{
  PathParent, Frontier, expand_neighbors, enter, enter_each, expand_node, expand_level,
  expand_frontier,
}
use undr.Query.Path.Chains.{unless_met-cases}

module _ {V : Type 0} where
  remove-missing : (id : String) (m : BTreeMap String V) → Map.get id m ≡ none → Map.remove id m ≡ m
  unfolding Map.get Map.remove
  remove-missing id [] missing = refl
  remove-missing id ((j, w) ∷ m) missing = ground (arith, remove-missing id m)

  length-place :
      (id : String) (v : V) (m : BTreeMap String V) → length (Map.place id v m) ≡ suc (length m)
  unfolding Map.place
  length-place id v [] = refl
  length-place id v ((j, w) ∷ m) = ground (arith, length-place id v m)

  length-insert_new :
      (id : String) (v : V) (m : BTreeMap String V)
      → Map.contains_key id m ≡ false
      → length (Map.insert id v m) ≡ suc (length m)
  unfolding Map.insert
  length-insert_new id v m new =
      ground
        (arith, remove-missing id m, Map.contains_key-eq id m, length-place id v (Map.remove id m))

-- Against a queue and parents of these lengths.
abbrev IsLarger : ℕ → ℕ → Option NodeId × Frontier → Type 0
IsLarger q p (o, (queue, parents)) =
    (length queue + p ≤ length parents + q) × (p ≤ length parents) × (q ≤ length queue)

-- The same, with so many entries of the queue taken.
abbrev pub IsReduced : ℕ → ℕ → ℕ → Option NodeId × Frontier → Type 0
IsReduced n q p (none, (queue, parents)) =
    (length queue + p + n ≤ length parents + q) × (p ≤ length parents)
IsReduced n q p (some meet, side) = Unit

-- With the whole queue taken.
whole-IsReduced :
    (q p : ℕ) (state : Option NodeId × Frontier) → IsReduced q q p state → IsReduced 0 0 p state
whole-IsReduced q p (none, side) reduced = omega arith
whole-IsReduced q p (some meet, side) reduced = tt

module _ (other : BTreeMap NodeId PathParent) (node_id : NodeId) (depth : ℕ) where
  enter-IsLarger :
      (found : EdgeRecord × NodeId) (queue : List (NodeId × ℕ))
      (parents : BTreeMap NodeId PathParent)
      → IsLarger (length queue) (length parents) (enter other node_id depth found (queue, parents))
  unfolding enter
  enter-IsLarger (edge, id) queue parents =
      let v : PathParent = record { previous = some node_id; via_edge = some edge.id } in
      elim (Bool-cases (Map.contains_key id parents)) [
        | inl known ↦ rw known (omega arith)
        | inr new ↦
            let longer = length-insert_new id v parents new in
            elim (Bool-cases (Map.contains_key id other)) [
              | inl there ↦ rw (new, there) (omega (arith, longer))
              | inr alone ↦
                  rw (new, alone)
                    (omega (arith, longer, length-append queue ((id, suc depth) ∷ [])))
            ]
      ]

  enter_each-IsLarger :
      (neighbors : List (EdgeRecord × NodeId)) (queue : List (NodeId × ℕ))
      (parents : BTreeMap NodeId PathParent) (q p : ℕ)
      → IsLarger q p (none, (queue, parents))
      → IsLarger q p (enter_each other node_id depth neighbors (queue, parents))
  unfolding enter_each
  enter_each-IsLarger [] queue parents q p larger = larger
  enter_each-IsLarger (found ∷ neighbors) queue parents q p larger =
      unless_met-cases (IsLarger (length queue) (length parents)) (IsLarger q p)
        (enter other node_id depth found (queue, parents))
        (enter_each other node_id depth neighbors) (enter-IsLarger found queue parents)
        (λ (next, more) grown. enter_each-IsLarger neighbors next more q p (omega arith))
        (λ meet (next, more) grown. omega arith)

module _ (view : GraphView) (runtime : TraversalRuntime) (direction : EdgeDirection)
    (other : BTreeMap NodeId PathParent) where
  expand_node-IsLarger :
      (node_id : NodeId) (depth : ℕ) (queue : List (NodeId × ℕ))
      (parents : BTreeMap NodeId PathParent)
      → IsLarger
          (length queue)
          (length parents)
          (expand_node view runtime direction other node_id depth (queue, parents))
  expand_node-IsLarger node_id depth queue parents =
      elim (Bool-cases (nat_beq depth runtime.max_depth)) [
        | inl deep ↦ rw deep (omega arith)
        | inr shallow ↦ rw shallow (
            enter_each-IsLarger other node_id depth
              (expand_neighbors view node_id direction runtime.constraints) queue parents
              (length queue) (length parents) (omega arith))
      ]

  -- After m entries and n more.
  expand_level-IsReduced :
      (n m k q p : ℕ) (queue : List (NodeId × ℕ)) (parents : BTreeMap NodeId PathParent)
      → n + m ≡ k
      → n ≤ length queue
      → IsReduced m q p (none, (queue, parents))
      → IsReduced k q p (expand_level view runtime direction other n (queue, parents))
  unfolding expand_level
  expand_level-IsReduced zero m k q p queue parents sum fits reduced = omega arith
  expand_level-IsReduced (suc n) m k q p [] parents sum fits reduced = omega arith
  expand_level-IsReduced (suc n) m k q p ((node_id, depth) ∷ queue) parents sum fits reduced =
      unless_met-cases (IsLarger (length queue) (length parents)) (IsReduced k q p)
        (expand_node view runtime direction other node_id depth (queue, parents))
        (expand_level view runtime direction other n)
        (expand_node-IsLarger node_id depth queue parents)
        (λ (next, more) larger.
          expand_level-IsReduced n (suc m) k q p next more (omega arith) (omega arith)
            (omega arith))
        (λ meet side larger. tt)

  pub expand_frontier-IsReduced :
      (queue : List (NodeId × ℕ)) (parents : BTreeMap NodeId PathParent)
      → IsReduced 0 0
          (length parents)
          (expand_frontier view runtime direction other (queue, parents))
  unfolding expand_frontier
  expand_frontier-IsReduced queue parents =
      whole-IsReduced (length queue) (length parents)
        (expand_level view runtime direction other (length queue) (queue, parents))
        (expand_level-IsReduced (length queue) 0 (length queue) (length queue) (length parents)
          queue parents (omega arith) (omega arith) (omega arith))
