-- ===== src/Query/Path/Answered.antt =====
-- `shortest_path` ends, and a path that it answers leads from the source to the target.
use undr.Base.{
  ℕ, zero, suc, ◌+◌, ◌<◌, ◌≡◌, refl, sym, subst, ◌⊎◌, inl, inr, Bool, true, List, [], ◌∷◌, Option,
  none, some, arith, leb, length, string_key, ◌==◌, Bool-cases, Option-cases, not, ◌||◌,
}
use undr.Base.Map
use undr.Base.Map.{BTreeMap}
use undr.Common.{NodeId, EdgeId}
use undr.Index.Lookup.{EdgeDirection}
use undr.Query.View.{GraphView}
use undr.Query.Limits.{TraversalRuntime}
use undr.Query.Response.{GraphPath}
use undr.Query.Path.{
  PathParent, Frontier, reverse_direction, expand_frontier, left_part, right_part, reconstruct_path,
  start_at, after_forward, after_backward, path_loop, shortest_path,
}
use undr.Query.Path.Chains.{IsShort, IsSide, IsExpanded, IsStepOf, expand_frontier-IsExpanded}
use undr.Query.Path.Sizes.{IsReduced, expand_frontier-IsReduced}
use undr.Query.Path.Trails.{IsAnswer, left_part-IsLeft, right_part-IsRight, join_parts-IsAnswer}

module _ (view : GraphView) (source target : NodeId) (direction : EdgeDirection)
    (runtime : TraversalRuntime) where
  abbrev Forth : NodeId → EdgeId → NodeId → Type 0
  Forth = IsStepOf view runtime.constraints direction

  abbrev Back : NodeId → EdgeId → NodeId → Type 0
  Back = IsStepOf view runtime.constraints (reverse_direction direction)

  -- An edge between two nodes, listed at the first or, in the other direction, at the second.
  abbrev pub IsLink : NodeId → EdgeId → NodeId → Type 0
  IsLink a e b = Forth a e b ⊎ Back b e a

  abbrev pub Answers : Option (Option GraphPath) → Type 0
  Answers = IsAnswer IsLink source target (runtime.max_depth + runtime.max_depth)

  abbrev IsForward : Frontier → Type 0
  IsForward = IsSide Forth source runtime.max_depth

  abbrev IsBackward : Frontier → Type 0
  IsBackward = IsSide Back target runtime.max_depth

  side-IsShort :
      (IsStep : NodeId → EdgeId → NodeId → Type 0) (root : NodeId) (side : Frontier) (id : NodeId)
      → IsSide IsStep root runtime.max_depth side
      → Map.contains_key id side.1 ≡ true
      → IsShort IsStep root runtime.max_depth side.1 id
  side-IsShort IsStep root (queue, parents) id good known =
      elim (Option-cases (Map.get id parents)) [
        | inl missing ↦ ground (arith, Map.contains_key-eq id parents)
        | inr (parent, found) ↦ good.1 id parent found
      ]

  reconstruct_path-Answers :
      (meet : NodeId) (forward backward : Frontier)
      → IsForward forward
      → IsBackward backward
      → Map.contains_key meet forward.1 ≡ true
      → Map.contains_key meet backward.1 ≡ true
      → Answers (reconstruct_path (runtime.max_depth + 1) source target meet forward.1 backward.1)
  unfolding reconstruct_path
  reconstruct_path-Answers meet forward backward f b to from =
      let (n, n_short, left) = side-IsShort Forth source forward meet f to in
      let (m, m_short, right) = side-IsShort Back target backward meet b from in
      let fuel = runtime.max_depth + 1 in
      join_parts-IsAnswer IsLink source target meet n m (runtime.max_depth + runtime.max_depth)
        (left_part forward.1 fuel meet) (right_part backward.1 fuel meet) (omega arith)
        (left_part-IsLeft IsLink Forth source runtime.max_depth forward.1 (λ p e id step. inl step)
          n fuel meet (omega arith) left)
        (right_part-IsRight IsLink Back target runtime.max_depth backward.1
          (λ p e id step. inr step) m fuel meet (omega arith) right)

  -- Enough rounds are left: a side has run dry, or the parents still fit.
  abbrev IsGranted : ℕ → Frontier → Frontier → Type 0
  IsGranted fuel forward backward =
      (0 < fuel)
      × ((0 < length forward.0)
          → (0 < length backward.0)
          → runtime.limit < fuel + (length forward.1 + length backward.1))

  module _ (expired : ℕ → Bool) (rest : Frontier → Frontier → Option (Option GraphPath))
      (f b : ℕ) where
    -- What is known of the sides after a round that met nowhere.
    abbrev Continues : Type 0
    Continues =
        (forward backward : Frontier)
        → IsForward forward
        → IsBackward backward
        → IsReduced 0 0 f (none, forward)
        → IsReduced 0 0 b (none, backward)
        → Answers (rest forward backward)

    after_backward-Answers :
        (forward : Frontier) (state : Option NodeId × Frontier)
        → Continues
        → IsForward forward
        → IsReduced 0 0 f (none, forward)
        → IsExpanded Back target runtime.max_depth forward.1 state
        → IsReduced 0 0 b state
        → Answers (after_backward view source target direction runtime expired forward state rest)
    after_backward-Answers forward (none, backward) continues to less from fewer =
        continues forward backward to from less fewer
    after_backward-Answers forward (some meet, backward) continues to less (from, here, there)
          fewer =
        reconstruct_path-Answers meet forward backward to from there here

    after_forward-Answers :
        (queue : List (NodeId × ℕ)) (parents : BTreeMap NodeId PathParent)
        (state : Option NodeId × Frontier)
        → Continues
        → b ≡ length parents
        → IsBackward (queue, parents)
        → IsExpanded Forth source runtime.max_depth parents state
        → IsReduced 0 0 f state
        → Answers
            (after_forward view source target direction runtime expired state (queue, parents) rest)
    after_forward-Answers queue parents (some meet, forward) continues size from (to, here, there)
          less =
        reconstruct_path-Answers meet forward (queue, parents) to from here there
    after_forward-Answers queue parents (none, forward) continues size from to less =
        let back = reverse_direction direction in
        after_backward-Answers forward
          (expand_frontier view runtime back forward.1 (queue, parents)) continues to less
          (expand_frontier-IsExpanded view runtime back target forward.1 (queue, parents) from)
          (subst
            (λ n. IsReduced 0 0 n (expand_frontier view runtime back forward.1 (queue, parents)))
            (sym size) (expand_frontier-IsReduced view runtime back forward.1 queue parents))

  path_loop-Answers :
      (expired : ℕ → Bool) (fuel : ℕ) (forward backward : Frontier)
      → IsForward forward
      → IsBackward backward
      → IsGranted fuel forward backward
      → Answers (path_loop view source target direction runtime expired fuel forward backward)
  unfolding path_loop
  path_loop-Answers expired zero forward backward to from granted = omega arith
  path_loop-Answers expired (suc fuel) ([], parents) backward to from granted = tt
  path_loop-Answers expired (suc fuel) (i ∷ is, found) ([], parents) to from granted = tt
  path_loop-Answers expired (suc fuel) (i ∷ is, found) (j ∷ js, parents) to from granted =
      elim (Bool-cases (expired fuel)) [
        | inl late ↦ rw late tt
        | inr early ↦ elim (Bool-cases (leb runtime.limit (length found + length parents))) [
          | inl full ↦ rw (early, full) tt
          | inr room ↦
              rw (early, room)
                (after_forward-Answers expired
                  (path_loop view source target direction runtime expired fuel) (length found)
                  (length parents) (j ∷ js) parents
                  (expand_frontier view runtime direction parents (i ∷ is, found))
                  (λ (q, f) (r, b) f_good b_good more_found more_parents.
                    path_loop-Answers expired fuel (q, f) (r, b) f_good b_good
                      (ground arith, λ some_q some_r. ground arith))
                  refl from
                  (expand_frontier-IsExpanded view runtime direction source parents (i ∷ is, found)
                    to)
                  (expand_frontier-IsReduced view runtime direction parents (i ∷ is) found))
        ]
      ]

  start_at-IsSide :
      (IsStep : NodeId → EdgeId → NodeId → Type 0) (root : NodeId)
      → IsSide IsStep root runtime.max_depth (start_at root)
  unfolding Map.get
  start_at-IsSide IsStep root = (
    ((omega arith, (ground (arith, string_key.beq_iff root root), refl)), tt),
    λ id parent found. elim (Bool-cases (string_key.beq root id)) [
      | inl same ↦ (0, omega arith, (rw same refl, sym ((string_key.beq_iff root id).0 same)))
      | inr other ↦ ground arith
    ],
  )

-- The search for a shortest path ends, whatever the clock says. Where it answers a path, the path
-- leads from the source to the target: between two of its nodes in a row stands an edge that the
-- view lists at the first in the direction asked for, or at the second in the other direction, of an
-- allowed type, and the node that it leads to has an allowed label; its hops are its edges, and no
-- more than twice the depth.
pub shortest_path-Answers :
    (view : GraphView) (source target : NodeId) (direction : EdgeDirection)
    (runtime : TraversalRuntime) (expired : ℕ → Bool)
    → Answers view source target direction runtime
        (shortest_path view source target direction runtime expired)
unfolding shortest_path
shortest_path-Answers view source target direction runtime expired =
    elim (Bool-cases (not (view.contains_node source) || not (view.contains_node target))) [
      | inl unknown ↦ rw unknown tt
      | inr known ↦ elim (Bool-cases (source == target)) [
        | inl same ↦
            rw (known, same)
              ([], refl, (string_key.beq_iff source target).0 same, refl, omega arith)
        | inr distinct ↦
            rw (known, distinct)
              (path_loop-Answers view source target direction runtime expired (runtime.limit + 1)
                (start_at source) (start_at target)
                (start_at-IsSide view source target direction runtime
                  (Forth view source target direction runtime) source)
                (start_at-IsSide view source target direction runtime
                  (Back view source target direction runtime) target)
                (omega arith, λ some_q some_r. omega arith))
      ]
    ]
