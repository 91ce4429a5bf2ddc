-- ===== src/Query/Path/Trails.antt =====
-- `reconstruct_path`: what it reads from the parents of both sides.
use undr.Base.{
  ℕ, zero, suc, ◌+◌, ◌≤◌, ◌<◌, ◌≡◌, refl, sym, ap, subst, inl, inr, List, [], ◌∷◌, ◌++◌, Option,
  none, some, arith, length, length-append, Bool-cases, ◌&&◌,
}
use undr.Base.Map.{BTreeMap}
use undr.Common.{NodeId, EdgeId}
use undr.Query.Response.{GraphPath}
use undr.Query.Path.{
  PathParent, left_part, right_part, add_step, lead_step, join_parts, first, last, is_node,
}
use undr.Query.Path.Chains.{IsChain}

module _ (IsLink : NodeId → EdgeId → NodeId → Type 0) where
  -- From the first node over these nodes and edges to the last.
  abbrev pub IsTrail : NodeId → List NodeId → List EdgeId → NodeId → Type 0
  IsTrail a [] [] b = a ≡ b
  IsTrail a [] (e ∷ es) b = ⊥
  IsTrail a (n ∷ ns) [] b = ⊥
  IsTrail a (n ∷ ns) (e ∷ es) b = IsLink a e n × IsTrail n ns es b

  IsTrail-append :
      (a : NodeId) (ns : List NodeId) (es : List EdgeId) (b : NodeId) (ms : List NodeId)
      (fs : List EdgeId) (c : NodeId)
      → IsTrail a ns es b
      → IsTrail b ms fs c
      → IsTrail a (ns ++ ms) (es ++ fs) c
  IsTrail-append a [] [] b ms fs c here there = subst (λ x. IsTrail x ms fs c) (sym here) there
  IsTrail-append a [] (e ∷ es) b ms fs c here there = elim here [ ]
  IsTrail-append a (n ∷ ns) [] b ms fs c here there = elim here [ ]
  IsTrail-append a (n ∷ ns) (e ∷ es) b ms fs c (link, here) there =
      (link, IsTrail-append n ns es b ms fs c here there)

  -- The parts of a path: the left one ends at a node, the right one starts there.
  abbrev pub IsLeft : NodeId → NodeId → ℕ → Option (List NodeId × List EdgeId) → Type 0
  IsLeft root id n none = ⊥
  IsLeft root id n (some (nodes, es)) =
      (ns : List NodeId) × (nodes ≡ root ∷ ns) × IsTrail root ns es id × (length es ≡ n)

  abbrev pub IsRight : NodeId → NodeId → ℕ → Option (List NodeId × List EdgeId) → Type 0
  IsRight root id n none = ⊥
  IsRight root id n (some (ns, es)) = IsTrail id ns es root × (length es ≡ n)

  module _ (IsStep : NodeId → EdgeId → NodeId → Type 0) (root : NodeId) (bound : ℕ)
      (parents : BTreeMap NodeId PathParent) where
    add_step-IsLeft :
        (p id : NodeId) (e : EdgeId) (n : ℕ) (part : Option (List NodeId × List EdgeId))
        → IsLink p e id
        → IsLeft root p n part
        → IsLeft root id (suc n) (add_step (id ∷ []) (e ∷ []) part)
    add_step-IsLeft p id e n none link left = left
    add_step-IsLeft p id e n (some (nodes, es)) link (ns, same, trail, long) = (
      ns ++ id ∷ [],
      ap (λ l. l ++ id ∷ []) same,
      IsTrail-append root ns es p (id ∷ []) (e ∷ []) id trail (link, refl),
      omega (arith, length-append es (e ∷ [])),
    )

    pub left_part-IsLeft :
        ((p : NodeId) (e : EdgeId) (id : NodeId) → IsStep p e id → IsLink p e id)
        → (n fuel : ℕ) (id : NodeId) → n < fuel
        → IsChain IsStep root bound parents n id
        → IsLeft root id n (left_part parents fuel id)
    unfolding left_part
    left_part-IsLeft link n zero id fits chain = omega arith
    left_part-IsLeft link zero (suc fuel) id fits (found, start) =
        rw (found, IsLeft) ([], ap (λ i. i ∷ []) start, sym start, refl)
    left_part-IsLeft link (suc n) (suc fuel) id fits (p, e, found, step, chain) =
        rw (found, IsLeft)
          (add_step-IsLeft p id e n (left_part parents fuel p) (link p e id step)
            (left_part-IsLeft link n fuel p (omega arith) chain))

    lead_step-IsRight :
        (p id : NodeId) (e : EdgeId) (n : ℕ) (part : Option (List NodeId × List EdgeId))
        → IsLink id e p
        → IsRight root p n part
        → IsRight root id (suc n) (lead_step (p ∷ []) (e ∷ []) part)
    lead_step-IsRight p id e n none link right = right
    lead_step-IsRight p id e n (some (ns, es)) link (trail, long) = ((link, trail), omega arith)

    pub right_part-IsRight :
        ((p : NodeId) (e : EdgeId) (id : NodeId) → IsStep p e id → IsLink id e p)
        → (n fuel : ℕ) (id : NodeId) → n < fuel
        → IsChain IsStep root bound parents n id
        → IsRight root id n (right_part parents fuel id)
    unfolding right_part
    right_part-IsRight link n zero id fits chain = omega arith
    right_part-IsRight link zero (suc fuel) id fits (found, start) =
        rw (found, IsRight) (start, refl)
    right_part-IsRight link (suc n) (suc fuel) id fits (p, e, found, step, chain) =
        rw (found, IsRight)
          (lead_step-IsRight p id e n (right_part parents fuel p) (link p e id step)
            (right_part-IsRight link n fuel p (omega arith) chain))

  -- An answer, and what a path that is answered looks like.
  abbrev pub IsAnswer : NodeId → NodeId → ℕ → Option (Option GraphPath) → Type 0
  IsAnswer source target bound none = ⊥
  IsAnswer source target bound (some none) = Unit
  IsAnswer source target bound (some (some path)) =
      (ns : List NodeId) × (path.node_ids ≡ source ∷ ns)
      × IsTrail source ns path.edge_ids target
      × (path.hop_count ≡ length path.edge_ids)
      × (path.hop_count ≤ bound)

  pub join_parts-IsAnswer :
      (source target meet : NodeId) (n m bound : ℕ)
      (left right : Option (List NodeId × List EdgeId))
      → n + m ≤ bound
      → IsLeft source meet n left
      → IsRight target meet m right
      → IsAnswer source target bound (join_parts source target left right)
  unfolding join_parts
  join_parts-IsAnswer source target meet n m bound none right fits to from = to
  join_parts-IsAnswer source target meet n m bound (some left) none fits to from = from
  join_parts-IsAnswer source target meet n m bound (some (nodes, es)) (some (ms, fs)) fits
        (ns, same, to, n_long) (from, m_long) =
      elim (Bool-cases
        (is_node source (first (nodes ++ ms)) && is_node target (last (nodes ++ ms)))) [
          | inl joined ↦ rw joined (
            ns ++ ms,
            ap (λ l. l ++ ms) same,
            IsTrail-append source ns es meet ms fs target to from,
            refl,
            omega (arith, length-append es fs),
          )
          | inr apart ↦ rw apart tt
        ]
