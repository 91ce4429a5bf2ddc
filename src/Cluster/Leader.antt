-- ===== src/Cluster/Leader.antt =====
-- Who is primary after a change of the leader.
use undr.Base.{
  ℕ, ◌≡◌, refl, ap, inl, inr, ◌+◌, ◌%◌, ◌^◌, true, false, String, List, [], ◌∷◌, some, map, All,
  arith, string_key, beq_refl, Bool-cases, if◌then◌else◌,
}
use undr.Common.{ok, err, not_found}
use undr.Cluster.{
  ClusterNode, ClusterTopology, is_primary, has_node, assign_role, take_lead, leads, promote_node,
  ensure_leader, observe_leader, find_node, leader,
}

-- Every primary is the node that is named as the leader.
abbrev pub IsLed : ClusterTopology → Type 0
IsLed topology =
    All
      (λ (node : ClusterNode).
        is_primary node.role ≡ true → leads node.node_id topology.leader_node_id ≡ true)
      topology.nodes

primary_assigned :
    (node_id : String) (node : ClusterNode)
    → is_primary (assign_role node_id node).role ≡ true
    → string_key.beq node_id (assign_role node_id node).node_id ≡ true
unfolding assign_role
primary_assigned node_id node h =
    ground (arith, string_key.beq_iff node.node_id node_id, beq_refl node_id)

assigned :
    (node_id : String) (nodes : List ClusterNode)
    → All
        (λ (node : ClusterNode).
          is_primary node.role ≡ true → string_key.beq node_id node.node_id ≡ true)
        (map (assign_role node_id) nodes)
assigned node_id [] = tt
assigned node_id (node ∷ nodes) = (primary_assigned node_id node, assigned node_id nodes)

assigned_id :
    (node_id : String) (node : ClusterNode) → (assign_role node_id node).node_id ≡ node.node_id
unfolding assign_role
assigned_id node_id node = ground arith

pub find_assigned :
    (node_id : String) (nodes : List ClusterNode)
    → has_node node_id nodes ≡ true
    → (node : ClusterNode) × (find_node node_id (map (assign_role node_id) nodes) ≡ some node)
      × (node.node_id ≡ node_id)
      × (is_primary node.role ≡ true)
      × (node.healthy ≡ true)
unfolding assign_role
find_assigned node_id [] h = cc
find_assigned node_id (node ∷ nodes) h = elim (Bool-cases (string_key.beq node.node_id node_id)) [
  | inl same ↦
      rw (same, same) (_, refl, (string_key.beq_iff node.node_id node_id).0 same, refl, refl)
  | inr other ↦ rw (assigned_id node_id node, other) (find_assigned node_id nodes (rw other at h))
]

has_node-assigned :
    (node_id key : String) (nodes : List ClusterNode)
    → has_node key (map (assign_role node_id) nodes) ≡ has_node key nodes
has_node-assigned node_id key [] = refl
has_node-assigned node_id key (node ∷ nodes) =
    rw (assigned_id node_id node, has_node-assigned node_id key nodes)

-- The topology is led by the node: it is found, primary and healthy, and no other node is primary.
abbrev pub IsLedBy : String → ClusterTopology → Type 0
IsLedBy node_id topology =
    IsLed topology
    × ((node : ClusterNode) × (leader topology ≡ some node)
        × (node.node_id ≡ node_id)
        × (is_primary node.role ≡ true)
        × (node.healthy ≡ true))

take_lead-IsLedBy :
    (node_id : String) (term : ℕ) (topology : ClusterTopology)
    → has_node node_id topology.nodes ≡ true
    → IsLedBy node_id (take_lead node_id term topology)
unfolding leader
take_lead-IsLedBy node_id term topology there =
    (assigned node_id topology.nodes, find_assigned node_id topology.nodes there)

-- `promote_node`, `ensure_leader` and `observe_leader` of a node of the cluster make it the leader:
-- it is primary and healthy, and no other node is primary.
pub change_leader :
    (node_id : String) (topology : ClusterTopology)
    → has_node node_id topology.nodes ≡ true
    → IsLedBy node_id (promote_node node_id topology).1
      × IsLedBy node_id (ensure_leader node_id topology).1
      × IsLedBy node_id (observe_leader node_id topology).1
unfolding promote_node ensure_leader observe_leader
change_leader node_id topology there = rw there (
  take_lead-IsLedBy node_id _ topology there,
  take_lead-IsLedBy node_id _ topology there,
  take_lead-IsLedBy node_id _ topology there,
)

assign_twice :
    (node_id : String) (node : ClusterNode)
    → assign_role node_id (assign_role node_id node) ≡ assign_role node_id node
unfolding assign_role
assign_twice node_id node = elim (Bool-cases (string_key.beq node.node_id node_id)) [
  | inl same ↦ rw (same, same) refl
  | inr other ↦ elim (Bool-cases (is_primary node.role)) [
    | inl led ↦ rw (other, led, other) refl
    | inr follows ↦ rw (other, follows, other, follows) refl
  ]
]

map_twice :
    (node_id : String) (nodes : List ClusterNode)
    → map (assign_role node_id) (map (assign_role node_id) nodes) ≡ map (assign_role node_id) nodes
map_twice node_id [] = refl
map_twice node_id (node ∷ nodes) = rw (assign_twice node_id node, map_twice node_id nodes)

-- To ensure the leader a second time changes nothing: the topology is the same, and so is the term
-- of the plan.
pub ensure_leader-idempotent :
    (node_id : String) (topology : ClusterTopology)
    → has_node node_id topology.nodes ≡ true
    → ((ensure_leader node_id (ensure_leader node_id topology).1).1
        ≡ (ensure_leader node_id topology).1)
      × ((ensure_leader node_id (ensure_leader node_id topology).1).0
          ≡ ok (record {
            old_leader_node_id = some node_id;
            new_leader_node_id = node_id;
            term = (ensure_leader node_id topology).1.term;
          }))
unfolding ensure_leader
ensure_leader-idempotent node_id topology there =
    let term : ℕ =
      if leads node_id topology.leader_node_id
      then topology.term
      else (topology.term + 1) % 2 ^ 64 in
    rw (there, has_node-assigned node_id node_id topology.nodes, there, beq_refl node_id)
      (
        ap (λ ns. record (take_lead node_id term topology) { nodes = ns })
            (map_twice node_id topology.nodes),
        refl,
      )

unled :
    (node_id : String) (nodes : List ClusterNode)
    → has_node node_id nodes ≡ false
    → All (λ (node : ClusterNode). is_primary node.role ≡ false) (map (assign_role node_id) nodes)
unfolding assign_role
unled node_id [] h = tt
unled node_id (node ∷ nodes) h = (ground arith, unled node_id nodes (ground arith))

-- Promoting a node that the cluster does not have fails, and yet leaves no node primary and the
-- name of the leader as it was.
pub promote_unknown :
    (node_id : String) (topology : ClusterTopology)
    → has_node node_id topology.nodes ≡ false
    → ((promote_node node_id topology).0 ≡ err not_found)
      × All
          (λ (node : ClusterNode). is_primary node.role ≡ false)
          (promote_node node_id topology).1.nodes
      × ((promote_node node_id topology).1.leader_node_id ≡ topology.leader_node_id)
unfolding promote_node
promote_unknown node_id topology absent =
    rw absent (refl, unled node_id topology.nodes absent, refl)
