-- ===== src/Cluster.antt =====
-- crates/cluster/src/lib.rs: the topology of a cluster and the changes of its leader.
pub mod Leader
use undr.Base.{
  ℕ, ◌+◌, ◌%◌, ◌^◌, Bool, true, false, ◌&&◌, not, String, List, [], ◌∷◌, ◌++◌, Option, none, some,
  map, any, keep, string_key, if◌then◌else◌,
}
use undr.Common.{Result, ok, err, conflict, not_found}

pub data NodeRole : Type 0 where
  primary replica candidate : NodeRole

pub record ClusterNode : Type 0 where
  pub node_id : String
  pub address : String
  pub role : NodeRole
  pub healthy : Bool

-- `ClusterTopology`, which `ClusterManager` wraps.
pub record ClusterTopology : Type 0 where
  pub term : ℕ
  pub leader_node_id : Option String
  pub nodes : List ClusterNode

pub record FailoverPlan : Type 0 where
  pub old_leader_node_id : Option String
  pub new_leader_node_id : String
  pub term : ℕ

abbrev pub is_primary : NodeRole → Bool
is_primary primary = true
is_primary replica = false
is_primary candidate = false

abbrev pub is_replica : NodeRole → Bool
is_replica primary = false
is_replica replica = true
is_replica candidate = false

unfoldable pub single_node_with_id : String → String → ClusterTopology
single_node_with_id node_id address = record {
  term = 1;
  leader_node_id = some node_id;
  nodes = record { node_id = node_id; address = address; role = primary; healthy = true } ∷ [];
}

-- `iter().any(|node| node.node_id == node_id)`
abbrev pub has_node : String → List ClusterNode → Bool
has_node node_id nodes = any (λ (node : ClusterNode). string_key.beq node.node_id node_id) nodes

-- `sort_by(|left, right| left.node_id.cmp(&right.node_id))`, which is stable.
unfoldable pub sort_in : ClusterNode → List ClusterNode → List ClusterNode
sort_in node [] = node ∷ []
sort_in node (first ∷ nodes) =
    let rest = sort_in node nodes in
    if string_key.before first.node_id node.node_id then first ∷ rest else node ∷ first ∷ nodes

unfoldable pub sort_nodes : List ClusterNode → List ClusterNode
unfolding sort_in
sort_nodes [] = []
sort_nodes (node ∷ nodes) = sort_in node (sort_nodes nodes)

unfoldable pub push_sorted : ClusterNode → ClusterTopology → ClusterTopology
unfolding sort_nodes
push_sorted node topology = record topology { nodes = sort_nodes (topology.nodes ++ node ∷ []) }

unfoldable pub add_replica : String → String → ClusterTopology → Result (Unit {0}) × ClusterTopology
unfolding push_sorted
add_replica node_id address topology =
    if has_node node_id topology.nodes then (err conflict, topology) else (
      ok tt,
      push_sorted (record { node_id = node_id; address = address; role = replica; healthy = true })
          topology,
    )

-- `iter_mut().find(..)`: the first node with the identifier is changed.
unfoldable pub change_first :
    String → (ClusterNode → ClusterNode) → List ClusterNode → List ClusterNode
change_first node_id f [] = []
change_first node_id f (node ∷ nodes) =
    let rest = change_first node_id f nodes in
    if string_key.beq node.node_id node_id then f node ∷ nodes else node ∷ rest

unfoldable pub upsert_node : String → String → NodeRole → Bool → ClusterTopology → ClusterTopology
unfolding push_sorted change_first
upsert_node node_id address role healthy topology =
    if has_node node_id topology.nodes
    then record topology {
      nodes =
          change_first node_id
            (λ node. record node { address = address; role = role; healthy = healthy })
            topology.nodes;
    }
    else push_sorted
        (record { node_id = node_id; address = address; role = role; healthy = healthy }) topology

unfoldable pub mark_node_health :
    String → Bool → ClusterTopology → Result (Unit {0}) × ClusterTopology
unfolding change_first
mark_node_health node_id healthy topology =
    if has_node node_id topology.nodes
    then (
      ok tt,
      record topology {
        nodes = change_first node_id (λ node. record node { healthy = healthy }) topology.nodes;
      },
    )
    else (err not_found, topology)

-- The body of the loop that `promote_node`, `ensure_leader` and `observe_leader` share.
unfoldable pub assign_role : String → ClusterNode → ClusterNode
assign_role node_id node =
    if string_key.beq node.node_id node_id
    then record node { role = primary; healthy = true }
    else if is_primary node.role
    then record node { role = replica }
    else node

abbrev pub assign_roles : String → ClusterTopology → ClusterTopology
assign_roles node_id topology = record topology { nodes = map (assign_role node_id) topology.nodes }

-- The end of the three functions, after the loop; `term` is the new term.
abbrev pub take_lead : String → ℕ → ClusterTopology → ClusterTopology
take_lead node_id term topology = record (assign_roles node_id topology) {
  term = term;
  leader_node_id = some node_id;
}

abbrev pub plan : String → ℕ → ClusterTopology → FailoverPlan
plan node_id term topology = record {
  old_leader_node_id = topology.leader_node_id;
  new_leader_node_id = node_id;
  term = term;
}

-- A node that is not found leaves the roles changed.
unfoldable pub promote_node : String → ClusterTopology → Result FailoverPlan × ClusterTopology
unfolding assign_role
promote_node node_id topology =
    let term = (topology.term + 1) % 2 ^ 64 in
    if has_node node_id topology.nodes
    then (ok (plan node_id term topology), take_lead node_id term topology)
    else (err not_found, assign_roles node_id topology)

abbrev pub leads : String → Option String → Bool
leads node_id none = false
leads node_id (some leader) = string_key.beq leader node_id

unfoldable pub ensure_leader : String → ClusterTopology → Result FailoverPlan × ClusterTopology
unfolding assign_role
ensure_leader node_id topology =
    let term =
      if leads node_id topology.leader_node_id
      then topology.term
      else (topology.term + 1) % 2 ^ 64 in
    if has_node node_id topology.nodes
    then (ok (plan node_id term topology), take_lead node_id term topology)
    else (err not_found, assign_roles node_id topology)

unfoldable pub observe_leader : String → ClusterTopology → Result (Unit {0}) × ClusterTopology
unfolding assign_role
observe_leader node_id topology =
    if has_node node_id topology.nodes
    then (ok tt, take_lead node_id topology.term topology)
    else (err not_found, assign_roles node_id topology)

abbrev pub find_node : String → List ClusterNode → Option ClusterNode
find_node node_id [] = none
find_node node_id (node ∷ nodes) =
    let rest = find_node node_id nodes in
    if string_key.beq node.node_id node_id then some node else rest

abbrev find_leader : Option String → List ClusterNode → Option ClusterNode
find_leader none nodes = none
find_leader (some node_id) nodes = find_node node_id nodes

unfoldable pub leader : ClusterTopology → Option ClusterNode
leader topology = find_leader topology.leader_node_id topology.nodes

unfoldable pub readable_replicas : ClusterTopology → List ClusterNode
readable_replicas topology =
    keep (λ (node : ClusterNode). is_replica node.role && node.healthy) topology.nodes
