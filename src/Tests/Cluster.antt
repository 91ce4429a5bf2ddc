-- ===== src/Tests/Cluster.antt =====
-- A cluster of two nodes (crates/cluster/src/lib.rs) and a follower (crates/replication/src/lib.rs).
use undr.Base.{ℕ, ◌≡◌, refl, true, false, [], ◌∷◌, none, some, All, arith}
use undr.Common.{ok, err, not_found}
use undr.Core.Batch.{empty_batch}
use undr.Cluster.{
  ClusterNode, ClusterTopology, primary, replica, promote_node, ensure_leader, observe_leader,
  is_primary,
}
use undr.Cluster.Leader.{IsLedBy, change_leader, ensure_leader-idempotent, promote_unknown}
use undr.Replication.{ReplicationRecord, ReplicationManager, follower, apply_follower_records}
use undr.Replication.Follower.{
  IsAhead, apply_follower_records-IsAhead, apply_follower_records_again,
}

abbrev topology : ClusterTopology
topology = record {
  term = 4;
  leader_node_id = some "n1";
  nodes =
      record { node_id = "n1"; address = "x"; role = primary; healthy = true }
      ∷ record { node_id = "n2"; address = "y"; role = replica; healthy = false }
      ∷ [];
}

change_leader_example :
    IsLedBy "n2" (promote_node "n2" topology).1
    × IsLedBy "n2" (ensure_leader "n2" topology).1
    × IsLedBy "n2" (observe_leader "n2" topology).1
change_leader_example = change_leader "n2" topology refl

ensure_leader-idempotent_example :
    ((ensure_leader "n2" (ensure_leader "n2" topology).1).1 ≡ (ensure_leader "n2" topology).1)
    × ((ensure_leader "n2" (ensure_leader "n2" topology).1).0
        ≡ ok (record {
          old_leader_node_id = some "n2";
          new_leader_node_id = "n2";
          term = (ensure_leader "n2" topology).1.term;
        }))
ensure_leader-idempotent_example = ensure_leader-idempotent "n2" topology refl

promote_unknown_example :
    ((promote_node "n3" topology).0 ≡ err not_found)
    × All
        (λ (node : ClusterNode). is_primary node.role ≡ false)
        (promote_node "n3" topology).1.nodes
    × ((promote_node "n3" topology).1.leader_node_id ≡ some "n1")
promote_unknown_example = promote_unknown "n3" topology refl

abbrev manager : ReplicationManager
manager = record {
  status = record {
    mode = follower;
    local_node_id = "n2";
    leader_node_id = some "n1";
    current_term = 4;
    last_applied_lsn = 7;
    last_committed_source_lsn = 7;
    last_pulled_source_lsn = 7;
    last_applied_source_lsn = 7;
    replicas = [];
  };
  history = [];
}

abbrev entry : ℕ → ℕ → ReplicationRecord
entry term lsn = record {
  source_node_id = "n1";
  source_term = term;
  source_lsn = lsn;
  batch = empty_batch;
}

apply_follower_records-IsAhead_example :
    IsAhead manager.status (apply_follower_records (entry 4 8 ∷ entry 3 9 ∷ []) manager).1.status
apply_follower_records-IsAhead_example =
    apply_follower_records-IsAhead (entry 4 8 ∷ entry 3 9 ∷ []) manager

apply_follower_records_again_example :
    apply_follower_records (entry 4 6 ∷ entry 4 7 ∷ []) manager ≡ (ok none, manager)
apply_follower_records_again_example =
    apply_follower_records_again (entry 4 6 ∷ entry 4 7 ∷ []) manager refl
      ((omega arith, omega arith), ((omega arith, omega arith), tt))
