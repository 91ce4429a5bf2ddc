-- ===== src/Replication.antt =====
-- crates/replication/src/lib.rs: the leader's history and the follower's progress.
pub mod Follower
use undr.Base.{
  ℕ, ◌-◌, Bool, true, false, not, String, List, [], ◌∷◌, ◌++◌, Option, none, some, any, keep, ltb,
  leb, string_key, if◌then◌else◌,
}
use undr.Base.Map
use undr.Base.Map.{BTreeMap}
use undr.Common.{Result, ok, err, panic, conflict, not_found, ensure, ◌>>=◌, ◌>>◌}
use undr.Core.Batch.{WriteBatch}

pub data ReplicationMode : Type 0 where
  disabled leader follower : ReplicationMode

pub record ReplicaProgress : Type 0 where
  pub replica_node_id : String
  pub last_acked_source_lsn : ℕ
  pub last_applied_source_lsn : ℕ

pub record ReplicationRecord : Type 0 where
  pub source_node_id : String
  pub source_term : ℕ
  pub source_lsn : ℕ
  pub batch : WriteBatch

pub record ReplicationStatus : Type 0 where
  pub mode : ReplicationMode
  pub local_node_id : String
  pub leader_node_id : Option String
  pub current_term : ℕ
  pub last_applied_lsn : ℕ
  pub last_committed_source_lsn : ℕ
  pub last_pulled_source_lsn : ℕ
  pub last_applied_source_lsn : ℕ
  pub replicas : List ReplicaProgress

pub record ReplicationManager : Type 0 where
  pub status : ReplicationStatus
  pub history : List ReplicationRecord

unfoldable pub single_node : String → ReplicationManager
single_node local_node_id = record {
  status = record {
    mode = disabled;
    local_node_id = local_node_id;
    leader_node_id = none;
    current_term = 0;
    last_applied_lsn = 0;
    last_committed_source_lsn = 0;
    last_pulled_source_lsn = 0;
    last_applied_source_lsn = 0;
    replicas = [];
  };
  history = [];
}

abbrev find_replica : String → List ReplicaProgress → Option ReplicaProgress
find_replica id [] = none
find_replica id (r ∷ replicas) =
    let rest = find_replica id replicas in
    if string_key.beq r.replica_node_id id then some r else rest

abbrev lag_of : ℕ → Option ReplicaProgress → Option ℕ
lag_of committed none = none
lag_of committed (some r) = some (committed - r.last_acked_source_lsn)

unfoldable pub replica_lag : String → ReplicationStatus → Option ℕ
replica_lag id status = lag_of status.last_committed_source_lsn (find_replica id status.replicas)

unfoldable pub history_since : ℕ → ReplicationManager → List ReplicationRecord
history_since after_source_lsn manager =
    keep (λ (r : ReplicationRecord). ltb after_source_lsn r.source_lsn) manager.history

unfoldable pub configure_as_leader : String → ℕ → ReplicationManager → ReplicationManager
configure_as_leader local_node_id current_term manager = record manager {
  status = record manager.status {
    mode = leader;
    local_node_id = local_node_id;
    leader_node_id = some local_node_id;
    current_term = current_term;
  };
}

unfoldable pub configure_as_follower : String → String → ℕ → ReplicationManager → ReplicationManager
configure_as_follower local_node_id leader_node_id current_term manager = record manager {
  status = record manager.status {
    mode = follower;
    local_node_id = local_node_id;
    leader_node_id = some leader_node_id;
    current_term = current_term;
  };
}

unfoldable pub disable : String → ReplicationManager → ReplicationManager
disable local_node_id manager = record {
  status = record manager.status {
    mode = disabled;
    local_node_id = local_node_id;
    leader_node_id = none;
    replicas = [];
  };
  history = [];
}

unfoldable pub observe_local_apply : ℕ → ReplicationManager → ReplicationManager
observe_local_apply local_lsn manager = record manager {
  status = record manager.status { last_applied_lsn = local_lsn };
}

abbrev is_leader : ReplicationMode → Bool
is_leader leader = true
is_leader disabled = false
is_leader follower = false

abbrev pub is_follower : ReplicationMode → Bool
is_follower follower = true
is_follower disabled = false
is_follower leader = false

unfoldable pub ensure_leader : ReplicationStatus → Result (Unit {0})
ensure_leader status = ensure (is_leader status.mode) conflict

unfoldable pub ensure_follower : ReplicationStatus → Result (Unit {0})
ensure_follower status = ensure (is_follower status.mode) conflict

-- `check?; change`, where a refusal changes nothing.
abbrev pub changed_if :
    Result ReplicationManager → ReplicationManager → Result (Unit {0}) × ReplicationManager
changed_if (ok after) manager = (ok tt, after)
changed_if (err e) manager = (err e, manager)
changed_if panic manager = (panic, manager)

unfoldable pub sort_in : ReplicaProgress → List ReplicaProgress → List ReplicaProgress
sort_in r [] = r ∷ []
sort_in r (first ∷ replicas) =
    let rest = sort_in r replicas in
    if string_key.before first.replica_node_id r.replica_node_id
    then first ∷ rest
    else r ∷ first ∷ replicas

unfoldable pub sort_replicas : List ReplicaProgress → List ReplicaProgress
unfolding sort_in
sort_replicas [] = []
sort_replicas (r ∷ replicas) = sort_in r (sort_replicas replicas)

unfoldable pub register_replica :
    String → ReplicationManager → Result (Unit {0}) × ReplicationManager
unfolding ensure_leader sort_replicas
register_replica id manager =
    let progress : ReplicaProgress = record {
      replica_node_id = id;
      last_acked_source_lsn = 0;
      last_applied_source_lsn = 0;
    } in
    let added =
      if any (λ (r : ReplicaProgress). string_key.beq r.replica_node_id id) manager.status.replicas
      then manager
      else record manager {
        status = record manager.status {
          replicas = sort_replicas (manager.status.replicas ++ progress ∷ []);
        };
      } in
    changed_if (ensure_leader manager.status >> ok added) manager

unfoldable pub record_leader_commit :
    ℕ → WriteBatch → ReplicationManager → Result (Unit {0}) × ReplicationManager
unfolding ensure_leader
record_leader_commit source_lsn batch manager =
    let entry : ReplicationRecord = record {
      source_node_id = manager.status.local_node_id;
      source_term = manager.status.current_term;
      source_lsn = source_lsn;
      batch = batch;
    } in
    let committed : ReplicationManager = record {
      status = record manager.status {
        last_committed_source_lsn = source_lsn;
        last_applied_lsn = source_lsn;
        last_applied_source_lsn = source_lsn;
      };
      history = manager.history ++ entry ∷ [];
    } in
    changed_if (ensure_leader manager.status >> ok committed) manager

unfoldable pub acknowledge_first : String → ℕ → List ReplicaProgress → List ReplicaProgress
acknowledge_first id source_lsn [] = []
acknowledge_first id source_lsn (r ∷ replicas) =
    let rest = acknowledge_first id source_lsn replicas in
    if string_key.beq r.replica_node_id id
    then record r { last_acked_source_lsn = source_lsn; last_applied_source_lsn = source_lsn }
      ∷ replicas
    else r ∷ rest

unfoldable pub acknowledge_replica :
    String → ℕ → ReplicationManager → Result (Unit {0}) × ReplicationManager
unfolding ensure_leader acknowledge_first
acknowledge_replica id source_lsn manager =
    changed_if
      (ensure_leader manager.status
        >> ensure
            (any (λ (r : ReplicaProgress). string_key.beq r.replica_node_id id)
              manager.status.replicas)
            not_found
        >> ok (record manager {
          status = record manager.status {
            replicas = acknowledge_first id source_lsn manager.status.replicas;
          };
        }))
      manager

-- What one record of the leader leaves in the status.
abbrev pub follow : ReplicationRecord → ReplicationStatus → ReplicationStatus
follow r status = record status {
  current_term = r.source_term;
  last_pulled_source_lsn = r.source_lsn;
  last_applied_source_lsn = r.source_lsn;
}

-- The loop of `apply_follower_records`. A record of an older term ends it with an error, after the
-- records before it have been applied.
unfoldable pub apply_records :
    Option ℕ → List ReplicationRecord → ReplicationStatus → Result (Option ℕ) × ReplicationStatus
apply_records applied [] status = (ok applied, status)
apply_records applied (r ∷ records) status =
    let skip = apply_records applied records status in
    let next = apply_records (some r.source_lsn) records (follow r status) in
    if ltb r.source_term status.current_term
    then (err conflict, status)
    else if leb r.source_lsn status.last_applied_source_lsn
    then skip
    else next

abbrev pub with_status :
    ReplicationManager
    → Result (Option ℕ) × ReplicationStatus
    → Result (Option ℕ) × ReplicationManager
with_status manager (result, status) = (result, record manager { status = status })

unfoldable pub apply_follower_records :
    List ReplicationRecord → ReplicationManager → Result (Option ℕ) × ReplicationManager
unfolding apply_records
apply_follower_records records manager =
    if is_follower manager.status.mode
    then with_status manager (apply_records none records manager.status)
    else (err conflict, manager)

unfoldable pub promote_to_leader : ℕ → ReplicationManager → ReplicationManager
promote_to_leader new_term manager = record manager {
  status = record manager.status {
    mode = leader;
    leader_node_id = some manager.status.local_node_id;
    current_term = new_term;
    last_committed_source_lsn = manager.status.last_applied_source_lsn;
  };
}

unfoldable pub failover_to_follower : String → ℕ → ReplicationManager → ReplicationManager
failover_to_follower leader_node_id new_term manager = record manager {
  status = record manager.status {
    mode = follower;
    leader_node_id = some leader_node_id;
    current_term = new_term;
  };
}

-- `replicas.iter().map(..).collect()`: the later of two entries of one replica counts.
unfoldable pub lags : ℕ → List ReplicaProgress → BTreeMap String ℕ → BTreeMap String ℕ
lags committed [] m = m
lags committed (r ∷ replicas) m =
    lags committed replicas (Map.insert r.replica_node_id (committed - r.last_acked_source_lsn) m)

unfoldable pub replica_lag_map : ReplicationManager → BTreeMap String ℕ
unfolding lags
replica_lag_map manager = lags manager.status.last_committed_source_lsn manager.status.replicas []
