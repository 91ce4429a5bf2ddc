-- ===== src/Storage/Transactions.antt =====
-- The sessions of the engine: begin, read, stage, commit and roll back.
pub mod Snapshot
pub mod Commit
pub mod Stage
pub mod Ready
pub mod Others
pub mod Interleaving
use undr.Base.{
  ℕ, ◌+◌, ◌-◌, ◌%◌, ◌^◌, Bool, true, false, not, ◌||◌, String, List, [], ◌∷◌, ◌++◌, Option, none,
  some, map, length, is_empty, any, ltb, string_key, if◌then◌else◌,
}
use undr.Base.Map
use undr.Base.Map.{BTreeMap, keys, values, is_some}
use undr.Base.Set
use undr.Base.Set.{BTreeSet}
use undr.Common.{
  NodeId, EdgeId, TransactionId, Undr9Error, Result, ok, err, panic, validation, conflict,
  not_found, ensure, ◌>>=◌, ◌>>◌,
}
use undr.Common.Decimal.{transaction_name}
use undr.Core.Records.{NodeRecord, EdgeRecord}
use undr.Core.Batch.{
  WriteBatch, empty_batch, batch_is_empty, IsolationLevel, TransactionState, active, committed,
  rolled_back, TransactionOperation, upsert_node, upsert_edge, delete_node, delete_edge,
  TransactionSummary, TransactionCommitResult,
}
use undr.Wal.Log.{AppendIo}
use undr.Storage.Batch.{
  Edges, batch_for_operation, merge_write_batches, extend_touched_nodes, extend_touched_edges,
}
use undr.Storage.Versions.{Lineage, visible_value_at_revision}
use undr.Storage.Engine.{
  TransactionSession, StorageEngine, StorageCodec, apply_write_batch_with_snapshot_readers,
}

unfoldable pub summary_for_session : TransactionSession → TransactionSummary
summary_for_session session = record {
  transaction_id = session.transaction_id;
  isolation_level = session.isolation_level;
  state = session.state;
  started_at_revision = session.started_at_revision;
  staged_operation_count =
      length session.staged_batch.nodes_upserted
      + length session.staged_batch.edges_upserted
      + length session.staged_batch.deleted_node_ids
      + length session.staged_batch.deleted_edge_ids;
  touched_node_count = length session.touched_node_ids;
  touched_edge_count = length session.touched_edge_ids;
}

abbrev pub new_session : TransactionId → IsolationLevel → ℕ → TransactionSession
new_session transaction_id isolation_level revision = record {
  transaction_id = transaction_id;
  isolation_level = isolation_level;
  state = active;
  started_at_revision = revision;
  node_overrides = [];
  edge_overrides = [];
  staged_batch = empty_batch;
  touched_node_ids = [];
  touched_edge_ids = [];
}

-- The name passes `TransactionId::new`, so the `expect` does not panic: see Common/Decimal.
unfoldable pub begin_transaction :
    IsolationLevel → StorageEngine → TransactionSummary × StorageEngine
unfolding summary_for_session
begin_transaction isolation_level engine =
    let transaction_id = transaction_name engine.next_transaction_ordinal in
    let session = new_session transaction_id isolation_level engine.commit_revision in
    (
      summary_for_session session,
      record engine {
        next_transaction_ordinal = (engine.next_transaction_ordinal + 1) % 2 ^ 64;
        transactions = Map.insert transaction_id session engine.transactions;
      },
    )

-- `map.get(id).ok_or_else(|| NotFound(..))`
abbrev pub or_not_found {ℓ} : {A : Type ℓ} → Option A → Result A
or_not_found none = err not_found
or_not_found (some a) = ok a

unfoldable pub transaction_summary : TransactionId → StorageEngine → Result TransactionSummary
unfolding summary_for_session
transaction_summary transaction_id engine = do
  session ← or_not_found (Map.get transaction_id engine.transactions)
  ok (summary_for_session session)

unfoldable pub list_transactions : StorageEngine → List TransactionSummary
unfolding summary_for_session
list_transactions engine = map summary_for_session (values engine.transactions)

abbrev pub is_active : TransactionState → Bool
is_active active = true
is_active committed = false
is_active rolled_back = false

abbrev pub active_found : Option TransactionSession → Result TransactionSession
active_found none = err not_found
active_found (some session) = ensure (is_active session.state) conflict >> ok session

unfoldable pub active_session : TransactionId → StorageEngine → Result TransactionSession
active_session transaction_id engine = active_found (Map.get transaction_id engine.transactions)

-- An override where there is one, else the value at the revision of the session.
abbrev pub overridden {ℓ} : {V : Type ℓ} → Option (Option V) → Option V → Option V
overridden none v = v
overridden (some v) w = v

unfoldable pub transaction_node_visible :
    StorageEngine → TransactionSession → NodeId → Option NodeRecord
transaction_node_visible engine session node_id =
    overridden (Map.get node_id session.node_overrides) (
      visible_value_at_revision node_id session.started_at_revision engine.nodes engine.node_lineage
        engine.node_versions)

unfoldable pub transaction_edge_visible :
    StorageEngine → TransactionSession → EdgeId → Option EdgeRecord
transaction_edge_visible engine session edge_id =
    overridden (Map.get edge_id session.edge_overrides) (
      visible_value_at_revision edge_id session.started_at_revision engine.edges engine.edge_lineage
        engine.edge_versions)

unfoldable pub transaction_node :
    TransactionId → NodeId → StorageEngine → Result (Option NodeRecord)
unfolding active_session transaction_node_visible
transaction_node transaction_id node_id engine = do
  session ← active_session transaction_id engine
  ok (transaction_node_visible engine session node_id)

unfoldable pub transaction_edge :
    TransactionId → EdgeId → StorageEngine → Result (Option EdgeRecord)
unfolding active_session transaction_edge_visible
transaction_edge transaction_id edge_id engine = do
  session ← active_session transaction_id engine
  ok (transaction_edge_visible engine session edge_id)

unfoldable pub transaction_staged_batch : TransactionId → StorageEngine → Result WriteBatch
unfolding active_session
transaction_staged_batch transaction_id engine = do
  session ← active_session transaction_id engine
  ok session.staged_batch

-- The identifiers that a session may see: those of the lineage, the map and the overrides.
abbrev pub candidates {ℓ κ} :
    {V : Type ℓ} {W : Type κ} → Lineage → BTreeMap String V → BTreeMap String W → BTreeSet String
candidates lineage live overrides =
    Set.extend (Set.extend (Set.extend [] (keys lineage)) (keys live)) (keys overrides)

-- `for id in ids { if let Some(value) = visible(id) { map.insert(id, value); } }`
unfoldable pub insert_visible {ℓ} :
    {V : Type ℓ} → (String → Option V) → BTreeMap String V → List String → BTreeMap String V
insert_visible visible m [] = m
insert_visible visible m (id ∷ ids) = elim (visible id) [
  | none ↦ insert_visible visible m ids
  | some v ↦ insert_visible visible (Map.insert id v m) ids
]

unfoldable pub transaction_snapshot :
    TransactionId → StorageEngine → Result (BTreeMap NodeId NodeRecord × BTreeMap EdgeId EdgeRecord)
unfolding active_session insert_visible transaction_node_visible transaction_edge_visible
transaction_snapshot transaction_id engine = do
  session ← active_session transaction_id engine
  ok (
    insert_visible (transaction_node_visible engine session) []
        (candidates engine.node_lineage engine.nodes session.node_overrides),
    insert_visible (transaction_edge_visible engine session) []
        (candidates engine.edge_lineage engine.edges session.edge_overrides),
  )

abbrev pub ends_at : NodeId → Option EdgeRecord → Bool
ends_at node_id none = false
ends_at node_id (some edge) =
    string_key.beq edge.source node_id || string_key.beq edge.target node_id

unfoldable pub incident_among :
    StorageEngine → TransactionSession → NodeId → List EdgeId → List EdgeId
unfolding transaction_edge_visible
incident_among engine session node_id [] = []
incident_among engine session node_id (edge_id ∷ edge_ids) =
    let rest = incident_among engine session node_id edge_ids in
    if ends_at node_id (transaction_edge_visible engine session edge_id)
    then edge_id ∷ rest
    else rest

unfoldable pub transaction_incident_edge_ids :
    StorageEngine → TransactionSession → NodeId → List EdgeId
unfolding incident_among
transaction_incident_edge_ids engine session node_id =
    incident_among engine session node_id
      (candidates engine.edge_lineage engine.edges session.edge_overrides)

-- The loop over the edges that go with a deleted node.
unfoldable pub override_incident : List EdgeId → TransactionSession → TransactionSession
override_incident [] session = session
override_incident (edge_id ∷ edge_ids) session = override_incident edge_ids (record session {
  edge_overrides = Map.insert edge_id none session.edge_overrides;
  touched_edge_ids = Set.insert edge_id session.touched_edge_ids;
})

-- The `match` of `stage_operation_on_session`. An error leaves nothing to keep: both its callers'
-- session is dropped with it.
unfoldable pub override_operation :
    StorageEngine → TransactionSession → TransactionOperation → Result TransactionSession
unfolding transaction_node_visible override_incident transaction_incident_edge_ids
override_operation engine session (upsert_node node) =
    ok (record session { node_overrides = Map.insert node.id (some node) session.node_overrides })
override_operation engine session (upsert_edge edge) = do
  ensure (is_some (transaction_node_visible engine session edge.source)) validation
  ensure (is_some (transaction_node_visible engine session edge.target)) validation
  ok (record session { edge_overrides = Map.insert edge.id (some edge) session.edge_overrides })
override_operation engine session (delete_node node_id) =
    let marked = record session {
      node_overrides = Map.insert node_id none session.node_overrides;
    } in
    ok (override_incident (transaction_incident_edge_ids engine marked node_id) marked)
override_operation engine session (delete_edge edge_id) =
    ok (record session { edge_overrides = Map.insert edge_id none session.edge_overrides })

unfoldable pub note_operation : TransactionOperation → TransactionSession → TransactionSession
note_operation operation session =
    let batch = batch_for_operation operation in
    record session {
      staged_batch = merge_write_batches session.staged_batch batch;
      touched_node_ids = extend_touched_nodes session.touched_node_ids batch;
      touched_edge_ids = extend_touched_edges session.touched_edge_ids batch;
    }

unfoldable pub stage_operation_on_session :
    StorageEngine → TransactionSession → TransactionOperation → Result TransactionSession
unfolding override_operation note_operation
stage_operation_on_session engine session operation = do
  overridden_session ← override_operation engine session operation
  ok (note_operation operation overridden_session)

-- The session is out of the map while the operation is staged, and comes back on success alone.
abbrev pub restaged :
    TransactionId
    → Result TransactionSession
    → StorageEngine
    → Result TransactionSummary × StorageEngine
restaged transaction_id (ok session) engine = (
  ok (summary_for_session session),
  record engine { transactions = Map.insert transaction_id session engine.transactions },
)
restaged transaction_id (err e) engine = (err e, engine)
restaged transaction_id panic engine = (panic, engine)

abbrev pub stage_found :
    TransactionId
    → TransactionOperation
    → Option TransactionSession
    → StorageEngine
    → Result TransactionSummary × StorageEngine
stage_found transaction_id operation none engine = (err not_found, engine)
stage_found transaction_id operation (some session) engine =
    let without = record engine { transactions = Map.remove transaction_id engine.transactions } in
    restaged transaction_id
      (ensure (is_active session.state) conflict
        >> stage_operation_on_session without session operation)
      without

unfoldable pub stage_transaction_operation :
    TransactionId → TransactionOperation → StorageEngine → Result TransactionSummary × StorageEngine
unfolding stage_operation_on_session summary_for_session
stage_transaction_operation transaction_id operation engine =
    stage_found transaction_id operation (Map.get transaction_id engine.transactions) engine

unfoldable pub clear_version_history_if_unused : StorageEngine → StorageEngine
clear_version_history_if_unused engine =
    if is_empty engine.transactions
    then record engine { node_versions = []; edge_versions = [] }
    else engine

-- `lineage.get(id).copied().unwrap_or(0) > started_at_revision`
abbrev pub changed_after : ℕ → Option ℕ → Bool
changed_after revision none = false
changed_after revision (some changed) = ltb revision changed

unfoldable pub has_conflict : Lineage → ℕ → List String → Bool
has_conflict lineage revision [] = false
has_conflict lineage revision (id ∷ ids) =
    changed_after revision (Map.get id lineage) || has_conflict lineage revision ids

unfoldable pub check_commit : StorageEngine → TransactionSession → Result (Unit {0})
unfolding has_conflict
check_commit engine session = do
  ensure
      (not (has_conflict engine.node_lineage session.started_at_revision session.touched_node_ids))
      conflict
  ensure
      (not (has_conflict engine.edge_lineage session.started_at_revision session.touched_edge_ids))
      conflict
  ensure (not (batch_is_empty session.staged_batch)) validation

unfoldable pub finish_transaction : TransactionId → StorageEngine → StorageEngine
unfolding clear_version_history_if_unused
finish_transaction transaction_id engine =
    clear_version_history_if_unused
      (record engine { transactions = Map.remove transaction_id engine.transactions })

abbrev pub commit_result :
    TransactionId → TransactionSession → StorageEngine → ℕ → TransactionCommitResult
commit_result transaction_id session engine lsn = record {
  transaction_id = transaction_id;
  committed_revision = engine.commit_revision;
  committed_lsn = lsn;
  staged_operation_count = (summary_for_session session).staged_operation_count;
}

abbrev pub finish_commit :
    TransactionId
    → TransactionSession
    → Result ℕ × StorageEngine
    → Result TransactionCommitResult × StorageEngine
finish_commit transaction_id session (ok lsn, engine) =
    let finished = finish_transaction transaction_id engine in
    (ok (commit_result transaction_id session finished lsn), finished)
finish_commit transaction_id session (err e, engine) = (err e, engine)
finish_commit transaction_id session (panic, engine) = (panic, engine)

module _ (codec : StorageCodec) (answer : AppendIo) where
  -- The session that has passed `active_session` and the checks for conflicts.
  abbrev pub commit_checked :
      TransactionId
      → Result TransactionSession
      → StorageEngine
      → Result TransactionCommitResult × StorageEngine
  commit_checked transaction_id (ok session) engine = finish_commit transaction_id session (
      apply_write_batch_with_snapshot_readers codec answer session.staged_batch
        (length engine.transactions - 1) engine)
  commit_checked transaction_id (err e) engine = (err e, engine)
  commit_checked transaction_id panic engine = (panic, engine)

  abbrev pub committable : StorageEngine → TransactionId → Result TransactionSession
  committable engine transaction_id = do
    session ← active_session transaction_id engine
    check_commit engine session
    ok session

  unfoldable pub commit_transaction :
      TransactionId → StorageEngine → Result TransactionCommitResult × StorageEngine
  unfolding active_session check_commit finish_transaction summary_for_session
  commit_transaction transaction_id engine =
      commit_checked transaction_id (committable engine transaction_id) engine

abbrev pub rollback_found :
    TransactionId
    → Option TransactionSession
    → StorageEngine
    → Result TransactionSummary × StorageEngine
rollback_found transaction_id none engine = (err not_found, engine)
rollback_found transaction_id (some session) engine = (
  ok (summary_for_session (record session { state = rolled_back })),
  finish_transaction transaction_id engine,
)

unfoldable pub rollback_transaction :
    TransactionId → StorageEngine → Result TransactionSummary × StorageEngine
unfolding summary_for_session finish_transaction
rollback_transaction transaction_id engine =
    rollback_found transaction_id (Map.get transaction_id engine.transactions) engine
