-- ===== src/Storage/Transactions/Stage.antt =====
-- Staging: a transaction reads what it has staged.
use undr.Base.{
  ◌≡◌, refl, ap, subst, ◌∙◌, inl, inr, true, String, List, [], ◌∷◌, Option, none, some, arith,
  string_key, beq_refl, Bool-cases, Option-cases,
}
use undr.Base.Map
use undr.Base.Map.{is_some}
use undr.Common.{TransactionId, NodeId, Undr9Error, Result, ok, err, panic}
use undr.Core.Batch.{
  TransactionSummary, TransactionOperation, upsert_node, upsert_edge, delete_node, delete_edge,
}
use undr.Core.Records.{NodeRecord, EdgeRecord}
use undr.Storage.Engine.{TransactionSession, StorageEngine}
use undr.Storage.Transactions.{
  active_session, restaged, is_active, override_operation, note_operation, override_incident,
  stage_operation_on_session, stage_transaction_operation, transaction_node_visible,
  transaction_edge_visible, transaction_incident_edge_ids, transaction_node, transaction_edge,
}

override_incident-nodes :
    (ids : List String) (session : TransactionSession)
    → (override_incident ids session).node_overrides ≡ session.node_overrides
unfolding override_incident
override_incident-nodes [] session = refl
override_incident-nodes (id ∷ ids) session = override_incident-nodes ids _

override_incident-state :
    (ids : List String) (session : TransactionSession)
    → (override_incident ids session).state ≡ session.state
unfolding override_incident
override_incident-state [] session = refl
override_incident-state (id ∷ ids) session = override_incident-state ids _

module _ (engine : StorageEngine) (id : TransactionId) (staged : TransactionSession)
    (live : is_active staged.state ≡ true) where
  abbrev back : StorageEngine
  back = record engine { transactions = Map.insert id staged (Map.remove id engine.transactions) }

  restaged_node :
      (key : String) (value : Option NodeRecord)
      → Map.get key staged.node_overrides ≡ some value
      → transaction_node id key back ≡ ok value
  unfolding transaction_node active_session transaction_node_visible
  restaged_node key value overrides =
      rw
        (
          Map.get-insert id id staged (Map.remove id engine.transactions),
          beq_refl id,
          live,
          overrides,
        )
        refl

  restaged_edge :
      (key : String) (value : Option EdgeRecord)
      → Map.get key staged.edge_overrides ≡ some value
      → transaction_edge id key back ≡ ok value
  unfolding transaction_edge active_session transaction_edge_visible
  restaged_edge key value overrides =
      rw
        (
          Map.get-insert id id staged (Map.remove id engine.transactions),
          beq_refl id,
          live,
          overrides,
        )
        refl

get_inserted {κ} :
    {V : Type κ} (key : String) (v : V) (m : Map.BTreeMap String V)
    → Map.get key (Map.insert key v m) ≡ some v
get_inserted key v m = rw (Map.get-insert key key v m, beq_refl key) refl

-- What a transaction reads of the record that an operation names.
abbrev pub ReadsBack : TransactionId → TransactionOperation → StorageEngine → Type 0
ReadsBack id (upsert_node node) engine = transaction_node id node.id engine ≡ ok (some node)
ReadsBack id (upsert_edge edge) engine = transaction_edge id edge.id engine ≡ ok (some edge)
ReadsBack id (delete_node node_id) engine = transaction_node id node_id engine ≡ ok none
ReadsBack id (delete_edge edge_id) engine = transaction_edge id edge_id engine ≡ ok none

module _ (engine : StorageEngine) (id : TransactionId) (session : TransactionSession)
    (found : Map.get id engine.transactions ≡ some session)
    (live : is_active session.state ≡ true) where
  stage_upsert_node :
      (node : NodeRecord)
      → ReadsBack id (upsert_node node) (stage_transaction_operation id (upsert_node node) engine).1
  unfolding stage_transaction_operation stage_operation_on_session override_operation note_operation
  stage_upsert_node node =
      rw (found, live)
        (restaged_node engine id _ live node.id (some node)
          (get_inserted node.id (some node) session.node_overrides))

  stage_delete_node :
      (node_id : NodeId)
      → ReadsBack id
          (delete_node node_id)
          (stage_transaction_operation id (delete_node node_id) engine).1
  unfolding stage_transaction_operation stage_operation_on_session override_operation note_operation
  stage_delete_node node_id =
      let without = record engine { transactions = Map.remove id engine.transactions } in
      let marked = record session {
        node_overrides = Map.insert node_id none session.node_overrides;
      } in
      let edges = transaction_incident_edge_ids without marked node_id in
      rw (found, live)
        (restaged_node engine id _ (ap is_active (override_incident-state edges marked) ∙ live)
          node_id none
          (ap (Map.get node_id) (override_incident-nodes edges marked)
            ∙ get_inserted node_id none session.node_overrides))

  stage_delete_edge :
      (edge_id : String)
      → ReadsBack id
          (delete_edge edge_id)
          (stage_transaction_operation id (delete_edge edge_id) engine).1
  unfolding stage_transaction_operation stage_operation_on_session override_operation note_operation
  stage_delete_edge edge_id =
      rw (found, live)
        (restaged_edge engine id _ live edge_id none
          (get_inserted edge_id none session.edge_overrides))

  -- An edge whose two ends the transaction sees.
  stage_upsert_edge :
      (edge : EdgeRecord) (summary : TransactionSummary) (engine' : StorageEngine)
      → stage_transaction_operation id (upsert_edge edge) engine ≡ (ok summary, engine')
      → ReadsBack id (upsert_edge edge) (stage_transaction_operation id (upsert_edge edge) engine).1
  unfolding stage_transaction_operation stage_operation_on_session override_operation note_operation
  stage_upsert_edge edge summary engine' h =
      let without = record engine { transactions = Map.remove id engine.transactions } in
      elim (Bool-cases (is_some (transaction_node_visible without session edge.source))) [
        | inl source ↦
            elim (Bool-cases (is_some (transaction_node_visible without session edge.target))) [
              | inl target ↦
                  rw (found, live, source, target)
                    (restaged_edge engine id _ live edge.id (some edge)
                      (get_inserted edge.id (some edge) session.edge_overrides))
              | inr no_target ↦ cc (rw (found, live, source, no_target) at h)
            ]
        | inr no_source ↦ cc (rw (found, live, no_source) at h)
      ]

-- An active transaction that stages an operation with success reads it back: the node or the edge
-- it upserted, and nothing where it deleted one.
pub stage-ReadsBack :
    (engine engine' : StorageEngine) (id : TransactionId) (session : TransactionSession)
    (operation : TransactionOperation) (summary : TransactionSummary)
    → Map.get id engine.transactions ≡ some session
    → is_active session.state ≡ true
    → stage_transaction_operation id operation engine ≡ (ok summary, engine')
    → ReadsBack id operation engine'
stage-ReadsBack engine engine' id session (upsert_node node) summary found live h =
    subst (ReadsBack id (upsert_node node)) (ap (λ p. p.1) h)
      (stage_upsert_node engine id session found live node)
stage-ReadsBack engine engine' id session (upsert_edge edge) summary found live h =
    subst (ReadsBack id (upsert_edge edge)) (ap (λ p. p.1) h)
      (stage_upsert_edge engine id session found live edge summary engine' h)
stage-ReadsBack engine engine' id session (delete_node node_id) summary found live h =
    subst (ReadsBack id (delete_node node_id)) (ap (λ p. p.1) h)
      (stage_delete_node engine id session found live node_id)
stage-ReadsBack engine engine' id session (delete_edge edge_id) summary found live h =
    subst (ReadsBack id (delete_edge edge_id)) (ap (λ p. p.1) h)
      (stage_delete_edge engine id session found live edge_id)

restaged_drops :
    (engine' : StorageEngine) (id : TransactionId) (e : Undr9Error) (r : Result TransactionSession)
    (without : StorageEngine)
    → Map.get id without.transactions ≡ none
    → restaged id r without ≡ (err e, engine')
    → Map.get id engine'.transactions ≡ none
restaged_drops engine' id e (ok session) without gone h = cc (ap (λ p. p.0) h)
restaged_drops engine' id e (err x) without gone h =
    subst (λ (s : StorageEngine). Map.get id s.transactions ≡ none) (ap (λ p. p.1) h) gone
restaged_drops engine' id e panic without gone h = cc (ap (λ p. p.0) h)

-- After an operation that fails to stage, the transaction is no longer there.
pub stage_failure_drops :
    (engine engine' : StorageEngine) (id : TransactionId) (operation : TransactionOperation)
    (e : Undr9Error)
    → stage_transaction_operation id operation engine ≡ (err e, engine')
    → Map.get id engine'.transactions ≡ none
unfolding stage_transaction_operation
stage_failure_drops engine engine' id operation e h =
    elim (Option-cases (Map.get id engine.transactions)) [
      | inl absent ↦
          subst (λ (s : StorageEngine). Map.get id s.transactions ≡ none)
            (ap (λ p. p.1) (rw absent at h)) absent
      | inr (session, found) ↦
          restaged_drops engine' id e _
            (record engine { transactions = Map.remove id engine.transactions })
            (ground (arith, Map.get-remove id id engine.transactions, beq_refl id)) (rw found at h)
    ]
