-- ===== src/Storage/Transactions/Others.antt =====
-- What staging and beginning a transaction leave to the others.
use mathlib.Core.Option.{some-injective}
use undr.Base.{
  ℕ, ◌≡◌, refl, sym, subst, ◌∙◌, inl, inr, ◌≤◌, Bool, true, false, List, String, [], ◌∷◌, none,
  arith, string_key, Bool-cases, Option-cases,
}
use undr.Base.Map
use undr.Base.Map.{is_some}
use undr.Common.{TransactionId, Result, ok, err, panic, ensure, validation, conflict, ◌>>=◌, ◌>>◌}
use undr.Common.Decimal.{transaction_name}
use undr.Core.Batch.{
  IsolationLevel, TransactionOperation, upsert_node, upsert_edge, delete_node, delete_edge,
}
use undr.Storage.Engine.{TransactionSession, StorageEngine}
use undr.Storage.Transactions.{
  new_session, begin_transaction, is_active, override_operation, note_operation, override_incident,
  stage_operation_on_session, stage_transaction_operation, restaged, transaction_incident_edge_ids,
  transaction_node_visible,
}
use undr.Storage.Transactions.Snapshot.{IsReady, ReadsSame, reads_same}

-- A staged session, where there is one, has the start of the old one.
abbrev IsStarted : ℕ → Result TransactionSession → Type 0
IsStarted start (ok session) = session.started_at_revision ≡ start
IsStarted start (err e) = Unit
IsStarted start panic = Unit

override_incident_start :
    (ids : List String) (session : TransactionSession)
    → (override_incident ids session).started_at_revision ≡ session.started_at_revision
unfolding override_incident
override_incident_start [] session = refl
override_incident_start (id ∷ ids) session = override_incident_start ids (record session {
  edge_overrides = Map.insert id none session.edge_overrides;
  touched_edge_ids = _;
})

checked-IsStarted :
    (start : ℕ) (b c : Bool) (session : TransactionSession)
    → session.started_at_revision ≡ start
    → IsStarted start (ensure b validation >> (ensure c validation >> ok session))
checked-IsStarted start true true session h = h
checked-IsStarted start true false session h = tt
checked-IsStarted start false c session h = tt

override-IsStarted :
    (engine : StorageEngine) (session : TransactionSession) (operation : TransactionOperation)
    → IsStarted session.started_at_revision (override_operation engine session operation)
unfolding override_operation
override-IsStarted engine session (upsert_node node) = refl
override-IsStarted engine session (upsert_edge edge) =
    checked-IsStarted session.started_at_revision
      (is_some (transaction_node_visible engine session edge.source))
      (is_some (transaction_node_visible engine session edge.target)) _ refl
override-IsStarted engine session (delete_node node_id) =
    let marked = record session {
      node_overrides = Map.insert node_id none session.node_overrides;
    } in
    override_incident_start (transaction_incident_edge_ids engine marked node_id) marked
override-IsStarted engine session (delete_edge edge_id) = refl

noted-IsStarted :
    (start : ℕ) (operation : TransactionOperation) (r : Result TransactionSession)
    → IsStarted start r
    → IsStarted start (r >>= λ session. ok (note_operation operation session))
unfolding note_operation
noted-IsStarted start operation (ok session) h = h
noted-IsStarted start operation (err e) h = tt
noted-IsStarted start operation panic h = tt

staged-IsStarted :
    (engine : StorageEngine) (session : TransactionSession) (operation : TransactionOperation)
    → IsStarted session.started_at_revision (
        ensure (is_active session.state) conflict
        >> stage_operation_on_session engine session operation)
unfolding stage_operation_on_session
staged-IsStarted engine session operation = elim (Bool-cases (is_active session.state)) [
  | inl live ↦ rw live (
      noted-IsStarted session.started_at_revision operation
        (override_operation engine session operation) (override-IsStarted engine session operation))
  | inr ended ↦ rw ended tt
]

module _ (engine : StorageEngine) (tx : TransactionId) (ready : IsReady engine) where
  -- The engine while a session is staged.
  abbrev without : StorageEngine
  without = record engine { transactions = Map.remove tx engine.transactions }

  restaged-IsReady :
      (start : ℕ) (r : Result TransactionSession)
      → start ≤ engine.commit_revision
      → IsStarted start r
      → IsReady (restaged tx r without).1
  restaged-IsReady start (ok staged) early started = record {
    sound = ready.sound;
    revision_below = ready.revision_below;
    began = λ id session found.
        let got = sym (Map.get-insert tx id staged (Map.remove tx engine.transactions)) ∙ found in
        elim (Bool-cases (string_key.beq tx id)) [
          | inl same ↦
              subst (λ (s : TransactionSession). s.started_at_revision ≤ engine.commit_revision)
                (some-injective staged session (rw same at got)) (rw started early)
          | inr other ↦
              ready.began id session (ground (arith, Map.get-remove tx id engine.transactions))
        ];
  }
  restaged-IsReady start (err e) early started = record {
    sound = ready.sound;
    revision_below = ready.revision_below;
    began = λ id session found.
        ready.began id session (ground (arith, Map.get-remove tx id engine.transactions));
  }
  restaged-IsReady start panic early started = record {
    sound = ready.sound;
    revision_below = ready.revision_below;
    began = λ id session found.
        ready.began id session (ground (arith, Map.get-remove tx id engine.transactions));
  }

  pub stage-IsReady :
      (operation : TransactionOperation)
      → IsReady (stage_transaction_operation tx operation engine).1
  unfolding stage_transaction_operation
  stage-IsReady operation = elim (Option-cases (Map.get tx engine.transactions)) [
    | inl absent ↦ rw absent ready
    | inr (session, found) ↦ rw found (
        restaged-IsReady session.started_at_revision _ (ready.began tx session found)
          (staged-IsStarted without session operation))
  ]

module _ (engine : StorageEngine) (tx id : TransactionId) (key : String)
    (other : string_key.beq tx id ≡ false) where
  restaged_isolated :
      (r : Result TransactionSession)
      → ReadsSame id key engine
          (restaged tx r (record engine { transactions = Map.remove tx engine.transactions })).1
  restaged_isolated (ok staged) =
      reads_same engine _ id key
        (Map.get-insert tx id staged (Map.remove tx engine.transactions)
          ∙ (rw other (ground (arith, Map.get-remove tx id engine.transactions))))
        (λ session found. (refl, refl))
  restaged_isolated (err e) =
      reads_same engine _ id key (ground (arith, Map.get-remove tx id engine.transactions))
        (λ session found. (refl, refl))
  restaged_isolated panic =
      reads_same engine _ id key (ground (arith, Map.get-remove tx id engine.transactions))
        (λ session found. (refl, refl))

  pub stage_isolated :
      (operation : TransactionOperation)
      → ReadsSame id key engine (stage_transaction_operation tx operation engine).1
  unfolding stage_transaction_operation
  stage_isolated operation = elim (Option-cases (Map.get tx engine.transactions)) [
    | inl absent ↦ rw absent (refl, refl)
    | inr (session, found) ↦ rw found (restaged_isolated _)
  ]

pub begin_isolated :
    (level : IsolationLevel) (engine : StorageEngine) (id : TransactionId) (key : String)
    → string_key.beq (transaction_name engine.next_transaction_ordinal) id ≡ false
    → ReadsSame id key engine (begin_transaction level engine).1
unfolding begin_transaction
begin_isolated level engine id key other =
    let name = transaction_name engine.next_transaction_ordinal in
    let new = new_session name level engine.commit_revision in
    reads_same engine _ id key (Map.get-insert name id new engine.transactions ∙ (rw other refl))
      (λ session found. (refl, refl))
