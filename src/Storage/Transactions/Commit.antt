-- ===== src/Storage/Transactions/Commit.antt =====
-- Commits: what they leave to other transactions, and what makes one fail.
use undr.Base.{
  ℕ, ◌≡◌, refl, ap, ◌∙◌, inl, inr, ◌-◌, ◌⊎◌, true, false, String, List, [], ◌∷◌, some, arith, ltb,
  string_key, length, is_empty, Bool-cases, Option-cases,
}
use undr.Base.Map
use undr.Base.Set
use undr.Common.{TransactionId, Result, ok, err, panic, conflict}
use undr.Wal.Log.{AppendIo}
use undr.Storage.Engine.{
  TransactionSession, StorageEngine, StorageCodec, apply_write_batch_with_snapshot_readers,
}
use undr.Storage.Versions.{Lineage}
use undr.Storage.Transactions.{
  active_session, is_active, clear_version_history_if_unused, finish_transaction, finish_commit,
  commit_transaction, commit_checked, committable, check_commit, has_conflict, rollback_transaction,
}
use undr.Storage.Transactions.Snapshot.{
  IsReady, ReadsSame, reads_same, write-ReadsSame, two_entries,
}

module _ (ended id : TransactionId) (key : String) (other : string_key.beq ended id ≡ false) where
  get-ended :
      (engine : StorageEngine)
      → Map.get id (Map.remove ended engine.transactions) ≡ Map.get id engine.transactions
  get-ended engine = ground (arith, Map.get-remove ended id engine.transactions)

  not_empty :
      {V : Type 0} (v : V) (m : Map.BTreeMap String V) → Map.get id m ≡ some v → is_empty m ≡ false
  unfolding Map.get
  not_empty v [] h = cc
  not_empty v (e ∷ m) h = refl

  finish_transactions :
      (engine : StorageEngine)
      → (finish_transaction ended engine).transactions ≡ Map.remove ended engine.transactions
  unfolding finish_transaction clear_version_history_if_unused
  finish_transactions engine = ground arith

  -- The end of a transaction changes no read of another.
  pub finish_isolated :
      (engine : StorageEngine) → ReadsSame id key engine (finish_transaction ended engine)
  unfolding finish_transaction clear_version_history_if_unused
  finish_isolated engine =
      reads_same engine (finish_transaction ended engine) id key
        (ap (Map.get id) (finish_transactions engine) ∙ get-ended engine)
        (λ session found.
          let used =
            not_empty session (Map.remove ended engine.transactions) (get-ended engine ∙ found) in
          (rw used refl, rw used refl))

  finish_commit_isolated :
      (session : TransactionSession) (p : Result ℕ × StorageEngine)
      → ReadsSame id key p.1 (finish_commit ended session p).1
  finish_commit_isolated session (ok lsn, engine) = finish_isolated engine
  finish_commit_isolated session (err e, engine) = (refl, refl)
  finish_commit_isolated session (panic, engine) = (refl, refl)

  module _ (codec : StorageCodec) (answer : AppendIo) (engine : StorageEngine)
      (ready : IsReady engine) where
    checked_isolated :
        (there : TransactionSession) (r : Result TransactionSession)
        → Map.get ended engine.transactions ≡ some there
        → ReadsSame id key engine (commit_checked codec answer ended r engine).1
    checked_isolated there (err e) found = (refl, refl)
    checked_isolated there panic found = (refl, refl)
    checked_isolated there (ok session) found =
        let written =
          write-ReadsSame codec answer engine ready id key session.staged_batch
            (length engine.transactions - 1)
            (λ s here. two_entries ended id there s engine.transactions found here other) in
        let finished = finish_commit_isolated session (
          apply_write_batch_with_snapshot_readers codec answer session.staged_batch
            (length engine.transactions - 1) engine) in
        (finished.0 ∙ written.0, finished.1 ∙ written.1)

    -- Where the maps are sound, the next number of the log is above the revision and no
    -- transaction began after it: the commit of one transaction, whether it succeeds or fails,
    -- changes no read of another.
    pub commit_isolated : ReadsSame id key engine (commit_transaction codec answer ended engine).1
    unfolding commit_transaction active_session
    commit_isolated = elim (Option-cases (Map.get ended engine.transactions)) [
      | inl absent ↦ (rw absent refl, rw absent refl)
      | inr (session, found) ↦
          checked_isolated session (committable codec answer engine ended) found
    ]

-- The identifiers that changed after a revision.
has_conflict-member :
    (lineage : Lineage) (revision changed : ℕ) (ids : List String) (id : String)
    → Set.contains id ids ≡ true
    → Map.get id lineage ≡ some changed
    → ltb revision changed ≡ true
    → has_conflict lineage revision ids ≡ true
unfolding has_conflict Set.contains
has_conflict-member lineage revision changed [] id member at later = cc
has_conflict-member lineage revision changed (j ∷ ids) id member at later =
    elim (Bool-cases (string_key.beq j id)) [
      | inl same ↦ let here : j ≡ id = (string_key.beq_iff j id).0 same in rw (here, at, later) refl
      | inr differs ↦ ground (
        arith,
        has_conflict-member lineage revision changed ids id (rw differs at member) at later,
      )
    ]

-- A commit of an active transaction that touched a node or an edge whose last change is later
-- than its start is refused with a conflict, and leaves the engine as it was.
pub commit_conflicts :
    (codec : StorageCodec) (answer : AppendIo) (engine : StorageEngine) (tx : TransactionId)
    (session : TransactionSession) (changed : ℕ) (key : String)
    → Map.get tx engine.transactions ≡ some session
    → is_active session.state ≡ true
    → ltb session.started_at_revision changed ≡ true
    → ((Set.contains key session.touched_node_ids ≡ true)
        × (Map.get key engine.node_lineage ≡ some changed))
      ⊎ ((Set.contains key session.touched_edge_ids ≡ true)
          × (Map.get key engine.edge_lineage ≡ some changed))
    → commit_transaction codec answer tx engine ≡ (err conflict, engine)
unfolding commit_transaction active_session check_commit
commit_conflicts codec answer engine tx session changed key found live later (inl stale) =
    rw
      (
        found,
        live,
        has_conflict-member engine.node_lineage session.started_at_revision changed
            session.touched_node_ids key stale.0 stale.1 later,
      )
      refl
commit_conflicts codec answer engine tx session changed key found live later (inr stale) =
    elim (Bool-cases
      (has_conflict engine.node_lineage session.started_at_revision session.touched_node_ids)) [
        | inl first ↦ rw (found, live, first) refl
        | inr none_first ↦
            rw
              (
                found,
                live,
                none_first,
                has_conflict-member engine.edge_lineage session.started_at_revision changed
                    session.touched_edge_ids key stale.0 stale.1 later,
              )
              refl
      ]

-- Rolling a transaction back changes no read of another one.
pub rollback_isolated :
    (engine : StorageEngine) (ended id : TransactionId) (key : String)
    → string_key.beq ended id ≡ false
    → ReadsSame id key engine (rollback_transaction ended engine).1
unfolding rollback_transaction
rollback_isolated engine ended id key other =
    elim (Option-cases (Map.get ended engine.transactions)) [
      | inl absent ↦ (rw absent refl, rw absent refl)
      | inr (session, found) ↦ rw found (finish_isolated ended id key other engine)
    ]
