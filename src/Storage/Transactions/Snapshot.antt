-- ===== src/Storage/Transactions/Snapshot.antt =====
-- Snapshot isolation: what a transaction reads does not depend on what others write.
use undr.Base.{
  ℕ, ◌≡◌, refl, ap, ◌∙◌, inl, inr, ◌-◌, ◌≤◌, ◌<◌, Bool, true, false, String, [], ◌∷◌, some, arith,
  leb, ltb, leb→le, string_key, length, Bool-cases, Option-cases,
}
use undr.Base.Map
use undr.Base.Map.{BTreeMap, is_some}
use undr.Common.{TransactionId, Result, ok, err, panic}
use undr.Core.Batch.{WriteBatch}
use undr.Wal.Record.{WalRecord, write_batch}
use undr.Wal.Log.{Wal, AppendIo, append}
use undr.Storage.Batch.{BatchEffects, batch_effects}
use undr.Storage.Batch.Integrity.{IsSound}
use undr.Storage.Engine.{
  TransactionSession, StorageEngine, StorageCodec, apply_write_batch,
  apply_write_batch_with_snapshot_readers, publish_appended, write_prepared, prepare_batch,
  preserve_historical_versions, publish,
}
use undr.Storage.Engine.Write.{SeesSame, write_keeps_snapshots}
use undr.Storage.Transactions.{is_active, transaction_node, transaction_edge}

-- The maps are sound, the log's next number is above the revision, and no transaction began after it.
pub record IsReady (engine : StorageEngine) : Type 0 where
  pub sound : IsSound engine.nodes engine.edges
  pub revision_below : engine.commit_revision < engine.wal.next_lsn
  pub began :
      (id : TransactionId) (session : TransactionSession)
      → Map.get id engine.transactions ≡ some session
      → session.started_at_revision ≤ engine.commit_revision

-- A transaction reads the same node and the same edge from both engines.
abbrev pub ReadsSame : TransactionId → String → StorageEngine → StorageEngine → Type 0
ReadsSame id key before after =
    (transaction_node id key after ≡ transaction_node id key before)
    × (transaction_edge id key after ≡ transaction_edge id key before)

module _ (before after : StorageEngine) (id : TransactionId) (key : String) where
  reads_found :
      (session : TransactionSession)
      → Map.get id before.transactions ≡ some session
      → Map.get id after.transactions ≡ some session
      → SeesSame key session.started_at_revision before after
      → ReadsSame id key before after
  unfolding transaction_node transaction_edge
  reads_found session b a seen = elim (Bool-cases (is_active session.state)) [
    | inl live ↦ (rw (a, b, live, seen.0), rw (a, b, live, seen.1))
    | inr ended ↦ (rw (a, b, ended), rw (a, b, ended))
  ]

  pub reads_same :
      Map.get id after.transactions ≡ Map.get id before.transactions
      → ((session : TransactionSession)
          → Map.get id before.transactions ≡ some session
          → SeesSame key session.started_at_revision before after)
      → ReadsSame id key before after
  unfolding transaction_node transaction_edge
  reads_same same seen = elim (Option-cases (Map.get id before.transactions)) [
    | inl absent ↦ (rw (same, absent), rw (same, absent))
    | inr (session, found) ↦ reads_found session found (same ∙ found) (seen session found)
  ]

module _ (codec : StorageCodec) (answer : AppendIo) (engine : StorageEngine) where
  published_transactions :
      (readers : Bool) (effects : BatchEffects) (batch : WriteBatch) (p : Result WalRecord × Wal)
      → (publish_appended readers effects batch engine p).1.transactions ≡ engine.transactions
  unfolding publish
  published_transactions true effects batch (ok w, wal) = refl
  published_transactions false effects batch (ok w, wal) = refl
  published_transactions readers effects batch (err e, wal) = refl
  published_transactions readers effects batch (panic, wal) = refl

-- A write does not touch the sessions.
pub write_transactions :
    (codec : StorageCodec) (answer : AppendIo) (engine : StorageEngine) (readers : Bool)
    (prepared : Result WriteBatch)
    → (write_prepared codec answer readers prepared engine).1.transactions ≡ engine.transactions
unfolding preserve_historical_versions
write_transactions codec answer engine true (ok batch) = elim (Option-cases (codec.to_vec batch)) [
  | inl unmade ↦ rw unmade refl
  | inr (payload, made) ↦ rw made (
      published_transactions codec answer
        (preserve_historical_versions (batch_effects engine.edges batch) engine) true
        (batch_effects engine.edges batch) batch
        (append codec.log answer write_batch payload engine.wal))
]
write_transactions codec answer engine false (ok batch) = elim (Option-cases (codec.to_vec batch)) [
  | inl unmade ↦ rw unmade refl
  | inr (payload, made) ↦ rw made (
      published_transactions codec answer engine false (batch_effects engine.edges batch) batch
        (append codec.log answer write_batch payload engine.wal))
]
write_transactions codec answer engine readers (err e) = refl
write_transactions codec answer engine readers panic = refl

-- Where some key is there, the map is not empty; where two are, it has two entries.
some_entry {κ} :
    {V : Type κ} (k : String) (v : V) (m : BTreeMap String V)
    → Map.get k m ≡ some v
    → ltb 0 (length m) ≡ true
unfolding Map.get
some_entry k v [] h = cc
some_entry k v (e ∷ m) h = ground arith

pub two_entries {κ} :
    {V : Type κ} (j k : String) (u v : V) (m : BTreeMap String V)
    → Map.get j m ≡ some u
    → Map.get k m ≡ some v
    → string_key.beq j k ≡ false
    → ltb 0 (length m - 1) ≡ true
unfolding Map.get
two_entries j k u v [] a b other = cc
two_entries j k u v ((i, w) ∷ []) a b other =
    ground (arith, string_key.beq_iff i j, string_key.beq_iff i k, string_key.beq_iff j k)
two_entries j k u v (e ∷ f ∷ m) a b other = ground arith

module _ (codec : StorageCodec) (answer : AppendIo) (engine : StorageEngine)
    (ready : IsReady engine) (id : TransactionId) (key : String) where
  started_below :
      (session : TransactionSession)
      → Map.get id engine.transactions ≡ some session
      → leb engine.wal.next_lsn session.started_at_revision ≡ false
  started_below session found =
      let began = ready.began id session found in
      let below = ready.revision_below in
      ground (arith, leb→le engine.wal.next_lsn session.started_at_revision)

  -- A write with enough readers announced leaves a transaction's reads as they were.
  pub write-ReadsSame :
      (batch : WriteBatch) (readers : ℕ)
      → ((session : TransactionSession)
          → Map.get id engine.transactions ≡ some session
          → ltb 0 readers ≡ true)
      → ReadsSame id key engine
          (apply_write_batch_with_snapshot_readers codec answer batch readers engine).1
  unfolding apply_write_batch_with_snapshot_readers
  write-ReadsSame batch readers enough =
      reads_same engine
        (apply_write_batch_with_snapshot_readers codec answer batch readers engine).1 id key
        (ap (Map.get id)
          (write_transactions codec answer engine (ltb 0 readers) (prepare_batch engine batch)))
        (λ session found.
          write_keeps_snapshots codec answer engine ready.sound key session.started_at_revision
            batch readers (enough session found) (started_below session found))

  -- Where the maps are sound, the next number of the log is above the revision and no
  -- transaction began after it: a write by the engine itself, whether it succeeds, is refused or
  -- fails in the log, changes no read of a transaction.
  pub write_isolated :
      (batch : WriteBatch) → ReadsSame id key engine (apply_write_batch codec answer batch engine).1
  unfolding apply_write_batch
  write_isolated batch =
      write-ReadsSame batch (length engine.transactions)
        (λ session found. some_entry id session engine.transactions found)
