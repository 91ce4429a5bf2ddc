-- ===== src/Storage/Transactions/Interleaving.antt =====
-- Any sequence of operations, against the reads of one open transaction.
use undr.Base.{◌≡◌, refl, ◌∙◌, ◌+◌, ◌^◌, ◌<◌, false, List, String, [], ◌∷◌, string_key, length}
use undr.Common.{TransactionId}
use undr.Common.Decimal.{transaction_name}
use undr.Core.Batch.{WriteBatch, IsolationLevel, TransactionOperation}
use undr.Wal.Log.{AppendIo}
use undr.Storage.Engine.{StorageEngine, StorageCodec, apply_write_batch}
use undr.Storage.Transactions.{
  begin_transaction, stage_transaction_operation, commit_transaction, rollback_transaction,
}
use undr.Storage.Transactions.Snapshot.{IsReady, ReadsSame, write_isolated}
use undr.Storage.Transactions.Commit.{commit_isolated, rollback_isolated}
use undr.Storage.Transactions.Ready.{write-IsReady, commit-IsReady, rollback-IsReady, begin-IsReady}
use undr.Storage.Transactions.Others.{stage-IsReady, stage_isolated, begin_isolated}

-- The public operations that change the engine's maps or sessions, with the answers of the file
-- system to the appends.
pub data Operation : Type 0 where
  write : AppendIo → WriteBatch → Operation
  begin : IsolationLevel → Operation
  stage : TransactionId → TransactionOperation → Operation
  commit : AppendIo → TransactionId → Operation
  roll_back : TransactionId → Operation

module _ (codec : StorageCodec) where
  abbrev pub perform : Operation → StorageEngine → StorageEngine
  perform (write answer batch) engine = (apply_write_batch codec answer batch engine).1
  perform (begin level) engine = (begin_transaction level engine).1
  perform (stage tx operation) engine = (stage_transaction_operation tx operation engine).1
  perform (commit answer tx) engine = (commit_transaction codec answer tx engine).1
  perform (roll_back tx) engine = (rollback_transaction tx engine).1

  abbrev pub perform_all : List Operation → StorageEngine → StorageEngine
  perform_all [] engine = engine
  perform_all (operation ∷ operations) engine = perform_all operations (perform operation engine)

  -- The operation is not one of the transaction's own, and the log has a number left.
  abbrev pub IsForeign : TransactionId → Operation → StorageEngine → Type 0
  IsForeign id (write answer batch) engine = engine.wal.next_lsn + 1 < 2 ^ 64
  IsForeign id (begin level) engine =
      string_key.beq (transaction_name engine.next_transaction_ordinal) id ≡ false
  IsForeign id (stage tx operation) engine = string_key.beq tx id ≡ false
  IsForeign id (commit answer tx) engine =
      (string_key.beq tx id ≡ false) × (engine.wal.next_lsn + 1 < 2 ^ 64)
  IsForeign id (roll_back tx) engine = string_key.beq tx id ≡ false

  abbrev pub AreForeign : TransactionId → List Operation → StorageEngine → Type 0
  AreForeign id [] engine = Unit
  AreForeign id (operation ∷ operations) engine =
      IsForeign id operation engine × AreForeign id operations (perform operation engine)

  -- An operation, whether it succeeds or fails, keeps the engine ready: the maps sound, the next
  -- number of the log above the revision, and every transaction begun no later than it. A write must
  -- not come to the log's number 2^64 - 1.
  pub perform-IsReady :
      (id : TransactionId) (operation : Operation) (engine : StorageEngine)
      → IsForeign id operation engine
      → IsReady engine
      → IsReady (perform operation engine)
  perform-IsReady id (write answer batch) engine foreign ready =
      unfold apply_write_batch in
      write-IsReady codec answer engine ready foreign batch (length engine.transactions)
  perform-IsReady id (begin level) engine foreign ready = begin-IsReady level engine ready
  perform-IsReady id (stage tx operation) engine foreign ready =
      stage-IsReady engine tx ready operation
  perform-IsReady id (commit answer tx) engine foreign ready =
      commit-IsReady codec answer engine tx ready foreign.1
  perform-IsReady id (roll_back tx) engine foreign ready = rollback-IsReady engine tx ready

  perform_isolated :
      (id : TransactionId) (key : String) (operation : Operation) (engine : StorageEngine)
      → IsForeign id operation engine
      → IsReady engine
      → ReadsSame id key engine (perform operation engine)
  perform_isolated id key (write answer batch) engine foreign ready =
      write_isolated codec answer engine ready id key batch
  perform_isolated id key (begin level) engine foreign ready =
      begin_isolated level engine id key foreign
  perform_isolated id key (stage tx operation) engine foreign ready =
      stage_isolated engine tx id key foreign operation
  perform_isolated id key (commit answer tx) engine foreign ready =
      commit_isolated tx id key foreign.0 codec answer engine ready
  perform_isolated id key (roll_back tx) engine foreign ready =
      rollback_isolated engine tx id key foreign

  -- Snapshot isolation: whatever writes, beginnings, stagings, commits and rollbacks of other
  -- transactions follow on each other, and whether they succeed, an open transaction reads the same
  -- nodes and edges afterwards as before. At first the maps must be sound, the next number of the log
  -- above the revision and no transaction begun after it, and no write may come to the log's number
  -- 2^64 - 1.
  pub snapshot_isolation :
      (id : TransactionId) (key : String) (operations : List Operation) (engine : StorageEngine)
      → AreForeign id operations engine
      → IsReady engine
      → ReadsSame id key engine (perform_all operations engine)
  snapshot_isolation id key [] engine foreign ready = (refl, refl)
  snapshot_isolation id key (operation ∷ operations) engine foreign ready =
      let here = perform_isolated id key operation engine foreign.0 ready in
      let later =
        snapshot_isolation id key operations (perform operation engine) foreign.1
          (perform-IsReady id operation engine foreign.0 ready) in
      (later.0 ∙ here.0, later.1 ∙ here.1)
