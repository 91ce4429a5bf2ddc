-- ===== src/Storage/Transactions/Ready.antt =====
-- The engine stays ready for its transactions, whatever operations it runs.
use mathlib.Core.Option.{some-injective}
use undr.Base.{
  ℕ, ◌≡◌, refl, sym, ap, subst, ◌∙◌, inl, inr, ◌+◌, ◌-◌, ◌%◌, ◌^◌, ◌≤◌, ◌<◌, Bool, true, false,
  Option, none, some, arith, ltb, string_key, length, is_empty, Bool-cases, Option-cases,
}
use undr.Base.Map
use undr.Common.{TransactionId, Result, ok, err, panic}
use undr.Common.Decimal.{transaction_name}
use undr.Core.Batch.{WriteBatch, IsolationLevel}
use undr.Wal.Record.{Bytes, WalRecord, write_batch}
use undr.Wal.Log.{Wal, AppendIo, append}
use undr.Storage.Batch.{BatchEffects, batch_effects}
use undr.Storage.Batch.Integrity.{apply-IsSound}
use undr.Storage.Engine.{
  TransactionSession, StorageEngine, StorageCodec, apply_write_batch_with_snapshot_readers,
  publish_appended, append_payload, write_prepared, prepare_batch, preserve_historical_versions,
  publish,
}
use undr.Storage.Engine.Write.{Numbered, append-Numbered}
use undr.Storage.Engine.Atomic.{IsAtomic, write-IsAtomic, prepare_batch-ok}
use undr.Storage.Recovery.Durable.{IsLogged, prepared-IsLogged}
use undr.Storage.Transactions.{
  new_session, begin_transaction, clear_version_history_if_unused, finish_transaction,
  finish_commit, commit_transaction, commit_checked, committable, rollback_transaction,
}
use undr.Storage.Transactions.Snapshot.{IsReady, write_transactions}

-- A successful write has used up the log's next number, and a failed one has not.
abbrev IsNumbered : StorageEngine → Result ℕ × StorageEngine → Type 0
IsNumbered engine (ok lsn, after) =
    (lsn ≡ engine.wal.next_lsn) × (after.wal.next_lsn ≡ (engine.wal.next_lsn + 1) % 2 ^ 64)
IsNumbered engine (err e, after) = after.wal.next_lsn ≡ engine.wal.next_lsn
IsNumbered engine (panic, after) = after.wal.next_lsn ≡ engine.wal.next_lsn

module _ (before : StorageEngine) where
  published-IsNumbered :
      (engine : StorageEngine) (readers : Bool) (effects : BatchEffects) (batch : WriteBatch)
      (p : Result WalRecord × Wal)
      → Numbered before.wal.next_lsn p
      → IsNumbered before (publish_appended readers effects batch engine p)
  unfolding publish
  published-IsNumbered engine true effects batch (ok w, wal) n = n
  published-IsNumbered engine false effects batch (ok w, wal) n = n
  published-IsNumbered engine readers effects batch (err e, wal) n = n
  published-IsNumbered engine readers effects batch (panic, wal) n = n

  payload-IsNumbered :
      (codec : StorageCodec) (answer : AppendIo) (engine : StorageEngine) (readers : Bool)
      (effects : BatchEffects) (batch : WriteBatch) (payload : Option Bytes)
      → engine.wal ≡ before.wal
      → IsNumbered before (append_payload codec answer readers effects batch payload engine)
  payload-IsNumbered codec answer engine readers effects batch none same =
      ap (λ (w : Wal). w.next_lsn) same
  payload-IsNumbered codec answer engine readers effects batch (some payload) same =
      published-IsNumbered engine readers effects batch
        (append codec.log answer write_batch payload engine.wal)
        (subst
          (λ (w : Wal).
            Numbered w.next_lsn (append codec.log answer write_batch payload engine.wal))
          same (append-Numbered codec.log answer write_batch payload engine.wal))

prepared-IsNumbered :
    (codec : StorageCodec) (answer : AppendIo) (engine : StorageEngine) (readers : Bool)
    (prepared : Result WriteBatch)
    → IsNumbered engine (write_prepared codec answer readers prepared engine)
unfolding preserve_historical_versions
prepared-IsNumbered codec answer engine true (ok b) =
    payload-IsNumbered engine codec answer
      (preserve_historical_versions (batch_effects engine.edges b) engine) true
      (batch_effects engine.edges b) b (codec.to_vec b) refl
prepared-IsNumbered codec answer engine false (ok b) =
    payload-IsNumbered engine codec answer engine false (batch_effects engine.edges b) b
      (codec.to_vec b) refl
prepared-IsNumbered codec answer engine readers (err e) = refl
prepared-IsNumbered codec answer engine readers panic = refl

module _ (codec : StorageCodec) (answer : AppendIo) (engine : StorageEngine)
    (ready : IsReady engine) (room : engine.wal.next_lsn + 1 < 2 ^ 64) where
  IsReady-same :
      (after : StorageEngine)
      → after.nodes ≡ engine.nodes
      → after.edges ≡ engine.edges
      → after.commit_revision ≡ engine.commit_revision
      → after.wal.next_lsn ≡ engine.wal.next_lsn
      → after.transactions ≡ engine.transactions
      → IsReady after
  IsReady-same after n e c l t = record {
    sound = rw (n, e) ready.sound;
    revision_below = rw (c, l) ready.revision_below;
    began = λ id session found. rw c (ready.began id session (rw t at found));
  }

  -- The engine after a write, from what is known of its answer.
  IsReady-after :
      (batch : WriteBatch) (p : Result ℕ × StorageEngine)
      → IsAtomic engine batch p
      → IsNumbered engine p
      → IsLogged codec answer engine batch p
      → p.1.transactions ≡ engine.transactions
      → IsReady p.1
  IsReady-after batch (ok lsn, after) (n, e, c) (l, next) (payload, r, made, appended, valid) t =
      record {
        sound = rw (n, e) (apply-IsSound engine.nodes engine.edges batch ready.sound valid);
        revision_below = omega arith;
        began = λ id session found.
            let before = ready.began id session (rw t at found) in
            let below = ready.revision_below in omega arith;
      }
  IsReady-after batch (err x, after) (n, e, c) l logged t = IsReady-same after n e c l t
  IsReady-after batch (panic, after) (n, e, c) l logged t = IsReady-same after n e c l t

  -- A write, whether it succeeds, is refused or fails in the log, leaves the engine ready, where the
  -- log's next number is below 2^64 - 1.
  pub write-IsReady :
      (batch : WriteBatch) (readers : ℕ)
      → IsReady (apply_write_batch_with_snapshot_readers codec answer batch readers engine).1
  write-IsReady batch readers =
      IsReady-after batch
        (apply_write_batch_with_snapshot_readers codec answer batch readers engine)
        (write-IsAtomic codec answer engine batch readers)
        (unfold apply_write_batch_with_snapshot_readers in
          prepared-IsNumbered codec answer engine (ltb 0 readers) (prepare_batch engine batch))
        (unfold apply_write_batch_with_snapshot_readers in
          prepared-IsLogged codec answer engine (ltb 0 readers) batch (prepare_batch engine batch)
            (prepare_batch-ok engine batch))
        (unfold apply_write_batch_with_snapshot_readers in
          write_transactions codec answer engine (ltb 0 readers) (prepare_batch engine batch))

finish-IsReady :
    (engine : StorageEngine) (ended : TransactionId)
    → IsReady engine
    → IsReady (finish_transaction ended engine)
unfolding finish_transaction clear_version_history_if_unused
finish-IsReady engine ended ready =
    let left : (id : TransactionId) (session : TransactionSession)
        → Map.get id (Map.remove ended engine.transactions) ≡ some session
        → session.started_at_revision ≤ engine.commit_revision =
      λ id session found.
        ready.began id session (ground (arith, Map.get-remove ended id engine.transactions)) in
    elim (Bool-cases (is_empty (Map.remove ended engine.transactions))) [
      | inl unused ↦
          rw unused
            (record { sound = ready.sound; revision_below = ready.revision_below; began = left })
      | inr used ↦
          rw used
            (record { sound = ready.sound; revision_below = ready.revision_below; began = left })
    ]

finish_commit-IsReady :
    (ended : TransactionId) (session : TransactionSession) (p : Result ℕ × StorageEngine)
    → IsReady p.1
    → IsReady (finish_commit ended session p).1
finish_commit-IsReady ended session (ok lsn, engine) ready = finish-IsReady engine ended ready
finish_commit-IsReady ended session (err e, engine) ready = ready
finish_commit-IsReady ended session (panic, engine) ready = ready

module _ (codec : StorageCodec) (answer : AppendIo) (engine : StorageEngine) (ended : TransactionId)
    (ready : IsReady engine) where
  checked-IsReady :
      (r : Result TransactionSession)
      → engine.wal.next_lsn + 1 < 2 ^ 64
      → IsReady (commit_checked codec answer ended r engine).1
  checked-IsReady (ok session) room =
      finish_commit-IsReady ended session
        (apply_write_batch_with_snapshot_readers codec answer session.staged_batch
          (length engine.transactions - 1) engine)
        (write-IsReady codec answer engine ready room session.staged_batch
          (length engine.transactions - 1))
  checked-IsReady (err e) room = ready
  checked-IsReady panic room = ready

  pub commit-IsReady :
      engine.wal.next_lsn + 1 < 2 ^ 64 → IsReady (commit_transaction codec answer ended engine).1
  unfolding commit_transaction
  commit-IsReady room = checked-IsReady (committable codec answer engine ended) room

pub rollback-IsReady :
    (engine : StorageEngine) (ended : TransactionId)
    → IsReady engine
    → IsReady (rollback_transaction ended engine).1
unfolding rollback_transaction
rollback-IsReady engine ended ready = elim (Option-cases (Map.get ended engine.transactions)) [
  | inl absent ↦ rw absent ready
  | inr (session, found) ↦ rw found (finish-IsReady engine ended ready)
]

pub begin-IsReady :
    (level : IsolationLevel) (engine : StorageEngine)
    → IsReady engine
    → IsReady (begin_transaction level engine).1
unfolding begin_transaction
begin-IsReady level engine ready = record {
  sound = ready.sound;
  revision_below = ready.revision_below;
  began = λ id session found.
      let name = transaction_name engine.next_transaction_ordinal in
      let new = new_session name level engine.commit_revision in
      let got = sym (Map.get-insert name id new engine.transactions) ∙ found in
      elim (Bool-cases (string_key.beq name id)) [
        | inl same ↦
            subst (λ (s : TransactionSession). s.started_at_revision ≤ engine.commit_revision)
              (some-injective new session (rw same at got)) (omega arith)
        | inr other ↦ ready.began id session (rw other at got)
      ];
}
