-- ===== src/Storage/Recovery/Durable.antt =====
-- Durability: what a successful write leaves in the log is what recovery needs to rebuild the maps.
use undr.Base.{
  ℕ, ◌≡◌, refl, sym, ap, subst, ◌∙◌, inl, inr, ◌<◌, Bool, true, false, List, [], ◌∷◌, ◌++◌, Option,
  none, some, arith, leb, leb→le, ltb, Bool-cases,
}
use undr.Common.{Result, ok, err, panic}
use undr.Core.Batch.{WriteBatch}
use undr.Wal.Record.{Bytes, WalRecord, write_batch}
use undr.Wal.Log.{Wal, AppendIo, append}
use undr.Wal.Append.Invariant.{IsLog}
use undr.Wal.Append.Outcome.{append-adds, Room, IsNew}
use undr.Storage.Batch.{
  BatchEffects, batch_effects, validate_batch_against_maps, apply_batch_to_maps,
  apply_batch_to_maps_unchecked,
}
use undr.Storage.Engine.{
  StorageEngine, StorageCodec, apply_write_batch_with_snapshot_readers, publish_appended,
  append_payload, write_prepared, prepare_batch, preserve_historical_versions, publish,
}
use undr.Storage.Engine.Atomic.{bind_ok, write-IsAtomic, prepare_batch-ok, IsAtomic}
use undr.Storage.Recovery.{recover_records, recover_record, recover_batch, deserialize_write_batch}

-- The record that a successful write has put into the log.
abbrev pub IsLogged :
    StorageCodec → AppendIo → StorageEngine → WriteBatch → Result ℕ × StorageEngine → Type 0
IsLogged codec answer engine batch (ok lsn, after) =
    (payload : Bytes) × (r : WalRecord) × (codec.to_vec batch ≡ some payload)
    × (append codec.log answer write_batch payload engine.wal ≡ (ok r, after.wal))
    × (validate_batch_against_maps engine.nodes engine.edges batch ≡ ok tt)
IsLogged codec answer engine batch (err e, after) = Unit
IsLogged codec answer engine batch (panic, after) = Unit

module _ (codec : StorageCodec) (answer : AppendIo) (before : StorageEngine) (batch : WriteBatch)
    (valid : validate_batch_against_maps before.nodes before.edges batch ≡ ok tt) where
  published-IsLogged :
      (engine : StorageEngine) (readers : Bool) (effects : BatchEffects) (payload : Bytes)
      (p : Result WalRecord × Wal)
      → codec.to_vec batch ≡ some payload
      → append codec.log answer write_batch payload before.wal ≡ p
      → IsLogged codec answer before batch (publish_appended readers effects batch engine p)
  unfolding publish
  published-IsLogged engine true effects payload (ok w, wal) made appended =
      (payload, w, made, appended, valid)
  published-IsLogged engine false effects payload (ok w, wal) made appended =
      (payload, w, made, appended, valid)
  published-IsLogged engine readers effects payload (err e, wal) made appended = tt
  published-IsLogged engine readers effects payload (panic, wal) made appended = tt

  payload-IsLogged :
      (engine : StorageEngine) (readers : Bool) (effects : BatchEffects) (payload : Option Bytes)
      → codec.to_vec batch ≡ payload
      → engine.wal ≡ before.wal
      → IsLogged codec answer before batch
          (append_payload codec answer readers effects batch payload engine)
  payload-IsLogged engine readers effects none made same = tt
  payload-IsLogged engine readers effects (some payload) made same =
      published-IsLogged engine readers effects payload
        (append codec.log answer write_batch payload engine.wal) made
        (ap (append codec.log answer write_batch payload) (sym same))

pub prepared-IsLogged :
    (codec : StorageCodec) (answer : AppendIo) (engine : StorageEngine) (readers : Bool)
    (batch : WriteBatch) (prepared : Result WriteBatch)
    → ((b : WriteBatch)
        → prepared ≡ ok b
        → (b ≡ batch) × (validate_batch_against_maps engine.nodes engine.edges batch ≡ ok tt))
    → IsLogged codec answer engine batch (write_prepared codec answer readers prepared engine)
unfolding preserve_historical_versions
prepared-IsLogged codec answer engine true batch (ok b) good =
    let (same, valid) = good b refl in
    subst (λ t. IsLogged codec answer engine t (write_prepared codec answer true (ok b) engine))
      same
      (payload-IsLogged codec answer engine b
        (subst (λ t. validate_batch_against_maps engine.nodes engine.edges t ≡ ok tt) (sym same)
          valid)
        (preserve_historical_versions (batch_effects engine.edges b) engine) true
        (batch_effects engine.edges b) (codec.to_vec b) refl refl)
prepared-IsLogged codec answer engine false batch (ok b) good =
    let (same, valid) = good b refl in
    subst (λ t. IsLogged codec answer engine t (write_prepared codec answer false (ok b) engine))
      same
      (payload-IsLogged codec answer engine b
        (subst (λ t. validate_batch_against_maps engine.nodes engine.edges t ≡ ok tt) (sym same)
          valid)
        engine false (batch_effects engine.edges b) (codec.to_vec b) refl refl)
prepared-IsLogged codec answer engine readers batch (err e) good = tt
prepared-IsLogged codec answer engine readers batch panic good = tt

-- Recovery from published maps and a log comes to the maps of an engine.
pub record IsRecovered (codec : StorageCodec) (last : ℕ) (base : StorageEngine)
    (log : List WalRecord) (engine : StorageEngine) : Type 0 where
  pub rebuilt : StorageEngine
  pub seen : Option ℕ
  pub runs : recover_records codec last none log base ≡ ok (rebuilt, seen)
  pub same_nodes : rebuilt.nodes ≡ engine.nodes
  pub same_edges : rebuilt.edges ≡ engine.edges

module _ (codec : StorageCodec) (last : ℕ) where
  recover-snoc :
      (seen seen' : Option ℕ) (log : List WalRecord) (r : WalRecord) (base rebuilt : StorageEngine)
      → recover_records codec last seen log base ≡ ok (rebuilt, seen')
      → recover_records codec last seen (log ++ r ∷ []) base
        ≡ recover_records codec last seen' (r ∷ []) rebuilt
  unfolding recover_records
  recover-snoc seen seen' [] r base rebuilt h =
      let same_base : base ≡ rebuilt = cc in
      let same_seen : seen ≡ seen' = cc in rw (same_base, same_seen)
  recover-snoc seen seen' (w ∷ log) r base rebuilt h = elim (Bool-cases (leb w.header.lsn last)) [
    | inl old ↦ rw old (recover-snoc seen seen' log r base rebuilt (rw old at h))
    | inr new ↦
        let (mid, stepped, rest) =
          bind_ok (recover_record codec w base) _ (rebuilt, seen') (rw new at h) in
        rw (new, stepped) (recover-snoc (some w.header.lsn) seen' log r mid rebuilt rest)
  ]

  -- One more batch, valid for the maps of the engine that the log so far rebuilds.
  recover_one :
      (batch : WriteBatch) (r : WalRecord) (payload : Bytes) (seen : Option ℕ)
      (rebuilt engine : StorageEngine)
      → rebuilt.nodes ≡ engine.nodes
      → rebuilt.edges ≡ engine.edges
      → IsNew codec.log engine.wal.next_lsn write_batch payload r
      → last < engine.wal.next_lsn
      → codec.from_slice payload ≡ some batch
      → validate_batch_against_maps engine.nodes engine.edges batch ≡ ok tt
      → (x : StorageEngine) × (recover_records codec last seen (r ∷ []) rebuilt
          ≡ ok (x, some r.header.lsn))
        × (x.nodes ≡ (apply_batch_to_maps_unchecked engine.nodes engine.edges batch).0)
        × (x.edges ≡ (apply_batch_to_maps_unchecked engine.nodes engine.edges batch).1)
  unfolding recover_records recover_record deserialize_write_batch recover_batch apply_batch_to_maps
  recover_one batch r payload seen rebuilt engine n e new fresh reads valid =
      let later : leb r.header.lsn last ≡ false =
        ground (arith, new.lsn_is, leb→le r.header.lsn last) in
      let maps = apply_batch_to_maps_unchecked engine.nodes engine.edges batch in
      (
        record rebuilt {
          nodes = maps.0;
          edges = maps.1;
          pending_checkpoint_entries =
              rebuilt.pending_checkpoint_entries
              ++ record { lsn = r.header.lsn; batch = batch } ∷ [];
        },
        rw (later, new.kind_is, new.payload_is, reads, n, e, valid) refl,
        refl,
        refl,
      )

-- After a successful write the log is the old one with one record more, and recovery from the
-- same published maps comes to the new maps, where it came to the old ones before. The batch
-- must be read back as it was written, the published maps must be older than the next number of
-- the log, and the number of the active segment below 2^64 - 1.
pub write_survives :
    (codec : StorageCodec) (answer : AppendIo) (engine engine' base : StorageEngine)
    (batch : WriteBatch) (readers last lsn : ℕ) (log : List WalRecord)
    → IsLog codec.log engine.wal log
    → Room engine.wal
    → IsRecovered codec last base log engine
    → last < engine.wal.next_lsn
    → ((payload : Bytes)
        → codec.to_vec batch ≡ some payload
        → codec.from_slice payload ≡ some batch)
    → apply_write_batch_with_snapshot_readers codec answer batch readers engine ≡ (ok lsn, engine')
    → (r : WalRecord) × IsLog codec.log engine'.wal (log ++ r ∷ [])
      × IsRecovered codec last base (log ++ r ∷ []) engine'
write_survives codec answer engine engine' base batch readers last lsn log l room recovered fresh
      reads h =
    let (payload, r, made, appended, valid) = subst (IsLogged codec answer engine batch) h (
      unfold apply_write_batch_with_snapshot_readers in
      prepared-IsLogged codec answer engine (ltb 0 readers) batch (prepare_batch engine batch)
        (prepare_batch-ok engine batch)) in
    let (nodes_after, edges_after, revision) =
      subst (IsAtomic engine batch) h (write-IsAtomic codec answer engine batch readers) in
    let (has_log, new) =
      append-adds codec.log write_batch payload engine.wal log l room answer r engine'.wal
        appended in
    let (x, runs, x_nodes, x_edges) =
      recover_one codec last batch r payload recovered.seen recovered.rebuilt engine
        recovered.same_nodes recovered.same_edges new fresh (reads payload made) valid in
    (
      r,
      has_log.is_log,
      record {
        rebuilt = x;
        seen = some r.header.lsn;
        runs =
            recover-snoc codec last none recovered.seen log r base recovered.rebuilt recovered.runs
            ∙ runs;
        same_nodes = x_nodes ∙ sym nodes_after;
        same_edges = x_edges ∙ sym edges_after;
      },
    )
