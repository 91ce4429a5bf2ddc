-- ===== src/Storage/Engine.antt =====
-- The engine's state and its write path: `StorageEngine`, `apply_write_batch` and what is built on
-- it, `rebuild_lineage` and `recover`.
pub mod Write
pub mod Atomic
use undr.Base.{
  ℕ, Bool, true, false, not, String, List, [], ◌∷◌, ◌++◌, Option, none, some, map, length, is_empty,
  leb, ltb, keep, string_key, if◌then◌else◌,
}
use undr.Base.Map
use undr.Base.Map.{BTreeMap, keys}
use undr.Base.Set.{BTreeSet}
use undr.Common.{
  NodeId, EdgeId, TransactionId, Result, ok, err, panic, validation, serialization, corruption,
  ensure, ◌>>=◌, ◌>>◌,
}
use undr.Core.Records.{NodeRecord, EdgeRecord}
use undr.Core.Batch.{WriteBatch, empty_batch, batch_is_empty, IsolationLevel, TransactionState}
use undr.Wal.Record.{
  Bytes, Codec, WalRecord, WalRecordKind, write_batch, checkpoint, manifest_sync,
  consolidation_event,
}
use undr.Wal.Log.{Wal, AppendIo, append, replay}
use undr.Storage.Batch.{
  Nodes, Edges, normalize_write_batch, validate_batch_against_maps, apply_batch_to_maps_unchecked,
  apply_batch_to_maps, BatchEffects, batch_effects,
}
use undr.Storage.Versions.{
  Lineage, History, preserve_versions, record_versions, update_node_lineage, update_edge_lineage,
}

pub record DeltaSegmentEntry : Type 0 where
  pub lsn : ℕ
  pub batch : WriteBatch

-- An override of `none` is a staged deletion.
pub record TransactionSession : Type 0 where
  pub transaction_id : TransactionId
  pub isolation_level : IsolationLevel
  pub state : TransactionState
  pub started_at_revision : ℕ
  pub node_overrides : BTreeMap NodeId (Option NodeRecord)
  pub edge_overrides : BTreeMap EdgeId (Option EdgeRecord)
  pub staged_batch : WriteBatch
  pub touched_node_ids : BTreeSet NodeId
  pub touched_edge_ids : BTreeSet EdgeId

-- The fields of the manifest that recovery reads.
pub record Manifest : Type 0 where
  pub last_clean_shutdown : Bool
  pub last_applied_lsn : Option ℕ

pub record StorageEngine : Type 0 where
  pub manifest : Manifest
  pub wal : Wal
  pub nodes : Nodes
  pub edges : Edges
  pub node_lineage : Lineage
  pub edge_lineage : Lineage
  pub node_versions : History NodeRecord
  pub edge_versions : History EdgeRecord
  pub commit_revision : ℕ
  pub latest_applied_lsn : Option ℕ
  pub checkpoint_dirty : Bool
  pub pending_checkpoint_entries : List DeltaSegmentEntry
  pub next_transaction_ordinal : ℕ
  pub transactions : BTreeMap TransactionId TransactionSession

-- The serialisers: those of the log, `serde_json` and `postcard` on a batch, and `postcard` on a
-- checkpoint marker.
pub record StorageCodec : Type 0 where
  pub log : Codec
  pub to_vec : WriteBatch → Option Bytes
  pub from_slice : Bytes → Option WriteBatch
  pub from_postcard : Bytes → Option WriteBatch
  pub reads_marker : Bytes → Bool

unfoldable pub preserve_historical_versions : BatchEffects → StorageEngine → StorageEngine
preserve_historical_versions effects engine = record engine {
  node_versions =
      preserve_versions effects.touched_node_ids engine.nodes engine.node_lineage
        engine.node_versions;
  edge_versions =
      preserve_versions effects.touched_edge_ids engine.edges engine.edge_lineage
        engine.edge_versions;
}

unfoldable pub record_versions_after_commit : BatchEffects → StorageEngine → StorageEngine
record_versions_after_commit effects engine = record engine {
  node_versions =
      record_versions effects.touched_node_ids engine.nodes engine.commit_revision
        engine.node_versions;
  edge_versions =
      record_versions effects.touched_edge_ids engine.edges engine.commit_revision
        engine.edge_versions;
}

unfoldable pub update_lineage_for_batch : BatchEffects → StorageEngine → StorageEngine
update_lineage_for_batch effects engine = record engine {
  node_lineage =
      update_node_lineage effects.touched_node_ids engine.commit_revision engine.node_lineage;
  edge_lineage =
      update_edge_lineage effects.touched_edge_ids engine.edges engine.commit_revision
        engine.edge_lineage;
}

-- The part of `apply_write_batch_with_snapshot_readers` after a successful append: the maps and
-- the fields that name the new revision.
unfoldable pub adopt : WriteBatch → ℕ → StorageEngine → StorageEngine
adopt batch lsn engine =
    let maps = apply_batch_to_maps_unchecked engine.nodes engine.edges batch in
    record engine {
      nodes = maps.0;
      edges = maps.1;
      commit_revision = lsn;
      latest_applied_lsn = some lsn;
      checkpoint_dirty = true;
      pending_checkpoint_entries =
          engine.pending_checkpoint_entries ++ record { lsn = lsn; batch = batch } ∷ [];
    }

abbrev pub when : Bool → (StorageEngine → StorageEngine) → StorageEngine → StorageEngine
when b f engine = if b then f engine else engine

-- `adopt`, then the lineage and, where a transaction may read them, the versions.
unfoldable pub publish : Bool → BatchEffects → WriteBatch → ℕ → StorageEngine → StorageEngine
unfolding adopt update_lineage_for_batch record_versions_after_commit
publish readers effects batch lsn engine =
    when readers (record_versions_after_commit effects)
      (update_lineage_for_batch effects (adopt batch lsn engine))

-- The engine after the answer of `wal.append`, and the new number.
abbrev pub publish_appended :
    Bool
    → BatchEffects
    → WriteBatch
    → StorageEngine
    → Result WalRecord × Wal
    → Result ℕ × StorageEngine
publish_appended readers effects batch engine (ok r, wal) =
    (ok r.header.lsn, publish readers effects batch r.header.lsn (record engine { wal = wal }))
publish_appended readers effects batch engine (err e, wal) = (err e, record engine { wal = wal })
publish_appended readers effects batch engine (panic, wal) = (panic, record engine { wal = wal })

-- The checks before the first change of state.
unfoldable pub prepare_batch : StorageEngine → WriteBatch → Result WriteBatch
prepare_batch engine batch = do
  normalized ← normalize_write_batch batch
  ensure (not (batch_is_empty normalized)) validation
  validate_batch_against_maps engine.nodes engine.edges normalized
  ok normalized

module _ (codec : StorageCodec) (answer : AppendIo) where
  abbrev pub append_payload :
      Bool → BatchEffects → WriteBatch → Option Bytes → StorageEngine → Result ℕ × StorageEngine
  append_payload readers effects batch none engine = (err serialization, engine)
  append_payload readers effects batch (some payload) engine =
      publish_appended readers effects batch engine
        (append codec.log answer write_batch payload engine.wal)

  -- The versions are preserved before the append, whether or not it succeeds.
  abbrev pub write_prepared : Bool → Result WriteBatch → StorageEngine → Result ℕ × StorageEngine
  write_prepared readers (ok batch) engine =
      let effects = batch_effects engine.edges batch in
      append_payload readers effects batch (codec.to_vec batch)
        (when readers (preserve_historical_versions effects) engine)
  write_prepared readers (err e) engine = (err e, engine)
  write_prepared readers panic engine = (panic, engine)

  unfoldable pub apply_write_batch_with_snapshot_readers :
      WriteBatch → ℕ → StorageEngine → Result ℕ × StorageEngine
  unfolding prepare_batch preserve_historical_versions publish
  apply_write_batch_with_snapshot_readers batch snapshot_reader_count engine =
      write_prepared (ltb 0 snapshot_reader_count) (prepare_batch engine batch) engine

  unfoldable pub apply_write_batch : WriteBatch → StorageEngine → Result ℕ × StorageEngine
  unfolding apply_write_batch_with_snapshot_readers
  apply_write_batch batch engine =
      apply_write_batch_with_snapshot_readers batch (length engine.transactions) engine

  unfoldable pub upsert_nodes : List NodeRecord → StorageEngine → Result ℕ × StorageEngine
  upsert_nodes nodes engine =
      apply_write_batch (record empty_batch { nodes_upserted = nodes }) engine

  unfoldable pub upsert_edges : List EdgeRecord → StorageEngine → Result ℕ × StorageEngine
  upsert_edges edges engine =
      apply_write_batch (record empty_batch { edges_upserted = edges }) engine

  unfoldable pub upsert_node : NodeRecord → StorageEngine → Result ℕ × StorageEngine
  upsert_node node engine = upsert_nodes (node ∷ []) engine

  unfoldable pub upsert_edge : EdgeRecord → StorageEngine → Result ℕ × StorageEngine
  upsert_edge edge engine = upsert_edges (edge ∷ []) engine

  -- `self.apply_write_batch(batch)?; Ok(value)`
  abbrev pub answering {ℓ} : {A : Type ℓ} → A → Result ℕ × StorageEngine → Result A × StorageEngine
  answering value (ok lsn, engine) = (ok value, engine)
  answering value (err e, engine) = (err e, engine)
  answering value (panic, engine) = (panic, engine)

  abbrev pub delete_found {ℓ} :
      {V : Type ℓ} → WriteBatch → Option V → StorageEngine → Result (Option V) × StorageEngine
  delete_found batch none engine = (ok none, engine)
  delete_found batch (some found) engine = answering (some found) (apply_write_batch batch engine)

  unfoldable pub delete_node : NodeId → StorageEngine → Result (Option NodeRecord) × StorageEngine
  delete_node node_id engine =
      delete_found (record empty_batch { deleted_node_ids = node_id ∷ [] })
        (Map.get node_id engine.nodes) engine

  unfoldable pub delete_edge : EdgeId → StorageEngine → Result (Option EdgeRecord) × StorageEngine
  delete_edge edge_id engine =
      delete_found (record empty_batch { deleted_edge_ids = edge_id ∷ [] })
        (Map.get edge_id engine.edges) engine

  unfoldable pub delete_nodes : List NodeId → StorageEngine → Result ℕ × StorageEngine
  delete_nodes node_ids engine =
      let existing = keep (λ node_id. Map.contains_key node_id engine.nodes) node_ids in
      if is_empty existing
      then (ok 0, engine)
      else answering (length existing)
          (apply_write_batch (record empty_batch { deleted_node_ids = existing }) engine)

  unfoldable pub delete_edges : List EdgeId → StorageEngine → Result ℕ × StorageEngine
  delete_edges edge_ids engine =
      let existing = keep (λ edge_id. Map.contains_key edge_id engine.edges) edge_ids in
      if is_empty existing
      then (ok 0, engine)
      else answering (length existing)
          (apply_write_batch (record empty_batch { deleted_edge_ids = existing }) engine)
