-- ===== src/Storage/Recovery.antt =====
-- Recovery: what the opening of a directory rebuilds from the published maps and the log.
pub mod Durable
use undr.Base.{
  ℕ, Bool, true, false, List, [], ◌∷◌, ◌++◌, Option, none, some, String, map, leb, if◌then◌else◌,
}
use undr.Base.Map
use undr.Base.Map.{BTreeMap, is_some, keys}
use undr.Common.{Result, ok, err, panic, corruption, ensure, ◌>>=◌, ◌>>◌}
use undr.Core.Batch.{WriteBatch}
use undr.Wal.Record.{Bytes, WalRecord, write_batch, checkpoint, manifest_sync, consolidation_event}
use undr.Wal.Segments.{Segments}
use undr.Wal.Log.{Wal, WalConfig, replay, open_wal}
use undr.Storage.Batch.{Nodes, Edges, apply_batch_to_maps}
use undr.Storage.Versions.{Lineage}
use undr.Storage.Engine.{StorageEngine, StorageCodec, Manifest, DeltaSegmentEntry}

-- `first.or_else(|_| second)`
abbrev or_else {ℓ} : {A : Type ℓ} → Option A → Option A → Option A
or_else (some a) second = some a
or_else none second = second

abbrev pub or_zero : Option ℕ → ℕ
or_zero none = 0
or_zero (some n) = n

abbrev or_corrupted {ℓ} : {A : Type ℓ} → Option A → Result A
or_corrupted none = err corruption
or_corrupted (some a) = ok a

unfoldable pub deserialize_write_batch : StorageCodec → Bytes → Result WriteBatch
deserialize_write_batch codec payload =
    or_corrupted (or_else (codec.from_slice payload) (codec.from_postcard payload))

-- The effect of a batch of the log on the engine.
unfoldable pub recover_batch : ℕ → WriteBatch → StorageEngine → Result StorageEngine
recover_batch lsn batch engine = do
  maps ← apply_batch_to_maps engine.nodes engine.edges batch
  ok (record engine {
    nodes = maps.0;
    edges = maps.1;
    pending_checkpoint_entries =
        engine.pending_checkpoint_entries ++ record { lsn = lsn; batch = batch } ∷ [];
  })

module _ (codec : StorageCodec) where
  unfoldable pub recover_record : WalRecord → StorageEngine → Result StorageEngine
  unfolding deserialize_write_batch recover_batch
  recover_record r engine = elim r.header.kind [
    | write_batch ↦
        deserialize_write_batch codec r.payload >>= λ batch. recover_batch r.header.lsn batch engine
    | checkpoint ↦ ensure (codec.reads_marker r.payload) corruption >> ok engine
    | manifest_sync ↦ ok engine
    | consolidation_event ↦ ok engine
  ]

  -- The loop of `recover`, with `latest_seen_lsn`.
  unfoldable pub recover_records :
      ℕ → Option ℕ → List WalRecord → StorageEngine → Result (StorageEngine × Option ℕ)
  unfolding recover_record
  recover_records last_applied_lsn latest_seen_lsn [] engine = ok (engine, latest_seen_lsn)
  recover_records last_applied_lsn latest_seen_lsn (r ∷ replayed) engine =
      let skip = recover_records last_applied_lsn latest_seen_lsn replayed engine in
      let next : Result (StorageEngine × Option ℕ) = (do
        recovered ← recover_record r engine
        recover_records last_applied_lsn (some r.header.lsn) replayed recovered) in
      if leb r.header.lsn last_applied_lsn then skip else next

  -- An error ends the opening, so no state is kept with it.
  unfoldable pub recover : StorageEngine → Result StorageEngine
  unfolding recover_records
  recover engine = do
    replayed ← replay codec.log engine.wal
    recovered ← recover_records (or_zero engine.manifest.last_applied_lsn) none replayed engine
    ok (record recovered.0 {
      latest_applied_lsn = or_else recovered.1 engine.manifest.last_applied_lsn;
      checkpoint_dirty = is_some recovered.1;
    })

abbrev lineage_at {κ} : {V : Type κ} → ℕ → BTreeMap String V → Lineage
lineage_at revision m = map (λ key. (key, revision)) (keys m)

unfoldable pub rebuild_lineage : StorageEngine → StorageEngine
rebuild_lineage engine =
    let revision = or_zero (or_else engine.latest_applied_lsn engine.manifest.last_applied_lsn) in
    record engine {
      commit_revision = revision;
      node_lineage = lineage_at revision engine.nodes;
      edge_lineage = lineage_at revision engine.edges;
      node_versions = [];
      edge_versions = [];
      next_transaction_ordinal = 1;
      transactions = [];
    }

abbrev pub fresh_engine : Manifest → Wal → Nodes → Edges → StorageEngine
fresh_engine manifest wal nodes edges = record {
  manifest = manifest;
  wal = wal;
  nodes = nodes;
  edges = edges;
  node_lineage = [];
  edge_lineage = [];
  node_versions = [];
  edge_versions = [];
  commit_revision = 0;
  latest_applied_lsn = none;
  checkpoint_dirty = false;
  pending_checkpoint_entries = [];
  next_transaction_ordinal = 1;
  transactions = [];
}

-- `StorageEngine::open`, from the manifest and the maps that were published and the files of the log.
unfoldable pub open_engine :
    StorageCodec → Manifest → Nodes → Edges → Segments → WalConfig → Result StorageEngine
unfolding recover rebuild_lineage
open_engine codec manifest nodes edges segments config = do
  wal ← open_wal codec.log segments config
  engine ← recover codec (fresh_engine manifest wal nodes edges)
  ok (rebuild_lineage engine)
