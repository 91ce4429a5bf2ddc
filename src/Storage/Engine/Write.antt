-- ===== src/Storage/Engine/Write.antt =====
-- The write path: the numbers that the log gives out, and what open transactions see of a write.
use undr.Base.{
  ℕ, ◌≡◌, refl, sym, subst, ◌∙◌, inl, inr, ◌+◌, ◌%◌, ◌^◌, true, false, ◌||◌, String, Option, none,
  some, arith, leb, ltb, string_key, length, Bool-cases,
}
use undr.Base.Map
use undr.Base.Map.{BTreeMap, is_some, Unique}
use undr.Base.Set
use undr.Base.Set.{BTreeSet}
use undr.Common.{Result, ok, err, panic}
use undr.Core.Records.{NodeRecord, EdgeRecord}
use undr.Core.Batch.{WriteBatch}
use undr.Wal.Record.{Bytes, Codec, WalRecord, WalRecordKind, new_record, encode_record, write_batch}
use undr.Wal.Log.{
  Wal, AppendIo, written, open_fails, fsync_fails, write_fails, is_fsync, append, write_encoded,
  write_frame, rotate_if_needed, extend_segment, advance_lsn,
}
use undr.Storage.Batch.{BatchEffects, batch_effects, apply_batch_to_maps_unchecked}
use undr.Storage.Batch.Effects.{batch_effects_complete}
use undr.Storage.Batch.Integrity.{IsSound}
use undr.Storage.Versions.{visible_value_at_revision, update_node_lineage, update_edge_lineage}
use undr.Storage.Versions.Visible.{
  Moves, preserve_keeps_visible, commit_keeps_visible, get-update_node_lineage,
  get-update_edge_lineage,
}
use undr.Storage.Engine.{
  StorageEngine, StorageCodec, apply_write_batch_with_snapshot_readers, publish_appended,
  append_payload, write_prepared, prepare_batch, preserve_historical_versions, publish,
}

-- What an append answers carries the next number, which is then used up; else it is not.
abbrev pub Numbered : ℕ → Result WalRecord × Wal → Type 0
Numbered n (ok r, wal) = (r.header.lsn ≡ n) × (wal.next_lsn ≡ (n + 1) % 2 ^ 64)
Numbered n (err e, wal) = wal.next_lsn ≡ n
Numbered n (panic, wal) = wal.next_lsn ≡ n

write_frame-Numbered :
    (answer : AppendIo) (r : WalRecord) (frame : Bytes) (wal : Wal)
    → r.header.lsn ≡ wal.next_lsn
    → Numbered wal.next_lsn (write_frame answer r frame wal)
unfolding write_frame extend_segment advance_lsn
write_frame-Numbered written r frame wal h = (h, refl)
write_frame-Numbered open_fails r frame wal h = refl
write_frame-Numbered (write_fails count) r frame wal h = refl
write_frame-Numbered fsync_fails r frame wal h =
    elim (Bool-cases (is_fsync wal.runtime.durability_mode)) [
      | inl synced ↦ rw synced refl
      | inr buffered ↦ rw buffered (h, refl)
    ]

rotate_lsn : (n : ℕ) (wal : Wal) → (rotate_if_needed n wal).next_lsn ≡ wal.next_lsn
unfolding rotate_if_needed
rotate_lsn n wal = ground arith

write_encoded-Numbered :
    (codec : Codec) (answer : AppendIo) (r : WalRecord) (frame : Result Bytes) (wal : Wal)
    → r.header.lsn ≡ wal.next_lsn
    → Numbered wal.next_lsn (write_encoded codec answer r frame wal)
write_encoded-Numbered codec answer r (ok frame) wal h =
    let same = rotate_lsn (length frame) wal in
    subst (λ n. Numbered n (write_frame answer r frame (rotate_if_needed (length frame) wal))) same
      (write_frame-Numbered answer r frame (rotate_if_needed (length frame) wal) (h ∙ sym same))
write_encoded-Numbered codec answer r (err e) wal h = refl
write_encoded-Numbered codec answer r panic wal h = refl

pub append-Numbered :
    (codec : Codec) (answer : AppendIo) (kind : WalRecordKind) (payload : Bytes) (wal : Wal)
    → Numbered wal.next_lsn (append codec answer kind payload wal)
unfolding append new_record
append-Numbered codec answer kind payload wal = elim (Bool-cases (ltb (length payload) (2 ^ 32))) [
  | inl fits ↦ rw fits (write_encoded-Numbered codec answer _ (encode_record codec _) wal refl)
  | inr too_long ↦ rw too_long refl
]

neither {ℓ κ} :
    {A : Type ℓ} {B : Type κ} (a : Option A) (b : Option B)
    → (is_some a || is_some b) ≡ false
    → b ≡ none
neither a none h = refl
neither none (some y) h = cc
neither (some x) (some y) h = cc

module _ (engine : StorageEngine) (batch : WriteBatch) (lsn : ℕ)
    (sound : IsSound engine.nodes engine.edges) where
  abbrev effects : BatchEffects
  effects = batch_effects engine.edges batch

  abbrev maps : BTreeMap String NodeRecord × BTreeMap String EdgeRecord
  maps = apply_batch_to_maps_unchecked engine.nodes engine.edges batch

  node-Moves :
      (key : String)
      → Moves key lsn effects.touched_node_ids engine.nodes maps.0 engine.node_lineage
          (update_node_lineage effects.touched_node_ids lsn engine.node_lineage)
  node-Moves key =
      let lineage = get-update_node_lineage key effects.touched_node_ids lsn engine.node_lineage in
      elim (Bool-cases (Set.contains key effects.touched_node_ids)) [
        | inl touched ↦ inr (touched, inl (rw touched at lineage))
        | inr other ↦ inl (
          other,
          (batch_effects_complete engine.nodes engine.edges batch key sound.unique_edges
                sound.keyed_edges).0
              other,
          rw other at lineage,
        )
      ]

  edge-Moves :
      (key : String)
      → Moves key lsn effects.touched_edge_ids engine.edges maps.1 engine.edge_lineage
          (update_edge_lineage effects.touched_edge_ids maps.1 lsn engine.edge_lineage)
  edge-Moves key =
      let lineage =
        get-update_edge_lineage key effects.touched_edge_ids maps.1 lsn engine.edge_lineage in
      elim (Bool-cases (Set.contains key effects.touched_edge_ids)) [
        | inl touched ↦
            elim (Bool-cases
              (is_some (Map.get key maps.1) || is_some (Map.get key engine.edge_lineage))) [
                | inl known ↦ inr (touched, inl (rw (touched, known) at lineage))
                | inr unknown ↦ inr (
                  touched,
                  (let none_before =
                        neither (Map.get key maps.1) (Map.get key engine.edge_lineage) unknown in
                      inr (none_before, (rw (touched, unknown) at lineage) ∙ none_before)),
                )
              ]
        | inr other ↦ inl (
          other,
          (batch_effects_complete engine.nodes engine.edges batch key sound.unique_edges
                sound.keyed_edges).1
              other,
          rw other at lineage,
        )
      ]

-- What a reader at a revision sees of a node and of an edge.
abbrev pub seen_node : String → ℕ → StorageEngine → Option NodeRecord
seen_node key r engine =
    visible_value_at_revision key r engine.nodes engine.node_lineage engine.node_versions

abbrev pub seen_edge : String → ℕ → StorageEngine → Option EdgeRecord
seen_edge key r engine =
    visible_value_at_revision key r engine.edges engine.edge_lineage engine.edge_versions

abbrev pub SeesSame : String → ℕ → StorageEngine → StorageEngine → Type 0
SeesSame key r before after =
    (seen_node key r after ≡ seen_node key r before)
    × (seen_edge key r after ≡ seen_edge key r before)

module _ (codec : StorageCodec) (answer : AppendIo) (engine : StorageEngine)
    (sound : IsSound engine.nodes engine.edges) (key : String) (r : ℕ) where
  published_seen :
      (batch : WriteBatch) (p : Result WalRecord × Wal)
      → leb engine.wal.next_lsn r ≡ false
      → Numbered engine.wal.next_lsn p
      → SeesSame key r engine
          (publish_appended true
            (batch_effects engine.edges batch)
            batch
            (preserve_historical_versions (batch_effects engine.edges batch) engine)
            p).1
  unfolding publish preserve_historical_versions
  published_seen batch (ok w, wal) late numbered =
      let later : leb w.header.lsn r ≡ false = rw (numbered.0) late in
      (
        commit_keeps_visible key r w.header.lsn _ engine.nodes _ engine.node_lineage _
            engine.node_versions later (node-Moves engine batch w.header.lsn sound key),
        commit_keeps_visible key r w.header.lsn _ engine.edges _ engine.edge_lineage _
            engine.edge_versions later (edge-Moves engine batch w.header.lsn sound key),
      )
  published_seen batch (err e, wal) late numbered = (
    preserve_keeps_visible key r _ engine.nodes engine.node_lineage engine.node_versions,
    preserve_keeps_visible key r _ engine.edges engine.edge_lineage engine.edge_versions,
  )
  published_seen batch (panic, wal) late numbered = (
    preserve_keeps_visible key r _ engine.nodes engine.node_lineage engine.node_versions,
    preserve_keeps_visible key r _ engine.edges engine.edge_lineage engine.edge_versions,
  )

  payload_seen :
      (batch : WriteBatch) (payload : Option Bytes)
      → leb engine.wal.next_lsn r ≡ false
      → SeesSame key r engine
          (append_payload codec answer true
            (batch_effects engine.edges batch)
            batch
            payload
            (preserve_historical_versions (batch_effects engine.edges batch) engine)).1
  unfolding preserve_historical_versions
  payload_seen batch none late = (
    preserve_keeps_visible key r _ engine.nodes engine.node_lineage engine.node_versions,
    preserve_keeps_visible key r _ engine.edges engine.edge_lineage engine.edge_versions,
  )
  payload_seen batch (some payload) late =
      published_seen batch (append codec.log answer write_batch payload engine.wal) late
        (append-Numbered codec.log answer write_batch payload engine.wal)

  prepared_seen :
      (prepared : Result WriteBatch)
      → leb engine.wal.next_lsn r ≡ false
      → SeesSame key r engine (write_prepared codec answer true prepared engine).1
  prepared_seen (ok batch) late = payload_seen batch (codec.to_vec batch) late
  prepared_seen (err e) late = (refl, refl)
  prepared_seen panic late = (refl, refl)

  -- A write made while snapshots are read, whether it succeeds, is refused or fails in the log,
  -- changes nothing for a reader at a revision below the log's next number.
  pub write_keeps_snapshots :
      (batch : WriteBatch) (readers : ℕ)
      → ltb 0 readers ≡ true
      → leb engine.wal.next_lsn r ≡ false
      → SeesSame key r engine
          (apply_write_batch_with_snapshot_readers codec answer batch readers engine).1
  unfolding apply_write_batch_with_snapshot_readers
  write_keeps_snapshots batch readers some_reader late =
      rw some_reader (prepared_seen (prepare_batch engine batch) late)
