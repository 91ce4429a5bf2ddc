-- ===== src/Wal/Log.antt =====
-- The writer of the log: `Wal` and its methods. The state holds the segment files beside the fields
-- of the struct. What the file system answers is an argument of each operation.
use undr.Base.{
  ℕ, ◌+◌, ◌%◌, ◌^◌, Bool, true, false, ◌&&◌, List, [], ◌++◌, Option, none, some, length, take, drop,
  ltb, last?, nat_key, if◌then◌else◌,
}
use undr.Base.Map
use undr.Base.Map.{keys}
use undr.Common.{Result, ok, err, panic, io, ◌>>=◌}
use undr.Wal.Record.{Bytes, WalRecordKind, WalRecord, Codec, new_record, encode_record}
use undr.Wal.Segments.{Segments, replay_from_dir}

pub data DurabilityMode : Type 0 where
  fsync_on_write buffered : DurabilityMode

pub record WalConfig : Type 0 where
  pub segment_size_bytes : ℕ
  pub fsync : Bool
  pub max_replay_bytes : ℕ

pub record WalRuntimeConfig : Type 0 where
  pub segment_size_bytes : ℕ
  pub durability_mode : DurabilityMode
  pub max_replay_bytes : ℕ

unfoldable pub runtime_config : WalConfig → WalRuntimeConfig
runtime_config config = record {
  segment_size_bytes = config.segment_size_bytes;
  durability_mode = if config.fsync then fsync_on_write else buffered;
  max_replay_bytes = config.max_replay_bytes;
}

pub record Wal : Type 0 where
  pub segments : Segments
  pub runtime : WalRuntimeConfig
  pub active_segment_id : ℕ
  pub next_lsn : ℕ

-- What the file system answers to an append: all is written; the file cannot be opened; the write
-- stops after some bytes; the bytes are there and cannot be synced.
pub data AppendIo : Type 0 where
  written open_fails fsync_fails : AppendIo
  write_fails : ℕ → AppendIo

abbrev pub bytes_or_none : Option Bytes → Bytes
bytes_or_none none = []
bytes_or_none (some bytes) = bytes

unfoldable pub segment_bytes : Wal → Bytes
segment_bytes wal = bytes_or_none (Map.get wal.active_segment_id wal.segments)

unfoldable pub rotate_if_needed : ℕ → Wal → Wal
unfolding segment_bytes
rotate_if_needed incoming_frame_bytes wal =
    let current_len = length (segment_bytes wal) in
    if ltb 0 current_len && ltb wal.runtime.segment_size_bytes (current_len + incoming_frame_bytes)
    then record wal { active_segment_id = (wal.active_segment_id + 1) % 2 ^ 64 }
    else wal

-- The active segment file, created where it is missing, with some bytes more.
unfoldable pub extend_segment : Bytes → Wal → Wal
unfolding segment_bytes
extend_segment more wal = record wal {
  segments = Map.insert wal.active_segment_id (segment_bytes wal ++ more) wal.segments;
}

unfoldable pub advance_lsn : Wal → Wal
advance_lsn wal = record wal { next_lsn = (wal.next_lsn + 1) % 2 ^ 64 }

abbrev pub is_fsync : DurabilityMode → Bool
is_fsync fsync_on_write = true
is_fsync buffered = false

unfoldable pub write_frame : AppendIo → WalRecord → Bytes → Wal → Result WalRecord × Wal
unfolding extend_segment advance_lsn
write_frame open_fails r frame wal = (err io, wal)
write_frame (write_fails count) r frame wal = (err io, extend_segment (take count frame) wal)
write_frame fsync_fails r frame wal =
    let wal' = extend_segment frame wal in
    if is_fsync wal.runtime.durability_mode then (err io, wal') else (ok r, advance_lsn wal')
write_frame written r frame wal = (ok r, advance_lsn (extend_segment frame wal))

module _ (codec : Codec) where
  -- A frame that cannot be made leaves the log as it was.
  abbrev pub write_encoded : AppendIo → WalRecord → Result Bytes → Wal → Result WalRecord × Wal
  write_encoded answer r (ok frame) wal =
      write_frame answer r frame (rotate_if_needed (length frame) wal)
  write_encoded answer r (err e) wal = (err e, wal)
  write_encoded answer r panic wal = (panic, wal)

  abbrev pub append_record : AppendIo → Result WalRecord → Wal → Result WalRecord × Wal
  append_record answer (ok r) wal = write_encoded answer r (encode_record codec r) wal
  append_record answer (err e) wal = (err e, wal)
  append_record answer panic wal = (panic, wal)

  unfoldable pub append : AppendIo → WalRecordKind → Bytes → Wal → Result WalRecord × Wal
  unfolding write_frame rotate_if_needed
  append answer kind payload wal =
      append_record answer (new_record codec wal.next_lsn kind payload) wal

  unfoldable pub replay : Wal → Result (List WalRecord)
  replay wal = replay_from_dir codec wal.segments wal.runtime.max_replay_bytes

  -- `records.last().map(|record| record.header.lsn.0 + 1).unwrap_or(1)`
  abbrev pub lsn_after : Option WalRecord → ℕ
  lsn_after none = 1
  lsn_after (some r) = (r.header.lsn + 1) % 2 ^ 64

  abbrev pub id_or_one : Option ℕ → ℕ
  id_or_one none = 1
  id_or_one (some id) = id

  unfoldable pub open_wal : Segments → WalConfig → Result Wal
  unfolding runtime_config
  open_wal segments config = do
    records ← replay_from_dir codec segments config.max_replay_bytes
    ok (record {
      segments = segments;
      runtime = runtime_config config;
      active_segment_id = id_or_one (last? (keys segments));
      next_lsn = lsn_after (last? records);
    })

-- `none`: every segment file is removed. `some count`: the removal of the next file after `count`
-- fails, and the numbers are not reset.
unfoldable pub truncate_all_segments : Option ℕ → Wal → Result (Unit {0}) × Wal
truncate_all_segments none wal =
    (ok tt, record wal { segments = []; active_segment_id = 1; next_lsn = 1 })
truncate_all_segments (some count) wal = (err io, record wal { segments = drop count wal.segments })
