-- ===== src/Tests/Log.antt =====
-- A small log (crates/wal/src/lib.rs).
use undr.Base.{ℕ, zero, suc, ◌≡◌, refl, inr, [], ◌∷◌, Option, none, some, arith}
use undr.Base.Map
use undr.Common.{ok, err, io}
use undr.Wal.Record.{
  Bytes, Codec, RoundTrips, WalRecord, WalRecordKind, write_batch, checkpoint, manifest_sync,
  consolidation_event, new_record, encode_record, to_le_bytes,
}
use undr.Wal.Log.{
  Wal, written, fsync_fails, write_fails, fsync_on_write, append, replay, rotate_if_needed,
}
use undr.Wal.Append.Invariant.{IsLog, replay-IsLog}
use undr.Wal.Append.Outcome.{HasLog, IsNew, append-adds, append_unsynced}
use undr.Wal.Append.Torn.{append_cut_short, append_behind_cut}

abbrev kind_byte : WalRecordKind → ℕ
kind_byte write_batch = 0
kind_byte checkpoint = 1
kind_byte manifest_sync = 2
kind_byte consolidation_event = 3

abbrev kind_of : ℕ → WalRecordKind
kind_of zero = write_batch
kind_of (suc zero) = checkpoint
kind_of (suc (suc zero)) = manifest_sync
kind_of (suc (suc (suc n))) = consolidation_event

abbrev parse : Bytes → Option WalRecord
parse (lsn ∷ kind ∷ len ∷ crc ∷ version ∷ payload) = some (record {
  header = record {
    lsn = lsn;
    kind = kind_of kind;
    payload_len = len;
    payload_crc32 = crc;
    format_version = version;
  };
  payload = payload;
})
parse bytes = none

-- One number for each field, and then the payload.
abbrev codec : Codec
codec = record {
  crc32 = λ bytes. 5;
  to_allocvec = λ r. some (
      r.header.lsn
      ∷ kind_byte r.header.kind
      ∷ r.header.payload_len
      ∷ r.header.payload_crc32
      ∷ r.header.format_version
      ∷ r.payload);
  from_bytes = parse;
}

kind_back : (k : WalRecordKind) → kind_of (kind_byte k) ≡ k
kind_back write_batch = refl
kind_back checkpoint = refl
kind_back manifest_sync = refl
kind_back consolidation_event = refl

round : RoundTrips codec
round r bytes h = ground (arith, kind_back r.header.kind)

abbrev wal : Wal
wal = record {
  segments = [];
  runtime = record {
    segment_size_bytes = 100;
    durability_mode = fsync_on_write;
    max_replay_bytes = 1000;
  };
  active_segment_id = 1;
  next_lsn = 1;
}

empty-IsLog : IsLog codec wal []
empty-IsLog = record {
  closed = [];
  active = [];
  early = [];
  late = [];
  stored = refl;
  frames = refl;
  below = tt;
  layout = inr (refl, refl);
  whole = refl;
}

abbrev first : WalRecord
first = record {
  header = record {
    lsn = 1;
    kind = checkpoint;
    payload_len = 2;
    payload_crc32 = 5;
    format_version = 1;
  };
  payload = 8 ∷ 9 ∷ [];
}

abbrev one_frame : Bytes
one_frame = 7 ∷ 0 ∷ 0 ∷ 0 ∷ 0 ∷ 0 ∷ 0 ∷ 0 ∷ 1 ∷ 1 ∷ 2 ∷ 5 ∷ 1 ∷ 8 ∷ 9 ∷ []

abbrev wal_after : Wal
wal_after = record wal { segments = (1, one_frame) ∷ []; next_lsn = 2 }

appended : append codec written checkpoint (8 ∷ 9 ∷ []) wal ≡ (ok first, wal_after)
unfolding append new_record encode_record Map.insert Map.get Map.place Map.remove to_le_bytes
appended = refl

append-adds_example :
    HasLog codec wal_after (first ∷ []) 2 × IsNew codec 1 checkpoint (8 ∷ 9 ∷ []) first
append-adds_example =
    append-adds codec checkpoint (8 ∷ 9 ∷ []) wal [] empty-IsLog (omega arith) written first
      wal_after appended

after-IsLog : IsLog codec wal_after (first ∷ [])
after-IsLog =
    (append-adds codec checkpoint (8 ∷ 9 ∷ []) wal [] empty-IsLog (omega arith) written first
      wal_after appended).0.is_log

replay-IsLog_example : replay codec wal_after ≡ ok (first ∷ [])
replay-IsLog_example =
    replay-IsLog codec wal_after (first ∷ []) after-IsLog round (omega arith) (omega arith)

made : new_record codec 1 checkpoint (8 ∷ 9 ∷ []) ≡ ok first
unfolding new_record
made = refl

encoded : encode_record codec first ≡ ok one_frame
unfolding encode_record to_le_bytes
encoded = refl

append_unsynced_example :
    ((append codec fsync_fails checkpoint (8 ∷ 9 ∷ []) wal).0 ≡ err io)
    × HasLog codec (append codec fsync_fails checkpoint (8 ∷ 9 ∷ []) wal).1 (first ∷ []) 1
append_unsynced_example =
    append_unsynced codec checkpoint (8 ∷ 9 ∷ []) wal [] empty-IsLog (omega arith) first one_frame
      made encoded refl

append_cut_short_example :
    ((append codec (write_fails 12) checkpoint (8 ∷ 9 ∷ []) wal).0 ≡ err io)
    × (replay codec (append codec (write_fails 12) checkpoint (8 ∷ 9 ∷ []) wal).1 ≡ ok [])
append_cut_short_example =
    append_cut_short codec round wal [] empty-IsLog (omega arith) (omega arith) checkpoint
      (8 ∷ 9 ∷ []) first one_frame made encoded 12 (omega arith) (omega arith)

abbrev long_payload : Bytes
long_payload = 1 ∷ 1 ∷ 1 ∷ 1 ∷ 1 ∷ 1 ∷ 1 ∷ 1 ∷ 1 ∷ 1 ∷ 1 ∷ 1 ∷ []

abbrev long_record : WalRecord
long_record = record {
  header = record {
    lsn = 1;
    kind = write_batch;
    payload_len = 12;
    payload_crc32 = 5;
    format_version = 1;
  };
  payload = long_payload;
}

abbrev long_frame : Bytes
long_frame = 17 ∷ 0 ∷ 0 ∷ 0 ∷ 0 ∷ 0 ∷ 0 ∷ 0 ∷ 1 ∷ 0 ∷ 12 ∷ 5 ∷ 1 ∷ long_payload

abbrev cut : Wal
cut = record wal { segments = (1, 17 ∷ 0 ∷ 0 ∷ 0 ∷ 0 ∷ 0 ∷ 0 ∷ 0 ∷ []) ∷ [] }

long_made : new_record codec 1 write_batch long_payload ≡ ok long_record
unfolding new_record
long_made = refl

long_encoded : encode_record codec long_record ≡ ok long_frame
unfolding encode_record to_le_bytes
long_encoded = refl

long_cut : append codec (write_fails 8) write_batch long_payload wal ≡ (err io, cut)
unfolding append new_record encode_record Map.insert Map.get Map.place Map.remove to_le_bytes
long_cut = refl

stays : rotate_if_needed 15 cut ≡ cut
unfolding rotate_if_needed Map.get
stays = refl

append_behind_cut_example :
    ((append codec written checkpoint (8 ∷ 9 ∷ []) cut).0 ≡ ok first)
    × (replay codec (append codec written checkpoint (8 ∷ 9 ∷ []) cut).1 ≡ ok [])
append_behind_cut_example =
    append_behind_cut codec round wal [] empty-IsLog (omega arith) (omega arith) write_batch
      long_payload long_record long_frame long_made long_encoded 8 cut checkpoint (8 ∷ 9 ∷ []) first
      one_frame long_cut made encoded (omega arith) (omega arith) stays (omega arith)
