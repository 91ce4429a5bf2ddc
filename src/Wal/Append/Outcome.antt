-- ===== src/Wal/Append/Outcome.antt =====
-- The results of `append`: success adds the record and nothing else, a write cut short adds
-- nothing, and a failed sync adds the record although an error is returned.
use undr.Base.{
  ℕ, ◌+◌, ◌%◌, ◌^◌, ◌<◌, ◌≡◌, refl, sym, ap, inl, inr, true, List, [], ◌∷◌, ◌++◌, some, length,
  arith, Bool-cases,
}
use undr.Common.{Result, ok, err, panic, io}
use undr.Wal.Record.{
  Bytes, WalRecordKind, WalRecord, Codec, new_record, verify_checksum, encode_record,
}
use undr.Wal.Log.{
  Wal, AppendIo, written, open_fails, fsync_fails, write_fails, rotate_if_needed, extend_segment,
  advance_lsn, write_frame, write_encoded, append_record, append, is_fsync,
}
use undr.Wal.Framing.{frame_of}
use undr.Wal.Append.Invariant.{IsLog, append_frame-IsLog, rotate_if_needed-IsLog}

-- What a record made for an append carries.
pub record IsNew (codec : Codec) (lsn : ℕ) (kind : WalRecordKind) (payload : Bytes) (r : WalRecord)
    : Type 0 where
  pub lsn_is : r.header.lsn ≡ lsn
  pub kind_is : r.header.kind ≡ kind
  pub payload_is : r.payload ≡ payload
  pub checked : verify_checksum codec r ≡ true

new_record-IsNew :
    (codec : Codec) (lsn : ℕ) (kind : WalRecordKind) (payload : Bytes) (r : WalRecord)
    → new_record codec lsn kind payload ≡ ok r
    → IsNew codec lsn kind payload r
unfolding new_record verify_checksum
new_record-IsNew codec lsn kind payload r h = ground arith

pub encode_record-frame :
    (codec : Codec) (r : WalRecord) (frame : Bytes)
    → encode_record codec r ≡ ok frame
    → (payload : Bytes) × (codec.to_allocvec r ≡ some payload) × (frame ≡ frame_of payload)
unfolding encode_record
encode_record-frame codec r frame h = ground arith

write_frame-ok :
    (answer : AppendIo) (r r' : WalRecord) (frame : Bytes) (wal wal' : Wal)
    → write_frame answer r frame wal ≡ (ok r', wal')
    → (r' ≡ r) × (wal' ≡ advance_lsn (extend_segment frame wal))
unfolding write_frame
write_frame-ok open_fails r r' frame wal wal' h = cc
write_frame-ok (write_fails count) r r' frame wal wal' h = cc
write_frame-ok written r r' frame wal wal' h = (cc, cc)
write_frame-ok fsync_fails r r' frame wal wal' h =
    elim (Bool-cases (is_fsync wal.runtime.durability_mode)) [
      | inl synced ↦ cc (sym h, synced)
      | inr buffered ↦ let h' = rw buffered at h in (cc, cc)
    ]

-- An append with a record and a frame writes the frame behind what rotation left.
pub append-write_frame :
    (codec : Codec) (answer : AppendIo) (kind : WalRecordKind) (payload : Bytes) (wal : Wal)
    (r : WalRecord) (frame : Bytes)
    → new_record codec wal.next_lsn kind payload ≡ ok r
    → encode_record codec r ≡ ok frame
    → append codec answer kind payload wal
      ≡ write_frame answer r frame (rotate_if_needed (length frame) wal)
append-write_frame codec answer kind payload wal r frame made encoded =
    unfold append in rw (made, encoded)

-- A successful append had a record and a frame.

abbrev Made : Codec → AppendIo → Wal → WalRecord → Wal → Result WalRecord → Type 0
Made codec answer wal r wal' m =
    (frame : Bytes) × (m ≡ ok r)
    × (encode_record codec r ≡ ok frame)
    × (wal' ≡ advance_lsn (extend_segment frame (rotate_if_needed (length frame) wal)))

write_encoded-ok :
    (codec : Codec) (answer : AppendIo) (r r' : WalRecord) (m : Result Bytes) (wal wal' : Wal)
    → write_encoded codec answer r m wal ≡ (ok r', wal')
    → (r' ≡ r)
      × ((frame : Bytes) × (m ≡ ok frame)
          × (wal' ≡ advance_lsn (extend_segment frame (rotate_if_needed (length frame) wal))))
write_encoded-ok codec answer r r' (ok frame) wal wal' h =
    let done = write_frame-ok answer r r' frame (rotate_if_needed (length frame) wal) wal' h in
    (done.0, (frame, refl, done.1))
write_encoded-ok codec answer r r' (err e) wal wal' h = cc
write_encoded-ok codec answer r r' panic wal wal' h = cc

append_record-ok :
    (codec : Codec) (answer : AppendIo) (m : Result WalRecord) (r : WalRecord) (wal wal' : Wal)
    → append_record codec answer m wal ≡ (ok r, wal')
    → Made codec answer wal r wal' m
append_record-ok codec answer (ok x) r wal wal' h =
    let (same, (frame, encoded, moved)) =
      write_encoded-ok codec answer x r (encode_record codec x) wal wal' h in
    (frame, ap ok (sym same), rw same encoded, moved)
append_record-ok codec answer (err e) r wal wal' h = cc
append_record-ok codec answer panic r wal wal' h = cc

abbrev pub Room : Wal → Type 0
Room wal = wal.active_segment_id + 1 < 2 ^ 64

-- The log after a step has the records `log` and the next number `lsn`.
pub record HasLog (codec : Codec) (wal : Wal) (log : List WalRecord) (lsn : ℕ) : Type 0 where
  pub is_log : IsLog codec wal log
  pub next : wal.next_lsn ≡ lsn

pub next_lsn-rotate :
    (incoming : ℕ) (wal : Wal) → (rotate_if_needed incoming wal).next_lsn ≡ wal.next_lsn
unfolding rotate_if_needed
next_lsn-rotate incoming wal = ground arith

pub runtime-rotate :
    (incoming : ℕ) (wal : Wal) → (rotate_if_needed incoming wal).runtime ≡ wal.runtime
unfolding rotate_if_needed
runtime-rotate incoming wal = ground arith

module _ (codec : Codec) (kind : WalRecordKind) (payload : Bytes) (wal : Wal) (log : List WalRecord)
    (l : IsLog codec wal log) (room : Room wal) where
  -- The frame in the active file, after rotation.
  with_frame :
      (r : WalRecord) (frame : Bytes)
      → new_record codec wal.next_lsn kind payload ≡ ok r
      → encode_record codec r ≡ ok frame
      → IsLog codec (extend_segment frame (rotate_if_needed (length frame) wal)) (log ++ r ∷ [])
  with_frame r frame made encoded =
      let (bytes, serialised, is_frame) = encode_record-frame codec r frame encoded in
      let new = new_record-IsNew codec wal.next_lsn kind payload r made in
      rw is_frame (
        append_frame-IsLog codec (rotate_if_needed (length (frame_of bytes)) wal) log
          (rotate_if_needed-IsLog codec wal log l (length (frame_of bytes)) room) r bytes serialised
          new.checked)

  -- An append to a log that succeeds adds one record behind it: it has the next number, the kind
  -- and the payload of the call, and its checksum is right. The next number goes up by one,
  -- modulo 2^64. The number of the active segment must be below 2^64 - 1.
  pub append-adds :
      (answer : AppendIo) (r : WalRecord) (wal' : Wal)
      → append codec answer kind payload wal ≡ (ok r, wal')
      → HasLog codec wal' (log ++ r ∷ []) ((wal.next_lsn + 1) % 2 ^ 64)
        × IsNew codec wal.next_lsn kind payload r
  append-adds answer r wal' h =
      let (frame, made, encoded, moved) =
        append_record-ok codec answer (new_record codec wal.next_lsn kind payload) r wal wal'
          (unfold append in h) in
      (
        rw moved (record {
          is_log =
              advanced (extend_segment frame (rotate_if_needed (length frame) wal))
                (with_frame r frame made encoded);
          next = stepped frame;
        }),
        new_record-IsNew codec wal.next_lsn kind payload r made,
      )
    where
      advanced :
          (w : Wal) → IsLog codec w (log ++ r ∷ []) → IsLog codec (advance_lsn w) (log ++ r ∷ [])
      advanced w k =
          unfold advance_lsn in
          record {
            closed = k.closed;
            active = k.active;
            early = k.early;
            late = k.late;
            stored = k.stored;
            frames = k.frames;
            below = k.below;
            layout = k.layout;
            whole = k.whole;
          }

      stepped :
          (frame : Bytes)
          → (advance_lsn (extend_segment frame (rotate_if_needed (length frame) wal))).next_lsn
            ≡ (wal.next_lsn + 1) % 2 ^ 64
      stepped frame =
          unfold advance_lsn extend_segment in
          ap (λ n. (n + 1) % 2 ^ 64) (next_lsn-rotate (length frame) wal)

  -- With fsync on write, an append whose record and frame can be made and whose sync fails
  -- returns an error, although the record stays in the log, and its number is given out again.
  -- The number of the active segment must be below 2^64 - 1.
  pub append_unsynced :
      (r : WalRecord) (frame : Bytes)
      → new_record codec wal.next_lsn kind payload ≡ ok r
      → encode_record codec r ≡ ok frame
      → is_fsync wal.runtime.durability_mode ≡ true
      → ((append codec fsync_fails kind payload wal).0 ≡ err io)
        × HasLog codec (append codec fsync_fails kind payload wal).1 (log ++ r ∷ []) wal.next_lsn
  append_unsynced r frame made encoded synced =
      let rotated = rotate_if_needed (length frame) wal in
      let result : write_frame fsync_fails r frame rotated
          ≡ (err io, extend_segment frame rotated) =
        (unfold write_frame in rw (runtime-rotate (length frame) wal, synced)) in
      rw (append-write_frame codec fsync_fails kind payload wal r frame made encoded, result)
        (
          refl,
          record {
            is_log = with_frame r frame made encoded;
            next = unfold extend_segment in next_lsn-rotate (length frame) wal;
          },
        )
