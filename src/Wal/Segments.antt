-- ===== src/Wal/Segments.antt =====
-- The log directory: its segment files by number, which is the order of their zero-padded names;
-- and `replay_from_dir`.
use undr.Base.{
  ℕ, zero, suc, ◌+◌, ◌^◌, List, [], ◌∷◌, ◌++◌, none, some, length, take, drop, ltb, leb,
  if◌then◌else◌,
}
use undr.Base.Map.{BTreeMap}
use undr.Common.{Result, ok, err, panic, corruption, validation, ◌>>=◌}
use undr.Wal.Record.{Bytes, WalRecord, Codec, verify_checksum, from_le_bytes}

abbrev pub Segments : Type 0
Segments = BTreeMap ℕ Bytes

module _ (codec : Codec) where
  -- One frame: postcard, then the checksum.
  unfoldable pub read_frame : Bytes → Result WalRecord
  read_frame frame = elim (codec.from_bytes frame) [
    | none ↦ err corruption
    | some r ↦ if verify_checksum codec r then ok r else err corruption
  ]

  -- The `while` loop over one segment, from the byte `offset` on; `rest` is what stands there.
  -- Where `frame_start + frame_len` passes 2^64 the addition panics, or wraps and the slice whose
  -- end lies before its start panics. Each round takes eight bytes or more, so a fuel above the
  -- length suffices.
  unfoldable pub replay_frames : ℕ → ℕ → Bytes → Result (List WalRecord)
  unfolding read_frame
  replay_frames zero offset rest = panic
  replay_frames (suc fuel) offset rest =
      let frame_len = from_le_bytes (take 8 rest) in
      let body = drop 8 rest in
      let next : Result (List WalRecord) = (do
        r ← read_frame (take frame_len body)
        later ← replay_frames fuel (offset + 8 + frame_len) (drop frame_len body)
        ok (r ∷ later)) in
      if ltb (length rest) 8
      then ok []
      else if leb (2 ^ 64) (offset + 8 + frame_len)
      then panic
      else if ltb (length body) frame_len
      then ok []
      else next

  unfoldable pub replay_segment : Bytes → Result (List WalRecord)
  unfolding replay_frames
  replay_segment bytes = replay_frames (suc (length bytes)) 0 bytes

  -- The `for` loop over the segments: `replayed_bytes` so far, against the limit.
  unfoldable pub replay_segments : ℕ → ℕ → Segments → Result (List WalRecord)
  unfolding replay_segment
  replay_segments max_replay_bytes replayed_bytes [] = ok []
  replay_segments max_replay_bytes replayed_bytes ((id, bytes) ∷ segments) =
      let total = replayed_bytes + length bytes in
      let next : Result (List WalRecord) = (do
        records ← replay_segment bytes
        later ← replay_segments max_replay_bytes total segments
        ok (records ++ later)) in
      if ltb max_replay_bytes total then err validation else next

  unfoldable pub replay_from_dir : Segments → ℕ → Result (List WalRecord)
  unfolding replay_segments
  replay_from_dir segments max_replay_bytes = replay_segments max_replay_bytes 0 segments
