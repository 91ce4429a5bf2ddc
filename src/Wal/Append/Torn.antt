-- ===== src/Wal/Append/Torn.antt =====
-- A write that stops in the middle of a frame: nothing is lost at once, and what is appended behind
-- it later may be.
use undr.Base.{
  beq_refl, if◌then◌else◌, ℕ, ◌+◌, ◌^◌, ◌<◌, ◌≤◌, ◌≡◌, refl, sym, ap, ◌∙◌, inl, inr, List, ◌++◌,
  some, length, take, arith, append_assoc, length-append, length-take, nat_key,
}
use undr.Base.Map
use undr.Common.{ok, err, io}
use undr.Wal.Record.{Bytes, WalRecordKind, WalRecord, Codec, RoundTrips, new_record, encode_record}
use undr.Wal.Segments.{replay_from_dir, replay_segment}
use undr.Wal.Log.{
  Wal, WalRuntimeConfig, written, write_fails, segment_bytes, rotate_if_needed, extend_segment,
  advance_lsn, write_frame, append, replay,
}
use undr.Wal.Framing.{length-frame_of}
use undr.Wal.Replay.{
  total_bytes, replay_segments-IsStored, replay_segment_torn, replay_segment_stuck,
}
use undr.Wal.Append.Invariant.{
  IsLog, extend_segment-IsLog, rotate_if_needed-IsLog, total_bytes-snoc,
}
use undr.Wal.Append.Outcome.{
  Room, append-write_frame, encode_record-frame, runtime-rotate, next_lsn-rotate,
}

segments-rotate :
    (incoming : ℕ) (wal : Wal) → (rotate_if_needed incoming wal).segments ≡ wal.segments
unfolding rotate_if_needed
segments-rotate incoming wal = ground arith

runtime-extend : (more : Bytes) (wal : Wal) → (extend_segment more wal).runtime ≡ wal.runtime
unfolding extend_segment
runtime-extend more wal = refl

-- The directory with some bytes more in the active segment, read back.
module _ (codec : Codec) (round : RoundTrips codec) (wal : Wal) (log : List WalRecord)
    (l : IsLog codec wal log) where
  size_of : total_bytes l.closed + length l.active ≤ total_bytes wal.segments
  size_of = elim l.layout [
    | inl there ↦
        omega
          (arith, ap total_bytes there, total_bytes-snoc l.closed wal.active_segment_id l.active)
    | inr (there, empty) ↦ omega (arith, ap total_bytes there, ap (λ (b : Bytes). length b) empty)
  ]

  replay_extended :
      (more : Bytes)
      → wal.runtime.max_replay_bytes < 2 ^ 64
      → total_bytes wal.segments + length more ≤ wal.runtime.max_replay_bytes
      → replay_segment codec (l.active ++ more) ≡ ok l.late
      → replay codec (extend_segment more wal) ≡ ok log
  replay_extended more word fits reads =
      unfold replay replay_from_dir in
      rw (extend_segment-IsLog codec wal log l more, runtime-extend more wal)
        (replay_segments-IsStored codec round wal.runtime.max_replay_bytes word l.closed l.early
            l.late 0 wal.active_segment_id (l.active ++ more) l.stored reads
            (omega (arith, length-append l.active more, size_of))
          ∙ ap ok (sym l.whole))

extend-extend :
    (a b : Bytes) (wal : Wal)
    → extend_segment b (extend_segment a wal) ≡ extend_segment (a ++ b) wal
unfolding extend_segment segment_bytes
extend-extend a b wal =
    let here = segment_bytes wal ++ a in
    let found : Map.get wal.active_segment_id (Map.insert wal.active_segment_id here wal.segments)
        ≡ some here =
      Map.get-insert wal.active_segment_id wal.active_segment_id here wal.segments
      ∙ ap (λ t. if t then some here else Map.get wal.active_segment_id wal.segments)
          (beq_refl wal.active_segment_id) in
    rw (
      found,
      Map.insert-insert wal.active_segment_id here (here ++ b) wal.segments,
      append_assoc (segment_bytes wal) a b,
    )

module _ (codec : Codec) (round : RoundTrips codec) (wal : Wal) (log : List WalRecord)
    (l : IsLog codec wal log) (room : Room wal) (word : wal.runtime.max_replay_bytes < 2 ^ 64)
    (kind : WalRecordKind) (payload : Bytes) (r : WalRecord) (frame : Bytes)
    (made : new_record codec wal.next_lsn kind payload ≡ ok r)
    (encoded : encode_record codec r ≡ ok frame) where
  after_cut : ℕ → Wal
  after_cut count = extend_segment (take count frame) (rotate_if_needed (length frame) wal)

  append-cut :
      (count : ℕ) → append codec (write_fails count) kind payload wal ≡ (err io, after_cut count)
  unfolding after_cut
  append-cut count =
      append-write_frame codec (write_fails count) kind payload wal r frame made encoded
      ∙ (unfold write_frame in refl)

  rotated : IsLog codec (rotate_if_needed (length frame) wal) log
  rotated = rotate_if_needed-IsLog codec wal log l (length frame) room

  -- Where postcard reads back what it wrote: an append whose write stops within its frame
  -- returns an error, and the log replays to the records that it had. The segments with the
  -- frame must be within the configured limit, that must be below 2^64, and the number of the
  -- active segment below 2^64 - 1.
  pub append_cut_short :
      (count : ℕ)
      → count < length frame
      → total_bytes wal.segments + length frame ≤ wal.runtime.max_replay_bytes
      → ((append codec (write_fails count) kind payload wal).0 ≡ err io)
        × (replay codec (append codec (write_fails count) kind payload wal).1 ≡ ok log)
  append_cut_short count cut fits =
      let (bytes, serialised, is_frame) = encode_record-frame codec r frame encoded in
      let same = segments-rotate (length frame) wal in
      let max_same : (rotate_if_needed (length frame) wal).runtime.max_replay_bytes
          ≡ wal.runtime.max_replay_bytes =
        ap (λ (t : WalRuntimeConfig). t.max_replay_bytes) (runtime-rotate (length frame) wal) in
      rw (append-cut count) (
        refl,
        unfold after_cut in
            replay_extended codec round (rotate_if_needed (length frame) wal) log rotated
              (take count frame) (omega (arith, max_same))
              (omega (arith, max_same, ap total_bytes same, length-take count frame))
              (rw is_frame (
                replay_segment_torn codec round rotated.late rotated.active bytes count
                  rotated.frames (omega (arith, ap (λ (b : Bytes). length b) is_frame))
                  (omega (
                    arith,
                    ap (λ (b : Bytes). length b) is_frame,
                    size_of codec round (rotate_if_needed (length frame) wal) log rotated,
                    ap total_bytes same,
                  )))),
      )

  next_lsn-after_cut : (count : ℕ) → (after_cut count).next_lsn ≡ wal.next_lsn
  unfolding after_cut extend_segment
  next_lsn-after_cut count = next_lsn-rotate (length frame) wal

  replay-advance : (w : Wal) → replay codec (advance_lsn w) ≡ replay codec w
  unfolding replay advance_lsn
  replay-advance w = refl

  stuck :
      (count : ℕ) (frame' : Bytes)
      → 8 ≤ count
      → count + length frame' < length frame
      → total_bytes wal.segments + length frame + length frame' ≤ wal.runtime.max_replay_bytes
      → replay codec (extend_segment frame' (after_cut count)) ≡ ok log
  unfolding after_cut
  stuck count frame' past short fits =
      let (bytes, serialised, is_frame) = encode_record-frame codec r frame encoded in
      let same = segments-rotate (length frame) wal in
      let max_same : (rotate_if_needed (length frame) wal).runtime.max_replay_bytes
          ≡ wal.runtime.max_replay_bytes =
        ap (λ (t : WalRuntimeConfig). t.max_replay_bytes) (runtime-rotate (length frame) wal) in
      let size = ap (λ (b : Bytes). length b) is_frame in
      rw (extend-extend (take count frame) frame' (rotate_if_needed (length frame) wal)) (
        replay_extended codec round (rotate_if_needed (length frame) wal) log rotated
          (take count frame ++ frame') (omega (arith, max_same))
          (omega (
            arith,
            max_same,
            ap total_bytes same,
            length-take count frame,
            length-append (take count frame) frame',
          ))
          (rw is_frame (
            replay_segment_stuck codec round rotated.late rotated.active bytes frame' count
              rotated.frames past (omega (arith, size, length-frame_of bytes))
              (omega (
                arith,
                size,
                size_of codec round (rotate_if_needed (length frame) wal) log rotated,
                ap total_bytes same,
              )))))

  -- Where postcard reads back what it wrote: what is appended behind a frame cut after eight
  -- bytes or more can be lost. If it goes to the same segment, and its frame is shorter than
  -- what the cut frame lacks, the append succeeds and the replay does not have its record. The
  -- limits are as for a write cut short.
  pub append_behind_cut :
      (count : ℕ) (cut : Wal) (kind' : WalRecordKind) (payload' : Bytes) (r' : WalRecord)
      (frame' : Bytes)
      → append codec (write_fails count) kind payload wal ≡ (err io, cut)
      → new_record codec cut.next_lsn kind' payload' ≡ ok r'
      → encode_record codec r' ≡ ok frame'
      → 8 ≤ count
      → count + length frame' < length frame
      → rotate_if_needed (length frame') cut ≡ cut
      → total_bytes wal.segments + length frame + length frame' ≤ wal.runtime.max_replay_bytes
      → ((append codec written kind' payload' cut).0 ≡ ok r')
        × (replay codec (append codec written kind' payload' cut).1 ≡ ok log)
  append_behind_cut count cut kind' payload' r' frame' failed made' encoded' past short stays fits =
      let is_cut : cut ≡ after_cut count = cc (failed, append-cut count) in
      rw
        (
          append-write_frame codec written kind' payload' cut r' frame' made' encoded',
          stays,
          is_cut,
        )
        (
          unfold write_frame in refl,
          unfold write_frame in
              (replay-advance (extend_segment frame' (after_cut count))
                ∙ stuck count frame' past short fits),
        )
