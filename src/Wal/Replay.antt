-- ===== src/Wal/Replay.antt =====
-- What `replay_from_dir` returns of a directory that holds whole frames, and of one whose last
-- write was cut short.
use undr.Base.{
  ℕ, zero, suc, ◌+◌, ◌-◌, ◌^◌, ◌<◌, ◌≤◌, ◌≡◌, refl, ap, ◌∙◌, true, List, [], ◌∷◌, ◌++◌, some,
  length, take, arith, length-append, append-nil, append_assoc, le→ltb, subst,
}
use undr.Common.{ok}
use undr.Wal.Record.{Bytes, WalRecord, Codec, RoundTrips, verify_checksum}
use undr.Wal.Segments.{Segments, read_frame, replay_frames, replay_segment, replay_segments}
use undr.Wal.Framing.{
  frame_of, replay_frames_step, replay_frames_torn, replay_frames_stuck, length-frame,
}

-- The bytes are the frames of the records, one after the other.
abbrev pub IsFrames : Codec → List WalRecord → Bytes → Type 0
IsFrames codec [] bytes = bytes ≡ []
IsFrames codec (r ∷ rs) bytes =
    (payload : Bytes) × (rest : Bytes) × (codec.to_allocvec r ≡ some payload)
    × (verify_checksum codec r ≡ true)
    × (bytes ≡ frame_of payload ++ rest)
    × IsFrames codec rs rest

read_frame-IsFrame :
    (codec : Codec) (r : WalRecord) (payload : Bytes)
    → RoundTrips codec
    → codec.to_allocvec r ≡ some payload
    → verify_checksum codec r ≡ true
    → read_frame codec payload ≡ ok r
unfolding read_frame
read_frame-IsFrame codec r payload round encoded checked = ground (arith, round r payload encoded)

-- The loop reads the frames, and then does what it does with the bytes behind them.
module _ (codec : Codec) (round : RoundTrips codec) (tail : Bytes) (room : ℕ) where
  replay_frames-IsFrames :
      ((fuel offset : ℕ)
        → offset + room < 2 ^ 64
        → replay_frames codec (suc fuel) offset tail ≡ ok [])
      → (rs : List WalRecord) (fuel offset : ℕ) (bytes : Bytes) → IsFrames codec rs bytes
      → length (bytes ++ tail) < fuel
      → offset + length bytes + room < 2 ^ 64
      → replay_frames codec fuel offset (bytes ++ tail) ≡ ok rs
  replay_frames-IsFrames ends [] zero offset bytes f enough bound = absurd (omega arith)
  replay_frames-IsFrames ends [] (suc fuel) offset bytes f enough bound =
      rw f (ends fuel offset (omega arith))
  replay_frames-IsFrames ends (r ∷ rs) zero offset bytes f enough bound = absurd (omega arith)
  replay_frames-IsFrames ends (r ∷ rs) (suc fuel) offset bytes
        (payload, rest, encoded, checked, split, more) enough bound =
      rw (split, append_assoc (frame_of payload) rest tail)
        (replay_frames_step codec fuel offset payload (rest ++ tail) (omega (arith, sizes))
          ∙ rw (
            read_frame-IsFrame codec r payload round encoded checked,
            replay_frames-IsFrames ends rs fuel (offset + 8 + length payload) rest more
                (omega (arith, sizes, length-append bytes tail, length-append rest tail))
                (omega (arith, sizes)),
          ))
    where
      sizes : length bytes ≡ 8 + length payload + length rest
      sizes = ap length split ∙ length-frame payload rest

few_ends :
    (codec : Codec) (fuel offset : ℕ)
    → offset + 0 < 2 ^ 64
    → replay_frames codec (suc fuel) offset [] ≡ ok []
unfolding replay_frames
few_ends codec fuel offset h = refl

module _ (codec : Codec) (round : RoundTrips codec) where
  -- A segment of whole frames gives its records.
  pub replay_segment-IsFrames :
      (rs : List WalRecord) (bytes : Bytes)
      → IsFrames codec rs bytes
      → length bytes < 2 ^ 64
      → replay_segment codec bytes ≡ ok rs
  unfolding replay_segment
  replay_segment-IsFrames rs bytes frames bound =
      subst (λ b. replay_frames codec (suc (length bytes)) 0 b ≡ ok rs) (append-nil bytes)
        (replay_frames-IsFrames codec round [] 0 (few_ends codec) rs (suc (length bytes)) 0 bytes
          frames (omega (arith, length-append bytes [])) (omega arith))

  -- A segment whose last frame is cut short gives the records before it.
  pub replay_segment_torn :
      (rs : List WalRecord) (bytes payload : Bytes) (count : ℕ)
      → IsFrames codec rs bytes
      → count < length (frame_of payload)
      → length bytes + length (frame_of payload) < 2 ^ 64
      → replay_segment codec (bytes ++ take count (frame_of payload)) ≡ ok rs
  unfolding replay_segment
  replay_segment_torn rs bytes payload count frames torn bound =
      replay_frames-IsFrames codec round (take count (frame_of payload)) (length (frame_of payload))
        (λ fuel offset h. replay_frames_torn codec fuel offset count payload h torn) rs
        (suc (length (bytes ++ take count (frame_of payload)))) 0 bytes frames (omega arith)
        (omega arith)

  -- Behind a frame that is cut short after its length, the loop stops, whatever stands there, as long
  -- as it is shorter than what the cut frame lacks.
  pub replay_segment_stuck :
      (rs : List WalRecord) (bytes payload more : Bytes) (count : ℕ)
      → IsFrames codec rs bytes
      → 8 ≤ count
      → count - 8 + length more < length payload
      → length bytes + length (frame_of payload) < 2 ^ 64
      → replay_segment codec (bytes ++ (take count (frame_of payload) ++ more)) ≡ ok rs
  unfolding replay_segment
  replay_segment_stuck rs bytes payload more count frames past short bound =
      replay_frames-IsFrames codec round (take count (frame_of payload) ++ more)
        (length (frame_of payload))
        (λ fuel offset h. replay_frames_stuck codec fuel offset count payload more h past short) rs
        (suc (length (bytes ++ (take count (frame_of payload) ++ more)))) 0 bytes frames
        (omega arith) (omega arith)

-- The segments hold the frames of the records, each segment whole frames.
abbrev pub IsStored : Codec → Segments → List WalRecord → Type 0
IsStored codec [] records = records ≡ []
IsStored codec ((id, bytes) ∷ segments) records =
    (here : List WalRecord) × (later : List WalRecord) × IsFrames codec here bytes
    × IsStored codec segments later
    × (records ≡ here ++ later)

abbrev pub total_bytes : Segments → ℕ
total_bytes [] = 0
total_bytes ((id, bytes) ∷ segments) = length bytes + total_bytes segments

module _ (codec : Codec) (round : RoundTrips codec) (max_replay_bytes : ℕ)
    (word : max_replay_bytes < 2 ^ 64) where
  -- Closed segments, and then one that the loop reads as `here`.
  pub replay_segments-IsStored :
      (closed : Segments) (early here : List WalRecord) (replayed id : ℕ) (bytes : Bytes)
      → IsStored codec closed early
      → replay_segment codec bytes ≡ ok here
      → replayed + total_bytes closed + length bytes ≤ max_replay_bytes
      → replay_segments codec max_replay_bytes replayed (closed ++ (id, bytes) ∷ [])
        ≡ ok (early ++ here)
  unfolding replay_segments
  replay_segments-IsStored [] early here replayed id bytes stored last fits = rw (
    le→ltb max_replay_bytes (replayed + length bytes) (omega arith),
    last,
    stored,
    append-nil here,
  )
  replay_segments-IsStored ((first, old) ∷ closed) early here replayed id bytes
        (mine, later, frames, stored, split) last fits =
      rw (
        le→ltb max_replay_bytes (replayed + length old) (omega arith),
        replay_segment-IsFrames codec round mine old frames (omega arith),
        replay_segments-IsStored closed later here (replayed + length old) id bytes stored last
            (omega arith),
        split,
        append_assoc mine later here,
      )

  -- Only closed segments.
  pub replay_segments_closed :
      (closed : Segments) (early : List WalRecord) (replayed : ℕ)
      → IsStored codec closed early
      → replayed + total_bytes closed ≤ max_replay_bytes
      → replay_segments codec max_replay_bytes replayed closed ≡ ok early
  unfolding replay_segments
  replay_segments_closed [] early replayed stored fits = rw stored
  replay_segments_closed ((first, old) ∷ closed) early replayed (mine, later, frames, stored, split)
        fits =
      rw (
        le→ltb max_replay_bytes (replayed + length old) (omega arith),
        replay_segment-IsFrames codec round mine old frames (omega arith),
        replay_segments_closed closed later (replayed + length old) stored (omega arith),
        split,
      )
