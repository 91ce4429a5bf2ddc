-- ===== src/Wal/Append/Invariant.antt =====
-- The segments hold the frames of a log, and rotating or appending a whole frame keeps it so.
use undr.Base.{
  ltb, ltb→lt, ℕ, ◌+◌, ◌%◌, ◌^◌, ◌<◌, ◌≤◌, ◌≡◌, refl, sym, ap, ◌∙◌, ◌⊎◌, inl, inr, true, List, [],
  ◌∷◌, ◌++◌, some, length, arith, append-nil, append_assoc, Bool-cases, nat_key,
}
use undr.Common.{ok}
use undr.Wal.Record.{Bytes, WalRecord, Codec, RoundTrips, verify_checksum}
use undr.Wal.Segments.{Segments, replay_from_dir}
use undr.Wal.Log.{Wal, segment_bytes, rotate_if_needed, extend_segment, replay}
use undr.Wal.Framing.{frame_of, length-frame}
use undr.Wal.Replay.{
  IsFrames, IsStored, total_bytes, replay_segments-IsStored, replay_segments_closed,
  replay_segment-IsFrames,
}
use undr.Wal.Append.Order.{Below, Below-snoc, get-Below, get_last, insert_absent, insert_last}

IsFrames-snoc :
    (codec : Codec) (rs : List WalRecord) (r : WalRecord) (bytes payload : Bytes)
    → IsFrames codec rs bytes
    → codec.to_allocvec r ≡ some payload
    → verify_checksum codec r ≡ true
    → IsFrames codec (rs ++ r ∷ []) (bytes ++ frame_of payload)
IsFrames-snoc codec [] r bytes payload frames encoded checked =
    (payload, [], encoded, checked, rw (frames, append-nil (frame_of payload)), refl)
IsFrames-snoc codec (x ∷ rs) r bytes payload (p, rest, e, c, split, more) encoded checked = (
  p,
  rest ++ frame_of payload,
  e,
  c,
  rw (split, append_assoc (frame_of p) rest (frame_of payload)),
  IsFrames-snoc codec rs r rest payload more encoded checked,
)

IsStored-snoc :
    (codec : Codec) (segments : Segments) (early late : List WalRecord) (id : ℕ) (bytes : Bytes)
    → IsStored codec segments early
    → IsFrames codec late bytes
    → IsStored codec (segments ++ (id, bytes) ∷ []) (early ++ late)
IsStored-snoc codec [] early late id bytes stored frames =
    (late, [], frames, refl, rw (stored, append-nil late))
IsStored-snoc codec ((j, old) ∷ segments) early late id bytes (mine, later, f, stored, split)
      frames =
    (
      mine,
      later ++ late,
      f,
      IsStored-snoc codec segments later late id bytes stored frames,
      rw (split, append_assoc mine later late),
    )

-- `log` is what the segments hold: closed ones with lower numbers, and the active one, whose file
-- may not be there yet.
pub record IsLog (codec : Codec) (wal : Wal) (log : List WalRecord) : Type 0 where
  pub closed : Segments
  pub active : Bytes
  pub early : List WalRecord
  pub late : List WalRecord
  pub stored : IsStored codec closed early
  pub frames : IsFrames codec late active
  pub below : Below wal.active_segment_id closed
  pub layout :
      (wal.segments ≡ closed ++ (wal.active_segment_id, active) ∷ [])
      ⊎ ((wal.segments ≡ closed) × (active ≡ []))
  pub whole : log ≡ early ++ late

pub total_bytes-snoc :
    (segments : Segments) (id : ℕ) (bytes : Bytes)
    → total_bytes (segments ++ (id, bytes) ∷ []) ≡ total_bytes segments + length bytes
total_bytes-snoc [] id bytes = omega arith
total_bytes-snoc ((j, old) ∷ segments) id bytes = omega (arith, total_bytes-snoc segments id bytes)

module _ (codec : Codec) (wal : Wal) (log : List WalRecord) (l : IsLog codec wal log) where
  pub segment_bytes-IsLog : segment_bytes wal ≡ l.active
  unfolding segment_bytes
  segment_bytes-IsLog = elim l.layout [
    | inl there ↦ rw (there, get_last wal.active_segment_id l.closed l.active l.below)
    | inr (there, empty) ↦ rw (there, get-Below wal.active_segment_id l.closed l.below) (sym empty)
  ]

  -- The active file, written anew, stands behind the closed ones.
  pub extend_segment-IsLog :
      (more : Bytes)
      → (extend_segment more wal).segments
        ≡ l.closed ++ (wal.active_segment_id, l.active ++ more) ∷ []
  unfolding extend_segment
  extend_segment-IsLog more = rw segment_bytes-IsLog (elim l.layout [
    | inl there ↦
        rw there (insert_last wal.active_segment_id l.closed l.active (l.active ++ more) l.below)
    | inr (there, empty) ↦
        rw there (insert_absent wal.active_segment_id l.closed (l.active ++ more) l.below)
  ])

  -- A whole frame in the active file is one more record of the log.
  pub append_frame-IsLog :
      (r : WalRecord) (payload : Bytes)
      → codec.to_allocvec r ≡ some payload
      → verify_checksum codec r ≡ true
      → IsLog codec (extend_segment (frame_of payload) wal) (log ++ r ∷ [])
  unfolding extend_segment
  append_frame-IsLog r payload encoded checked = record {
    closed = l.closed;
    active = l.active ++ frame_of payload;
    early = l.early;
    late = l.late ++ r ∷ [];
    stored = l.stored;
    frames = IsFrames-snoc codec l.late r l.active payload l.frames encoded checked;
    below = l.below;
    layout = inl (extend_segment-IsLog (frame_of payload));
    whole = rw l.whole (append_assoc l.early l.late (r ∷ []));
  }

  rotated :
      wal.active_segment_id + 1 < 2 ^ 64
      → 0 < length l.active
      → IsLog codec (record wal { active_segment_id = (wal.active_segment_id + 1) % 2 ^ 64 }) log
  rotated room nonempty =
      let next : (wal.active_segment_id + 1) % 2 ^ 64 ≡ wal.active_segment_id + 1 = omega arith in
      record {
        closed = l.closed ++ (wal.active_segment_id, l.active) ∷ [];
        active = [];
        early = l.early ++ l.late;
        late = [];
        stored =
            IsStored-snoc codec l.closed l.early l.late wal.active_segment_id l.active l.stored
              l.frames;
        frames = refl;
        below = rw next (Below-snoc wal.active_segment_id l.closed l.active l.below);
        layout = inr (
          elim l.layout [
            | inl there ↦ there
            | inr (there, empty) ↦ absurd (omega (arith, ap (λ (b : Bytes). length b) empty))
          ],
          refl,
        );
        whole = l.whole ∙ sym (append-nil (l.early ++ l.late));
      }

  -- Rotation moves no record.
  pub rotate_if_needed-IsLog :
      (incoming : ℕ)
      → wal.active_segment_id + 1 < 2 ^ 64
      → IsLog codec (rotate_if_needed incoming wal) log
  unfolding rotate_if_needed
  rotate_if_needed-IsLog incoming room =
      rw segment_bytes-IsLog (elim (Bool-cases (ltb 0 (length l.active))) [
        | inl some_bytes ↦
            elim (Bool-cases (ltb wal.runtime.segment_size_bytes (length l.active + incoming))) [
              | inl full ↦
                  rw (some_bytes, full)
                    (rotated room (omega (arith, ltb→lt 0 (length l.active) some_bytes)))
              | inr fits ↦ rw (some_bytes, fits) l
            ]
        | inr no_bytes ↦ rw no_bytes l
      ])

  -- Where postcard reads back what it wrote, the replay of a log returns its records, if the
  -- bytes of the segments are within the configured limit and that is below 2^64.
  pub replay-IsLog :
      RoundTrips codec
      → wal.runtime.max_replay_bytes < 2 ^ 64
      → total_bytes wal.segments ≤ wal.runtime.max_replay_bytes
      → replay codec wal ≡ ok log
  unfolding replay replay_from_dir
  replay-IsLog round word fits = elim l.layout [
    | inl there ↦ rw there (
        replay_segments-IsStored codec round wal.runtime.max_replay_bytes word l.closed l.early
          l.late 0 wal.active_segment_id l.active l.stored
          (replay_segment-IsFrames codec round l.late l.active l.frames
            (omega (arith, size_with there)))
          (omega (arith, size_with there))
        ∙ ap ok (sym l.whole))
    | inr (there, empty) ↦ rw there (
        replay_segments_closed codec round wal.runtime.max_replay_bytes word l.closed l.early 0
          l.stored (omega (arith, ap total_bytes there))
        ∙ ap ok (
            sym (
              l.whole
              ∙ ap (λ late. l.early ++ late) (none_late l.late l.active empty l.frames)
              ∙ append-nil l.early)))
  ]
    where
      size_with :
          wal.segments ≡ l.closed ++ (wal.active_segment_id, l.active) ∷ []
          → total_bytes wal.segments ≡ total_bytes l.closed + length l.active
      size_with there =
          ap total_bytes there ∙ total_bytes-snoc l.closed wal.active_segment_id l.active

      none_late :
          (late : List WalRecord) (active : Bytes)
          → active ≡ []
          → IsFrames codec late active
          → late ≡ []
      none_late [] active e f = refl
      none_late (r ∷ late) active e (payload, rest, encoded, checked, split, more) =
          absurd
            (omega (arith, ap (λ (b : Bytes). length b) (sym e ∙ split), length-frame payload rest))
