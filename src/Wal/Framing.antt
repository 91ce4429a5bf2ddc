-- ===== src/Wal/Framing.antt =====
-- The frames of `encode_record`, read back by the loop of `replay_from_dir`.
use native.Mathlib.Nat.{pow-suc}
use native.Mathlib.Decide.{dec_lt}
use undr.Base.{
  subst, length-take, append_assoc, ℕ, zero, suc, ◌+◌, ◌-◌, ◌/◌, ◌^◌, ◌<◌, ◌≤◌, ◌≡◌, refl, sym, ap,
  ◌∙◌, [], ◌∷◌, ◌++◌, length, take, drop, arith, lt→leb, le→ltb, lt→ltb, length-append,
  take-length-append, drop-length-append,
}
use undr.Common.{ok, ◌>>=◌}
use undr.Wal.Record.{Bytes, Codec, to_le_bytes, from_le_bytes}
use undr.Wal.Segments.{read_frame, replay_frames}

length-to_le_bytes : (k n : ℕ) → length (to_le_bytes k n) ≡ k
unfolding to_le_bytes
length-to_le_bytes zero n = refl
length-to_le_bytes (suc k) n = ap suc (length-to_le_bytes k (n / 256))

-- A number below 256^k is read back from its k bytes, least significant first.
pub from_le_bytes-to_le_bytes : (k n : ℕ) → n < 256 ^ k → from_le_bytes (to_le_bytes k n) ≡ n
unfolding from_le_bytes to_le_bytes
from_le_bytes-to_le_bytes zero n h = omega arith
from_le_bytes-to_le_bytes (suc k) n h =
    omega (arith, from_le_bytes-to_le_bytes k (n / 256) (omega (arith, pow-suc 256 k)))

-- The frame of a payload.
abbrev pub frame_of : Bytes → Bytes
frame_of payload = to_le_bytes 8 (length payload) ++ payload

module _ (payload rest : Bytes) where
  take_eight : take 8 (frame_of payload ++ rest) ≡ to_le_bytes 8 (length payload)
  unfolding to_le_bytes
  take_eight = refl

  drop_eight : drop 8 (frame_of payload ++ rest) ≡ payload ++ rest
  unfolding to_le_bytes
  drop_eight = refl

  pub length-frame : length (frame_of payload ++ rest) ≡ 8 + length payload + length rest
  unfolding to_le_bytes
  length-frame = omega (arith, length-append payload rest)

-- One round of the loop at a whole frame.
pub replay_frames_step :
    (codec : Codec) (fuel offset : ℕ) (payload rest : Bytes)
    → offset + 8 + length payload < 2 ^ 64
    → replay_frames codec (suc fuel) offset (frame_of payload ++ rest) ≡ (
        read_frame codec payload >>= λ r.
        replay_frames codec fuel (offset + 8 + length payload) rest >>= λ later. ok (r ∷ later))
unfolding replay_frames
replay_frames_step codec fuel offset payload rest bound = rw (
  header,
  drop_eight payload rest,
  le→ltb (length (frame_of payload ++ rest)) 8 (omega (arith, length-frame payload rest)),
  lt→leb (2 ^ 64) (offset + 8 + length payload) bound,
  le→ltb (length (payload ++ rest)) (length payload) (omega (arith, length-append payload rest)),
  take-length-append payload rest,
  drop-length-append payload rest,
)
  where
    header : from_le_bytes (take 8 (frame_of payload ++ rest)) ≡ length payload
    header =
        ap from_le_bytes (take_eight payload rest)
        ∙ from_le_bytes-to_le_bytes 8 (length payload) (omega arith)

take_header : (n : ℕ) (body : Bytes) → take 8 (to_le_bytes 8 n ++ body) ≡ to_le_bytes 8 n
unfolding to_le_bytes
take_header n body = refl

drop_header : (n : ℕ) (body : Bytes) → drop 8 (to_le_bytes 8 n ++ body) ≡ body
unfolding to_le_bytes
drop_header n body = refl

-- A length that says more than the file holds ends the loop.
replay_frames_short :
    (codec : Codec) (fuel offset n : ℕ) (body : Bytes)
    → offset + 8 + n < 2 ^ 64
    → length body < n
    → replay_frames codec (suc fuel) offset (to_le_bytes 8 n ++ body) ≡ ok []
unfolding replay_frames
replay_frames_short codec fuel offset n body bound short = rw (
  header,
  drop_header n body,
  le→ltb (length (to_le_bytes 8 n ++ body)) 8 (omega (arith, size)),
  lt→leb (2 ^ 64) (offset + 8 + n) bound,
  lt→ltb (length body) n short,
)
  where
    header : from_le_bytes (take 8 (to_le_bytes 8 n ++ body)) ≡ n
    header = ap from_le_bytes (take_header n body) ∙ from_le_bytes-to_le_bytes 8 n (omega arith)

    size : length (to_le_bytes 8 n ++ body) ≡ 8 + length body
    size = omega (arith, length-append (to_le_bytes 8 n) body, length-to_le_bytes 8 n)

take_past_header :
    (k : ℕ) (payload : Bytes)
    → take (suc (suc (suc (suc (suc (suc (suc (suc k)))))))) (frame_of payload)
      ≡ to_le_bytes 8 (length payload) ++ take k payload
unfolding to_le_bytes
take_past_header k payload = refl

replay_frames_few :
    (codec : Codec) (fuel offset : ℕ) (rest : Bytes)
    → length rest < 8
    → replay_frames codec (suc fuel) offset rest ≡ ok []
unfolding replay_frames
replay_frames_few codec fuel offset rest few = rw (lt→ltb (length rest) 8 few)

-- What a write that stopped in the middle of a frame leaves behind ends the loop.
pub replay_frames_torn :
    (codec : Codec) (fuel offset count : ℕ) (payload : Bytes)
    → offset + length (frame_of payload) < 2 ^ 64
    → count < length (frame_of payload)
    → replay_frames codec (suc fuel) offset (take count (frame_of payload)) ≡ ok []
replay_frames_torn codec fuel offset count payload bound torn = elim (dec_lt count 8) [
  | yes few ↦
      replay_frames_few codec fuel offset (take count (frame_of payload))
        (omega (arith, length-take count (frame_of payload)))
  | no many ↦
      let eight : count ≡ suc (suc (suc (suc (suc (suc (suc (suc (count - 8)))))))) = omega arith in
      subst (λ k. replay_frames codec (suc fuel) offset (take k (frame_of payload)) ≡ ok [])
        (sym eight)
        (rw (take_past_header (count - 8) payload) (
          replay_frames_short codec fuel offset (length payload) (take (count - 8) payload)
            (omega (arith, frame_size))
            (omega (arith, length-take (count - 8) payload, frame_size))))
]
  where
    frame_size : length (frame_of payload) ≡ 8 + length payload
    frame_size = omega (
      arith,
      length-append (to_le_bytes 8 (length payload)) payload,
      length-to_le_bytes 8 (length payload),
    )

pub length-frame_of : (payload : Bytes) → length (frame_of payload) ≡ 8 + length payload
length-frame_of payload = omega (
  arith,
  length-append (to_le_bytes 8 (length payload)) payload,
  length-to_le_bytes 8 (length payload),
)

-- A frame that is cut short after its length, with less behind it than it lacks, ends the loop.
pub replay_frames_stuck :
    (codec : Codec) (fuel offset count : ℕ) (payload more : Bytes)
    → offset + length (frame_of payload) < 2 ^ 64
    → 8 ≤ count
    → count - 8 + length more < length payload
    → replay_frames codec (suc fuel) offset (take count (frame_of payload) ++ more) ≡ ok []
replay_frames_stuck codec fuel offset count payload more bound past short =
    let eight : count ≡ suc (suc (suc (suc (suc (suc (suc (suc (count - 8)))))))) = omega arith in
    subst (λ k. replay_frames codec (suc fuel) offset (take k (frame_of payload) ++ more) ≡ ok [])
      (sym eight)
      (rw
        (
          take_past_header (count - 8) payload,
          append_assoc (to_le_bytes 8 (length payload)) (take (count - 8) payload) more,
        )
        (replay_frames_short codec fuel offset (length payload) (take (count - 8) payload ++ more)
          (omega (arith, length-frame_of payload))
          (omega (
            arith,
            length-append (take (count - 8) payload) more,
            length-take (count - 8) payload,
          ))))
