-- ===== src/Wal/Record.antt =====
-- The records of the log and their frames: a length in eight bytes, least significant first, and
-- the serialised record.
use undr.Base.{
  ℕ, zero, suc, ◌≡◌, ◌+◌, ◌*◌, ◌/◌, ◌%◌, ◌^◌, Bool, List, [], ◌∷◌, ◌++◌, Option, none, some, length,
  ltb, nat_beq, if◌then◌else◌,
}
use undr.Common.{Result, ok, err, validation, serialization}

abbrev pub Bytes : Type 0
Bytes = List ℕ

pub data WalRecordKind : Type 0 where
  write_batch checkpoint manifest_sync consolidation_event : WalRecordKind

pub record WalRecordHeader : Type 0 where
  pub lsn : ℕ
  pub kind : WalRecordKind
  pub payload_len : ℕ
  pub payload_crc32 : ℕ
  pub format_version : ℕ

pub record WalRecord : Type 0 where
  pub header : WalRecordHeader
  pub payload : Bytes

-- What the crates crc32fast and postcard do: a checksum, and a serialiser that may fail.
pub record Codec : Type 0 where
  pub crc32 : Bytes → ℕ
  pub to_allocvec : WalRecord → Option Bytes
  pub from_bytes : Bytes → Option WalRecord

-- postcard reads back what it wrote.
abbrev pub RoundTrips : Codec → Type 0
RoundTrips codec =
    (r : WalRecord) (bytes : Bytes)
    → codec.to_allocvec r ≡ some bytes
    → codec.from_bytes bytes ≡ some r

module _ (codec : Codec) where
  unfoldable pub new_record : ℕ → WalRecordKind → Bytes → Result WalRecord
  new_record lsn kind payload =
      if ltb (length payload) (2 ^ 32)
      then ok (record {
        header = record {
          lsn = lsn;
          kind = kind;
          payload_len = length payload;
          payload_crc32 = codec.crc32 payload;
          format_version = 1;
        };
        payload = payload;
      })
      else err validation

  unfoldable pub verify_checksum : WalRecord → Bool
  verify_checksum r = nat_beq (codec.crc32 r.payload) r.header.payload_crc32

-- `u64::to_le_bytes` and `u64::from_le_bytes`, for any number of bytes.
unfoldable pub to_le_bytes : ℕ → ℕ → Bytes
to_le_bytes zero n = []
to_le_bytes (suc k) n = (n % 256) ∷ to_le_bytes k (n / 256)

unfoldable pub from_le_bytes : Bytes → ℕ
from_le_bytes [] = 0
from_le_bytes (b ∷ bytes) = b + 256 * from_le_bytes bytes

module _ (codec : Codec) where
  unfoldable pub encode_record : WalRecord → Result Bytes
  encode_record r = elim (codec.to_allocvec r) [
    | none ↦ err serialization
    | some payload ↦ ok (to_le_bytes 8 (length payload) ++ payload)
  ]
