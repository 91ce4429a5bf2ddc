-- ===== src/Auth.antt =====
-- crates/auth/src/lib.rs, and `AuthConfig` of crates/config/src/lib.rs. A key is the bytes of its
-- text, as `secure_compare` reads it.
pub mod Compare
pub mod Access
use undr.Base.{
  ℕ, zero, suc, ◌+◌, ◌-◌, Bool, true, false, String, List, [], ◌∷◌, length, max, bit_xor, bit_or,
  nat_beq, if◌then◌else◌,
}
use undr.Common.{Result, ok, err, validation}

pub data Role : Type 0 where
  reader writer admin : Role

pub data Action : Type 0 where
  read write administer maintain : Action

pub record Principal : Type 0 where
  pub name : String
  pub role : Role

abbrev pub Bytes : Type 0
Bytes = List ℕ

pub record AuthConfig : Type 0 where
  pub enabled : Bool
  pub bootstrap_admin_username : String
  pub admin_api_key : Bytes
  pub writer_api_key : Bytes
  pub reader_api_key : Bytes

unfoldable pub role_allows : Role → Action → Bool
role_allows admin action = true
role_allows writer read = true
role_allows writer write = true
role_allows writer action = false
role_allows reader read = true
role_allows reader action = false

unfoldable pub is_allowed : Principal → Action → Bool
is_allowed principal action = role_allows principal.role action

-- `bytes.get(index).copied().unwrap_or(0)`
abbrev pub byte_at : Bytes → ℕ → ℕ
byte_at [] index = 0
byte_at (b ∷ bytes) zero = b
byte_at (b ∷ bytes) (suc index) = byte_at bytes index

-- The rounds `index .. index + rounds` of the loop of `secure_compare`.
unfoldable pub compare_loop : ℕ → ℕ → Bytes → Bytes → ℕ → ℕ
compare_loop zero index left right diff = diff
compare_loop (suc rounds) index left right diff =
    compare_loop rounds (index + 1) left right
      (bit_or diff (bit_xor (byte_at left index) (byte_at right index)))

unfoldable pub secure_compare : Bytes → Bytes → Bool
unfolding compare_loop
secure_compare left right =
    nat_beq
      (compare_loop (max (length left) (length right)) 0 left right
        (bit_xor (length left) (length right)))
      0

unfoldable pub authenticate : AuthConfig → Bytes → Result Principal
authenticate config api_key =
    if secure_compare api_key config.admin_api_key
    then ok (record { name = config.bootstrap_admin_username; role = admin })
    else if secure_compare api_key config.writer_api_key
    then ok (record { name = "writer"; role = writer })
    else if secure_compare api_key config.reader_api_key
    then ok (record { name = "reader"; role = reader })
    else err validation
