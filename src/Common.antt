-- ===== src/Common.antt =====
-- crates/common/src/lib.rs: the error type, the identifiers and their validation. An identifier is
-- the text that its newtype wraps. The text of an error message is not modelled.
pub mod Identifiers
pub mod Decimal
use undr.Base.{
  ℕ, Bool, true, false, ◌&&◌, ◌||◌, String, Char, code, nat_beq, is_blank, is_ascii_alphanumeric,
  all_chars, if◌then◌else◌,
}

pub data Undr9Error : Type 0 where
  validation conflict io serialization not_found corruption : Undr9Error

-- `Result<T>`, and `panic` where the code would abort instead of returning.
pub data Result {ℓ} (A : Type ℓ) : Type ℓ where
  ok : A → Result A
  err : Undr9Error → Result A
  panic : Result A

infixl 5 ◌>>=◌ ◌>>◌
abbrev pub ◌>>=◌ {ℓ κ} : {A : Type ℓ} {B : Type κ} → Result A → (A → Result B) → Result B
ok a >>= f = f a
err e >>= f = err e
panic >>= f = panic

abbrev pub ◌>>◌ {ℓ} : {B : Type ℓ} → Result (Unit {0}) → Result B → Result B
m >> k = m >>= λ _. k

-- `if !test { return Err(error) }`
abbrev pub ensure : Bool → Undr9Error → Result (Unit {0})
ensure true e = ok tt
ensure false e = err e

abbrev pub NodeId : Type 0
NodeId = String

abbrev pub EdgeId : Type 0
EdgeId = String

abbrev pub TransactionId : Type 0
TransactionId = String

unfoldable pub is_identifier_char : Char → Bool
is_identifier_char c =
    is_ascii_alphanumeric c
    || nat_beq (code c) b'-'
    || nat_beq (code c) b'_'
    || nat_beq (code c) b':'

unfoldable pub validate_identifier : String → Result (Unit {0})
validate_identifier value =
    if is_blank value
    then err validation
    else if all_chars is_identifier_char value
    then ok tt
    else err validation

-- `NodeId::new`, `EdgeId::new` and `TransactionId::new`, which differ in their messages alone.
unfoldable pub new_identifier : String → Result String
new_identifier value = do validate_identifier value; ok value
