-- ===== src/Tests/Access.antt =====
-- Identifiers and keys (crates/common/src/lib.rs, crates/auth/src/lib.rs).
use undr.Base.{ℕ, ◌≡◌, ◌↔◌, ◌⊎◌, refl, true, [], ◌∷◌, arith}
use undr.Common.{ok, err, validation, new_identifier}
use undr.Common.Identifiers.{IsIdentifier, new_identifier_iff}
use undr.Common.Decimal.{transaction_name-injective}
use undr.Auth.{Bytes, AuthConfig, write, secure_compare}
use undr.Auth.Compare.{secure_compare_iff}
use undr.Auth.Access.{May, Granted, May-iff}

new_identifier_iff_example :
    ((new_identifier "node:7" ≡ ok "node:7") ↔ IsIdentifier "node:7")
    × ((new_identifier "node:7" ≡ ok "node:7") ⊎ (new_identifier "node:7" ≡ err validation))
new_identifier_iff_example = new_identifier_iff "node:7"

transaction_name-injective_example : ◌≡◌ {A = ℕ} 12 12
transaction_name-injective_example =
    transaction_name-injective 12 12 (omega arith) (omega arith) refl

abbrev config : AuthConfig
config = record {
  enabled = true;
  bootstrap_admin_username = "root";
  admin_api_key = 1 ∷ 2 ∷ 3 ∷ [];
  writer_api_key = 1 ∷ 2 ∷ [];
  reader_api_key = 9 ∷ [];
}

secure_compare_iff_example :
    (secure_compare (1 ∷ 2 ∷ 3 ∷ []) (1 ∷ 2 ∷ []) ≡ true)
    ↔ (◌≡◌ {A = Bytes} (1 ∷ 2 ∷ 3 ∷ []) (1 ∷ 2 ∷ []))
secure_compare_iff_example = secure_compare_iff (1 ∷ 2 ∷ 3 ∷ []) (1 ∷ 2 ∷ [])

May-iff_example : May config (1 ∷ 2 ∷ []) write ↔ Granted config (1 ∷ 2 ∷ []) write
May-iff_example = May-iff config (1 ∷ 2 ∷ []) write
