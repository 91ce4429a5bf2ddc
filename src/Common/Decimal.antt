-- ===== src/Common/Decimal.antt =====
-- `format!("tx_{}", ordinal)` of crates/storage/src/lib.rs: decimal printing of a u64.
use native.Mathlib.Nat.{pow-suc}
use undr.Base.{
  ℕ, zero, suc, ◌+◌, ◌-◌, ◌*◌, ◌/◌, ◌%◌, ◌^◌, ◌<◌, ◌≡◌, refl, sym, ap, ◌∙◌, true, String, Char,
  code, arith, ltb, all_chars, if◌then◌else◌, Bool-cases, inl, inr,
}
use undr.Common.{ok, is_identifier_char, new_identifier}
use undr.Common.Identifiers.{new_identifier_iff, all_chars_iff}

unfoldable pub digit : ℕ → Char
digit zero = "0"
digit (suc zero) = "1"
digit (suc (suc zero)) = "2"
digit (suc (suc (suc zero))) = "3"
digit (suc (suc (suc (suc zero)))) = "4"
digit (suc (suc (suc (suc (suc zero))))) = "5"
digit (suc (suc (suc (suc (suc (suc zero)))))) = "6"
digit (suc (suc (suc (suc (suc (suc (suc zero))))))) = "7"
digit (suc (suc (suc (suc (suc (suc (suc (suc zero)))))))) = "8"
digit (suc (suc (suc (suc (suc (suc (suc (suc (suc n))))))))) = "9"

-- The digits of `n` before the text `rest`. A u64 has at most 20 digits, the fuel of `decimal`.
unfoldable pub print : ℕ → ℕ → String → String
unfolding digit
print zero n rest = rest
print (suc fuel) n rest =
    let shorter = print fuel (n / 10) (String.◌∷◌ (digit (n % 10)) rest) in
    if ltb n 10 then String.◌∷◌ (digit (n % 10)) rest else shorter

unfoldable pub decimal : ℕ → String
unfolding print
decimal n = print 20 n ""

unfoldable pub transaction_name : ℕ → String
unfolding decimal
transaction_name ordinal = String.◌∷◌ "t" (String.◌∷◌ "x" (String.◌∷◌ "_" (decimal ordinal)))

transaction_name_runs : transaction_name 1070 ≡ "tx_1070"
unfolding transaction_name
transaction_name_runs = refl

-- The number that a text of digits denotes, read on from `n`.
value : ℕ → String → ℕ
value n String.[] = n
value n (String.◌∷◌ c s) = value (n * 10 + (code c - 48)) s

code-digit : (d : ℕ) → d < 10 → code (digit d) - 48 ≡ d
unfolding digit
code-digit zero h = refl
code-digit (suc zero) h = refl
code-digit (suc (suc zero)) h = refl
code-digit (suc (suc (suc zero))) h = refl
code-digit (suc (suc (suc (suc zero)))) h = refl
code-digit (suc (suc (suc (suc (suc zero))))) h = refl
code-digit (suc (suc (suc (suc (suc (suc zero)))))) h = refl
code-digit (suc (suc (suc (suc (suc (suc (suc zero))))))) h = refl
code-digit (suc (suc (suc (suc (suc (suc (suc (suc zero)))))))) h = refl
code-digit (suc (suc (suc (suc (suc (suc (suc (suc (suc n))))))))) h = omega arith

is_identifier_char-digit : (d : ℕ) → is_identifier_char (digit d) ≡ true
unfolding digit is_identifier_char
is_identifier_char-digit zero = refl
is_identifier_char-digit (suc zero) = refl
is_identifier_char-digit (suc (suc zero)) = refl
is_identifier_char-digit (suc (suc (suc zero))) = refl
is_identifier_char-digit (suc (suc (suc (suc zero)))) = refl
is_identifier_char-digit (suc (suc (suc (suc (suc zero))))) = refl
is_identifier_char-digit (suc (suc (suc (suc (suc (suc zero)))))) = refl
is_identifier_char-digit (suc (suc (suc (suc (suc (suc (suc zero))))))) = refl
is_identifier_char-digit (suc (suc (suc (suc (suc (suc (suc (suc zero)))))))) = refl
is_identifier_char-digit (suc (suc (suc (suc (suc (suc (suc (suc (suc n))))))))) = refl

value-digit :
    (n d : ℕ) (rest : String)
    → d < 10
    → value n (String.◌∷◌ (digit d) rest) ≡ value (n * 10 + d) rest
unfolding value
value-digit n d rest h = ap (λ k. value (n * 10 + k) rest) (code-digit d h)

value-print :
    (fuel n : ℕ) (rest : String) → n < 10 ^ fuel → value 0 (print fuel n rest) ≡ value n rest
unfolding print
value-print zero n rest h = ap (λ k. value k rest) (omega arith)
value-print (suc fuel) n rest h = elim (Bool-cases (ltb n 10)) [
  | inl small ↦
      rw small (value-digit 0 (n % 10) rest (omega arith) ∙ ap (λ k. value k rest) (ground arith))
  | inr more ↦ rw more (
      value-print fuel (n / 10) (String.◌∷◌ (digit (n % 10)) rest) (omega (arith, pow-suc 10 fuel))
      ∙ value-digit (n / 10) (n % 10) rest (omega arith)
      ∙ ap (λ k. value k rest) (omega arith))
]

all_chars-print :
    (fuel n : ℕ) (rest : String)
    → all_chars is_identifier_char rest ≡ true
    → all_chars is_identifier_char (print fuel n rest) ≡ true
unfolding print
all_chars-print zero n rest h = h
all_chars-print (suc fuel) n rest h = ground (
  arith,
  is_identifier_char-digit (n % 10),
  all_chars-print fuel (n / 10) (String.◌∷◌ (digit (n % 10)) rest),
)

-- Every ordinal gives a transaction identifier, so `begin_transaction` does not
-- panic.
pub new_identifier-transaction_name :
    (ordinal : ℕ) → new_identifier (transaction_name ordinal) ≡ ok (transaction_name ordinal)
unfolding transaction_name decimal is_identifier_char
new_identifier-transaction_name ordinal =
    (new_identifier_iff (transaction_name ordinal)).0.1
      ((λ e. cc), (all_chars_iff (transaction_name ordinal)).0 (all_chars-print 20 ordinal "" refl))

-- Different ordinals give different identifiers.
pub transaction_name-injective :
    (a b : ℕ) → a < 2 ^ 64 → b < 2 ^ 64 → transaction_name a ≡ transaction_name b → a ≡ b
unfolding transaction_name decimal value
transaction_name-injective a b p q e =
    sym (value-print 20 a "" (omega arith))
    ∙ ap (λ s. value 0 (skip s)) e
    ∙ value-print 20 b "" (omega arith)
  where
    skip : String → String
    skip (String.◌∷◌ t (String.◌∷◌ x (String.◌∷◌ u s))) = s
    skip s = s
