-- ===== src/Common/Identifiers.antt =====
-- Which texts are identifiers, and that the generated transaction identifiers are.
use undr.Base.{
  ◌≡◌, ◌≤◌, ◌⊎◌, inr, code, refl, ◌↔◌, ◌≢◌, true, false, String, Char, arith, is_blank, all_chars,
  is_whitespace,
}
use undr.Common.{ok, err, validation, validate_identifier, new_identifier, is_identifier_char}

not_whitespace : (c : Char) → is_identifier_char c ≡ true → is_whitespace c ≡ false
unfolding is_identifier_char
not_whitespace c h = ground arith

not_blank :
    (c : Char) (s : String) → is_identifier_char c ≡ true → is_blank (String.◌∷◌ c s) ≡ false
not_blank c s h = ground (arith, not_whitespace c)

-- An ASCII letter, a digit, '-', '_' or ':', by its code point.
abbrev pub IsIdentifierChar : Char → Type 0
IsIdentifierChar c =
    ((b'a' ≤ code c) × (code c ≤ b'z'))
    ⊎ ((b'A' ≤ code c) × (code c ≤ b'Z'))
    ⊎ ((b'0' ≤ code c) × (code c ≤ b'9'))
    ⊎ (code c ≡ b'-')
    ⊎ (code c ≡ b'_')
    ⊎ (code c ≡ b':')

abbrev pub AreIdentifierChars : String → Type 0
AreIdentifierChars String.[] = Unit
AreIdentifierChars (String.◌∷◌ c s) = IsIdentifierChar c × AreIdentifierChars s

abbrev pub IsIdentifier : String → Type 0
IsIdentifier value = (value ≢ "") × AreIdentifierChars value

is_identifier_char_iff : (c : Char) → (is_identifier_char c ≡ true) ↔ IsIdentifierChar c
unfolding is_identifier_char
is_identifier_char_iff c = ((λ h. ground arith), (λ h. ground arith))

pub all_chars_iff : (s : String) → (all_chars is_identifier_char s ≡ true) ↔ AreIdentifierChars s
all_chars_iff String.[] = ((λ h. tt), (λ h. refl))
all_chars_iff (String.◌∷◌ c s) = (
  (λ h. ((is_identifier_char_iff c).0 (ground arith), (all_chars_iff s).0 (ground arith))),
  (λ h. ground (arith, (is_identifier_char_iff c).1 h.0, (all_chars_iff s).1 h.1)),
)

-- A text becomes an identifier exactly when it is not empty and all its characters are ASCII
-- letters, digits, '-', '_' or ':'; it is then kept as it is. Every other text is refused with a
-- validation error.
pub new_identifier_iff :
    (value : String)
    → ((new_identifier value ≡ ok value) ↔ IsIdentifier value)
      × ((new_identifier value ≡ ok value) ⊎ (new_identifier value ≡ err validation))
unfolding new_identifier validate_identifier
new_identifier_iff String.[] = (((λ h. cc), (λ h. absurd (h.0 refl))), inr refl)
new_identifier_iff (String.◌∷◌ c s) = (
  (
    (λ h. ((λ e. cc), (all_chars_iff (String.◌∷◌ c s)).0 (ground arith))),
    (λ h. ground (arith, not_blank c s, (all_chars_iff (String.◌∷◌ c s)).1 h.1)),
  ),
  ground arith,
)
