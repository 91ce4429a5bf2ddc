-- ===== src/Base/Text.antt =====
-- Characters and texts: the tests of the standard library that the program uses.
use Prim.Native.Nat.{ℕ}
use Prim.Native.Char.{Char, code}
use Prim.Native.String.{String}
use mathlib.Core.Bool.{Bool, true, ◌&&◌, ◌||◌}
use mathlib.Core.Option
use mathlib.Core.Option.{Option, none, some}
use undr.Base.Tests.{leb, nat_beq, if◌then◌else◌}

-- `char::is_whitespace`: the code points with the property White_Space.
abbrev pub is_whitespace : Char → Bool
is_whitespace ch =
    let c = code ch in
    (leb 9 c && leb c 13)
    || nat_beq c 32
    || nat_beq c 0x85
    || nat_beq c 0xa0
    || nat_beq c 0x1680
    || (leb 0x2000 c && leb c 0x200a)
    || nat_beq c 0x2028
    || nat_beq c 0x2029
    || nat_beq c 0x202f
    || nat_beq c 0x205f
    || nat_beq c 0x3000

-- `char::is_ascii_alphanumeric`
abbrev pub is_ascii_alphanumeric : Char → Bool
is_ascii_alphanumeric ch =
    let c = code ch in (leb 48 c && leb c 57) || (leb 65 c && leb c 90) || (leb 97 c && leb c 122)

-- `text.chars().all(p)`
abbrev pub all_chars : (Char → Bool) → String → Bool
all_chars p String.[] = true
all_chars p (String.◌∷◌ c s) = p c && all_chars p s

-- `text.trim().is_empty()`: nothing is left when the white space at both ends is cut.
abbrev pub is_blank : String → Bool
is_blank s = all_chars is_whitespace s

-- `text.split_once(sep).map(|(before, _)| before)`
abbrev pub before_first : ℕ → String → Option String
before_first sep String.[] = none
before_first sep (String.◌∷◌ c s) =
    if nat_beq (code c) sep then some "" else Option.map (λ t. String.◌∷◌ c t) (before_first sep s)
