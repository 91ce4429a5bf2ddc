-- ===== src/Core/Value.antt =====
-- `PropertyValue` of crates/core/src/lib.rs. An f64 or an f32 is its IEEE 754 bit pattern; the
-- conversions `as i64` and `as f32` of the language are computed on the patterns.
use undr.Base.{
  ℕ, zero, suc, ◌+◌, ◌-◌, ◌*◌, ◌/◌, ◌%◌, ◌^◌, ◌≡◌, refl, Bool, ◌&&◌, ◌||◌, String, List, Option,
  none, some, ltb, leb, nat_beq, if◌then◌else◌,
}
use undr.Base.Int.{ℤ, pos, negsuc}

pub data PropertyValue : Type 0 where
  string : String → PropertyValue
  integer : ℤ → PropertyValue
  float : ℕ → PropertyValue
  boolean : Bool → PropertyValue
  string_list : List String → PropertyValue
  float_list : List ℕ → PropertyValue

abbrev pub sign_bit : ℕ → ℕ
sign_bit bits = bits / 2 ^ 63 % 2

abbrev pub exponent : ℕ → ℕ
exponent bits = bits / 2 ^ 52 % 2 ^ 11

abbrev pub fraction : ℕ → ℕ
fraction bits = bits % 2 ^ 52

abbrev pub is_nan : ℕ → Bool
is_nan bits = nat_beq (exponent bits) 2047 && ltb 0 (fraction bits)

-- The integral part of the absolute value, and 2^63 for everything from there on.
truncated : ℕ → ℕ
truncated bits =
    if leb 1086 (exponent bits)
    then 2 ^ 63
    else if leb 1075 (exponent bits)
    then (2 ^ 52 + fraction bits) * 2 ^ (exponent bits - 1075)
    else if nat_beq (exponent bits) 0
    then 0
    else (2 ^ 52 + fraction bits) / 2 ^ (1075 - exponent bits)

-- `value as i64`: towards zero, saturating, and 0 for a NaN.
unfoldable pub f64_to_i64 : ℕ → ℤ
unfolding truncated
f64_to_i64 bits =
    let m = truncated bits in
    if is_nan bits
    then pos 0
    else if nat_beq (sign_bit bits) 0
    then (if leb (2 ^ 63) m then pos (2 ^ 63 - 1) else pos m)
    else if nat_beq m 0
    then pos 0
    else negsuc (m - 1)

-- The number of binary digits.
unfoldable pub bit_length : ℕ → ℕ → ℕ
bit_length zero m = 0
bit_length (suc fuel) m =
    let rest = suc (bit_length fuel (m / 2)) in if nat_beq m 0 then 0 else rest

-- m / 2^k, rounded to nearest, ties to even.
unfoldable pub round_shift : ℕ → ℕ → ℕ
round_shift m k =
    let q = m / 2 ^ k in
    let twice = m % 2 ^ k * 2 in
    if ltb (2 ^ k) twice || (nat_beq twice (2 ^ k) && nat_beq (q % 2) 1) then q + 1 else q

-- The f32 pattern nearest to m * 2^(x - 1074), without its sign.
nearest_f32 : ℕ → ℕ → ℕ
unfolding bit_length round_shift
nearest_f32 m x =
    let top = bit_length 64 m + x - 1 in
    let quantum = if leb 948 top then top - 23 else 925 in
    let r = if leb quantum x then m * 2 ^ (x - quantum) else round_shift m (quantum - x) in
    let packed = if leb 948 top then (top - 948) * 2 ^ 23 + r else r in
    if nat_beq m 0 then 0 else if leb (255 * 2 ^ 23) packed then 255 * 2 ^ 23 else packed

-- `value as f32` of an i64, and of an f64
unfoldable pub i64_to_f32 : ℤ → ℕ
unfolding nearest_f32
i64_to_f32 (pos n) = nearest_f32 n 1074
i64_to_f32 (negsuc n) = 2 ^ 31 + nearest_f32 (suc n) 1074

unfoldable pub f64_to_f32 : ℕ → ℕ
unfolding nearest_f32
f64_to_f32 bits =
    sign_bit bits * 2 ^ 31
    + (if nat_beq (exponent bits) 2047
        then (255 * 2 ^ 23
            + (if nat_beq (fraction bits) 0 then 0 else 2 ^ 22 + fraction bits / 2 ^ 29 % 2 ^ 22))
        else if nat_beq (exponent bits) 0
        then nearest_f32 (fraction bits) 0
        else nearest_f32 (2 ^ 52 + fraction bits) (exponent bits - 1))

unfoldable pub as_i64 : PropertyValue → Option ℤ
as_i64 (integer value) = some value
as_i64 (float value) = some (f64_to_i64 value)
as_i64 value = none

unfoldable pub as_f32 : PropertyValue → Option ℕ
as_f32 (integer value) = some (i64_to_f32 value)
as_f32 (float value) = some (f64_to_f32 value)
as_f32 value = none

-- -3.75, and 2^63 saturates
truncates_towards_zero : f64_to_i64 0xc00e000000000000 ≡ negsuc 2
unfolding f64_to_i64
truncates_towards_zero = refl

saturates : f64_to_i64 0x43e0000000000000 ≡ pos 9223372036854775807
unfolding f64_to_i64
saturates = refl

-- 1 is 0x3f800000, 2^24 + 1 rounds to 2^24, 0.1 is 0x3dcccccd, and 2^-149 the least pattern
one_as_f32 : i64_to_f32 (pos 1) ≡ 0x3f800000
unfolding i64_to_f32
one_as_f32 = refl

ties_to_even : i64_to_f32 (pos 16777217) ≡ 0x4b800000
unfolding i64_to_f32
ties_to_even = refl

tenth_as_f32 : f64_to_f32 0x3fb999999999999a ≡ 0x3dcccccd
unfolding f64_to_f32
tenth_as_f32 = refl

least_as_f32 : f64_to_f32 0x36a0000000000000 ≡ 1
unfolding f64_to_f32
least_as_f32 = refl
