-- ===== src/Auth/Compare.antt =====
-- `secure_compare` decides equality.
use Prim.Native.Nat.{digits, differ, bit_xor-bitwise, bit_or-bitwise}
use native.Mathlib.Nat.{le_refl}
use native.Mathlib.Decide.{dec_lt}
use undr.Base.{
  subst, ℕ, zero, suc, ◌+◌, ◌/◌, ◌%◌, ◌≤◌, ◌<◌, max, ◌≡◌, refl, sym, ap, ◌∙◌, ◌↔◌, true, [], ◌∷◌,
  length, bit_xor, bit_or, arith, nat_beq_iff,
}
use undr.Auth.{Bytes, byte_at, compare_loop, secure_compare}

differ-eq_zero : (a b : ℕ) → differ a b ≡ 0 → a ≡ b
differ-eq_zero zero b h = sym h
differ-eq_zero (suc a) zero h = h
differ-eq_zero (suc a) (suc b) h = ap suc (differ-eq_zero a b h)

differ_self : (a : ℕ) → differ a a ≡ 0
differ_self zero = refl
differ_self (suc a) = differ_self a

digits-differ : (n a b : ℕ) → a ≤ n → digits (λ y. y) differ n a b ≡ 0 → a ≡ b
digits-differ zero zero b p h = sym h
digits-differ zero (suc a) b p h = absurd (omega arith)
digits-differ (suc n) zero b p h = sym h
digits-differ (suc n) (suc a) b p h = omega (
  arith,
  digits-differ n (suc a / 2) (b / 2) (omega arith) (omega arith),
  differ-eq_zero (suc a % 2) (b % 2) (omega arith),
)

digits-differ_self : (n a : ℕ) → a ≤ n → digits (λ y. y) differ n a a ≡ 0
digits-differ_self zero zero p = refl
digits-differ_self zero (suc a) p = absurd (omega arith)
digits-differ_self (suc n) zero p = refl
digits-differ_self (suc n) (suc a) p =
    omega (arith, digits-differ_self n (suc a / 2) (omega arith), differ_self (suc a % 2))

digits-max : (n a b : ℕ) → a ≤ n → digits (λ y. y) max n a b ≡ 0 → (a ≡ 0) × (b ≡ 0)
digits-max zero zero b p h = (refl, h)
digits-max zero (suc a) b p h = absurd (omega arith)
digits-max (suc n) zero b p h = (refl, h)
digits-max (suc n) (suc a) b p h =
    let rest = digits-max n (suc a / 2) (b / 2) (omega arith) (omega arith) in
    (omega arith, omega arith)

bit_xor-eq_zero : (a b : ℕ) → bit_xor a b ≡ 0 → a ≡ b
bit_xor-eq_zero a b h = digits-differ a a b (le_refl a) (sym (bit_xor-bitwise a b) ∙ h)

bit_xor_self : (a : ℕ) → bit_xor a a ≡ 0
bit_xor_self a = bit_xor-bitwise a a ∙ digits-differ_self a a (le_refl a)

bit_or-eq_zero : (a b : ℕ) → bit_or a b ≡ 0 → (a ≡ 0) × (b ≡ 0)
bit_or-eq_zero a b h = digits-max a a b (le_refl a) (sym (bit_or-bitwise a b) ∙ h)

-- A loop that ends in 0 began with 0, and its rounds met equal bytes.
compare_loop-eq_zero :
    (rounds index : ℕ) (left right : Bytes) (diff : ℕ)
    → compare_loop rounds index left right diff ≡ 0
    → (diff ≡ 0) × ((i : ℕ) → index ≤ i → i < index + rounds → byte_at left i ≡ byte_at right i)
unfolding compare_loop
compare_loop-eq_zero zero index left right diff h = (h, λ i p q. absurd (omega arith))
compare_loop-eq_zero (suc rounds) index left right diff h =
    let x = bit_xor (byte_at left index) (byte_at right index) in
    let rest = compare_loop-eq_zero rounds (index + 1) left right (bit_or diff x) h in
    let both = bit_or-eq_zero diff x rest.0 in
    (
      both.0,
      λ i p q. elim (dec_lt index i) [
        | yes later ↦ rest.1 i (omega arith) (omega arith)
        | no now ↦
            let e : i ≡ index = omega arith in
            rw e (bit_xor-eq_zero (byte_at left index) (byte_at right index) both.1)
      ],
    )

compare_loop_self : (rounds index : ℕ) (bytes : Bytes) → compare_loop rounds index bytes bytes 0 ≡ 0
unfolding compare_loop
compare_loop_self zero index bytes = refl
compare_loop_self (suc rounds) index bytes =
    rw (bit_xor_self (byte_at bytes index)) (compare_loop_self rounds (index + 1) bytes)

bytes_equal :
    (left right : Bytes)
    → length left ≡ length right
    → ((i : ℕ) → i < length left → byte_at left i ≡ byte_at right i)
    → left ≡ right
bytes_equal [] [] e h = refl
bytes_equal [] (b ∷ right) e h = absurd (omega arith)
bytes_equal (a ∷ left) [] e h = absurd (omega arith)
bytes_equal (a ∷ left) (b ∷ right) e h =
    let tail = bytes_equal left right (omega arith) (λ i p. h (suc i) (omega arith)) in
    cc (tail, h 0 (omega arith))

-- The comparison of two byte strings, whatever their lengths, answers `true` exactly when they are
-- equal.
pub secure_compare_iff : (left right : Bytes) → (secure_compare left right ≡ true) ↔ (left ≡ right)
unfolding secure_compare
secure_compare_iff left right = (
  (λ h.
      let zero_diff =
        compare_loop-eq_zero (max (length left) (length right)) 0 left right
          (bit_xor (length left) (length right)) ((nat_beq_iff _ 0).0 h) in
      let lengths = bit_xor-eq_zero (length left) (length right) zero_diff.0 in
      bytes_equal left right lengths (λ i p. zero_diff.1 i (omega arith) (omega arith))),
  (λ e.
      subst (λ r. secure_compare left r ≡ true) e
        ((nat_beq_iff _ 0).1 (
          rw (bit_xor_self (length left))
            (compare_loop_self (max (length left) (length left)) 0 left)))),
)
