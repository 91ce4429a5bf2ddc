-- ===== src/Query/Filter.antt =====
-- `FilterExpression`: validation, the number of its leaves and the test of a node. The lists of
-- conditions are a type of their own. Numbers are compared as f64, on the bit patterns.
pub mod Laws
use Prim.Native.Nat.{compare, Ordering}
use undr.Base.{
  ℕ, zero, suc, ◌+◌, ◌-◌, ◌*◌, ◌%◌, ◌^◌, ◌≡◌, Bool, true, false, not, ◌&&◌, ◌||◌, String, List, [],
  ◌∷◌, Option, none, some, leb, nat_beq, is_blank, string_key, ◌==◌, if◌then◌else◌,
}
use undr.Base.Int.{ℤ, pos, negsuc, pos_part, neg_part, int_beq}
use undr.Base.Map.{mapped}
use undr.Common.{Result, ok, err, validation, ensure, ◌>>=◌, ◌>>◌}
use undr.Core.Value.{
  PropertyValue, string, integer, float, boolean, string_list, float_list, sign_bit, is_nan,
  bit_length, round_shift,
}
use undr.Core.Records.{NodeRecord, property, and_then}

mutual
  pub data FilterExpression : Type 0 where
    eq : String → PropertyValue → FilterExpression
    gt : String → PropertyValue → FilterExpression
    gte : String → PropertyValue → FilterExpression
    lt : String → PropertyValue → FilterExpression
    lte : String → PropertyValue → FilterExpression
    all_of : Conditions → FilterExpression
    any_of : Conditions → FilterExpression

  pub data Conditions : Type 0 where
    done : Conditions
    also : FilterExpression → Conditions → Conditions

-- `value as f64` of an i64: to nearest, ties to even.
abbrev magnitude_to_f64 : ℕ → ℕ
magnitude_to_f64 m =
    let length = bit_length 64 m in
    let significand =
      if leb length 53 then m * 2 ^ (53 - length) else round_shift m (length - 53) in
    if nat_beq m 0 then 0 else (length + 1021) * 2 ^ 52 + significand

unfoldable pub i64_to_f64 : ℤ → ℕ
unfolding bit_length round_shift
i64_to_f64 (pos n) = magnitude_to_f64 n
i64_to_f64 (negsuc n) = 2 ^ 63 + magnitude_to_f64 (suc n)

abbrev negated : ℕ → ℤ
negated zero = pos 0
negated (suc n) = negsuc n

-- The order of the f64 that are numbers is the order of these integers.
unfoldable pub f64_rank : ℕ → ℤ
f64_rank bits = if nat_beq (sign_bit bits) 0 then pos (bits % 2 ^ 63) else negated (bits % 2 ^ 63)

abbrev pub compare_ℤ : ℤ → ℤ → Ordering
compare_ℤ a b = compare (pos_part a + neg_part b) (pos_part b + neg_part a)

-- `left.partial_cmp(&right)`
unfoldable pub partial_cmp : ℕ → ℕ → Option Ordering
unfolding f64_rank
partial_cmp left right =
    if is_nan left || is_nan right then none else some (compare_ℤ (f64_rank left) (f64_rank right))

abbrev pub is_ordering : Ordering → Ordering → Bool
is_ordering Ordering.lt Ordering.lt = true
is_ordering Ordering.eq Ordering.eq = true
is_ordering Ordering.gt Ordering.gt = true
is_ordering a b = false

unfoldable pub property_value_as_f64 : PropertyValue → Option ℕ
unfolding i64_to_f64
property_value_as_f64 (integer value) = some (i64_to_f64 value)
property_value_as_f64 (float value) = some value
property_value_as_f64 value = none

unfoldable pub compare_numeric_property_values : Option ℕ → PropertyValue → Option Ordering
unfolding partial_cmp property_value_as_f64
compare_numeric_property_values left right =
    and_then left λ l. and_then (property_value_as_f64 right) λ r. partial_cmp l r

abbrev ordered : (Ordering → Bool) → Option Ordering → Bool
ordered test none = false
ordered test (some ordering) = test ordering

unfoldable pub compare_property_values : Option ℕ → PropertyValue → Ordering → Bool
unfolding compare_numeric_property_values
compare_property_values left right expected =
    ordered (λ o. is_ordering o expected) (compare_numeric_property_values left right)

unfoldable pub compare_property_values_inclusive : Option ℕ → PropertyValue → Ordering → Bool
unfolding compare_numeric_property_values
compare_property_values_inclusive left right expected =
    ordered (λ o. is_ordering o expected || is_ordering o Ordering.eq)
      (compare_numeric_property_values left right)

-- `==` of two f32: equal patterns that are numbers, or two zeros.
abbrev f32_eq : ℕ → ℕ → Bool
f32_eq a b =
    not (leb (255 * 2 ^ 23 + 1) (a % 2 ^ 31) || leb (255 * 2 ^ 23 + 1) (b % 2 ^ 31))
    && (nat_beq a b || (nat_beq (a % 2 ^ 31) 0 && nat_beq (b % 2 ^ 31) 0))

abbrev lists_eq {ℓ} : {A : Type ℓ} → (A → A → Bool) → List A → List A → Bool
lists_eq test [] [] = true
lists_eq test (x ∷ xs) (y ∷ ys) = test x y && lists_eq test xs ys
lists_eq test [] (y ∷ ys) = false
lists_eq test (x ∷ xs) [] = false

abbrev bools_eq : Bool → Bool → Bool
bools_eq true b = b
bools_eq false b = not b

-- `left == right` of two values that are not both numbers.
abbrev values_eq : PropertyValue → PropertyValue → Bool
values_eq (string a) (string b) = a == b
values_eq (boolean a) (boolean b) = bools_eq a b
values_eq (string_list a) (string_list b) = lists_eq string_key.beq a b
values_eq (float_list a) (float_list b) = lists_eq f32_eq a b
values_eq a b = false

abbrev numbers_or : Option ℕ → Option ℕ → Bool → Bool
numbers_or (some a) (some b) otherwise = ordered (λ o. is_ordering o Ordering.eq) (partial_cmp a b)
numbers_or none b otherwise = otherwise
numbers_or (some a) none otherwise = otherwise

unfoldable pub property_values_equal : PropertyValue → PropertyValue → Bool
unfolding partial_cmp property_value_as_f64
property_values_equal left right =
    numbers_or (property_value_as_f64 left) (property_value_as_f64 right) (values_eq left right)

abbrev is_text : String → PropertyValue → Bool
is_text text (string expected) = text == expected
is_text text value = false

unfoldable pub field_matches_eq : NodeRecord → String → PropertyValue → Bool
field_matches_eq node field value =
    if field == "id"
    then is_text node.id value
    else if field == "label"
    then is_text node.node_type value
    else false

unfoldable pub require_field : String → Result (Unit {0})
require_field field = ensure (not (is_blank field)) validation

abbrev is_number : Option ℕ → Bool
is_number none = false
is_number (some bits) = true

-- A comparison wants a field and a number.
unfoldable pub validate_comparison : String → PropertyValue → Result (Unit {0})
unfolding require_field property_value_as_f64
validate_comparison field value =
    require_field field >> ensure (is_number (property_value_as_f64 value)) validation

abbrev pub is_done : Conditions → Bool
is_done done = true
is_done (also filter conditions) = false

unfoldable mutual
  unfolding require_field validate_comparison

  pub validate_filter_expression : FilterExpression → Result (Unit {0})
  validate_filter_expression (eq field value) = require_field field
  validate_filter_expression (gt field value) = validate_comparison field value
  validate_filter_expression (gte field value) = validate_comparison field value
  validate_filter_expression (lt field value) = validate_comparison field value
  validate_filter_expression (lte field value) = validate_comparison field value
  validate_filter_expression (all_of conditions) =
      ensure (not (is_done conditions)) validation >> validate_conditions conditions
  validate_filter_expression (any_of conditions) =
      ensure (not (is_done conditions)) validation >> validate_conditions conditions

  pub validate_conditions : Conditions → Result (Unit {0})
  validate_conditions done = ok tt
  validate_conditions (also filter conditions) =
      validate_filter_expression filter >> validate_conditions conditions

unfoldable mutual
  pub filter_expression_leaf_count : FilterExpression → ℕ
  filter_expression_leaf_count (eq field value) = 1
  filter_expression_leaf_count (gt field value) = 1
  filter_expression_leaf_count (gte field value) = 1
  filter_expression_leaf_count (lt field value) = 1
  filter_expression_leaf_count (lte field value) = 1
  filter_expression_leaf_count (all_of conditions) = conditions_leaf_count conditions
  filter_expression_leaf_count (any_of conditions) = conditions_leaf_count conditions

  pub conditions_leaf_count : Conditions → ℕ
  conditions_leaf_count done = 0
  conditions_leaf_count (also filter conditions) =
      filter_expression_leaf_count filter + conditions_leaf_count conditions

abbrev equals_some : Option PropertyValue → PropertyValue → Bool
equals_some none value = false
equals_some (some candidate) value = property_values_equal candidate value

unfoldable pub field_as_f64 : NodeRecord → String → Option ℕ
field_as_f64 node field = and_then (property node field) property_value_as_f64

unfoldable mutual
  unfolding field_matches_eq property_values_equal compare_property_values
      compare_property_values_inclusive field_as_f64

  pub node_matches_filter : NodeRecord → FilterExpression → Bool
  node_matches_filter node (eq field value) =
      field_matches_eq node field value || equals_some (property node field) value
  node_matches_filter node (gt field value) =
      compare_property_values (field_as_f64 node field) value Ordering.gt
  node_matches_filter node (gte field value) =
      compare_property_values_inclusive (field_as_f64 node field) value Ordering.gt
  node_matches_filter node (lt field value) =
      compare_property_values (field_as_f64 node field) value Ordering.lt
  node_matches_filter node (lte field value) =
      compare_property_values_inclusive (field_as_f64 node field) value Ordering.lt
  node_matches_filter node (all_of conditions) = matches_all node conditions
  node_matches_filter node (any_of conditions) = matches_any node conditions

  pub matches_all : NodeRecord → Conditions → Bool
  matches_all node done = true
  matches_all node (also filter conditions) =
      node_matches_filter node filter && matches_all node conditions

  pub matches_any : NodeRecord → Conditions → Bool
  matches_any node done = false
  matches_any node (also filter conditions) =
      node_matches_filter node filter || matches_any node conditions
