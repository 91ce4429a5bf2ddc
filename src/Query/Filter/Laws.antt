-- ===== src/Query/Filter/Laws.antt =====
-- What a valid filter tests.
use Prim.Native.Nat.{Ordering}
use undr.Base.{◌<◌, ◌≡◌, refl, not, String, some, arith}
use undr.Common.{ok}
use undr.Core.Value.{PropertyValue}
use undr.Core.Records.{NodeRecord}
use undr.Storage.Engine.Atomic.{then_ok}
use undr.Query.Filter.{
  FilterExpression, Conditions, eq, gt, gte, lt, lte, all_of, any_of, done, also,
  validate_filter_expression, validate_conditions, filter_expression_leaf_count,
  node_matches_filter, field_as_f64, compare_numeric_property_values, compare_property_values,
  compare_property_values_inclusive,
}

-- The filter with the opposite test at every leaf of a comparison, and "all" for "any".
abbrev mutual
  pub opposite : FilterExpression → FilterExpression
  opposite (eq field value) = eq field value
  opposite (gt field value) = lte field value
  opposite (gte field value) = lt field value
  opposite (lt field value) = gte field value
  opposite (lte field value) = gt field value
  opposite (all_of conditions) = any_of (opposites conditions)
  opposite (any_of conditions) = all_of (opposites conditions)

  pub opposites : Conditions → Conditions
  opposites done = done
  opposites (also filter conditions) = also (opposite filter) (opposites conditions)

abbrev pub Compares : NodeRecord → String → PropertyValue → Type 0
Compares node field value =
    (o : Ordering) × (compare_numeric_property_values (field_as_f64 node field) value ≡ some o)

-- Every leaf compares numbers that the node has.
abbrev mutual
  pub IsComparable : NodeRecord → FilterExpression → Type 0
  IsComparable node (eq field value) = ⊥
  IsComparable node (gt field value) = Compares node field value
  IsComparable node (gte field value) = Compares node field value
  IsComparable node (lt field value) = Compares node field value
  IsComparable node (lte field value) = Compares node field value
  IsComparable node (all_of conditions) = AreComparable node conditions
  IsComparable node (any_of conditions) = AreComparable node conditions

  pub AreComparable : NodeRecord → Conditions → Type 0
  AreComparable node done = Unit
  AreComparable node (also filter conditions) =
      IsComparable node filter × AreComparable node conditions

-- One comparison and its opposite.
module _ (node : NodeRecord) (field : String) (value : PropertyValue) where
  gt-lte :
      Compares node field value
      → compare_property_values_inclusive (field_as_f64 node field) value Ordering.lt
        ≡ not (compare_property_values (field_as_f64 node field) value Ordering.gt)
  unfolding compare_property_values compare_property_values_inclusive
  gt-lte (Ordering.lt, h) = ground arith
  gt-lte (Ordering.eq, h) = ground arith
  gt-lte (Ordering.gt, h) = ground arith

  lt-gte :
      Compares node field value
      → compare_property_values_inclusive (field_as_f64 node field) value Ordering.gt
        ≡ not (compare_property_values (field_as_f64 node field) value Ordering.lt)
  unfolding compare_property_values compare_property_values_inclusive
  lt-gte (Ordering.lt, h) = ground arith
  lt-gte (Ordering.eq, h) = ground arith
  lt-gte (Ordering.gt, h) = ground arith

mutual
  unfolding node_matches_filter

  opposite_one :
      (node : NodeRecord) (filter : FilterExpression)
      → IsComparable node filter
      → node_matches_filter node (opposite filter) ≡ not (node_matches_filter node filter)
  opposite_one node (eq field value) h = ground arith
  opposite_one node (gt field value) h = gt-lte node field value h
  opposite_one node (gte field value) h = ground (arith, lt-gte node field value h)
  opposite_one node (lt field value) h = lt-gte node field value h
  opposite_one node (lte field value) h = ground (arith, gt-lte node field value h)
  opposite_one node (all_of conditions) h = (opposite_all node conditions h).0
  opposite_one node (any_of conditions) h = (opposite_all node conditions h).1

  opposite_all :
      (node : NodeRecord) (conditions : Conditions)
      → AreComparable node conditions
      → (node_matches_filter node (any_of (opposites conditions))
          ≡ not (node_matches_filter node (all_of conditions)))
        × (node_matches_filter node (all_of (opposites conditions))
            ≡ not (node_matches_filter node (any_of conditions)))
  opposite_all node done h = (refl, refl)
  opposite_all node (also filter conditions) h = (
    ground (arith, opposite_one node filter h.0, (opposite_all node conditions h.1).0),
    ground (arith, opposite_one node filter h.0, (opposite_all node conditions h.1).1),
  )

-- A filter of comparisons, each of a number that the node has with a number, none of them a NaN: a
-- node passes the opposite filter, with "all" for "any" and the opposite comparison at every leaf,
-- exactly when it does not pass the filter.
pub node_matches_filter-opposite :
    (node : NodeRecord) (filter : FilterExpression)
    → IsComparable node filter
    → node_matches_filter node (opposite filter) ≡ not (node_matches_filter node filter)
node_matches_filter-opposite node filter h = opposite_one node filter h

-- A filter that validates has at least one leaf.
pub leaf_count-positive :
    (filter : FilterExpression)
    → validate_filter_expression filter ≡ ok tt
    → 0 < filter_expression_leaf_count filter
unfolding validate_filter_expression filter_expression_leaf_count
leaf_count-positive (eq field value) h = omega arith
leaf_count-positive (gt field value) h = omega arith
leaf_count-positive (gte field value) h = omega arith
leaf_count-positive (lt field value) h = omega arith
leaf_count-positive (lte field value) h = omega arith
leaf_count-positive (all_of done) h = cc
leaf_count-positive (any_of done) h = cc
leaf_count-positive (all_of (also filter conditions)) h =
    let valid = then_ok (validate_filter_expression filter) (validate_conditions conditions) tt h in
    omega (arith, leaf_count-positive filter valid.0)
leaf_count-positive (any_of (also filter conditions)) h =
    let valid = then_ok (validate_filter_expression filter) (validate_conditions conditions) tt h in
    omega (arith, leaf_count-positive filter valid.0)
