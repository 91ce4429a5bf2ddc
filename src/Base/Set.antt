-- ===== src/Base/Set.antt =====
-- The standard library's `BTreeSet`, as the list of its elements in order.
use mathlib.Core.Path.{◌≡◌, refl}
use mathlib.Core.Bool.{Bool, false, ◌||◌}
use mathlib.Core.List.{List, [], ◌∷◌}
use native.Mathlib.Omega.{arith}
use undr.Base.Map
use undr.Base.Map.{BTreeMap, keys, is_some}
use undr.Base.Tests.{Key, if◌then◌else◌}

abbrev pub BTreeSet {ℓ} : Type ℓ → Type ℓ
BTreeSet K = List K

module _ {ℓ} {K : Type ℓ} ⦃key : Key K⦄ where
  unfoldable pub contains : K → List K → Bool
  contains k [] = false
  contains k (j ∷ s) = key.beq j k || contains k s

  unfoldable pub place : K → BTreeSet K → BTreeSet K
  place k [] = k ∷ []
  place k (j ∷ s) = let rest = place k s in if key.before k j then k ∷ j ∷ s else j ∷ rest

  unfoldable pub insert : K → BTreeSet K → BTreeSet K
  insert k s = if contains k s then s else place k s

  -- `set.extend(items)`, and `items.collect()` from the empty set
  unfoldable pub extend : BTreeSet K → List K → BTreeSet K
  extend s [] = s
  extend s (k ∷ ks) = extend (insert k s) ks

  unfoldable pub remove : K → BTreeSet K → BTreeSet K
  remove k [] = []
  remove k (j ∷ s) = let rest = remove k s in if key.beq j k then rest else j ∷ rest

  contains-place :
      (k j : K) (s : BTreeSet K) → contains j (place k s) ≡ (key.beq k j || contains j s)
  unfolding contains place
  contains-place k j [] = refl
  contains-place k j (i ∷ s) = ground (arith, contains-place k j s)

  pub contains-insert :
      (k j : K) (s : BTreeSet K) → contains j (insert k s) ≡ (key.beq k j || contains j s)
  unfolding insert
  contains-insert k j s = ground (arith, contains-place k j s, key.beq_iff k j)

  pub contains-extend :
      (j : K) (s : BTreeSet K) (ks : List K)
      → contains j (extend s ks) ≡ (contains j s || contains j ks)
  unfolding extend contains
  contains-extend j s [] = ground arith
  contains-extend j s (k ∷ ks) =
      ground (arith, contains-extend j (insert k s) ks, contains-insert k j s)

  pub contains-remove :
      (k j : K) (s : BTreeSet K)
      → contains j (remove k s) ≡ (if key.beq k j then false else contains j s)
  unfolding contains remove
  contains-remove k j [] = ground arith
  contains-remove k j (i ∷ s) =
      ground (arith, contains-remove k j s, key.beq_iff i k, key.beq_iff i j, key.beq_iff k j)

-- `map.keys()` as a set
pub contains-keys {ℓ κ} :
    {K : Type ℓ} {V : Type κ} ⦃key : Key K⦄ (k : K) (m : BTreeMap K V)
    → contains k (keys m) ≡ is_some (Map.get k m)
unfolding contains Map.get
contains-keys k [] = refl
contains-keys k ((j, v) ∷ m) = ground (arith, contains-keys k m)
