-- ===== src/Base/Map.antt =====
-- The standard library's `BTreeMap`, as the list of its entries in the order of the keys. A key
-- stands at most once (`Unique`), which every operation keeps.
use mathlib.Core.Path.{◌≡◌, refl, ap, ◌∙◌}
use mathlib.Core.Bool.{Bool, true, false}
use mathlib.Core.Option.{Option, none, some}
use mathlib.Core.List.{List, [], ◌∷◌, map}
use native.Mathlib.Omega.{arith}
use mathlib.Core.Logic.{inl, inr}
use undr.Base.Tests.{Key, Bool-cases, if◌then◌else◌}

abbrev pub BTreeMap {ℓ κ} : Type ℓ → Type κ → Type (ℓ ⊔ κ)
BTreeMap K V = List (K × V)

pub empty {ℓ κ} : {K : Type ℓ} {V : Type κ} → BTreeMap K V
empty = []

abbrev pub is_some {κ} : {V : Type κ} → Option V → Bool
is_some none = false
is_some (some v) = true

-- What `retain` leaves of a looked-up value.
abbrev pub kept {κ} : {V : Type κ} → (V → Bool) → Option V → Option V
kept test none = none
kept test (some v) = if test v then some v else none

module _ {ℓ κ} {K : Type ℓ} {V : Type κ} where
  abbrev pub keys : BTreeMap K V → List K
  keys m = map (λ e. e.0) m

  abbrev pub values : BTreeMap K V → List V
  values m = map (λ e. e.1) m

  -- `retain(|_, value| test(value))`
  unfoldable pub retain : (V → Bool) → BTreeMap K V → BTreeMap K V
  retain test [] = []
  retain test ((j, v) ∷ m) = let rest = retain test m in if test v then (j, v) ∷ rest else rest

  -- `for (key, value) in &mut map { *value = f(key, value) }`, and `iter().map(..).collect()`
  unfoldable pub map_values {μ} : {W : Type μ} → (K → V → W) → BTreeMap K V → BTreeMap K W
  map_values f [] = []
  map_values f ((j, v) ∷ m) = (j, f j v) ∷ map_values f m

-- `option.map(f)`
abbrev pub mapped {κ μ} : {V : Type κ} {W : Type μ} → (V → W) → Option V → Option W
mapped f none = none
mapped f (some v) = some (f v)

module _ {ℓ κ} {K : Type ℓ} {V : Type κ} ⦃key : Key K⦄ where
  unfoldable pub get : K → BTreeMap K V → Option V
  get k [] = none
  get k ((j, v) ∷ m) = if key.beq j k then some v else get k m

  unfoldable pub contains_key : K → BTreeMap K V → Bool
  contains_key k m = is_some (get k m)

  unfoldable pub remove : K → BTreeMap K V → BTreeMap K V
  remove k [] = []
  remove k ((j, v) ∷ m) = let rest = remove k m in if key.beq j k then rest else (j, v) ∷ rest

  unfoldable pub place : K → V → BTreeMap K V → BTreeMap K V
  place k v [] = (k, v) ∷ []
  place k v ((j, w) ∷ m) =
      let rest = place k v m in if key.before k j then (k, v) ∷ (j, w) ∷ m else (j, w) ∷ rest

  unfoldable pub insert : K → V → BTreeMap K V → BTreeMap K V
  insert k v m = place k v (remove k m)

  abbrev pub Unique : BTreeMap K V → Type κ
  Unique [] = Unit
  Unique ((k, v) ∷ m) = (get k m ≡ none) × Unique m

  pub get-remove :
      (k j : K) (m : BTreeMap K V) → get j (remove k m) ≡ (if key.beq k j then none else get j m)
  unfolding get remove
  get-remove k j [] = ground arith
  get-remove k j ((i, v) ∷ m) =
      ground (arith, get-remove k j m, key.beq_iff i k, key.beq_iff i j, key.beq_iff k j)

  get-place :
      (k j : K) (v : V) (m : BTreeMap K V)
      → get k m ≡ none
      → get j (place k v m) ≡ (if key.beq k j then some v else get j m)
  unfolding get place
  get-place k j v [] h = refl
  get-place k j v ((i, w) ∷ m) h =
      ground (arith, get-place k j v m, key.beq_iff i k, key.beq_iff i j, key.beq_iff k j)

  pub get-insert :
      (k j : K) (v : V) (m : BTreeMap K V)
      → get j (insert k v m) ≡ (if key.beq k j then some v else get j m)
  unfolding insert
  get-insert k j v m =
      ground
        (arith, get-place k j v (remove k m), get-remove k k m, get-remove k j m, key.beq_iff k k)

  get-retain-none :
      (k : K) (test : V → Bool) (m : BTreeMap K V) → get k m ≡ none → get k (retain test m) ≡ none
  unfolding get retain
  get-retain-none k test [] h = refl
  get-retain-none k test ((j, v) ∷ m) h = ground (arith, get-retain-none k test m)

  pub get-retain :
      (k : K) (test : V → Bool) (m : BTreeMap K V)
      → Unique m
      → get k (retain test m) ≡ kept test (get k m)
  unfolding get retain
  get-retain k test [] u = refl
  get-retain k test ((j, v) ∷ m) u =
      ground (arith, get-retain k test m u.1, get-retain-none k test m, key.beq_iff j k)

  pub remove-Unique : (k : K) (m : BTreeMap K V) → Unique m → Unique (remove k m)
  unfolding remove
  remove-Unique k [] u = tt
  remove-Unique k ((j, v) ∷ m) u = ground (arith, remove-Unique k m u.1, get-remove k j m)

  place-Unique :
      (k : K) (v : V) (m : BTreeMap K V) → get k m ≡ none → Unique m → Unique (place k v m)
  unfolding place get
  place-Unique k v [] h u = (refl, tt)
  place-Unique k v ((j, w) ∷ m) h u =
      ground (arith, place-Unique k v m, get-place k j v m, key.beq_iff j k, key.beq_iff k j)

  pub insert-Unique : (k : K) (v : V) (m : BTreeMap K V) → Unique m → Unique (insert k v m)
  unfolding insert
  insert-Unique k v m u =
      place-Unique k v (remove k m) (ground (arith, get-remove k k m, key.beq_iff k k))
        (remove-Unique k m u)

  pub retain-Unique : (test : V → Bool) (m : BTreeMap K V) → Unique m → Unique (retain test m)
  unfolding retain
  retain-Unique test [] u = tt
  retain-Unique test ((j, v) ∷ m) u =
      ground (arith, retain-Unique test m u.1, get-retain-none j test m)

  remove-remove : (k : K) (m : BTreeMap K V) → remove k (remove k m) ≡ remove k m
  unfolding remove
  remove-remove k [] = refl
  remove-remove k ((j, v) ∷ m) = ground (arith, remove-remove k m)

  remove-place : (k : K) (v : V) (m : BTreeMap K V) → remove k (place k v m) ≡ remove k m
  unfolding remove place
  remove-place k v [] = ground (arith, key.beq_iff k k)
  remove-place k v ((j, w) ∷ m) = ground (arith, remove-place k v m, key.beq_iff k k)

  -- The later of two insertions at one key counts.
  pub insert-insert :
      (k : K) (u v : V) (m : BTreeMap K V) → insert k v (insert k u m) ≡ insert k v m
  unfolding insert
  insert-insert k u v m = ap (place k v) (remove-place k u (remove k m) ∙ remove-remove k m)

  pub contains_key-eq : (k : K) (m : BTreeMap K V) → contains_key k m ≡ is_some (get k m)
  unfolding contains_key
  contains_key-eq k m = refl

pub get-empty {ℓ κ} : {K : Type ℓ} {V : Type κ} ⦃key : Key K⦄ (k : K) → get k (empty {V = V}) ≡ none
unfolding get empty
get-empty k = refl

module _ {ℓ κ μ} {K : Type ℓ} {V : Type κ} {W : Type μ} ⦃key : Key K⦄ where
  pub get-map_values :
      (f : K → V → W) (k : K) (m : BTreeMap K V) → get k (map_values f m) ≡ mapped (f k) (get k m)
  unfolding get map_values
  get-map_values f k [] = refl
  get-map_values f k ((j, v) ∷ m) = elim (Bool-cases (key.beq j k)) [
    | inl same ↦ rw same (ap (λ i. some (f i v)) ((key.beq_iff j k).0 same))
    | inr other ↦ rw other (get-map_values f k m)
  ]

  pub map_values-Unique : (f : K → V → W) (m : BTreeMap K V) → Unique m → Unique (map_values f m)
  unfolding map_values
  map_values-Unique f [] u = tt
  map_values-Unique f ((j, v) ∷ m) u =
      (get-map_values f j m ∙ ap (mapped (f j)) u.0, map_values-Unique f m u.1)
