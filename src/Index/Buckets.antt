-- ===== src/Index/Buckets.antt =====
-- `push_unique` and `remove_from_bucket`, and what a bucket contains after them.
use undr.Base.{
  ◌≡◌, refl, ap, false, not, ◌&&◌, ◌||◌, List, [], ◌∷◌, ◌++◌, Option, none, some, any, keep,
  is_empty, arith, Key, Option-cases, inl, inr, if◌then◌else◌,
}
use undr.Base.Map
use undr.Base.Map.{BTreeMap}
use undr.Base.Set.{contains}

-- `map.get(key).unwrap_or(&[])`
abbrev pub or_default {κ} : {V : Type κ} → Option (List V) → List V
or_default none = []
or_default (some values) = values

module _ {κ} {V : Type κ} ⦃eq : Key V⦄ where
  unfoldable pub push_unique : List V → V → List V
  push_unique values value =
      if any (λ existing. eq.beq existing value) values then values else values ++ value ∷ []

  -- `values.retain(|existing| existing != value)`
  unfoldable pub retain_not : V → List V → List V
  retain_not value values = keep (λ existing. not (eq.beq existing value)) values

  any-contains : (v : V) (vs : List V) → any (λ existing. eq.beq existing v) vs ≡ contains v vs
  unfolding contains
  any-contains v [] = refl
  any-contains v (w ∷ vs) = ap (λ b. eq.beq w v || b) (any-contains v vs)

  contains-snoc :
      (v j : V) (vs : List V) → contains j (vs ++ v ∷ []) ≡ (eq.beq v j || contains j vs)
  unfolding contains
  contains-snoc v j [] = refl
  contains-snoc v j (w ∷ vs) = ground (arith, contains-snoc v j vs)

  pub contains-push_unique :
      (v j : V) (vs : List V) → contains j (push_unique vs v) ≡ (eq.beq v j || contains j vs)
  unfolding push_unique
  contains-push_unique v j vs =
      ground (arith, any-contains v vs, contains-snoc v j vs, eq.beq_iff v j)

  pub contains-retain_not :
      (v j : V) (vs : List V)
      → contains j (retain_not v vs) ≡ (if eq.beq v j then false else contains j vs)
  unfolding retain_not contains
  contains-retain_not v j [] = ground arith
  contains-retain_not v j (w ∷ vs) =
      ground (arith, contains-retain_not v j vs, eq.beq_iff w v, eq.beq_iff w j, eq.beq_iff v j)

module _ {ℓ κ} {K : Type ℓ} {V : Type κ} ⦃key : Key K⦄ ⦃eq : Key V⦄ where
  abbrev pub bucket : K → BTreeMap K (List V) → List V
  bucket k index = or_default (Map.get k index)

  -- `push_unique(index.entry(key).or_default(), value)`
  unfoldable pub push_at : K → V → BTreeMap K (List V) → BTreeMap K (List V)
  push_at k v index = Map.insert k (push_unique (bucket k index) v) index

  -- The bucket without the value; a bucket that becomes empty goes.
  abbrev pub put_or_drop : K → List V → BTreeMap K (List V) → BTreeMap K (List V)
  put_or_drop k values index =
      if is_empty values then Map.remove k index else Map.insert k values index

  abbrev without : K → V → Option (List V) → BTreeMap K (List V) → BTreeMap K (List V)
  without k v none index = index
  without k v (some values) index = put_or_drop k (retain_not v values) index

  unfoldable pub remove_from_bucket : K → V → BTreeMap K (List V) → BTreeMap K (List V)
  remove_from_bucket k v index = without k v (Map.get k index) index

  pub contains-push_at :
      (k i : K) (v j : V) (index : BTreeMap K (List V))
      → contains j (bucket i (push_at k v index))
        ≡ ((key.beq k i && eq.beq v j) || contains j (bucket i index))
  unfolding push_at
  contains-push_at k i v j index = ground (
    arith,
    Map.get-insert k i (push_unique (bucket k index) v) index,
    contains-push_unique v j (bucket k index),
    key.beq_iff k i,
  )

  contains-put_or_drop :
      (k i : K) (j : V) (values : List V) (index : BTreeMap K (List V))
      → contains j (bucket i (put_or_drop k values index))
        ≡ (if key.beq k i then contains j values else contains j (bucket i index))
  unfolding contains
  contains-put_or_drop k i j [] index = ground (arith, Map.get-remove k i index)
  contains-put_or_drop k i j (v ∷ vs) index = ground (arith, Map.get-insert k i (v ∷ vs) index)

  pub contains-remove_from_bucket :
      (k i : K) (v j : V) (index : BTreeMap K (List V))
      → contains j (bucket i (remove_from_bucket k v index))
        ≡ (if key.beq k i && eq.beq v j then false else contains j (bucket i index))
  unfolding remove_from_bucket contains
  contains-remove_from_bucket k i v j index = elim (Option-cases (Map.get k index)) [
    | inl absent ↦ ground (arith, key.beq_iff k i)
    | inr (values, found) ↦ ground (
      arith,
      contains-put_or_drop k i j (retain_not v values) index,
      contains-retain_not v j values,
      key.beq_iff k i,
    )
  ]

  pub push_at-Unique :
      (k : K) (v : V) (index : BTreeMap K (List V))
      → Map.Unique index
      → Map.Unique (push_at k v index)
  unfolding push_at
  push_at-Unique k v index u = Map.insert-Unique k (push_unique (bucket k index) v) index u

  put_or_drop-Unique :
      (k : K) (values : List V) (index : BTreeMap K (List V))
      → Map.Unique index
      → Map.Unique (put_or_drop k values index)
  put_or_drop-Unique k [] index u = Map.remove-Unique k index u
  put_or_drop-Unique k (v ∷ vs) index u = Map.insert-Unique k (v ∷ vs) index u

  without-Unique :
      (k : K) (v : V) (found : Option (List V)) (index : BTreeMap K (List V))
      → Map.Unique index
      → Map.Unique (without k v found index)
  without-Unique k v none index u = u
  without-Unique k v (some values) index u = put_or_drop-Unique k (retain_not v values) index u

  pub remove_from_bucket-Unique :
      (k : K) (v : V) (index : BTreeMap K (List V))
      → Map.Unique index
      → Map.Unique (remove_from_bucket k v index)
  unfolding remove_from_bucket
  remove_from_bucket-Unique k v index u = without-Unique k v (Map.get k index) index u
