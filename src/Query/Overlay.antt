-- ===== src/Query/Overlay.antt =====
-- What an overlay lists: the records that pass in the overlaid view.
use undr.Base.{
  ◌≡◌, refl, sym, All, All-imp, ◌&&◌, some, Option-cases, Bool, String, List, [], ◌∷◌, none, map,
  keep, arith, string_key, Bool-cases, inl, inr, subst,
}
use undr.Base.Map
use undr.Base.Map.{BTreeMap, values, Unique, is_some}
use undr.Base.Set
use undr.Base.Set.{contains, contains-extend}
use undr.Index.Lookup.{Lookup, has}
use undr.Index.Found.{contains-keep}
use undr.Index.Rebuilt.{IsKeyed, IsKeyed-head, IsKeyed-tail}
use undr.Query.View.{overlay_ids, overlaid, records_of}

module _ {A : Type 0} (id : A → String) (test : A → Bool) where
  contains-passing :
      (i : String) (m : BTreeMap String A)
      → Unique m
      → IsKeyed id m
      → contains i (map id (keep test (values m))) ≡ has test (Map.get i m)
  unfolding contains Map.get
  contains-passing i [] u k = refl
  contains-passing i ((key, a) ∷ m) u k =
      let here = IsKeyed-head id key a m k in
      let later = contains-passing i m u.1 (IsKeyed-tail id key a m u.0 k) in
      elim (Bool-cases (string_key.beq key i)) [
        | inl same ↦
            let gone = subst (λ x. Map.get x m ≡ none) ((string_key.beq_iff key i).0 same) u.0 in
            ground (arith, string_key.beq_iff (id a) i, string_key.beq_iff key i)
        | inr other ↦ ground (arith, string_key.beq_iff (id a) i, string_key.beq_iff key i)
      ]

  -- The base lists the records that pass in it, and the overlay those that pass in the overlay.
  pub contains-overlay_ids :
      (i : String) (get base : Lookup A) (removed : Bool) (added : BTreeMap String A)
      (base_ids : List String)
      → Unique added
      → IsKeyed id added
      → get i ≡ overlaid (Map.get i added) removed (base i)
      → contains i base_ids ≡ has test (base i)
      → contains i (overlay_ids id test get added base_ids) ≡ has test (get i)
  unfolding overlay_ids contains
  contains-overlay_ids i get base removed added base_ids u k here listed = ground (
    arith,
    contains-passing i added u k,
    contains-extend i (Set.extend [] (keep (λ j. has test (get j)) base_ids))
        (map id (keep test (values added))),
    contains-extend i [] (keep (λ j. has test (get j)) base_ids),
    contains-keep (λ j. has test (get j)) i base_ids,
  )

module _ {A : Type 0} (id : A → String) where
  -- Under their keys, the records that are read stand where they were read.
  pub records_of-AreStored :
      (get : Lookup A) (ids : List String)
      → ((i : String) (a : A) → get i ≡ some a → id a ≡ i)
      → All (λ a. get (id a) ≡ some a) (records_of get ids)
  unfolding records_of
  records_of-AreStored get [] keyed = tt
  records_of-AreStored get (i ∷ ids) keyed = elim (Option-cases (get i)) [
    | inl missing ↦ rw (missing, All) (records_of-AreStored get ids keyed)
    | inr (a, found) ↦
        rw (found, All)
          (
            subst (λ j. get j ≡ some a) (sym (keyed i a found)) found,
            records_of-AreStored get ids keyed,
          )
  ]

  pub contains-records_of :
      (i : String) (get : Lookup A) (ids : List String)
      → ((j : String) (a : A) → get j ≡ some a → id a ≡ j)
      → contains i (map id (records_of get ids)) ≡ (is_some (get i) && contains i ids)
  unfolding records_of contains
  contains-records_of i get [] keyed = ground arith
  contains-records_of i get (j ∷ ids) keyed = elim (Option-cases (get j)) [
    | inl missing ↦ ground (arith, contains-records_of i get ids keyed, string_key.beq_iff j i)
    | inr (a, found) ↦ ground (
      arith,
      contains-records_of i get ids keyed,
      keyed j a found,
      string_key.beq_iff j i,
      string_key.beq_iff (id a) i,
    )
  ]

  pub values-AreStored :
      (m : BTreeMap String A)
      → Unique m
      → IsKeyed id m
      → All (λ a. Map.get (id a) m ≡ some a) (values m)
  unfolding Map.get
  values-AreStored [] u k = tt
  values-AreStored ((key, a) ∷ m) u k =
      let here = IsKeyed-head id key a m k in
      (
        ground (arith, string_key.beq_iff key (id a)),
        All-imp (λ b found. ground (arith, string_key.beq_iff key (id b), u.0)) (values m)
            (values-AreStored m u.1 (IsKeyed-tail id key a m u.0 k)),
      )

  pub contains-values :
      (i : String) (m : BTreeMap String A)
      → Unique m
      → IsKeyed id m
      → contains i (map id (values m)) ≡ is_some (Map.get i m)
  unfolding Map.get contains
  contains-values i [] u k = refl
  contains-values i ((key, a) ∷ m) u k =
      let here = IsKeyed-head id key a m k in
      let later = contains-values i m u.1 (IsKeyed-tail id key a m u.0 k) in
      ground (arith, string_key.beq_iff (id a) i, string_key.beq_iff key i)
