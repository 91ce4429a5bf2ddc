-- ===== src/Api/Plan.antt =====
-- What `plan_batch_mutation` takes out and puts in, key by key.
use undr.Base.{
  ◌≡◌, refl, subst, Bool, ◌&&◌, String, List, [], ◌∷◌, Option, none, some, map, All, arith,
  string_key, Bool-cases, Option-cases, inl, inr, if◌then◌else◌,
}
use undr.Base.Map
use undr.Base.Map.{BTreeMap, keys, Unique, values, is_some}
use undr.Base.Set.{contains, BTreeSet}
use undr.Common.{NodeId}
use undr.Core.Records.{EdgeRecord}
use undr.Storage.Batch.{incident}
use undr.Storage.Batch.Pointwise.{latest}
use undr.Index.Lookup.{has}
use undr.Index.Build.{edge_id}
use undr.Index.Rebuilt.{IsKeyed, IsKeyed-head, IsKeyed-tail}
use undr.Query.View.{or_else}
use undr.Api.Mutation.{remove_found, insert_passing, remove_incident, drop_incident}

module _ {V : Type 0} where
  pub get-remove_found :
      (j : String) (src : BTreeMap String V) (ks : List String) (m : BTreeMap String V)
      → Map.get j (remove_found src ks m)
        ≡ (if contains j ks && is_some (Map.get j src) then Map.get j src else Map.get j m)
  unfolding remove_found contains
  get-remove_found j src [] m = refl
  get-remove_found j src (k ∷ ks) m = elim (Option-cases (Map.get k src)) [
    | inl absent ↦ ground (arith, get-remove_found j src ks m, string_key.beq_iff k j)
    | inr (v, found) ↦ ground (
      arith,
      get-remove_found j src ks (Map.insert k v m),
      Map.get-insert k j v m,
      string_key.beq_iff k j,
    )
  ]

  pub remove_found-Unique :
      (src : BTreeMap String V) (ks : List String) (m : BTreeMap String V)
      → Unique m
      → Unique (remove_found src ks m)
  unfolding remove_found
  remove_found-Unique src [] m u = u
  remove_found-Unique src (k ∷ ks) m u = elim (Option-cases (Map.get k src)) [
    | inl absent ↦ rw absent (remove_found-Unique src ks m u)
    | inr (v, found) ↦
        rw found (remove_found-Unique src ks (Map.insert k v m) (Map.insert-Unique k v m u))
  ]

module _ {V : Type 0} (id : V → String) where
  pub latest-old :
      (j : String) (vs : List V) (old : Option V)
      → latest id j vs old ≡ or_else (latest id j vs none) old
  latest-old j [] old = refl
  latest-old j (v ∷ vs) old = ground (
    arith,
    latest-old j vs (if string_key.beq (id v) j then some v else old),
    latest-old j vs (if string_key.beq (id v) j then some v else none),
  )

  pub is_some-latest :
      (j : String) (vs : List V) → is_some (latest id j vs none) ≡ contains j (map id vs)
  unfolding contains
  is_some-latest j [] = refl
  is_some-latest j (v ∷ vs) = ground (
    arith,
    is_some-latest j vs,
    latest-old j vs (if string_key.beq (id v) j then some v else none),
  )

  pub latest-keyed :
      (j : String) (vs : List V) (old : Option V)
      → ((v : V) → old ≡ some v → id v ≡ j)
      → (v : V) → latest id j vs old ≡ some v
      → id v ≡ j
  latest-keyed j [] old h v found = h v found
  latest-keyed j (w ∷ vs) old h v found =
      latest-keyed j vs (if string_key.beq (id w) j then some w else old)
        (λ x e. ground (arith, h x, string_key.beq_iff (id w) j)) v found

  -- The test asks for the identifier alone.
  pub get-insert_passing :
      (j : String) (test : V → Bool) (f : String → Bool) (vs : List V) (m : BTreeMap String V)
      → All (λ v. test v ≡ f (id v)) vs
      → Map.get j (insert_passing id test vs m)
        ≡ (if f j then latest id j vs (Map.get j m) else Map.get j m)
  unfolding insert_passing
  get-insert_passing j test f [] m h = ground arith
  get-insert_passing j test f (v ∷ vs) m h = elim (Bool-cases (test v)) [
    | inl passes ↦ ground (
      arith,
      get-insert_passing j test f vs (Map.insert (id v) v m) h.1,
      Map.get-insert (id v) j v m,
      string_key.beq_iff (id v) j,
      h.0,
    )
    | inr fails ↦
        ground (arith, get-insert_passing j test f vs m h.1, string_key.beq_iff (id v) j, h.0)
  ]

  pub insert_passing-Unique :
      (test : V → Bool) (vs : List V) (m : BTreeMap String V)
      → Unique m
      → Unique (insert_passing id test vs m)
  unfolding insert_passing
  insert_passing-Unique test [] m u = u
  insert_passing-Unique test (v ∷ vs) m u = elim (Bool-cases (test v)) [
    | inl passes ↦
        rw passes
          (insert_passing-Unique test vs (Map.insert (id v) v m) (Map.insert-Unique (id v) v m u))
    | inr fails ↦ rw fails (insert_passing-Unique test vs m u)
  ]

-- The edges of the engine that touch a deleted node are removed and not added.
module _ (deleted : BTreeSet NodeId) where
  pub get-remove_incident :
      (j : String) (m r : BTreeMap String EdgeRecord)
      → Unique m
      → IsKeyed edge_id m
      → Map.get j (remove_incident deleted (values m) r)
        ≡ (if has (incident deleted) (Map.get j m) then Map.get j m else Map.get j r)
  unfolding remove_incident Map.get
  get-remove_incident j [] r u k = refl
  get-remove_incident j ((key, e) ∷ m) r u k =
      let here = IsKeyed-head edge_id key e m k in
      let r' = if incident deleted e then Map.insert e.id e r else r in
      let later = get-remove_incident j m r' u.1 (IsKeyed-tail edge_id key e m u.0 k) in
      elim (Bool-cases (string_key.beq key j)) [
        | inl same ↦
            let gone = subst (λ x. Map.get x m ≡ none) ((string_key.beq_iff key j).0 same) u.0 in
            ground (
              arith,
              Map.get-insert e.id j e r,
              string_key.beq_iff e.id j,
              string_key.beq_iff key j,
            )
        | inr other ↦
            ground (
              arith,
              Map.get-insert e.id j e r,
              string_key.beq_iff e.id j,
              string_key.beq_iff key j,
            )
      ]

  pub get-drop_incident :
      (j : String) (m r : BTreeMap String EdgeRecord)
      → Unique m
      → IsKeyed edge_id m
      → Map.get j (drop_incident deleted (values m) r)
        ≡ (if has (incident deleted) (Map.get j m) then none else Map.get j r)
  unfolding drop_incident Map.get
  get-drop_incident j [] r u k = refl
  get-drop_incident j ((key, e) ∷ m) r u k =
      let here = IsKeyed-head edge_id key e m k in
      let r' = if incident deleted e then Map.remove e.id r else r in
      let later = get-drop_incident j m r' u.1 (IsKeyed-tail edge_id key e m u.0 k) in
      elim (Bool-cases (string_key.beq key j)) [
        | inl same ↦
            let gone = subst (λ x. Map.get x m ≡ none) ((string_key.beq_iff key j).0 same) u.0 in
            ground
              (arith, Map.get-remove e.id j r, string_key.beq_iff e.id j, string_key.beq_iff key j)
        | inr other ↦
            ground
              (arith, Map.get-remove e.id j r, string_key.beq_iff e.id j, string_key.beq_iff key j)
      ]

  pub remove_incident-Unique :
      (es : List EdgeRecord) (r : BTreeMap String EdgeRecord)
      → Unique r
      → Unique (remove_incident deleted es r)
  unfolding remove_incident
  remove_incident-Unique [] r u = u
  remove_incident-Unique (e ∷ es) r u = elim (Bool-cases (incident deleted e)) [
    | inl gone ↦
        rw gone (remove_incident-Unique es (Map.insert e.id e r) (Map.insert-Unique e.id e r u))
    | inr stays ↦ rw stays (remove_incident-Unique es r u)
  ]

  pub drop_incident-Unique :
      (es : List EdgeRecord) (r : BTreeMap String EdgeRecord)
      → Unique r
      → Unique (drop_incident deleted es r)
  unfolding drop_incident
  drop_incident-Unique [] r u = u
  drop_incident-Unique (e ∷ es) r u = elim (Bool-cases (incident deleted e)) [
    | inl gone ↦ rw gone (drop_incident-Unique es (Map.remove e.id r) (Map.remove-Unique e.id r u))
    | inr stays ↦ rw stays (drop_incident-Unique es r u)
  ]
