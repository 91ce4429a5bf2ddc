-- ===== src/Index/Vectors/Known.antt =====
-- Which nodes stand among the candidates of a name: with the exact index those that have a vector
-- of this name, with the other only such nodes whose vector has the dimension of the space.
use undr.Base.{
  ◌≡◌, refl, false, not, ◌&&◌, ◌||◌, String, List, [], ◌∷◌, none, some, is_empty, arith, string_key,
  Option-cases, inl, inr, if◌then◌else◌,
}
use undr.Base.Map
use undr.Base.Map.{BTreeMap, is_some, keys, Unique, kept}
use undr.Base.Set.{contains, contains-keys}
use undr.Common.{NodeId}
use undr.Core.Records.{NodeRecord, vector}
use undr.Index.Lookup.{Lookup, updated, has}
use undr.Index.Buckets.{
  bucket, push_unique, retain_not, push_at, contains-push_at, contains-push_unique,
  contains-retain_not,
}
use undr.Index.Vectors.Exact
use undr.Index.Vectors.Exact.{ExactVectorIndex, refresh_bucket, drop_empty, push_under}

abbrev Buckets : Type 0
Buckets = BTreeMap String (List NodeId)

abbrev pub IsExact : Lookup NodeRecord → Buckets → Type 0
IsExact nodes buckets =
    Unique buckets
    × ((name : String) (id : NodeId)
        → contains id (bucket name buckets) ≡ has (λ node. is_some (vector node name)) (nodes id))

vector-eq : (node : NodeRecord) (name : String) → vector node name ≡ Map.get name node.vectors
unfolding vector
vector-eq node name = refl

contains-drop_empty :
    (name : String) (id : NodeId) (buckets : Buckets)
    → Unique buckets
    → contains id (bucket name (drop_empty buckets)) ≡ contains id (bucket name buckets)
unfolding contains
contains-drop_empty name id buckets u = elim (Option-cases (Map.get name buckets)) [
  | inl absent ↦ ground (arith, Map.get-retain name (λ ids. not (is_empty ids)) buckets u)
  | inr ([], found) ↦ ground (arith, Map.get-retain name (λ ids. not (is_empty ids)) buckets u)
  | inr (i ∷ ids, found) ↦ ground (arith, Map.get-retain name (λ ids. not (is_empty ids)) buckets u)
]

contains-push_under :
    (names : List String) (id j : NodeId) (name : String) (buckets : Buckets)
    → contains j (bucket name (push_under names id buckets))
      ≡ ((contains name names && string_key.beq id j) || contains j (bucket name buckets))
unfolding push_under contains
contains-push_under [] id j name buckets = refl
contains-push_under (n ∷ names) id j name buckets = ground (
  arith,
  contains-push_under names id j name (push_at n id buckets),
  contains-push_at n name id j buckets,
)

push_under-Unique :
    (names : List String) (id : NodeId) (buckets : Buckets)
    → Unique buckets
    → Unique (push_under names id buckets)
unfolding push_under push_at
push_under-Unique [] id buckets u = u
push_under-Unique (n ∷ names) id buckets u =
    push_under-Unique names id (push_at n id buckets)
      (Map.insert-Unique n (push_unique (bucket n buckets) id) buckets u)

contains-refreshed :
    (node : NodeRecord) (name : String) (id : NodeId) (buckets : Buckets)
    → contains id (bucket name (Map.map_values (refresh_bucket node) buckets)) ≡ (
        if string_key.beq node.id id
        then is_some (vector node name) && is_some (Map.get name buckets)
        else contains id (bucket name buckets))
unfolding contains
contains-refreshed node name id buckets = elim (Option-cases (Map.get name buckets)) [
  | inl absent ↦ ground (arith, Map.get-map_values (refresh_bucket node) name buckets)
  | inr (ids, found) ↦ ground (
    arith,
    Map.get-map_values (refresh_bucket node) name buckets,
    contains-push_unique node.id id ids,
    contains-retain_not node.id id ids,
  )
]

contains-swept :
    (node : NodeRecord) (name : String) (id : NodeId) (buckets : Buckets)
    → contains id (bucket name (Map.map_values (λ _ ids. retain_not node.id ids) buckets))
      ≡ (if string_key.beq node.id id then false else contains id (bucket name buckets))
unfolding contains
contains-swept node name id buckets = elim (Option-cases (Map.get name buckets)) [
  | inl absent ↦ ground (arith, Map.get-map_values (λ _ ids. retain_not node.id ids) name buckets)
  | inr (ids, found) ↦ ground (
    arith,
    Map.get-map_values (λ _ ids. retain_not node.id ids) name buckets,
    contains-retain_not node.id id ids,
  )
]

module _ (nodes : Lookup NodeRecord) (node : NodeRecord) (index : ExactVectorIndex) where
  pub upsert-IsExact :
      IsExact nodes index.candidate_ids_by_name
      → IsExact
          (updated node.id (some node) nodes)
          (Exact.upsert_node index node).candidate_ids_by_name
  unfolding Exact.upsert_node
  upsert-IsExact (u, h) =
      let refreshed = Map.map_values (refresh_bucket node) index.candidate_ids_by_name in
      let refreshed_unique =
        Map.map_values-Unique (refresh_bucket node) index.candidate_ids_by_name u in
      (
        push_under-Unique (keys node.vectors) node.id (drop_empty refreshed)
            (Map.retain-Unique (λ ids. not (is_empty ids)) refreshed refreshed_unique),
        λ name id. ground (
          arith,
          h name id,
          contains-push_under (keys node.vectors) node.id id name (drop_empty refreshed),
          contains-drop_empty name id refreshed refreshed_unique,
          contains-refreshed node name id index.candidate_ids_by_name,
          contains-keys name node.vectors,
          vector-eq node name,
        ),
      )

  pub delete-IsExact :
      IsExact nodes index.candidate_ids_by_name
      → IsExact (updated node.id none nodes) (Exact.delete_node index node).candidate_ids_by_name
  unfolding Exact.delete_node
  delete-IsExact (u, h) =
      let f : String → List NodeId → List NodeId = λ name ids. retain_not node.id ids in
      let swept = Map.map_values f index.candidate_ids_by_name in
      let swept_unique = Map.map_values-Unique f index.candidate_ids_by_name u in
      (
        Map.retain-Unique (λ ids. not (is_empty ids)) swept swept_unique,
        λ name id. ground (
          arith,
          h name id,
          contains-drop_empty name id swept swept_unique,
          contains-swept node name id index.candidate_ids_by_name,
        ),
      )
