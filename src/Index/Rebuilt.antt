-- ===== src/Index/Rebuilt.antt =====
-- What `rebuild_with_config` makes of the records of two maps.
use mathlib.Core.Path.{fun_ext}
use mathlib.Core.Option.{some-injective}
use undr.Base.{
  ◌≡◌, refl, sym, ◌∙◌, subst, true, ◌||◌, String, List, [], ◌∷◌, none, some, arith, string_key,
  Bool-cases, Option-cases, inl, inr,
}
use undr.Base.Map
use undr.Base.Map.{BTreeMap, keys, Unique, values}
use undr.Base.Set.{contains}
use undr.Common.{NodeId}
use undr.Core.Records.{NodeRecord, EdgeRecord}
use undr.Index.Lookup.{Lookup, updated}
use undr.Index.Buckets.{bucket, push_at, or_default, push_unique, contains-push_at}
use undr.Index.Graph.{GraphIndex, empty_index}
use undr.Index.Agreement.{IsIndexOf, Agrees, HasCandidates, nothing_pending}
use undr.Index.Build.{
  rebuild_with_config, initialized, with_all, AreNew, node_id, edge_id, ids_of, upsert_nodes,
  upsert_edges, upsert_nodes-IsIndexOf, upsert_nodes-HasCandidates, upsert_edges-IsIndexOf,
  upsert_edges-vectors,
}
use undr.Index.Vectors.Spaces.{HnswLibrary, HnswVectorSpace}
use undr.Index.Vectors.Collected.{
  HnswConfig, build, hnsw_spaces_from_nodes, collect_candidates, push_candidates, collect_vectors,
  shared_dimension,
}
use undr.Index.Vectors.Measured.{IsMeasured, initialize-IsMeasured}
use undr.Index.Vectors.State
use undr.Index.Vectors.State.{
  VectorIndexState, exact, hnsw, VectorIndexConfig, from_config, VectorIndexBackendConfig,
  exact_backend, hnsw_backend,
}

abbrev pub nobody : {A : Type 0} → Lookup A
nobody id = none

abbrev pub stored : {A : Type 0} → BTreeMap String A → Lookup A
stored m id = Map.get id m

-- Every record stands under its own identifier.
abbrev pub IsKeyed : {A : Type 0} → (A → String) → BTreeMap String A → Type 0
IsKeyed {A = A} id m = (key : String) (a : A) → Map.get key m ≡ some a → id a ≡ key

module _ {A : Type 0} (id : A → String) where
  pub IsKeyed-head :
      (key : String) (a : A) (m : BTreeMap String A) → IsKeyed id ((key, a) ∷ m) → id a ≡ key
  unfolding Map.get
  IsKeyed-head key a m h = h key a (ground (arith, string_key.beq_iff key key))

  pub IsKeyed-tail :
      (key : String) (a : A) (m : BTreeMap String A)
      → Map.get key m ≡ none
      → IsKeyed id ((key, a) ∷ m)
      → IsKeyed id m
  unfolding Map.get
  IsKeyed-tail key a m fresh h j b found = h j b (ground (arith, string_key.beq_iff key j))

  pub AreNew-values :
      (m : BTreeMap String A) (records : Lookup A)
      → Unique m
      → IsKeyed id m
      → ((key : String) → Map.is_some (Map.get key m) ≡ true → records key ≡ none)
      → AreNew id (values m) records
  unfolding Map.get
  AreNew-values [] records u k free = tt
  AreNew-values ((key, a) ∷ m) records u k free =
      let here = IsKeyed-head key a m k in
      (
        free (id a) (ground (arith, string_key.beq_iff key (id a))),
        AreNew-values m (updated (id a) (some a) records) u.1 (IsKeyed-tail key a m u.0 k)
            (λ j among.
              ground (arith, free j, string_key.beq_iff key j, string_key.beq_iff (id a) j)),
      )

  pub with_all-values :
      (m : BTreeMap String A) (records : Lookup A) (j : String)
      → Unique m
      → IsKeyed id m
      → Map.get j m ≡ none
      → with_all id (values m) records j ≡ records j
  unfolding Map.get
  with_all-values [] records j u k absent = refl
  with_all-values ((key, a) ∷ m) records j u k absent =
      let here = IsKeyed-head key a m k in
      ground (
        arith,
        with_all-values m (updated (id a) (some a) records) j u.1 (IsKeyed-tail key a m u.0 k),
        string_key.beq_iff key j,
        string_key.beq_iff (id a) j,
      )

  pub with_all-stored :
      (m : BTreeMap String A) (records : Lookup A) (j : String) (b : A)
      → Unique m
      → IsKeyed id m
      → Map.get j m ≡ some b
      → with_all id (values m) records j ≡ some b
  unfolding Map.get
  with_all-stored [] records j b u k found = ground arith
  with_all-stored ((key, a) ∷ m) records j b u k found =
      let here = IsKeyed-head key a m k in
      let tail = IsKeyed-tail key a m u.0 k in
      elim (Bool-cases (string_key.beq key j)) [
        | inl same ↦
            let gone = subst (λ x. Map.get x m ≡ none) ((string_key.beq_iff key j).0 same) u.0 in
            ground (
              arith,
              with_all-values m (updated (id a) (some a) records) j u.1 tail gone,
              string_key.beq_iff (id a) j,
            )
        | inr other ↦
            ground (arith, with_all-stored m (updated (id a) (some a) records) j b u.1 tail)
      ]

  with_all-eq :
      (m : BTreeMap String A) → Unique m → IsKeyed id m → with_all id (values m) nobody ≡ stored m
  with_all-eq m u k = fun_ext λ j. elim (Option-cases (Map.get j m)) [
    | inl absent ↦ with_all-values m nobody j u k absent ∙ sym absent
    | inr (b, found) ↦ with_all-stored m nobody j b u k found ∙ sym found
  ]

-- The candidates that the index of hnsw_stable starts from are nodes that will be put in.
among-push_candidates :
    (names : List String) (i j : NodeId) (name : String) (m : BTreeMap String (List NodeId))
    → contains j (bucket name (push_candidates names i m)) ≡ true
    → (string_key.beq i j || contains j (bucket name m)) ≡ true
unfolding push_candidates
among-push_candidates [] i j name m h = ground arith
among-push_candidates (n ∷ names) i j name m h =
    ground
      (arith, among-push_candidates names i j name (push_at n i m) h, contains-push_at n name i j m)

among-collect_candidates :
    (nodes : List NodeRecord) (j : NodeId) (name : String) (m : BTreeMap String (List NodeId))
    → contains j (bucket name (collect_candidates nodes m)) ≡ true
    → (ids_of nodes j || contains j (bucket name m)) ≡ true
unfolding collect_candidates contains
among-collect_candidates [] j name m h = ground arith
among-collect_candidates (node ∷ nodes) j name m h =
    let pushed = push_candidates (keys node.vectors) node.id m in
    ground (
      arith,
      among-collect_candidates nodes j name pushed h,
      among-push_candidates (keys node.vectors) node.id j name m,
    )

push_candidates-Unique :
    (names : List String) (i : NodeId) (m : BTreeMap String (List NodeId))
    → Unique m
    → Unique (push_candidates names i m)
unfolding push_candidates push_at
push_candidates-Unique [] i m u = u
push_candidates-Unique (n ∷ names) i m u =
    push_candidates-Unique names i (push_at n i m)
      (Map.insert-Unique n (push_unique (bucket n m) i) m u)

collect_candidates-Unique :
    (nodes : List NodeRecord) (m : BTreeMap String (List NodeId))
    → Unique m
    → Unique (collect_candidates nodes m)
unfolding collect_candidates
collect_candidates-Unique [] m u = u
collect_candidates-Unique (node ∷ nodes) m u =
    collect_candidates-Unique nodes (push_candidates (keys node.vectors) node.id m)
      (push_candidates-Unique (keys node.vectors) node.id m u)

module _ (R : Type 0) where
  spaces-IsMeasured :
      (nodes : List NodeRecord)
      → IsMeasured (ids_of nodes) nobody (hnsw_spaces_from_nodes {R = R} nodes)
  unfolding hnsw_spaces_from_nodes contains Map.get
  spaces-IsMeasured nodes =
      let collected = collect_candidates nodes [] in
      let f : String → List NodeId → HnswVectorSpace R = λ name ids. record {
        candidate_ids = ids;
        dimension = shared_dimension none (or_default (Map.get name (collect_vectors nodes [])));
        runtime = none;
      } in
      (
        Map.map_values-Unique f collected (collect_candidates-Unique nodes [] tt),
        λ name space found id among. elim (Option-cases (Map.get name collected)) [
          | inl absent ↦ ground (arith, Map.get-map_values f name collected)
          | inr (ids, present) ↦
              let same =
                some-injective (f name ids) space
                  (ground (arith, Map.get-map_values f name collected)) in
              let listed =
                subst (λ (s : HnswVectorSpace R). contains id s.candidate_ids ≡ true) (sym same)
                  among in
              ground (arith, among-collect_candidates nodes id name [])
        ],
      )

  from_config-HasCandidates :
      (backend : VectorIndexBackendConfig) (config : HnswConfig) (nodes : List NodeRecord)
      → HasCandidates (ids_of nodes) nobody (from_config {R = R} backend config nodes)
  unfolding from_config build contains Map.get
  from_config-HasCandidates exact_backend config nodes = (tt, λ name id. refl)
  from_config-HasCandidates hnsw_backend config nodes = spaces-IsMeasured nodes

  empty_index-IsIndexOf :
      (vectors : VectorIndexState R) → IsIndexOf nobody nobody (empty_index vectors)
  unfolding empty_index contains Map.get
  empty_index-IsIndexOf vectors = record {
    ids = λ id. refl;
    types = λ k id. refl;
    times = λ k id. refl;
    times_unique = tt;
    sources = λ k id. refl;
    targets = λ k id. refl;
    owners = λ key id found. ground arith;
  }

  initialize-HasCandidates :
      (library : HnswLibrary R) (records : List NodeRecord) (nodes : Lookup NodeRecord)
      (vectors : VectorIndexState R)
      → HasCandidates nothing_pending nodes vectors
      → HasCandidates nothing_pending nodes
          (State.initialize_runtime_from_nodes library vectors records)
  unfolding State.initialize_runtime_from_nodes
  initialize-HasCandidates library records nodes (exact index) h = h
  initialize-HasCandidates library records nodes (hnsw index) h =
      initialize-IsMeasured nothing_pending nodes library index records h

  initialized-Agrees :
      (library : HnswLibrary R) (records : List NodeRecord) (nodes : Lookup NodeRecord)
      (edges : Lookup EdgeRecord) (index : GraphIndex R)
      → Agrees nodes edges index
      → Agrees nodes edges (initialized library records index)
  initialized-Agrees library records nodes edges index (h, c) = (
    record {
      ids = h.ids;
      types = h.types;
      times = h.times;
      times_unique = h.times_unique;
      sources = h.sources;
      targets = h.targets;
      owners = h.owners;
    },
    initialize-HasCandidates library records nodes index.vector_index c,
  )

-- Where each record of the two maps stands under its own identifier, and no key twice: the index
-- that is built from the maps agrees with them. Its sets and buckets have exactly the records of
-- the node, type, time and endpoints they are for; every owner of a unique key has this key; and
-- the candidates of a vector's name are the nodes that have such a vector or, with the index of
-- hnsw_stable, some of them, whose vectors have the dimension of the space.
pub rebuild-Agrees :
    (R : Type 0) (library : HnswLibrary R) (config : VectorIndexConfig)
    (nodes : BTreeMap String NodeRecord) (edges : BTreeMap String EdgeRecord)
    → Unique nodes
    → Unique edges
    → IsKeyed node_id nodes
    → IsKeyed edge_id edges
    → Agrees
        (stored nodes)
        (stored edges)
        (rebuild_with_config library (values nodes) (values edges) config)
unfolding rebuild_with_config empty_index
rebuild-Agrees R library config nodes edges un ue kn ke =
    let vectors = from_config {R = R} config.backend config.settings (values nodes) in
    let start = empty_index vectors in
    let with_nodes = upsert_nodes library start (values nodes) in
    let with_edges = upsert_edges with_nodes (values edges) in
    let index_of_all =
      upsert_edges-IsIndexOf (values edges) (with_all node_id (values nodes) nobody) nobody
        with_nodes (AreNew-values edge_id edges nobody ue ke (λ key among. refl))
        (upsert_nodes-IsIndexOf library (values nodes) nobody nobody start
          (AreNew-values node_id nodes nobody un kn (λ key among. refl))
          (empty_index-IsIndexOf R vectors)) in
    let candidates =
      subst (λ v. HasCandidates nothing_pending (with_all node_id (values nodes) nobody) v)
        (sym (upsert_edges-vectors (values edges) with_nodes))
        (upsert_nodes-HasCandidates library (values nodes) nobody start
          (from_config-HasCandidates R config.backend config.settings (values nodes))) in
    initialized-Agrees R library (values nodes) (stored nodes) (stored edges) with_edges (
      subst (λ f. Agrees f (stored edges) with_edges) (with_all-eq node_id nodes un kn)
        (subst (λ g. Agrees (with_all node_id (values nodes) nobody) g with_edges)
          (with_all-eq edge_id edges ue ke) (index_of_all, candidates)))
