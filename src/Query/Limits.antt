-- ===== src/Query/Limits.antt =====
-- The limits of a query: how many results, how deep, how long.
use undr.Base.{
  ℕ, ◌≤◌, ◌<◌, ◌≡◌, refl, true, not, ◌||◌, String, List, [], ◌∷◌, ◌++◌, Option, none, some, any,
  arith, nat_beq, ltb, Bool-cases, inl, inr, string_key, ◌==◌, if◌then◌else◌,
}
use undr.Common.{Result, ok, err, panic, validation, ensure, ◌>>=◌, ◌>>◌}
use undr.Index.Search.{unwrap_or_else}

abbrev pub default_max_depth : ℕ
default_max_depth = 5

abbrev pub default_result_limit : ℕ
default_result_limit = 100

abbrev pub default_query_timeout_ms : ℕ
default_query_timeout_ms = 5000

abbrev pub max_result_limit : ℕ
max_result_limit = 1000

abbrev pub max_query_timeout_ms : ℕ
max_query_timeout_ms = 30000

pub record TraversalConstraints : Type 0 where
  pub edge_types : List String
  pub node_labels : List String

abbrev pub no_constraints : TraversalConstraints
no_constraints = record { edge_types = []; node_labels = [] }

pub record TraversalRuntime : Type 0 where
  pub max_depth : ℕ
  pub limit : ℕ
  pub timeout_ms : ℕ
  pub constraints : TraversalConstraints

unfoldable pub resolve_required_result_limit : ℕ → Result ℕ
resolve_required_result_limit limit =
    if nat_beq limit 0
    then err validation
    else if ltb max_result_limit limit
    then err validation
    else ok limit

unfoldable pub resolve_result_limit : Option ℕ → Result ℕ
unfolding resolve_required_result_limit
resolve_result_limit limit =
    resolve_required_result_limit (unwrap_or_else limit default_result_limit)

unfoldable pub resolve_timeout_ms : ℕ → Result ℕ
resolve_timeout_ms timeout_ms =
    if nat_beq timeout_ms 0
    then err validation
    else if ltb max_query_timeout_ms timeout_ms
    then err validation
    else ok timeout_ms

unfoldable pub resolve_traversal_runtime :
    Option ℕ → Option ℕ → Option ℕ → Option TraversalConstraints → Result TraversalRuntime
unfolding resolve_required_result_limit resolve_timeout_ms
resolve_traversal_runtime max_depth limit timeout_ms constraints = do
  ensure (not (nat_beq (unwrap_or_else max_depth default_max_depth) 0)) validation
  l ← resolve_required_result_limit (unwrap_or_else limit default_result_limit)
  t ← resolve_timeout_ms (unwrap_or_else timeout_ms default_query_timeout_ms)
  ok (record {
    max_depth = unwrap_or_else max_depth default_max_depth;
    limit = l;
    timeout_ms = t;
    constraints = unwrap_or_else constraints no_constraints;
  })

abbrev pub with_edge_type : Option String → List String → List String
with_edge_type none edge_types = edge_types
with_edge_type (some t) edge_types =
    if any (λ value. value == t) edge_types then edge_types else edge_types ++ t ∷ []

unfoldable pub merge_legacy_edge_type : TraversalRuntime → Option String → TraversalRuntime
merge_legacy_edge_type runtime edge_type = record runtime {
  constraints = record runtime.constraints {
    edge_types = with_edge_type edge_type runtime.constraints.edge_types;
  };
}

-- A runtime within the limits of the service, and the refusals.
abbrev pub IsBounded : Option ℕ → Option ℕ → Option ℕ → Result TraversalRuntime → Type 0
IsBounded max_depth limit timeout_ms (ok runtime) =
    ((0 < runtime.max_depth)
      × (0 < runtime.limit)
      × (runtime.limit ≤ max_result_limit)
      × (0 < runtime.timeout_ms)
      × (runtime.timeout_ms ≤ max_query_timeout_ms))
    × ((runtime.max_depth ≡ unwrap_or_else max_depth default_max_depth)
        × (runtime.limit ≡ unwrap_or_else limit default_result_limit)
        × (runtime.timeout_ms ≡ unwrap_or_else timeout_ms default_query_timeout_ms))
IsBounded max_depth limit timeout_ms (err e) =
    (e ≡ validation)
    × ((nat_beq (unwrap_or_else max_depth default_max_depth) 0
          || (nat_beq (unwrap_or_else limit default_result_limit) 0
              || ltb max_result_limit (unwrap_or_else limit default_result_limit))
          || (nat_beq (unwrap_or_else timeout_ms default_query_timeout_ms) 0
              || ltb max_query_timeout_ms (unwrap_or_else timeout_ms default_query_timeout_ms)))
        ≡ true)
IsBounded max_depth limit timeout_ms panic = ⊥

-- A traversal runs only within the limits: a depth and a limit above 0, at most 1000 results and
-- 30000 ms, each as it was asked for or the default. Otherwise the request is refused as invalid,
-- and only if one of the three is out of its bounds.
pub resolve_traversal_runtime-IsBounded :
    (max_depth limit timeout_ms : Option ℕ) (constraints : Option TraversalConstraints)
    → IsBounded max_depth limit timeout_ms
        (resolve_traversal_runtime max_depth limit timeout_ms constraints)
unfolding resolve_traversal_runtime resolve_required_result_limit resolve_timeout_ms
resolve_traversal_runtime-IsBounded max_depth limit timeout_ms constraints =
    let d = unwrap_or_else max_depth default_max_depth in
    let l = unwrap_or_else limit default_result_limit in
    let t = unwrap_or_else timeout_ms default_query_timeout_ms in
    elim (Bool-cases (nat_beq d 0)) [
      | inl flat ↦ rw flat (refl, ground arith)
      | inr deep ↦ elim (Bool-cases (nat_beq l 0)) [
        | inl nothing ↦ rw (deep, nothing) (refl, ground arith)
        | inr something ↦ elim (Bool-cases (ltb max_result_limit l)) [
          | inl much ↦ rw (deep, something, much) (refl, ground arith)
          | inr fair ↦ elim (Bool-cases (nat_beq t 0)) [
            | inl instant ↦ rw (deep, something, fair, instant) (refl, ground arith)
            | inr timed ↦ elim (Bool-cases (ltb max_query_timeout_ms t)) [
              | inl long ↦ rw (deep, something, fair, timed, long) (refl, ground arith)
              | inr short ↦
                  rw (deep, something, fair, timed, short)
                    (
                      (ground arith, ground arith, ground arith, ground arith, ground arith),
                      (refl, refl, refl),
                    )
            ]
          ]
        ]
      ]
    ]
