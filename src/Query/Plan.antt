-- ===== src/Query/Plan.antt =====
-- `QueryRequest` and `Planner::plan`, which checks a request before anything is read.
use undr.Base.{
  ℕ, ◌-◌, ◌%◌, ◌^◌, ◌≡◌, ◌≤◌, ◌<◌, min, Bool, false, not, ◌||◌, String, List, [], ◌∷◌, ◌++◌, Option,
  none, some, is_blank, is_empty, length, leb, arith, Bool-cases, inl, inr, if◌then◌else◌,
}
use undr.Base.Int.{ℤ, pos, negsuc, ltb_ℤ}
use undr.Base.Map.{is_some}
use undr.Common.{NodeId, Result, ok, validation, ensure, ◌>>=◌, ◌>>◌}
use undr.Core.Value.{PropertyValue, string, integer}
use undr.Index.Lookup.{EdgeDirection}
use undr.Index.Search.{unwrap_or_else, node_ids_in_time_range, ids_within}
use undr.Index.Graph.{GraphIndex}
use undr.Index.Vectors.Spaces.{Vector}
use undr.Query.Limits.{
  TraversalConstraints, max_result_limit, resolve_result_limit, resolve_required_result_limit,
  resolve_traversal_runtime,
}
use undr.Query.Response.{
  PlanKind, exact_lookup, filter_scan, traversal, shortest_path, neighbor_lookup, label_scan,
  temporal_range, vector_similarity, ranked_hybrid,
}
use undr.Query.Filter.{FilterExpression, validate_filter_expression, filter_expression_leaf_count}

pub record Walking : Type 0 where
  pub direction : EdgeDirection
  pub depth : Option ℕ
  pub limit : Option ℕ
  pub timeout_ms : Option ℕ
  pub constraints : Option TraversalConstraints

pub record Ranking : Type 0 where
  pub query_vector : Option Vector
  pub reference_node_id : Option NodeId
  pub edge_type : Option String
  pub from_epoch_ms : Option ℤ
  pub to_epoch_ms : Option ℤ
  pub vector_name : Option String
  pub limit : ℕ
  pub top_k : Option ℕ
  pub now_epoch_ms : ℤ
  pub retrieval_profile : Option String

-- The fields that `Traverse` and `ShortestPath` share stand in `Walking`, with the hops as `depth`;
-- those of `RankedRetrieval` in `Ranking`.
pub data QueryRequest : Type 0 where
  get_node_by_id : NodeId → QueryRequest
  get_node_by_unique_key : String → QueryRequest
  filter_nodes : Option String → FilterExpression → Option ℕ → QueryRequest
  list_neighbors : NodeId → Option String → EdgeDirection → Option ℕ → QueryRequest
  traverse : NodeId → Option String → Walking → QueryRequest
  find_shortest_path : NodeId → NodeId → Walking → QueryRequest
  search_by_label : String → Option ℕ → QueryRequest
  time_range : String → ℤ → ℤ → ℕ → QueryRequest
  vector_search : Vector → Option String → Option String → ℕ → Option ℕ → QueryRequest
  ranked_retrieval : Ranking → QueryRequest

pub record QueryFilter : Type 0 where
  pub field : String
  pub value : PropertyValue

pub record QueryPlan : Type 0 where
  pub kind : PlanKind
  pub filters : List QueryFilter

-- `i64::try_from(n).unwrap_or(i64::MAX)`, and `n as i64`
abbrev pub saturated : ℕ → PropertyValue
saturated n = integer (pos (min n (2 ^ 63 - 1)))

abbrev pub cast : ℕ → PropertyValue
cast n =
    integer
      (if leb (2 ^ 63) (n % 2 ^ 64) then negsuc (2 ^ 64 - n % 2 ^ 64 - 1) else pos (n % 2 ^ 64))

abbrev pub filter_on : String → PropertyValue → QueryFilter
filter_on field value = record { field = field; value = value }

abbrev pub planned : PlanKind → List QueryFilter → Result QueryPlan
planned kind filters = ok (record { kind = kind; filters = filters })

abbrev pub label_filters : Option String → List QueryFilter
label_filters none = []
label_filters (some label) = filter_on "label" (string label) ∷ []

abbrev label_is_blank : Option String → Bool
label_is_blank none = false
label_is_blank (some label) = is_blank label

-- `top_k.map(resolve_required_result_limit).transpose()?`
abbrev pub resolve_top_k : Option ℕ → Result (Option ℕ)
resolve_top_k none = ok none
resolve_top_k (some k) = do n ← resolve_required_result_limit k; ok (some n)

abbrev pub top_k_filters : Option ℕ → List QueryFilter
top_k_filters none = []
top_k_filters (some k) = filter_on "top_k" (saturated k) ∷ []

abbrev pub type_filters : Option String → List QueryFilter
type_filters none = []
type_filters (some t) = filter_on "node_type" (string t) ∷ []

unfoldable pub validate_query_vector : Vector → Result (Unit {0})
validate_query_vector query_vector = ensure (not (is_empty query_vector)) validation

abbrev validate_given : Option Vector → Result (Unit {0})
validate_given none = ok tt
validate_given (some query_vector) = validate_query_vector query_vector

abbrev pub is_backwards : Option ℤ → Option ℤ → Bool
is_backwards (some from) (some to) = ltb_ℤ to from
is_backwards none to = false
is_backwards (some from) none = false

unfoldable pub plan_walk : PlanKind → String → Walking → Result QueryPlan
plan_walk kind depth_field walking = do
  runtime ←
      resolve_traversal_runtime walking.depth walking.limit walking.timeout_ms walking.constraints
  planned kind (
      filter_on depth_field (integer (pos runtime.max_depth))
      ∷ filter_on "limit" (cast runtime.limit)
      ∷ filter_on "timeout_ms" (cast runtime.timeout_ms)
      ∷ [])

unfoldable pub plan_filter : Option String → FilterExpression → Option ℕ → Result QueryPlan
plan_filter label filter limit = do
  validate_filter_expression filter
  l ← resolve_result_limit limit
  ensure (not (label_is_blank label)) validation
  planned filter_scan (
      filter_on "limit" (saturated l) ∷ label_filters label
      ++ filter_on "predicate_count" (saturated (filter_expression_leaf_count filter)) ∷ [])

unfoldable pub plan_time_range : String → ℤ → ℤ → ℕ → Result QueryPlan
plan_time_range field from to limit = do
  ensure (not (ltb_ℤ to from)) validation
  l ← resolve_required_result_limit limit
  planned temporal_range (
      filter_on "field" (string field)
      ∷ filter_on "from_epoch_ms" (integer from)
      ∷ filter_on "to_epoch_ms" (integer to)
      ∷ filter_on "limit" (saturated l)
      ∷ [])

unfoldable pub plan_vector_search :
    Vector → Option String → Option String → ℕ → Option ℕ → Result QueryPlan
unfolding validate_query_vector
plan_vector_search query_vector node_type vector_name limit top_k = do
  validate_query_vector query_vector
  l ← resolve_required_result_limit limit
  k ← resolve_top_k top_k
  planned vector_similarity (
      filter_on "vector_dimensions" (cast (length query_vector))
        ∷ filter_on "vector_name" (string (unwrap_or_else vector_name "default"))
        ∷ type_filters node_type
      ++ filter_on "limit" (saturated l) ∷ top_k_filters k)

unfoldable pub plan_ranked_retrieval : Ranking → Result QueryPlan
unfolding validate_query_vector
plan_ranked_retrieval ranking = do
  validate_given ranking.query_vector
  ensure (not (is_backwards ranking.from_epoch_ms ranking.to_epoch_ms)) validation
  ensure (is_some ranking.query_vector || is_some ranking.reference_node_id) validation
  l ← resolve_required_result_limit ranking.limit
  k ← resolve_top_k ranking.top_k
  planned ranked_hybrid (
      filter_on "limit" (saturated l)
      ∷ filter_on "vector_name" (string (unwrap_or_else ranking.vector_name "default"))
      ∷ top_k_filters k)

unfoldable pub plan : QueryRequest → Result QueryPlan
unfolding plan_walk plan_filter plan_time_range plan_vector_search plan_ranked_retrieval
plan (get_node_by_id id) = planned exact_lookup []
plan (get_node_by_unique_key key) = planned exact_lookup (filter_on "unique_key" (string key) ∷ [])
plan (filter_nodes label filter limit) = plan_filter label filter limit
plan (list_neighbors id edge_type direction limit) = do
  l ← resolve_result_limit limit
  planned neighbor_lookup (filter_on "limit" (saturated l) ∷ [])
plan (traverse start edge_type walking) = plan_walk traversal "max_hops" walking
plan (find_shortest_path source target walking) = plan_walk shortest_path "max_depth" walking
plan (search_by_label label limit) = do
  l ← resolve_result_limit limit
  planned label_scan (filter_on "label" (string label) ∷ filter_on "limit" (saturated l) ∷ [])
plan (time_range field from to limit) = plan_time_range field from to limit
plan (vector_search query_vector node_type vector_name limit top_k) =
    plan_vector_search query_vector node_type vector_name limit top_k
plan (ranked_retrieval ranking) = plan_ranked_retrieval ranking

-- A request for a range of times that is planned asks for 1 to 1000 results, and its search of the
-- index does not panic, whatever the index.
pub plan-in_range :
    (R : Type 0) (index : GraphIndex R) (field : String) (from to : ℤ) (limit : ℕ) (p : QueryPlan)
    → plan (time_range field from to limit) ≡ ok p
    → ((0 < limit) × (limit ≤ max_result_limit))
      × (ids : List NodeId) × (node_ids_in_time_range index from to ≡ ok ids)
unfolding plan plan_time_range node_ids_in_time_range resolve_required_result_limit
plan-in_range R index field from to limit p h = elim (Bool-cases (ltb_ℤ to from)) [
  | inl backwards ↦ ground arith
  | inr forwards ↦ (ground arith, ids_within from to index.temporal_index, ground arith)
]
