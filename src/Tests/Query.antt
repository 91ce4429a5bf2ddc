-- ===== src/Tests/Query.antt =====
-- The queries on two nodes and an edge.
use Prim.Native.Nat.{Ordering}
use undr.Base.{
  ℕ, suc, ◌<◌, ◌≤◌, ◌≡◌, refl, true, false, not, List, [], ◌∷◌, none, some, String, arith,
  string_key,
}
use undr.Base.Int.{pos}
use undr.Base.Map
use undr.Core.Value.{integer}
use undr.Core.Records.{property}
use undr.Query.View.{GraphView, snapshot_view}
use undr.Query.Limits.{resolve_traversal_runtime, IsBounded, resolve_traversal_runtime-IsBounded}
use undr.Query.Response.{
  QueryResponse, RankedNodeResult, ranked_hybrid, from_response, collect_response,
  collect_response-from_response,
}
use undr.Query.Filter.{
  FilterExpression, gt, all_of, also, done, node_matches_filter, compare_numeric_property_values,
  field_as_f64,
}
use undr.Query.Filter.Laws.{IsComparable, opposite, node_matches_filter-opposite}
use undr.Query.Distances.{Distances, graph_distances}
use undr.Query.Distances.Ends.{cost, graph_distances-ends}
use undr.Query.Distances.Walks.{IsWalk, graph_distances-IsWalk}
use undr.Index.Lookup.{outgoing}
use undr.Query.Limits.{TraversalRuntime, no_constraints}
use undr.Query.Path.{shortest_path}
use undr.Query.Path.Answered.{Answers, shortest_path-Answers}
use undr.Tests.Sample.{a}
use undr.Tests.Graph.{library, published_one}

resolve_traversal_runtime-IsBounded_example :
    IsBounded (some 3) (some 2000) none (resolve_traversal_runtime (some 3) (some 2000) none none)
resolve_traversal_runtime-IsBounded_example =
    resolve_traversal_runtime-IsBounded (some 3) (some 2000) none none

abbrev ranked_a : RankedNodeResult
ranked_a = record {
  node = a;
  score = 0x3f800000;
  breakdown = record {
    structural = 0;
    semantic = 0x3f800000;
    temporal = 0;
    importance = 0;
    confidence = 0;
  };
}

abbrev answer : QueryResponse
answer = record {
  plan_kind = ranked_hybrid;
  nodes = a ∷ [];
  edges = [];
  ranked_results = ranked_a ∷ [];
  path = none;
  retrieval_profile = some "v1-default";
}

collect_response-from_response_example : collect_response (from_response answer) ≡ answer
collect_response-from_response_example = collect_response-from_response answer (λ nonempty. refl)

abbrev recent : FilterExpression
recent = all_of (also (gt "timestamp" (integer (pos 3))) done)

recent-IsComparable : IsComparable a recent
unfolding compare_numeric_property_values field_as_f64 property Map.get
recent-IsComparable = ((Ordering.gt, refl), tt)

node_matches_filter-opposite_example :
    node_matches_filter a (opposite recent) ≡ not (node_matches_filter a recent)
node_matches_filter-opposite_example = node_matches_filter-opposite a recent recent-IsComparable

abbrev view : GraphView
view = snapshot_view library published_one

graph_distances-ends_example :
    (distances : Distances) × (graph_distances view none (suc (cost view none 3 "a")) "a"
      ≡ some distances)
graph_distances-ends_example =
    graph_distances-ends view none "a" (suc (cost view none 3 "a")) (omega arith)

abbrev from_a : Distances
from_a = ("a", 0) ∷ ("b", 1) ∷ []

distances_from_a : graph_distances view none 10 "a" ≡ some from_a
unfolding graph_distances snapshot_view undr.Index.Graph.contains_node undr.Base.Set.contains
    undr.Index.Build.rebuild_with_config undr.Index.Graph.upsert_edge undr.Index.Graph.upsert_node
    undr.Base.Set.insert undr.Index.Graph.empty_index undr.Base.Set.place
    undr.Index.Search.edge_ids_for_iter Map.get undr.Index.Buckets.push_at Map.insert Map.place
    Map.remove undr.Index.Buckets.push_unique Map.contains_key undr.Index.Build.upsert_edges
    undr.Index.Build.upsert_nodes undr.Query.Distances.distance_loop undr.Query.Distances.visit
    undr.Index.Search.has_edge_type
distances_from_a = refl

one_hop : Map.get "b" from_a ≡ some 1
unfolding Map.get
one_hop = refl

graph_distances-IsWalk_example : IsWalk view none 1 "a" "b" × (1 ≤ 3)
graph_distances-IsWalk_example =
    graph_distances-IsWalk view none "a" 10 from_a "b" 1 distances_from_a one_hop

abbrev runtime : TraversalRuntime
runtime = record { max_depth = 5; limit = 100; timeout_ms = 5000; constraints = no_constraints }

path_to_b :
    shortest_path view "a" "b" outgoing runtime (λ n. false)
    ≡ some (some (record { node_ids = "a" ∷ "b" ∷ []; edge_ids = "e" ∷ []; hop_count = 1 }))
unfolding shortest_path snapshot_view undr.Index.Graph.contains_node undr.Base.Set.contains
    undr.Index.Build.rebuild_with_config undr.Index.Graph.upsert_edge undr.Index.Graph.upsert_node
    undr.Base.Set.insert undr.Index.Graph.empty_index undr.Base.Set.place
    undr.Index.Search.edge_ids_for_iter Map.get undr.Index.Buckets.push_at Map.insert Map.place
    Map.remove undr.Index.Buckets.push_unique Map.contains_key undr.Index.Build.upsert_edges
    undr.Index.Build.upsert_nodes undr.Index.Search.has_edge_type undr.Query.Path.enter
    undr.Query.Path.enter_each undr.Query.Path.expand_frontier undr.Query.Path.expand_level
    undr.Query.Path.expand_neighbors undr.Query.Path.join_parts undr.Query.Path.last
    undr.Query.Path.left_part undr.Query.Path.path_loop undr.Query.Path.reconstruct_path
    undr.Query.Path.reverse_direction undr.Query.Path.right_part undr.Query.View.records_of
path_to_b = refl

shortest_path-Answers_example :
    Answers view "a" "b" outgoing runtime (shortest_path view "a" "b" outgoing runtime (λ n. false))
shortest_path-Answers_example = shortest_path-Answers view "a" "b" outgoing runtime (λ n. false)
