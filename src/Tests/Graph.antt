-- ===== src/Tests/Graph.antt =====
-- The index, the published snapshot and the queries on two nodes and an edge.
use undr.Base.{
  ◌≡◌, refl, sym, subst, true, false, [], ◌∷◌, none, some, string_key, ◌==◌, ◌&&◌, if◌then◌else◌,
}
use undr.Base.Int.{pos}
use undr.Base.Map
use undr.Base.Map.{BTreeMap, values, is_some}
use undr.Base.Set.{contains}
use undr.Common.{ok}
use undr.Core.Records.{EdgeRecord, vector, normalize_memory_metadata}
use undr.Core.Batch.{WriteBatch, empty_batch}
use undr.Storage.Batch.{apply_batch_to_maps_unchecked, incident, check_each}
use undr.Index.Graph.{GraphIndex}
use undr.Index.Agreement.{Agrees}
use undr.Index.Build.{rebuild_with_config}
use undr.Index.Rebuilt.{stored, rebuild-Agrees}
use undr.Index.Search.{node_ids_in_time_range, semantic_candidate_ids}
use undr.Index.Found.{TimeRange, node_ids_in_time_range-finds}
use undr.Index.Lookup.{has}
use undr.Index.Semantic.{semantic_candidate_ids-of_type}
use undr.Index.Vectors.Exact.{ExactVectorIndex}
use undr.Index.Vectors.Spaces.{HnswLibrary}
use undr.Index.Vectors.State.{VectorIndexConfig, exact_backend, exact}
use undr.Query.View.{SemanticCandidateQuery, GraphSnapshot}
use undr.Api.Mutation.{BatchMutation, mutation_of, plan_batch_mutation, snapshot_with_mutation}
use undr.Api.Published.{IsApart}
use undr.Api.Follows.{IsPublished, snapshot_with_mutation-IsPublished, mutation_of-IsMutation}
use undr.Api.Diverged.{reroute, rerouted_edge_lost}
use undr.Api.Candidates.{IsBruteForce, overlay, published, overlay-semantic_candidates}
use undr.Tests.Sample.{
  new_a, e, nodes, edges, Unique-nodes, Unique-edges, keyed_nodes, keyed_edges, sound,
}

abbrev pub library : HnswLibrary (Unit {0})
library = record {
  create = λ dimension max_nodes m ef_construction ef_search. tt;
  insert = λ r id v. some tt;
  set = λ r id v. some tt;
  delete = λ r id. tt;
  search = λ r query limit allows. some [];
}

abbrev config : VectorIndexConfig
config = record {
  backend = exact_backend;
  settings = record {
    semantic_top_k = 10;
    exact_fallback_threshold = 100;
    hnsw_m = 16;
    hnsw_ef_construction = 200;
    hnsw_ef_search = 50;
  };
}

abbrev pub index : GraphIndex (Unit {0})
index = rebuild_with_config library (values nodes) (values edges) config

abbrev pub published_one : GraphSnapshot (Unit {0})
published_one = record { nodes = nodes; edges = edges; indexes = index }

rebuild-Agrees_example : Agrees (stored nodes) (stored edges) index
rebuild-Agrees_example =
    rebuild-Agrees (Unit {0}) library config nodes edges Unique-nodes Unique-edges keyed_nodes
      keyed_edges

agreed : Agrees (stored nodes) (stored edges) index
agreed =
    rebuild-Agrees (Unit {0}) library config nodes edges Unique-nodes Unique-edges keyed_nodes
      keyed_edges

IsPublished-one : IsPublished nodes edges published_one
IsPublished-one = record { same_nodes = λ key. refl; same_edges = λ key. refl; consistent = agreed }

-- The batch changes a node and adds an edge.
abbrev back : EdgeRecord
back = record { id = "f"; source = "b"; target = "a"; edge_type = "next"; properties = [] }

abbrev batch : WriteBatch
batch = record empty_batch { nodes_upserted = new_a ∷ []; edges_upserted = back ∷ [] }

abbrev change : BatchMutation
change = mutation_of nodes edges batch

apart : IsApart edges batch
unfolding incident contains Map.get
apart = record { ends = (refl, tt); before = (refl, tt) }

change_planned : plan_batch_mutation nodes edges batch ≡ ok change
unfolding plan_batch_mutation check_each normalize_memory_metadata Map.contains_key Map.get
change_planned = refl

snapshot_with_mutation-IsPublished_example :
    IsPublished
      (apply_batch_to_maps_unchecked nodes edges batch).0
      (apply_batch_to_maps_unchecked nodes edges batch).1
      (snapshot_with_mutation library published_one change)
snapshot_with_mutation-IsPublished_example =
    snapshot_with_mutation-IsPublished library nodes edges batch published_one change sound apart
      IsPublished-one change_planned

-- The edge e, which starts at a, led away from it.
abbrev moved : EdgeRecord
moved = record { id = "e"; source = "b"; target = "b"; edge_type = "next"; properties = [] }

e_stored : Map.get moved.id edges ≡ some e
unfolding Map.get
e_stored = refl

e_touched : incident ("a" ∷ []) e ≡ true
unfolding incident contains
e_touched = refl

moved_apart : incident ("a" ∷ []) moved ≡ false
unfolding incident contains
moved_apart = refl

rerouted_edge_lost_example :
    (Map.get "e" (apply_batch_to_maps_unchecked nodes edges (reroute moved "a")).1 ≡ some moved)
    × (Map.get "e"
          (snapshot_with_mutation library published_one
            (mutation_of nodes edges (reroute moved "a"))).edges
        ≡ none)
rerouted_edge_lost_example =
    rerouted_edge_lost (Unit {0}) library nodes edges published_one e moved "a" sound
      IsPublished-one e_stored e_touched moved_apart

node_ids_in_time_range-finds_example :
    TimeRange (stored nodes) (pos 0) (pos 10) (node_ids_in_time_range index (pos 0) (pos 10))
node_ids_in_time_range-finds_example =
    node_ids_in_time_range-finds (stored nodes) (stored edges) index (pos 0) (pos 10) agreed.0

abbrev default_vectors : ExactVectorIndex
default_vectors = record { candidate_ids_by_name = ("default", "a" ∷ []) ∷ [] }

exact_index : index.vector_index ≡ exact default_vectors
unfolding rebuild_with_config undr.Index.Vectors.State.initialize_runtime_from_nodes
    undr.Index.Graph.upsert_edge undr.Index.Graph.upsert_node undr.Index.Vectors.State.upsert_node
    undr.Index.Graph.empty_index undr.Index.Vectors.State.from_config
    undr.Index.Vectors.Exact.upsert_node undr.Index.Vectors.Exact.push_under Map.retain
    Map.map_values undr.Index.Buckets.push_at Map.insert Map.place Map.remove vector Map.get
    undr.Index.Build.upsert_edges undr.Index.Build.upsert_nodes undr.Index.Buckets.push_unique
    undr.Index.Buckets.retain_not
exact_index = refl

semantic_candidate_ids-of_type_example :
    contains "a"
      (semantic_candidate_ids library index (0x40000000 ∷ []) "default" (some "memory") 10 none)
    ≡ (if is_some (Map.get "memory" index.label_type_index)
        then has
            (λ node. node.node_type == "memory" && is_some (vector node "default"))
            (stored nodes "a")
        else has (λ node. is_some (vector node "default")) (stored nodes "a"))
semantic_candidate_ids-of_type_example =
    semantic_candidate_ids-of_type library (stored nodes) (stored edges) index default_vectors
      (0x40000000 ∷ []) "default" "memory" 10 none "a" exact_index refl agreed

abbrev near_a : SemanticCandidateQuery
near_a = record {
  query_vector = 0x40000000 ∷ [];
  vector_name = "default";
  node_type = none;
  limit = 10;
  top_k_override = none;
}

overlay-semantic_candidates_example :
    (contains "a" ((overlay library published_one change).vector_candidate_ids_iter "default")
      ≡ contains "a" ((published library published_one change).vector_candidate_ids_iter "default"))
    × (contains "a" ((overlay library published_one change).semantic_candidate_ids_iter near_a)
        ≡ contains "a"
            ((published library published_one change).semantic_candidate_ids_iter near_a))
overlay-semantic_candidates_example =
    overlay-semantic_candidates library published_one change near_a "a" refl tt
      (mutation_of-IsMutation library nodes edges batch published_one sound apart IsPublished-one)
      agreed (subst IsBruteForce (sym exact_index) tt)
