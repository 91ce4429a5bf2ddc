-- ===== src/Query/Response.antt =====
-- `QueryResponse` as a stream of items, `from_response`, and back, `collect_response`.
use undr.Base.{
  ℕ, ◌≡◌, refl, sym, ap, ◌∙◌, List, [], ◌∷◌, ◌++◌, Option, none, some, String, map, is_empty,
  if◌then◌else◌, append-nil, append_assoc, false,
}
use undr.Common.{NodeId, EdgeId}
use undr.Core.Records.{NodeRecord, EdgeRecord}

pub data PlanKind : Type 0 where
  exact_lookup filter_scan traversal shortest_path neighbor_lookup : PlanKind
  label_scan temporal_range vector_similarity ranked_hybrid : PlanKind

-- The scores are f32 bit patterns.
pub record ScoreBreakdown : Type 0 where
  pub structural : ℕ
  pub semantic : ℕ
  pub temporal : ℕ
  pub importance : ℕ
  pub confidence : ℕ

pub record RankedNodeResult : Type 0 where
  pub node : NodeRecord
  pub score : ℕ
  pub breakdown : ScoreBreakdown

pub record GraphPath : Type 0 where
  pub node_ids : List NodeId
  pub edge_ids : List EdgeId
  pub hop_count : ℕ

pub record QueryResponse : Type 0 where
  pub plan_kind : PlanKind
  pub nodes : List NodeRecord
  pub edges : List EdgeRecord
  pub ranked_results : List RankedNodeResult
  pub path : Option GraphPath
  pub retrieval_profile : Option String

pub data QueryExecutionItem : Type 0 where
  item_node : NodeRecord → QueryExecutionItem
  item_edge : EdgeRecord → QueryExecutionItem
  item_ranked : RankedNodeResult → QueryExecutionItem
  item_path : GraphPath → QueryExecutionItem

pub record QueryExecution : Type 0 where
  pub plan_kind : PlanKind
  pub retrieval_profile : Option String
  pub items : List QueryExecutionItem

abbrev pub path_items : Option GraphPath → List QueryExecutionItem
path_items none = []
path_items (some path) = item_path path ∷ []

unfoldable pub from_response : QueryResponse → QueryExecution
from_response response = record {
  plan_kind = response.plan_kind;
  retrieval_profile = response.retrieval_profile;
  items =
      (if is_empty response.ranked_results
        then map item_node response.nodes
        else map item_ranked response.ranked_results)
      ++ (map item_edge response.edges ++ path_items response.path);
}

-- One round of the loop over the items.
unfoldable pub collect_item : QueryResponse → QueryExecutionItem → QueryResponse
collect_item response (item_node node) = record response { nodes = response.nodes ++ node ∷ [] }
collect_item response (item_edge edge) = record response { edges = response.edges ++ edge ∷ [] }
collect_item response (item_ranked result) = record response {
  nodes = response.nodes ++ result.node ∷ [];
  ranked_results = response.ranked_results ++ result ∷ [];
}
collect_item response (item_path path) = record response { path = some path }

unfoldable pub collect_items : QueryResponse → List QueryExecutionItem → QueryResponse
unfolding collect_item
collect_items response [] = response
collect_items response (item ∷ items) = collect_items (collect_item response item) items

unfoldable pub collect_response : QueryExecution → QueryResponse
unfolding collect_items
collect_response execution =
    collect_items
      (record {
        plan_kind = execution.plan_kind;
        nodes = [];
        edges = [];
        ranked_results = [];
        path = none;
        retrieval_profile = execution.retrieval_profile;
      })
      execution.items

abbrev pub node_of : RankedNodeResult → NodeRecord
node_of result = result.node

-- Collecting goes through a list part by part.
collect_items-append :
    (response : QueryResponse) (xs ys : List QueryExecutionItem)
    → collect_items response (xs ++ ys) ≡ collect_items (collect_items response xs) ys
unfolding collect_items
collect_items-append response [] ys = refl
collect_items-append response (x ∷ xs) ys = collect_items-append (collect_item response x) xs ys

collect-nodes :
    (response : QueryResponse) (nodes : List NodeRecord)
    → collect_items response (map item_node nodes)
      ≡ record response { nodes = response.nodes ++ nodes }
unfolding collect_items collect_item
collect-nodes response [] =
    ap (λ ns. record response { nodes = ns }) (sym (append-nil response.nodes))
collect-nodes response (n ∷ nodes) =
    collect-nodes (record response { nodes = response.nodes ++ n ∷ [] }) nodes
    ∙ ap (λ ns. record response { nodes = ns }) (append_assoc response.nodes (n ∷ []) nodes)

collect-edges :
    (response : QueryResponse) (edges : List EdgeRecord)
    → collect_items response (map item_edge edges)
      ≡ record response { edges = response.edges ++ edges }
unfolding collect_items collect_item
collect-edges response [] =
    ap (λ es. record response { edges = es }) (sym (append-nil response.edges))
collect-edges response (e ∷ edges) =
    collect-edges (record response { edges = response.edges ++ e ∷ [] }) edges
    ∙ ap (λ es. record response { edges = es }) (append_assoc response.edges (e ∷ []) edges)

collect-ranked :
    (response : QueryResponse) (results : List RankedNodeResult)
    → collect_items response (map item_ranked results) ≡ record response {
      nodes = response.nodes ++ map node_of results;
      ranked_results = response.ranked_results ++ results;
    }
unfolding collect_items collect_item
collect-ranked response [] =
    ap (λ ns. record response { nodes = ns }) (sym (append-nil response.nodes))
    ∙ ap (λ rs. record response { nodes = response.nodes ++ []; ranked_results = rs })
        (sym (append-nil response.ranked_results))
collect-ranked response (r ∷ results) =
    collect-ranked (collect_item response (item_ranked r)) results
    ∙ ap
        (λ ns. record response {
          nodes = ns;
          ranked_results = (response.ranked_results ++ r ∷ []) ++ results;
        })
        (append_assoc response.nodes (r.node ∷ []) (map node_of results))
    ∙ ap
        (λ rs. record response {
          nodes = response.nodes ++ r.node ∷ map node_of results;
          ranked_results = rs;
        })
        (append_assoc response.ranked_results (r ∷ []) results)

collect-path :
    (response : QueryResponse) (path : Option GraphPath)
    → response.path ≡ none
    → collect_items response (path_items path) ≡ record response { path = path }
unfolding collect_items collect_item
collect-path response none h = ap (λ p. record response { path = p }) h
collect-path response (some path) h = refl

-- The start of the collection, and the parts of a stream behind the nodes.
collect-tail :
    (response : QueryResponse) (edges : List EdgeRecord) (path : Option GraphPath)
    → response.path ≡ none
    → collect_items response (map item_edge edges ++ path_items path)
      ≡ record response { edges = response.edges ++ edges; path = path }
collect-tail response edges path h =
    collect_items-append response (map item_edge edges) (path_items path)
    ∙ ap (λ r. collect_items r (path_items path)) (collect-edges response edges)
    ∙ collect-path (record response { edges = response.edges ++ edges }) path h

-- The nodes of a ranked response are those of its results.
abbrev pub IsListed : QueryResponse → Type 0
IsListed response =
    is_empty response.ranked_results ≡ false → response.nodes ≡ map node_of response.ranked_results

abbrev started : QueryResponse → QueryResponse
started response = record response { nodes = []; edges = []; ranked_results = []; path = none }

collect-front :
    (response : QueryResponse) (ranked : List RankedNodeResult)
    → (is_empty ranked ≡ false → response.nodes ≡ map node_of ranked)
    → collect_items
        (started response)
        (if is_empty ranked then map item_node response.nodes else map item_ranked ranked)
      ≡ record (started response) { nodes = response.nodes; ranked_results = ranked }
collect-front response [] listed = collect-nodes (started response) response.nodes
collect-front response (r ∷ ranked) listed =
    collect-ranked (started response) (r ∷ ranked)
    ∙ ap (λ ns. record (started response) { nodes = ns; ranked_results = r ∷ ranked })
        (sym (listed refl))

-- A response whose nodes are those of its ranked results, where it has any, comes back from its
-- stream of items as it was.
pub collect_response-from_response :
    (response : QueryResponse)
    → IsListed response
    → collect_response (from_response response) ≡ response
unfolding collect_response from_response
collect_response-from_response response listed =
    let front =
      if is_empty response.ranked_results
      then map item_node response.nodes
      else map item_ranked response.ranked_results in
    collect_items-append (started response) front
      (map item_edge response.edges ++ path_items response.path)
    ∙ ap (λ r. collect_items r (map item_edge response.edges ++ path_items response.path))
        (collect-front response response.ranked_results listed)
    ∙ collect-tail
        (record (started response) {
          nodes = response.nodes;
          ranked_results = response.ranked_results;
        })
        response.edges response.path refl
