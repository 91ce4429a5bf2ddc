-- ===== src/Query/Neighbors.antt =====
-- `collect_neighbor_results`: the edges of a node and the nodes at their other ends.
use undr.Base.{
  ℕ, suc, ◌+◌, ◌≤◌, ◌≡◌, List, [], ◌∷◌, ◌++◌, Option, none, some, String, length, take,
  length-append, length-take, arith, string_key, ◌==◌, Bool-cases, inl, inr, if◌then◌else◌,
}
use undr.Base.Set
use undr.Base.Set.{BTreeSet, contains}
use undr.Common.{NodeId, EdgeId}
use undr.Core.Records.{NodeRecord, EdgeRecord}
use undr.Index.Lookup.{EdgeDirection, outgoing, incoming, both}
use undr.Query.View.{GraphView}

abbrev pub other_end : EdgeDirection → NodeId → EdgeRecord → NodeId
other_end outgoing node_id edge = edge.target
other_end incoming node_id edge = edge.source
other_end both node_id edge = if edge.source == node_id then edge.target else edge.source

pub record Collected : Type 0 where
  pub seen_nodes : BTreeSet NodeId
  pub nodes : List NodeRecord
  pub edges : List EdgeRecord

abbrev push_found : Option NodeRecord → List NodeRecord → List NodeRecord
push_found none nodes = nodes
push_found (some node) nodes = nodes ++ node ∷ []

module _ (view : GraphView) (node_id : NodeId) (direction : EdgeDirection) where
  -- One round of the loop, on an edge that the view has.
  unfoldable pub collect_edge : EdgeRecord → Collected → Collected
  collect_edge edge collected =
      let id = other_end direction node_id edge in
      record {
        seen_nodes = Set.insert id collected.seen_nodes;
        nodes =
            if contains id collected.seen_nodes
            then collected.nodes
            else push_found (view.get_node id) collected.nodes;
        edges = collected.edges ++ edge ∷ [];
      }

  abbrev collect_found : Option EdgeRecord → Collected → Collected
  collect_found none collected = collected
  collect_found (some edge) collected = collect_edge edge collected

  unfoldable pub collect_edges : List EdgeId → Collected → Collected
  unfolding collect_edge
  collect_edges [] collected = collected
  collect_edges (id ∷ ids) collected =
      collect_edges ids (collect_found (view.get_edge id) collected)

  unfoldable pub collect_neighbor_results : Option String → ℕ → List NodeRecord × List EdgeRecord
  unfolding collect_edges
  collect_neighbor_results edge_type limit =
      let collected =
        collect_edges (take limit (view.edge_ids_for_iter node_id direction edge_type))
          (record { seen_nodes = []; nodes = []; edges = [] }) in
      (collected.nodes, collected.edges)

  length-push_found :
      (o : Option NodeRecord) (nodes : List NodeRecord)
      → length (push_found o nodes) ≤ suc (length nodes)
  length-push_found none nodes = omega arith
  length-push_found (some node) nodes = omega (arith, length-append nodes (node ∷ []))

  collect_edge-length :
      (edge : EdgeRecord) (c : Collected)
      → (length (collect_edge edge c).nodes ≤ suc (length c.nodes))
        × (length (collect_edge edge c).edges ≡ suc (length c.edges))
  unfolding collect_edge
  collect_edge-length edge c =
      let id = other_end direction node_id edge in
      (
        elim (Bool-cases (contains id c.seen_nodes)) [
          | inl seen ↦ rw seen (omega arith)
          | inr new ↦ rw new (length-push_found (view.get_node id) c.nodes)
        ],
        omega (arith, length-append c.edges (edge ∷ [])),
      )

  collect_found-length :
      (o : Option EdgeRecord) (c : Collected)
      → length c.nodes ≤ length c.edges
      → (length (collect_found o c).nodes ≤ length (collect_found o c).edges)
        × (length (collect_found o c).edges ≤ suc (length c.edges))
  collect_found-length none c h = omega arith
  collect_found-length (some edge) c h = omega (arith, collect_edge-length edge c)

  collect_edges-length :
      (ids : List EdgeId) (c : Collected)
      → length c.nodes ≤ length c.edges
      → (length (collect_edges ids c).nodes ≤ length (collect_edges ids c).edges)
        × (length (collect_edges ids c).edges ≤ length c.edges + length ids)
  unfolding collect_edges
  collect_edges-length [] c h = omega arith
  collect_edges-length (id ∷ ids) c h =
      let step = collect_found-length (view.get_edge id) c h in
      omega (arith, collect_edges-length ids (collect_found (view.get_edge id) c) step.0)

-- A listing of neighbours has no more edges than its limit, and no more nodes than edges.
pub collect_neighbor_results-bounded :
    (view : GraphView) (node_id : NodeId) (direction : EdgeDirection) (edge_type : Option String)
    (limit : ℕ)
    → (length (collect_neighbor_results view node_id direction edge_type limit).0
        ≤ length (collect_neighbor_results view node_id direction edge_type limit).1)
      × (length (collect_neighbor_results view node_id direction edge_type limit).1 ≤ limit)
unfolding collect_neighbor_results
collect_neighbor_results-bounded view node_id direction edge_type limit =
    let ids = take limit (view.edge_ids_for_iter node_id direction edge_type) in
    let bounds =
      collect_edges-length view node_id direction ids
        (record { seen_nodes = []; nodes = []; edges = [] }) (omega arith) in
    omega (arith, length-take limit (view.edge_ids_for_iter node_id direction edge_type))
