-- ===== src/Api/ReadYourWrites.antt =====
-- The view of a transaction: the overlay of a mutation on the published snapshot, compared with the
-- snapshot that has the mutation in it. The candidates of the searches by vector are in
-- `Candidates`.
use undr.Base.{◌≡◌, String, Option, string_key, true, none, All, map, some}
use undr.Base.Int.{ℤ}
use undr.Base.Map
use undr.Base.Map.{is_some}
use undr.Base.Set.{contains}
use undr.Common.{NodeId, EdgeId}
use undr.Index.Lookup.{has, EdgeDirection}
use undr.Index.Agreement.{is_at}
use undr.Index.Graph.{unique_key, lookup_unique_key, contains_node, node_ids_by_type}
use undr.Index.Search.{edge_ids_for_iter}
use undr.Query.View.{GraphView, id_of}
use undr.Api.Overlaid.{IsSameListing}

-- Every listed record is the one that is read under its identifier, and all of them are listed.
abbrev pub IsListing : GraphView → Type 0
IsListing v =
    All (λ node. v.get_node (id_of node) ≡ some node) v.all_nodes_iter
    × ((id : NodeId) → contains id (map id_of v.all_nodes_iter) ≡ is_some (v.get_node id))

-- A node that is answered for a unique key has this key.
abbrev pub IsOwner : GraphView → String → Option NodeId → Type 0
IsOwner v key none = Unit
IsOwner v key (some id) = has (λ node. is_at key (unique_key node)) (v.get_node id) ≡ true

abbrev pub AnswersOwners : GraphView → Type 0
AnswersOwners v = (key : String) → IsOwner v key (v.lookup_unique_key key)

-- Two views with the same records, that list the same identifiers for a type, for a range of times,
-- and for a node, a direction and a type of edge, of which each lists all its nodes and answers only owners of a
-- unique key. An overlay lists them in another order.
pub record IsSameGraph (v w : GraphView) : Type 0 where
  pub nodes : (id : NodeId) → v.get_node id ≡ w.get_node id
  pub edges : (id : EdgeId) → v.get_edge id ≡ w.get_edge id
  pub known : (id : NodeId) → v.contains_node id ≡ w.contains_node id
  pub types :
      (node_type : String) (id : NodeId)
      → contains id (v.node_ids_by_type node_type) ≡ contains id (w.node_ids_by_type node_type)
  pub ends :
      (node_id : NodeId) (direction : EdgeDirection) (edge_type : Option String) (id : EdgeId)
      → contains id (v.edge_ids_for_iter node_id direction edge_type)
        ≡ contains id (w.edge_ids_for_iter node_id direction edge_type)
  pub times :
      (from to : ℤ)
      → IsSameListing
          (v.node_ids_in_time_range_iter from to)
          (w.node_ids_in_time_range_iter from to)
  pub listing : IsListing v × IsListing w
  pub owners : AnswersOwners v × AnswersOwners w
