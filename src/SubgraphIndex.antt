-- ===== src/SubgraphIndex.antt =====
-- compiler/src/subgraph_index.rs: positions and counts of the nodes and edges of a subgraph, the
-- linear scans that they replace, and the edges that break feedback cycles.
-- A usize that counts or indexes the items of a `Vec` cannot overflow, so it is a plain number.
pub mod Agree
pub mod BackEdges
pub mod Tests
use mathlib.Core.Option
use pipeit.Base.{
  ℕ, zero, suc, ◌+◌, ◌≤◌, ◌%◌, Bool, true, false, ◌&&◌, not, ◌||◌, Option, none, some, List, [],
  ◌∷◌, map, String, length, get_elem?, find, keep, any, all, has, Map, get, get_or, insert,
  or_insert, update, contains, include, if◌then◌else◌, ◌==◌, nat_eq, string_eq, pair_eq, eqb, leb,
  PartialEq,
}
use pipeit.Extern.{Extern}
use pipeit.Graph.{NodeId, NodeKind, actor, Node, Edge, Subgraph, TaskGraph, node_ids}

pub record SubgraphIndex : Type 0 where
  pub node_pos : Map NodeId ℕ
  pub first_incoming_edge_pos : Map NodeId ℕ
  pub first_outgoing_edge_pos : Map NodeId ℕ
  pub incoming_edge_count : Map NodeId ℕ
  pub outgoing_edge_count : Map NodeId ℕ
  pub edge_exists : List (NodeId × NodeId)

abbrev blank : SubgraphIndex
blank = record {
  node_pos = [];
  first_incoming_edge_pos = [];
  first_outgoing_edge_pos = [];
  incoming_edge_count = [];
  outgoing_edge_count = [];
  edge_exists = [];
}

abbrev index_min_graph_size : ℕ
index_min_graph_size = 32

pub incoming_count : SubgraphIndex → NodeId → ℕ
incoming_count index id = get_or index.incoming_edge_count id 0

pub outgoing_count : SubgraphIndex → NodeId → ℕ
outgoing_count index id = get_or index.outgoing_edge_count id 0

pub has_edge : SubgraphIndex → NodeId → NodeId → Bool
has_edge index src tgt = contains index.edge_exists (src, tgt)

module _ {X : Extern} where
  -- The loop over the nodes, from position `i`.
  index_nodes : ℕ → List (Node X) → Map NodeId ℕ → Map NodeId ℕ
  index_nodes i [] m = m
  index_nodes i (n ∷ ns) m = index_nodes (suc i) ns (insert m n.id i)

  index_edge : ℕ → Edge X → SubgraphIndex → SubgraphIndex
  index_edge i e index = record index {
    first_incoming_edge_pos = or_insert index.first_incoming_edge_pos e.target i;
    first_outgoing_edge_pos = or_insert index.first_outgoing_edge_pos e.source i;
    incoming_edge_count = update index.incoming_edge_count e.target 0 (λ c. c + 1);
    outgoing_edge_count = update index.outgoing_edge_count e.source 0 (λ c. c + 1);
    edge_exists = include index.edge_exists (e.source, e.target);
  }

  -- The loop over the edges, from position `i`.
  index_edges : ℕ → List (Edge X) → SubgraphIndex → SubgraphIndex
  index_edges i [] index = index
  index_edges i (e ∷ es) index = index_edges (suc i) es (index_edge i e index)

  pub build : Subgraph X → SubgraphIndex
  build sub = index_edges 0 sub.edges (record blank { node_pos = index_nodes 0 sub.nodes [] })

  pub node : SubgraphIndex → Subgraph X → NodeId → Option (Node X)
  node index sub id = elim (get index.node_pos id) [ none ↦ none | some i ↦ get_elem? sub.nodes i ]

  pub first_incoming_edge : SubgraphIndex → Subgraph X → NodeId → Option (Edge X)
  first_incoming_edge index sub id = elim (get index.first_incoming_edge_pos id) [
    | none ↦ none
    | some i ↦ get_elem? sub.edges i
  ]

  pub first_outgoing_edge : SubgraphIndex → Subgraph X → NodeId → Option (Edge X)
  first_outgoing_edge index sub id = elim (get index.first_outgoing_edge_pos id) [
    | none ↦ none
    | some i ↦ get_elem? sub.edges i
  ]

  unfoldable pub should_index : Subgraph X → Bool
  should_index sub = leb index_min_graph_size (length sub.nodes + length sub.edges)

  unfoldable pub find_node : Subgraph X → NodeId → Option (Node X)
  find_node sub id = find (λ n. n.id == id) sub.nodes

  unfoldable pub subgraphs_of : TaskGraph X → List (Subgraph X)
  subgraphs_of (TaskGraph.pipeline sub) = sub ∷ []
  subgraphs_of (TaskGraph.modal control modes) = control ∷ map (λ m. m.1) modes

  -- What `build_subgraph_indices` stores under the address of `sub`.
  unfoldable pub stored_index : Subgraph X → Option SubgraphIndex
  stored_index sub = if should_index sub then some (build sub) else none

  -- `GraphQueryCtx`: the map's answer for the subgraph's address is the first argument.
  unfoldable pub node_in_subgraph : Option SubgraphIndex → Subgraph X → NodeId → Option (Node X)
  node_in_subgraph index sub id =
      let indexed : Option (Node X) = elim index [ none ↦ none | some x ↦ node x sub id ] in
      elim indexed [ some n ↦ some n | none ↦ find_node sub id ]

  pub query_incoming : Option SubgraphIndex → Subgraph X → NodeId → Option (Edge X)
  query_incoming index sub id =
      let indexed : Option (Edge X) = elim index [
        | none ↦ none
        | some x ↦ first_incoming_edge x sub id
      ] in
      elim indexed [ some n ↦ some n | none ↦ find (λ e. e.target == id) sub.edges ]

  pub query_outgoing : Option SubgraphIndex → Subgraph X → NodeId → Option (Edge X)
  query_outgoing index sub id =
      let indexed : Option (Edge X) = elim index [
        | none ↦ none
        | some x ↦ first_outgoing_edge x sub id
      ] in
      elim indexed [ some n ↦ some n | none ↦ find (λ e. e.source == id) sub.edges ]

  pub incoming_edge_count : Option SubgraphIndex → Subgraph X → NodeId → ℕ
  incoming_edge_count index sub id = elim index [
    | some x ↦ incoming_count x id
    | none ↦ length (keep (λ e. e.target == id) sub.edges)
  ]

  pub outgoing_edge_count : Option SubgraphIndex → Subgraph X → NodeId → ℕ
  outgoing_edge_count index sub id = elim index [
    | some x ↦ outgoing_count x id
    | none ↦ length (keep (λ e. e.source == id) sub.edges)
  ]

  unfoldable pub is_delay : NodeKind X → Bool
  is_delay (actor name call_span args shape_constraint call_id) = name == "delay"
  is_delay _ = false

  -- The search for the delay actor in one cycle, from position `i`; it stops at the first one.
  cycle_back_edge :
      Subgraph X → List NodeId → ℕ → List NodeId → List (NodeId × NodeId) → List (NodeId × NodeId)
  unfolding find_node is_delay
  cycle_back_edge sub cycle i [] back = back
  cycle_back_edge sub cycle i (nid ∷ rest) back =
      let onward = cycle_back_edge sub cycle (suc i) rest back in
      elim (find_node sub nid) [
        | none ↦ onward
        | some n ↦
            if is_delay n.kind
            then elim (get_elem? cycle ((i + 1) % length cycle)) [
              -- not reached: the index is below the length
              | none ↦ back
              | some next ↦
                  if any (λ e. e.source == nid && e.target == next) sub.edges
                  then include back (nid, next)
                  else back
            ]
            else onward
      ]

  add_cycle : Subgraph X → List (NodeId × NodeId) → List NodeId → List (NodeId × NodeId)
  unfolding cycle_back_edge
  add_cycle sub back cycle =
      if all (has (node_ids sub)) cycle then cycle_back_edge sub cycle 0 cycle back else back

  add_cycles : Subgraph X → List (NodeId × NodeId) → List (List NodeId) → List (NodeId × NodeId)
  unfolding add_cycle
  add_cycles sub back [] = back
  add_cycles sub back (c ∷ cs) = add_cycles sub (add_cycle sub back c) cs

  unfoldable pub identify_back_edges : Subgraph X → List (List NodeId) → List (NodeId × NodeId)
  unfolding add_cycles
  identify_back_edges sub cycles = add_cycles sub [] cycles
