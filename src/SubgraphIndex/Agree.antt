-- ===== src/SubgraphIndex/Agree.antt =====
-- The index answers as the linear scans do (compiler/src/subgraph_index.rs).
use pipeit.Base.{
  ℕ, suc, ◌+◌, ◌≤◌, ◌≡◌, refl, ◌&&◌, ◌||◌, Option, none, some, List, [], ◌∷◌, map, length, find,
  keep, any, position, get_elem?-position, count, Map, get, get_or, insert, get-or_insert,
  get-insert, contains, contains-include, ◌==◌, arith, nat_eq, pair_eq,
}
use pipeit.Extern.{Extern}
use pipeit.Graph.{NodeId, Node, Edge, Subgraph, node_ids}
use pipeit.SubgraphIndex.{
  SubgraphIndex, blank, index_nodes, index_edge, index_edges, build, node, first_incoming_edge,
  first_outgoing_edge, incoming_count, outgoing_count, has_edge, find_node, stored_index,
  node_in_subgraph, query_incoming, query_outgoing, incoming_edge_count, outgoing_edge_count,
}

-- The ids of the nodes are different.
abbrev pub IsDistinct : List ℕ → Type 0
IsDistinct xs = (a : ℕ) → count a xs ≤ 1

-- A stored position, or else the place of the first match behind the `i` items already seen.
abbrev or_shifted : Option ℕ → ℕ → Option ℕ → Option ℕ
or_shifted (some p) i found = some p
or_shifted none i none = none
or_shifted none i (some j) = some (i + j)

module _ {X : Extern} where
  index_nodes-absent :
      (i : ℕ) (ns : List (Node X)) (m : Map NodeId ℕ) (v : NodeId)
      → count v (map (λ n. n.id) ns) ≡ 0
      → get (index_nodes i ns m) v ≡ get m v
  unfolding index_nodes count
  index_nodes-absent i [] m v h = refl
  index_nodes-absent i (n ∷ ns) m v h =
      ground (arith, index_nodes-absent (suc i) ns (insert m n.id i) v, get-insert m n.id i v)

  index_nodes-position :
      (i : ℕ) (ns : List (Node X)) (m : Map NodeId ℕ) (v : NodeId)
      → count v (map (λ n. n.id) ns) ≤ 1
      → get m v ≡ none
      → get (index_nodes i ns m) v ≡ or_shifted none i (position (λ n. n.id == v) ns)
  unfolding index_nodes count
  index_nodes-position i [] m v h e = e
  index_nodes-position i (n ∷ ns) m v h e = ground (
    arith,
    index_nodes-position (suc i) ns (insert m n.id i) v,
    index_nodes-absent (suc i) ns (insert m n.id i) v,
    get-insert m n.id i v,
  )

  first_incoming-position :
      (i : ℕ) (es : List (Edge X)) (x : SubgraphIndex) (v : NodeId)
      → get (index_edges i es x).first_incoming_edge_pos v
        ≡ or_shifted (get x.first_incoming_edge_pos v) i (position (λ e. e.target == v) es)
  unfolding index_edges index_edge
  first_incoming-position i [] x v = ground arith
  first_incoming-position i (e ∷ es) x v = ground (
    arith,
    first_incoming-position (suc i) es (index_edge i e x) v,
    get-or_insert x.first_incoming_edge_pos e.target i v,
  )

  first_outgoing-position :
      (i : ℕ) (es : List (Edge X)) (x : SubgraphIndex) (v : NodeId)
      → get (index_edges i es x).first_outgoing_edge_pos v
        ≡ or_shifted (get x.first_outgoing_edge_pos v) i (position (λ e. e.source == v) es)
  unfolding index_edges index_edge
  first_outgoing-position i [] x v = ground arith
  first_outgoing-position i (e ∷ es) x v = ground (
    arith,
    first_outgoing-position (suc i) es (index_edge i e x) v,
    get-or_insert x.first_outgoing_edge_pos e.source i v,
  )

  incoming-count :
      (i : ℕ) (es : List (Edge X)) (x : SubgraphIndex) (v : NodeId)
      → get_or (index_edges i es x).incoming_edge_count v 0
        ≡ get_or x.incoming_edge_count v 0 + length (keep (λ e. e.target == v) es)
  unfolding index_edges index_edge
  incoming-count i [] x v = omega arith
  incoming-count i (e ∷ es) x v = ground (
    arith,
    incoming-count (suc i) es (index_edge i e x) v,
    get-insert x.incoming_edge_count e.target (get_or x.incoming_edge_count e.target 0 + 1) v,
  )

  outgoing-count :
      (i : ℕ) (es : List (Edge X)) (x : SubgraphIndex) (v : NodeId)
      → get_or (index_edges i es x).outgoing_edge_count v 0
        ≡ get_or x.outgoing_edge_count v 0 + length (keep (λ e. e.source == v) es)
  unfolding index_edges index_edge
  outgoing-count i [] x v = omega arith
  outgoing-count i (e ∷ es) x v = ground (
    arith,
    outgoing-count (suc i) es (index_edge i e x) v,
    get-insert x.outgoing_edge_count e.source (get_or x.outgoing_edge_count e.source 0 + 1) v,
  )

  edge_exists-any :
      (i : ℕ) (es : List (Edge X)) (x : SubgraphIndex) (u v : NodeId)
      → contains (index_edges i es x).edge_exists (u, v)
        ≡ (contains x.edge_exists (u, v) || any (λ e. e.source == u && e.target == v) es)
  unfolding index_edges index_edge
  edge_exists-any i [] x u v = ground arith
  edge_exists-any i (e ∷ es) x u v = ground (
    arith,
    edge_exists-any (suc i) es (index_edge i e x) u v,
    contains-include x.edge_exists (e.source, e.target) (u, v),
  )

  node_pos-index_edges :
      (i : ℕ) (es : List (Edge X)) (x : SubgraphIndex) → (index_edges i es x).node_pos ≡ x.node_pos
  unfolding index_edges index_edge
  node_pos-index_edges i [] x = refl
  node_pos-index_edges i (e ∷ es) x = node_pos-index_edges (suc i) es (index_edge i e x)

  first_incoming-find :
      (sub : Subgraph X) (v : NodeId)
      → first_incoming_edge (build sub) sub v ≡ find (λ e. e.target == v) sub.edges
  unfolding first_incoming_edge build
  first_incoming-find sub v = ground (
    arith,
    get_elem?-position (λ (e : Edge X). e.target == v) sub.edges,
    first_incoming-position 0 sub.edges (record blank { node_pos = index_nodes 0 sub.nodes [] }) v,
  )

  first_outgoing-find :
      (sub : Subgraph X) (v : NodeId)
      → first_outgoing_edge (build sub) sub v ≡ find (λ e. e.source == v) sub.edges
  unfolding first_outgoing_edge build
  first_outgoing-find sub v = ground (
    arith,
    get_elem?-position (λ (e : Edge X). e.source == v) sub.edges,
    first_outgoing-position 0 sub.edges (record blank { node_pos = index_nodes 0 sub.nodes [] }) v,
  )

  node-find_node :
      (sub : Subgraph X) (v : NodeId)
      → IsDistinct (node_ids sub)
      → node (build sub) sub v ≡ find_node sub v
  unfolding node build find_node
  node-find_node sub v h =
      let x = record blank { node_pos = index_nodes 0 sub.nodes [] } in
      rw (node_pos-index_edges 0 sub.edges x) (
        ground (
          arith,
          h v,
          get_elem?-position (λ (n : Node X). n.id == v) sub.nodes,
          index_nodes-position 0 sub.nodes [] v,
        ))

  -- Whether or not a subgraph is large enough to be indexed, the first edge into a node and the
  -- first edge out of it that a query returns are those that a scan of the edge list finds.
  pub query-scan :
      (sub : Subgraph X) (v : NodeId)
      → (query_incoming (stored_index sub) sub v ≡ find (λ e. e.target == v) sub.edges)
        × (query_outgoing (stored_index sub) sub v ≡ find (λ e. e.source == v) sub.edges)
  unfolding query_incoming query_outgoing stored_index
  query-scan sub v =
      (ground (arith, first_incoming-find sub v), ground (arith, first_outgoing-find sub v))

  -- Whether or not a subgraph is indexed, the counts that a query returns are the numbers of edges
  -- into and out of the node, also where an edge stands twice in the list.
  pub counts-scan :
      (sub : Subgraph X) (v : NodeId)
      → (incoming_edge_count (stored_index sub) sub v
          ≡ length (keep (λ e. e.target == v) sub.edges))
        × (outgoing_edge_count (stored_index sub) sub v
            ≡ length (keep (λ e. e.source == v) sub.edges))
  unfolding incoming_edge_count outgoing_edge_count stored_index incoming_count outgoing_count build
  counts-scan sub v =
      let x = record blank { node_pos = index_nodes 0 sub.nodes [] } in
      (
        ground (arith, incoming-count 0 sub.edges x v),
        ground (arith, outgoing-count 0 sub.edges x v),
      )

  -- Where the nodes of a subgraph have different ids, the node that a query returns is the one that
  -- a scan of the node list finds, whether or not the subgraph is indexed.
  pub node_in_subgraph-scan :
      (sub : Subgraph X) (v : NodeId)
      → IsDistinct (node_ids sub)
      → node_in_subgraph (stored_index sub) sub v ≡ find_node sub v
  unfolding node_in_subgraph stored_index
  node_in_subgraph-scan sub v h = ground (arith, node-find_node sub v h)

  -- The index holds an edge from one node to another exactly if the edge list does.
  pub has_edge-any :
      (sub : Subgraph X) (u v : NodeId)
      → has_edge (build sub) u v ≡ any (λ e. e.source == u && e.target == v) sub.edges
  unfolding has_edge build
  has_edge-any sub u v = ground (
    arith,
    edge_exists-any 0 sub.edges (record blank { node_pos = index_nodes 0 sub.nodes [] }) u v,
  )
