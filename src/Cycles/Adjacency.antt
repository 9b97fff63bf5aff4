-- ===== src/Cycles/Adjacency.antt =====
-- The adjacency lists of a subgraph hold its edges (compiler/src/graph.rs,
-- `detect_cycles_in_subgraph`).
use pipeit.Base.{
  ℕ, ◌≡◌, refl, ◌||◌, ◌&&◌, List, [], ◌∷◌, ◌++◌, Map, get_or, get-insert, get-or_insert, insert,
  or_insert, has, any, eqb, nat_eq, arith, ◌==◌,
}
use pipeit.Extern.{Extern}
use pipeit.Graph.{NodeId, Node, Edge, Subgraph}
use pipeit.SubgraphIndex.BackEdges.{has_link}
use pipeit.Cycles.{add_nodes, add_edges, adjacency_of}

abbrev pub neighbors : Map NodeId (List NodeId) → NodeId → List NodeId
neighbors adj u = get_or adj u []

pub has-append_last : (xs : List ℕ) (n v : ℕ) → has (xs ++ n ∷ []) v ≡ (has xs v || eqb v n)
unfolding has
has-append_last [] n v = ground arith
has-append_last (x ∷ xs) n v = ground (arith, has-append_last xs n v)

module _ {X : Extern} where
  add_nodes-neighbors :
      (ns : List (Node X)) (adj : Map NodeId (List NodeId))
      → ((u : NodeId) → neighbors adj u ≡ [])
      → (u : NodeId) → neighbors (add_nodes ns adj) u ≡ []
  unfolding add_nodes
  add_nodes-neighbors [] adj h u = h u
  add_nodes-neighbors (n ∷ ns) adj h u =
      add_nodes-neighbors ns (or_insert adj n.id [])
        (λ v. ground (arith, get-or_insert adj n.id [] v, h v, h n.id)) u

  add_edges-has :
      (es : List (Edge X)) (adj : Map NodeId (List NodeId)) (u v : NodeId)
      → has (neighbors (add_edges es adj) u) v
        ≡ (has (neighbors adj u) v || any (λ e. e.source == u && e.target == v) es)
  unfolding add_edges has
  add_edges-has [] adj u v = ground arith
  add_edges-has (e ∷ es) adj u v =
      let now = neighbors adj e.source ++ e.target ∷ [] in
      ground (
        arith,
        add_edges-has es (insert adj e.source now) u v,
        get-insert adj e.source now u,
        has-append_last (neighbors adj e.source) e.target v,
      )

  pub adjacency_of-has :
      (sub : Subgraph X) (u v : NodeId) → has (neighbors (adjacency_of sub) u) v ≡ has_link sub u v
  unfolding adjacency_of has
  adjacency_of-has sub u v = ground (
    arith,
    add_edges-has sub.edges (add_nodes sub.nodes []) u v,
    add_nodes-neighbors sub.nodes [] (λ w. refl) u,
  )
