-- ===== src/Cycles/Detect.antt =====
-- What the search finds in a subgraph (compiler/src/graph.rs, `detect_cycles_in_subgraph`).
use pipeit.Base.{
  ℕ, ◌+◌, ◌-◌, ◌≤◌, ◌<◌, ◌≡◌, refl, sym, ap, subst, ◌∙◌, true, ◌||◌, ◌&&◌, List, [], ◌∷◌, ◌++◌, inl,
  inr, All, has, any, map, length, length-append, length-map, List-cases, nat_eq, arith, ◌==◌,
}
use pipeit.Outcome.{done, ◌>>=◌}
use pipeit.Extern.{Extern}
use pipeit.Graph.{NodeId, Node, Edge, Subgraph, node_ids}
use pipeit.SubgraphIndex.BackEdges.{IsStep, has_link}
use pipeit.Cycles.{Dfs, adjacency_of, dfs_all, detect_cycles_in_subgraph}
use pipeit.Cycles.Adjacency.{adjacency_of-has}
use pipeit.Cycles.Walks.{Leads, IsRound}
use pipeit.Cycles.Colors.{whites, whites-le-length, Inv}
use pipeit.Cycles.Calls.{dfs_all-Explored}

has-append : (xs ys : List ℕ) (v : ℕ) → has (xs ++ ys) v ≡ (has xs v || has ys v)
unfolding has
has-append [] ys v = refl
has-append (x ∷ xs) ys v = ground (arith, has-append xs ys v)

module _ {X : Extern} where
  has-target :
      (es : List (Edge X)) (u v : NodeId)
      → any (λ e. e.source == u && e.target == v) es ≡ true
      → has (map (λ e. e.target) es) v ≡ true
  unfolding has
  has-target [] u v h = cc
  has-target (e ∷ es) u v h = ground (arith, has-target es u v)

  -- There is a node, and each step, the one from the end to the start included, follows an edge.
  abbrev pub IsCycleOf : Subgraph X → List NodeId → Type 0
  IsCycleOf sub c = (0 < length c) × ((u v : NodeId) → IsStep c u v → has_link sub u v ≡ true)

  -- Numbers that grow along the edges between nodes.
  abbrev pub Grows : Subgraph X → (NodeId → ℕ) → Type 0
  Grows sub rank =
      (u v : NodeId) → has (node_ids sub) u ≡ true → has_link sub u v ≡ true → rank u < rank v

  All-cycles :
      (sub : Subgraph X) (cs : List (List NodeId))
      → All (IsRound (adjacency_of sub)) cs
      → All (IsCycleOf sub) cs
  All-cycles sub [] h = tt
  All-cycles sub (c ∷ cs) (first, rest) = (
    (first.0, λ u v step. sym (adjacency_of-has sub u v) ∙ first.1 u v step),
    All-cycles sub cs rest,
  )

  reach_ids : Subgraph X → List NodeId
  reach_ids sub = node_ids sub ++ map (λ e. e.target) sub.edges

  listed :
      (sub : Subgraph X) (u v : NodeId)
      → Leads (adjacency_of sub) u v
      → has (reach_ids sub) v ≡ true
  unfolding reach_ids
  listed sub u v leads =
      let target_in = has-target sub.edges u v (sym (adjacency_of-has sub u v) ∙ leads) in
      ground (arith, has-append (node_ids sub) (map (λ (e : Edge X). e.target) sub.edges) v)

  length-reach_ids :
      (sub : Subgraph X) → length (reach_ids sub) ≡ length sub.nodes + length sub.edges
  unfolding reach_ids
  length-reach_ids sub = omega (
    arith,
    length-append {0} (node_ids sub) (map (λ (e : Edge X). e.target) sub.edges),
    length-map {0, 0} (λ (e : Edge X). e.target) sub.edges,
    length-map {0, 0} (λ (n : Node X). n.id) sub.nodes,
  )

  search_lem :
      (sub : Subgraph X)
      → (s : Dfs) × (dfs_all
            (adjacency_of sub)
            (length sub.nodes + length sub.edges)
            sub.nodes
            (record { visited = []; path = []; cycles = [] })
          ≡ done s)
        × All (IsCycleOf sub) s.cycles
        × (s.cycles ≡ [] → (rank : NodeId → ℕ) × Grows sub rank)
  unfolding reach_ids
  search_lem sub =
      let start : Dfs = record { visited = []; path = []; cycles = [] } in
      let inv : Inv start = record { legal = λ v. omega arith; on_path = λ v h. cc } in
      let enough : whites start (reach_ids sub) ≤ length sub.nodes + length sub.edges =
        omega (arith, whites-le-length start (reach_ids sub), length-reach_ids sub) in
      let (s, searched, e, blacks) =
        dfs_all-Explored (adjacency_of sub) (reach_ids sub) (listed sub)
          (length sub.nodes + length sub.edges) sub.nodes start inv refl
          (λ v h.
            ground (arith, has-append (node_ids sub) (map (λ (e : Edge X). e.target) sub.edges) v))
          enough in
      (
        s,
        searched,
        All-cycles sub s.cycles (e.rounds tt),
        λ empty.
            let (rank, bound, below, falls) =
              e.ranked empty ((λ _. 0), 1, (λ u h. cc), λ u v h. cc) in
            (
              λ v. bound - rank v,
              λ u v u_in link.
                  let u_black = blacks u u_in in
                  let (v_black, lower) = falls u v u_black (adjacency_of-has sub u v ∙ link) in
                  omega (arith, below u u_black, below v v_black),
            ),
      )

  entered :
      (sub : Subgraph X) (s : Dfs)
      → 0 < length sub.nodes
      → dfs_all
          (adjacency_of sub)
          (length sub.nodes + length sub.edges)
          sub.nodes
          (record { visited = []; path = []; cycles = [] })
        ≡ done s
      → detect_cycles_in_subgraph sub ≡ done s.cycles
  unfolding detect_cycles_in_subgraph
  entered sub s some_node searched =
      let opens : detect_cycles_in_subgraph sub ≡ (
          dfs_all (adjacency_of sub) (length sub.nodes + length sub.edges) sub.nodes
            (record { visited = []; path = []; cycles = [] })
          >>= λ t. done t.cycles) =
        ground arith in
      opens ∙ rw searched refl

  -- The search ends. Each cycle that it returns has a node and follows edges of the subgraph, from
  -- node to node and from its last node to its first, and where it returns none, the nodes can be numbered so that
  -- the numbers grow along the edges.
  pub detect_cycles_in_subgraph-Grows :
      (sub : Subgraph X)
      → (cycles : List (List NodeId)) × (detect_cycles_in_subgraph sub ≡ done cycles)
        × All (IsCycleOf sub) cycles
        × (cycles ≡ [] → (rank : NodeId → ℕ) × Grows sub rank)
  unfolding detect_cycles_in_subgraph has
  detect_cycles_in_subgraph-Grows sub = elim (List-cases sub.nodes) [
    | inl empty ↦ (
      [],
      rw (empty, detect_cycles_in_subgraph) refl,
      tt,
      λ _. (
        (λ _. 0),
        λ u v u_in link.
            absurd
              (cc (subst (λ (l : List (Node X)). has (map (λ n. n.id) l) u ≡ true) empty u_in)),
      ),
    )
    | inr (n, ns, some_nodes) ↦
        let (s, searched, rounds, acyclic) = search_lem sub in
        (
          s.cycles,
          entered sub s (omega (arith, ap (λ (l : List (Node X)). length l) some_nodes)) searched,
          rounds,
          acyclic,
        )
  ]
