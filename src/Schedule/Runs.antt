-- ===== src/Schedule/Runs.antt =====
-- The runs of `sort_subgraph` (compiler/src/schedule.rs): each ends in a result or in an error.
use pipeit.Base.{
  ℕ, ◌≤◌, ◌<◌, ◌≡◌, true, Option, none, some, List, [], ◌∷◌, map, All, List-cases, has, ltb, length,
  arith, u32_mod, Bool-cases, inl, inr, ◌⊎◌, nat_eq, pair_eq,
}
use pipeit.Extern.{Extern}
use pipeit.Diag.{error, e0400}
use pipeit.Graph.{NodeId, Edge, Subgraph, node_ids}
use pipeit.SubgraphIndex.{identify_back_edges}
use pipeit.SubgraphIndex.Agree.{IsDistinct}
use pipeit.Kahn.{Kahn, links, start}
use pipeit.Kahn.Arcs.{arcs}
use pipeit.Kahn.Loop.{sort_ends, IsDone}
use pipeit.Schedule.{
  SubgraphSchedule, edge_buffers, RepetitionVector, Input, State, emit, finish, sort_nonempty,
  sort_subgraph,
}

-- A subgraph as the graph builder makes it: different node ids, edges between its nodes, and few
-- enough edges for a u32.
pub record IsSound {X : Extern} (sub : Subgraph X) : Type 0 where
  pub distinct : IsDistinct (node_ids sub)
  pub closed :
      All
        (λ (e : Edge X).
          (has (node_ids sub) e.source ≡ true) × (has (node_ids sub) e.target ≡ true))
        sub.edges
  pub fits : length sub.edges < u32_mod

abbrev pub fired_ids : SubgraphSchedule → List NodeId
fired_ids sched = map (λ f. f.node_id) sched.firings

module _ {X : Extern} (i : Input X) (sub : Subgraph X) where
  abbrev pub back : List (NodeId × NodeId)
  back = identify_back_edges sub i.graph.cycles

  -- How many edges that are not back edges lead from `u` to `v`.
  abbrev pub flow : NodeId → NodeId → ℕ
  flow u v = arcs back sub.edges u v

  -- A numbering of the nodes that grows along every such edge: the edges form no cycle.
  abbrev pub IsRank : (NodeId → ℕ) → Type 0
  IsRank rank = (u v : NodeId) → 0 < flow u v → rank u < rank v

module _ {X : Extern} (ids : List NodeId) (back : List (NodeId × NodeId)) where
  pub arcs-closed :
      (es : List (Edge X)) (u v : NodeId)
      → All (λ (e : Edge X). (has ids e.source ≡ true) × (has ids e.target ≡ true)) es
      → 0 < arcs back es u v
      → (has ids u ≡ true) × (has ids v ≡ true)
  unfolding arcs
  arcs-closed [] u v c h = absurd (omega arith)
  arcs-closed (e ∷ es) u v c h = ground (arith, arcs-closed es u v c.1)

module _ {X : Extern} (i : Input X) (sub : Subgraph X) (rv : RepetitionVector) where
  -- The state in which the sort of a subgraph with nodes stops.
  abbrev pub IsEnd : Kahn → Type 0
  IsEnd t = IsDone (back i sub) sub.edges rv (start (links (back i sub) sub)) t

  sort_nonempty_lem :
      (s : State X)
      → length sub.edges < u32_mod
      → (t : Kahn) × IsEnd t × (sort_nonempty i sub rv s ≡ finish i sub rv (back i sub) t s)
  unfolding sort_nonempty
  sort_nonempty_lem s fits =
      let (t, ends, done) = sort_ends (back i sub) sub fits rv in
      (t, done, simp (ends, sort_nonempty))

  pub sort_subgraph_lem :
      (s : State X)
      → length sub.edges < u32_mod
      → (sub.nodes ≡ [])
          × (sort_subgraph i sub rv s ≡ some (some (record { firings = []; edge_buffers = [] }), s))
        ⊎ ((t : Kahn) × IsEnd t × (sort_subgraph i sub rv s ≡ finish i sub rv (back i sub) t s))
  unfolding sort_subgraph
  sort_subgraph_lem s fits = elim (List-cases sub.nodes) [
    | inl empty ↦ inl (empty, simp (empty, sort_subgraph))
    | inr (n, rest, e) ↦
        let (t, done, ends) = sort_nonempty_lem s fits in
        inr (t, done, simp (e, sort_subgraph) ends)
  ]

  -- For a subgraph with fewer than 2^32 edges the sort ends: it has a result or reports an error.
  pub sort_subgraph_ends :
      (s : State X)
      → length sub.edges < u32_mod
      → (r : Option SubgraphSchedule) × (s' : State X) × (sort_subgraph i sub rv s ≡ some (r, s'))
  unfolding finish
  sort_subgraph_ends s fits = elim (sort_subgraph_lem s fits) [
    | inl (empty, e) ↦ (_, _, e)
    | inr (t, done, e) ↦ elim (Bool-cases (ltb (length t.firings) (length sub.nodes))) [
      | inl short ↦ (_, _, rw short at e)
      | inr full ↦ (_, _, rw full at e)
    ]
  ]

  abbrev pub IsFull : SubgraphSchedule → Kahn → Type 0
  IsFull sched t =
      IsEnd t
      × (sched.firings ≡ t.firings)
      × (length sub.nodes ≤ length t.firings)
      × (sched.edge_buffers ≡ edge_buffers sub i.node_port_rates rv (back i sub) sub.edges [])

  -- What a result says of the run, with `nothing` for a subgraph without nodes.
  pub sort_subgraph-some :
      (s s' : State X) (sched : SubgraphSchedule)
      → length sub.edges < u32_mod
      → sort_subgraph i sub rv s ≡ some (some sched, s')
      → (s' ≡ s)
        × ((sub.nodes ≡ []) × (sched ≡ record { firings = []; edge_buffers = [] })
            ⊎ ((t : Kahn) × IsFull sched t))
  unfolding finish
  sort_subgraph-some s s' sched fits h = elim (sort_subgraph_lem s fits) [
    | inl (empty, e) ↦ (cc, inl (empty, cc))
    | inr (t, done, e) ↦ elim (Bool-cases (ltb (length t.firings) (length sub.nodes))) [
      | inl short ↦ absurd (cc (rw short at e))
      | inr full ↦ let e' = rw full at e in (cc, inr (t, (done, cc, ground arith, cc)))
    ]
  ]

  pub sort_subgraph-none :
      (s s' : State X)
      → length sub.edges < u32_mod
      → sort_subgraph i sub rv s ≡ some (none, s')
      → (s' ≡ emit error e0400 X.no_span s)
        × ((t : Kahn) × IsEnd t × (length t.firings < length sub.nodes))
  unfolding finish
  sort_subgraph-none s s' fits h = elim (sort_subgraph_lem s fits) [
    | inl (empty, e) ↦ absurd (cc)
    | inr (t, done, e) ↦ elim (Bool-cases (ltb (length t.firings) (length sub.nodes))) [
      | inl short ↦ let e' = rw short at e in (cc, (t, done, ground arith))
      | inr full ↦ absurd (cc (rw full at e))
    ]
  ]
