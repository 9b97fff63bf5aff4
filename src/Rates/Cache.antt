-- ===== src/Rates/Cache.antt =====
-- The cache of the port rates changes no rate (compiler/src/analyze.rs,
-- `precompute_node_port_rates`).
use pipeit.Base.{
  ℕ, suc, ◌+◌, ◌≡◌, refl, sym, ap, subst, ◌∙◌, some, List, [], ◌∷◌, inl, inr, All, All-insert,
  All-get, Map, get, insert, find, get_elem?, length, Option-cases, nat_eq, arith, ◌==◌,
}
use pipeit.Extern.{Extern}
use pipeit.Ast.{ShapeConstraint}
use pipeit.Graph.{NodeId, Node, Subgraph}
use pipeit.SubgraphIndex.Agree.{IsDistinct}
use pipeit.Schedule.{NodePortRates}
use pipeit.Feedback.Nodes.{all_nodes, ids, find_unique, get-append_left, get-append_right}
use pipeit.Rates.Dims.{Thir}
use pipeit.Rates.{
  production_rate, consumption_rate, cache_nodes, precompute_node_port_rates,
  cached_production_rate, cached_consumption_rate,
}

module _ {X : Extern} (thir : Thir X) (shapes : Map NodeId (ShapeConstraint X))
    (all : List (Node X)) where
  -- The entry holds the rates of a node of the program with that id.
  abbrev HoldsRates : NodeId × NodePortRates → Type 0
  HoldsRates (id, r) =
      (m : Node X) × (i : ℕ) × (get_elem? all i ≡ some m)
      × (m.id ≡ id)
      × (r.in_rate ≡ consumption_rate thir shapes m)
      × (r.out_rate ≡ production_rate thir shapes m)

  cache_nodes-All :
      (i : ℕ) (ns : List (Node X)) (rates : Map NodeId NodePortRates)
      → ((j : ℕ) (m : Node X) → get_elem? ns j ≡ some m → get_elem? all (i + j) ≡ some m)
      → All HoldsRates rates
      → All HoldsRates (cache_nodes thir shapes ns rates)
  unfolding cache_nodes
  cache_nodes-All i [] rates inside h = h
  cache_nodes-All i (n ∷ ns) rates inside h =
      cache_nodes-All (suc i) ns
        (insert rates n.id (record {
          in_rate = consumption_rate thir shapes n;
          out_rate = production_rate thir shapes n;
        }))
        (λ j m at_j.
          subst (λ (k : ℕ). get_elem? all k ≡ some m) (omega arith) (inside (suc j) m at_j))
        (All-insert HoldsRates rates n.id
          (record {
            in_rate = consumption_rate thir shapes n;
            out_rate = production_rate thir shapes n;
          })
          h (n, i + 0, inside 0 n refl, refl, refl, refl))

  precompute-All :
      (i : ℕ) (subs : List (Subgraph X)) (rates : Map NodeId NodePortRates)
      → ((j : ℕ) (m : Node X)
          → get_elem? (all_nodes subs) j ≡ some m
          → get_elem? all (i + j) ≡ some m)
      → All HoldsRates rates
      → All HoldsRates (precompute_node_port_rates thir shapes subs rates)
  unfolding precompute_node_port_rates
  precompute-All i [] rates inside h = h
  precompute-All i (sub ∷ subs) rates inside h =
      precompute-All (i + length sub.nodes) subs (cache_nodes thir shapes sub.nodes rates)
        (λ j m at_j.
          subst (λ (k : ℕ). get_elem? all k ≡ some m) (omega arith)
            (inside (length sub.nodes + j) m
              (get-append_right sub.nodes (all_nodes subs) j ∙ at_j)))
        (cache_nodes-All i sub.nodes rates
          (λ j m at_j. inside j m (get-append_left sub.nodes (all_nodes subs) j m at_j)) h)

module _ {X : Extern} (thir : Thir X) (shapes : Map NodeId (ShapeConstraint X)) where
  -- Where no node id stands twice in the program, the cache of all nodes gives each node the rates that
  -- are computed without it.
  pub cached_rates-eq :
      (subs : List (Subgraph X)) (i : ℕ) (n : Node X)
      → IsDistinct (ids (all_nodes subs))
      → get_elem? (all_nodes subs) i ≡ some n
      → (cached_production_rate thir shapes (precompute_node_port_rates thir shapes subs []) n
          ≡ production_rate thir shapes n)
        × (cached_consumption_rate thir shapes (precompute_node_port_rates thir shapes subs []) n
            ≡ consumption_rate thir shapes n)
  unfolding cached_production_rate cached_consumption_rate
  cached_rates-eq subs i n distinct at_i =
      let cache = precompute_node_port_rates thir shapes subs [] in
      let sound : All (HoldsRates thir shapes (all_nodes subs)) cache =
        precompute-All thir shapes (all_nodes subs) 0 subs []
          (λ j m at_j. subst (λ (k : ℕ). get_elem? (all_nodes subs) k ≡ some m) (omega arith) at_j)
          tt in
      elim (Option-cases (get cache n.id)) [
        | inr absent ↦
            (rw (absent, cached_production_rate) refl, rw (absent, cached_consumption_rate) refl)
        | inl (r, present) ↦
            let (m, j, at_j, same_id, in_eq, out_eq) =
              All-get (HoldsRates thir shapes (all_nodes subs)) cache n.id r sound present in
            let m_found : find (λ x. x.id == n.id) (all_nodes subs) ≡ some m =
              subst (λ (w : NodeId). find (λ x. x.id == w) (all_nodes subs) ≡ some m) same_id
                (find_unique (all_nodes subs) j m distinct at_j) in
            let n_found = find_unique (all_nodes subs) i n distinct at_i in
            let same : m ≡ n = let e : some m ≡ some n = sym m_found ∙ n_found in cc e in
            let out_n : r.out_rate ≡ production_rate thir shapes n =
              out_eq ∙ ap (λ (x : Node X). production_rate thir shapes x) same in
            let in_n : r.in_rate ≡ consumption_rate thir shapes n =
              in_eq ∙ ap (λ (x : Node X). consumption_rate thir shapes x) same in
            (ground arith, ground arith)
      ]
