-- ===== src/Balance/Equations/Linked.antt =====
-- The graph of rates links nodes of the subgraph only, and each link has rates
-- (compiler/src/analyze.rs, `build_balance_graph`).
use pipeit.Base.{
  ℕ, ◌≡◌, refl, sym, ◌∙◌, true, ◌||◌, ◌&&◌, Option, some, List, [], ◌∷◌, ◌++◌, ◌⊎◌, inl, inr, arith,
  Map, get_or, get-insert, get-or_insert, or_insert, update, contains_key, has, find, map, eqb,
  eqb_iff, Option-cases, nat_eq, pair_eq,
}
use pipeit.Extern.{Extern}
use pipeit.Graph.{NodeId, Node, Edge, Subgraph, node_ids}
use pipeit.SubgraphIndex.{stored_index, node_in_subgraph, find_node}
use pipeit.SubgraphIndex.Agree.{IsDistinct, node_in_subgraph-scan}
use pipeit.Balance.Search.{BalanceGraph}
use pipeit.Balance.Search.Steps.{Adjacent, IsLinked, has-append_last}
use pipeit.Balance.Equations.{
  blank_adjacency, connect, balance_edge, balance_edges, build_balance_graph, count_incoming,
  consumed_of, produced_of,
}

module _ {X : Extern} where
  has_of_find :
      (ns : List (Node X)) (v : NodeId) (n : Node X)
      → find (λ x. eqb x.id v) ns ≡ some n
      → has (map (λ x. x.id) ns) v ≡ true
  unfolding has
  has_of_find [] v n h = cc
  has_of_find (x ∷ ns) v n h = ground (arith, has_of_find ns v n)

  blank_adjacency-nil :
      (ns : List (Node X)) (m : Map NodeId (List NodeId))
      → ((u : NodeId) → get_or m u [] ≡ [])
      → (u : NodeId) → get_or (blank_adjacency ns m) u [] ≡ []
  unfolding blank_adjacency
  blank_adjacency-nil [] m h u = h u
  blank_adjacency-nil (n ∷ ns) m h u =
      blank_adjacency-nil ns (or_insert m n.id [])
        (λ v. ground (arith, get-or_insert m n.id [] v, h v, h n.id)) u

  module _ (e : Edge X) (p c : ℕ) (b : BalanceGraph) where
    -- What an edge makes neighbors.
    connect-Adjacent :
        (u w : NodeId)
        → Adjacent (connect e p c b) u w
        → Adjacent b u w ⊎ (u ≡ e.source) × (w ≡ e.target) ⊎ (u ≡ e.target) × (w ≡ e.source)
    unfolding connect has
    connect-Adjacent u w h =
        let once = update b.adjacency e.source [] (λ ns. ns ++ e.target ∷ []) in
        ground (
          arith,
          get-insert once e.target (get_or once e.target [] ++ e.source ∷ []) u,
          get-insert b.adjacency e.source (get_or b.adjacency e.source [] ++ e.target ∷ []) u,
          get-insert b.adjacency e.source (get_or b.adjacency e.source [] ++ e.target ∷ [])
              e.target,
          has-append_last (get_or once e.target []) e.source w,
          has-append_last (get_or b.adjacency e.source []) e.target w,
        )

    connect-has_rates :
        (u w : NodeId)
        → contains_key (connect e p c b).rates (u, w)
          ≡ ((eqb e.source u && eqb e.target w) || contains_key b.rates (u, w))
    unfolding connect
    connect-has_rates u w = ground (arith, get-insert b.rates (e.source, e.target) (p, c) (u, w))

    connect-IsLinked :
        (ids : List NodeId)
        → has ids e.source ≡ true
        → has ids e.target ≡ true
        → IsLinked b ids
        → IsLinked (connect e p c b) ids
    connect-IsLinked ids source_in target_in linked = record {
      listed = λ u w h. ground (arith, connect-Adjacent u w h, linked.listed u w);
      rated = λ u w h. ground (
        arith,
        connect-Adjacent u w h,
        linked.rated u w,
        connect-has_rates u w,
        connect-has_rates w u,
      );
      ends = λ u w h.
          ground
            (arith, connect-has_rates u w, linked.ends u w, eqb_iff e.source u, eqb_iff e.target w);
    }

  module _ (sub : Subgraph X) (production consumption : Node X → Option ℕ) where
    node_in_subgraph-has :
        (v : NodeId) (n : Node X)
        → IsDistinct (node_ids sub)
        → node_in_subgraph (stored_index sub) sub v ≡ some n
        → has (node_ids sub) v ≡ true
    unfolding find_node
    node_in_subgraph-has v n distinct h =
        has_of_find sub.nodes v n (sym (node_in_subgraph-scan sub v distinct) ∙ h)

    balance_edge-IsLinked :
        (incoming : Map NodeId ℕ) (e : Edge X) (b : BalanceGraph)
        → IsDistinct (node_ids sub)
        → IsLinked b (node_ids sub)
        → IsLinked (balance_edge sub production consumption incoming e b) (node_ids sub)
    unfolding balance_edge
    balance_edge-IsLinked incoming e b distinct linked =
        elim (Option-cases (node_in_subgraph (stored_index sub) sub e.source)) [
          | inr no_source ↦ rw (no_source, balance_edge) linked
          | inl (src, source_in) ↦
              elim (Option-cases (node_in_subgraph (stored_index sub) sub e.target)) [
                | inr no_target ↦ rw (source_in, no_target, balance_edge) linked
                | inl (tgt, target_in) ↦
                    rw (source_in, target_in, balance_edge)
                      (connect-IsLinked e (produced_of sub production consumption src)
                        (consumed_of sub production consumption incoming tgt e.target) b
                        (node_ids sub) (node_in_subgraph-has e.source src distinct source_in)
                        (node_in_subgraph-has e.target tgt distinct target_in) linked)
              ]
        ]

    balance_edges-IsLinked :
        (incoming : Map NodeId ℕ) (es : List (Edge X)) (b : BalanceGraph)
        → IsDistinct (node_ids sub)
        → IsLinked b (node_ids sub)
        → IsLinked (balance_edges sub production consumption incoming es b) (node_ids sub)
    unfolding balance_edges
    balance_edges-IsLinked incoming [] b distinct linked = linked
    balance_edges-IsLinked incoming (e ∷ es) b distinct linked =
        balance_edges-IsLinked incoming es (balance_edge sub production consumption incoming e b)
          distinct (balance_edge-IsLinked incoming e b distinct linked)

    pub build_balance_graph-IsLinked :
        IsDistinct (node_ids sub)
        → IsLinked (build_balance_graph sub production consumption) (node_ids sub)
    unfolding build_balance_graph has
    build_balance_graph-IsLinked distinct =
        let blank = blank_adjacency-nil sub.nodes [] (λ u. refl) in
        balance_edges-IsLinked (count_incoming sub.edges []) sub.edges
          (record { rates = []; adjacency = blank_adjacency sub.nodes [] }) distinct
          (record {
            listed = λ u w h. ground (arith, blank u);
            rated = λ u w h. ground (arith, blank u);
            ends = λ u w h. cc;
          })
