-- ===== src/Balance/Search/Ends.antt =====
-- The search for ratios ends within its fuel, at every node and with the right ratios
-- (compiler/src/analyze.rs, `solve_balance_ratios`).
use pipeit.Base.{
  ℕ, ◌+◌, ◌≤◌, ◌<◌, ◌≡◌, refl, sym, subst, ap, true, false, List, [], ◌∷◌, ◌⊎◌, inl, inr, arith,
  All, All-insert, Map, insert, contains_key, has, length, length-map, eqb, eqb_iff, map, u32_mod,
  Bool-cases, nat_eq, pair_eq,
}
use pipeit.Outcome.{done}
use pipeit.Balance.Search.{Ratio, BalanceGraph, Search, drain, solve_from, solve_balance_ratios}
use pipeit.Balance.Search.Lowest.{lowest, lowest_self}
use pipeit.Balance.Search.Steps.{
  unvisited-le-length, IsSolution, Adjacent, IsLinked, unvisited, unvisited-insert, HasRatio,
  contains_key-insert,
}
use pipeit.Balance.Search.Closed.{IsClosed, drain-IsClosed}
use pipeit.Extern.{Extern}
use pipeit.Graph.{NodeId, Node, Subgraph, node_ids}

-- A path over neighbors.
pub data Joined (balance : BalanceGraph) (u : NodeId) : NodeId → Type 0 where
  here : Joined balance u u
  hop : {v w : NodeId} → Joined balance u v → Adjacent balance v w → Joined balance u w

-- Each node is joined to an earlier one, or is fired `base` times.
abbrev pub IsRooted :
    {X : Extern} → BalanceGraph → (NodeId → ℕ) → ℕ → List NodeId → List (Node X) → Type 0
IsRooted balance q base seen [] = Unit {0}
IsRooted balance q base seen (n ∷ ns) =
    ((q n.id ≡ base) ⊎ ((m : NodeId) × (has seen m ≡ true) × Joined balance m n.id))
    × IsRooted balance q base (n.id ∷ seen) ns

module _ (balance : BalanceGraph) (ids : List NodeId) (q : NodeId → ℕ) (base : ℕ)
    (sol : IsSolution balance.rates q) (base_pos : 0 < base) (base_fits : base < u32_mod)
    (linked : IsLinked balance ids) where
  -- Where the queue is empty, what is joined to a node with a ratio has a ratio.
  path_keyed :
      (m : Map NodeId Ratio) {u v : NodeId}
      → IsClosed balance (record { rv_rat = m; queue = [] })
      → contains_key m u ≡ true
      → Joined balance u v
      → contains_key m v ≡ true
  unfolding has
  path_keyed m closed keyed here = keyed
  path_keyed m closed keyed (hop {v} {w} path step) =
      elim (closed v w (path_keyed m closed keyed path) step) [
        | inl known ↦ known
        | inr nowhere ↦ cc
      ]

  keyed_cons :
      (m : Map NodeId Ratio) (n : NodeId) (vs : List NodeId)
      → contains_key m n ≡ true
      → ((v : NodeId) → has vs v ≡ true → contains_key m v ≡ true)
      → (v : NodeId) → has (n ∷ vs) v ≡ true
      → contains_key m v ≡ true
  unfolding has
  keyed_cons m n vs first others v k = elim (Bool-cases (eqb v n)) [
    | inl same ↦ subst (λ (x : NodeId). contains_key m x ≡ true) (sym ((eqb_iff v n).0 same)) first
    | inr other ↦ others v (rw other at k)
  ]

  emptied-IsClosed :
      (s : Search)
      → s.queue ≡ []
      → IsClosed balance s
      → IsClosed balance (record { rv_rat = s.rv_rat; queue = [] })
  emptied-IsClosed s empty closed u w keyed adjacent = rw empty at (closed u w keyed adjacent)

  -- A new search begins at a node that is fired `base` times.
  begin-IsClosed :
      (m : Map NodeId Ratio) (n : NodeId)
      → IsClosed balance (record { rv_rat = m; queue = [] })
      → IsClosed balance (record { rv_rat = insert m n (1, 1); queue = n ∷ [] })
  unfolding has
  begin-IsClosed m n closed x w keyed adjacent = elim (Bool-cases (eqb n x)) [
    | inl same ↦ inr (ground arith)
    | inr other ↦
        let old : contains_key m x ≡ true = ground (arith, contains_key-insert m n (1, 1) x) in
        elim (closed x w old adjacent) [
          | inl known ↦ inl (ground (arith, contains_key-insert m n (1, 1) w))
          | inr nowhere ↦ cc
        ]
  ]

  root_value :
      (n : NodeId) (seen : List NodeId) (m : Map NodeId Ratio)
      → (q n ≡ base) ⊎ ((u : NodeId) × (has seen u ≡ true) × Joined balance u n)
      → ((v : NodeId) → has seen v ≡ true → contains_key m v ≡ true)
      → contains_key m n ≡ false
      → IsClosed balance (record { rv_rat = m; queue = [] })
      → q n ≡ base
  root_value n seen m (inl e) known new closed = e
  root_value n seen m (inr (u, before, path)) known new closed =
      let old : contains_key m n ≡ true = path_keyed m closed (known u before) path in
      absurd (ground arith)

  search_from :
      (fuel : ℕ) (m : Map NodeId Ratio) (n : NodeId)
      → length ids ≤ fuel
      → has ids n ≡ true
      → q n ≡ base
      → contains_key m n ≡ false
      → All (HasRatio balance ids q base) m
      → IsClosed balance (record { rv_rat = m; queue = [] })
      → (t : Search) × (drain balance fuel (record { rv_rat = insert m n (1, 1); queue = n ∷ [] })
          ≡ done t)
        × All (HasRatio balance ids q base) t.rv_rat
        × IsClosed balance (record { rv_rat = t.rv_rat; queue = [] })
        × ((v : NodeId) → contains_key m v ≡ true → contains_key t.rv_rat v ≡ true)
        × (contains_key t.rv_rat n ≡ true)
  search_from fuel m n enough listed at_base new h closed =
      let ratio : (1, 1) ≡ lowest (q n) base = rw at_base (lowest_self base base_pos) in
      let s : Search = record { rv_rat = insert m n (1, 1); queue = n ∷ [] } in
      let enough_s : unvisited s.rv_rat ids + length s.queue ≤ fuel =
        omega (arith, unvisited-insert m n (1, 1) ids listed new, unvisited-le-length m ids) in
      let h_s = All-insert (HasRatio balance ids q base) m n (1, 1) h ratio in
      let (t, drained, h_t, closed_t, empty, grows_t) =
        drain-IsClosed balance ids q base sol base_pos base_fits linked fuel s enough_s h_s
          (begin-IsClosed m n closed) in
      (
        t,
        drained,
        h_t,
        emptied-IsClosed t empty closed_t,
        λ v k. grows_t v (ground (arith, contains_key-insert m n (1, 1) v)),
        grows_t n (ground (arith, contains_key-insert m n (1, 1) n)),
      )

  module _ {X : Extern} where
    solve_from-All :
        (fuel : ℕ) (ns : List (Node X)) (seen : List NodeId) (m : Map NodeId Ratio)
        → length ids ≤ fuel
        → ((v : NodeId) → has (map (λ n. n.id) ns) v ≡ true → has ids v ≡ true)
        → IsRooted balance q base seen ns
        → ((v : NodeId) → has seen v ≡ true → contains_key m v ≡ true)
        → All (HasRatio balance ids q base) m
        → IsClosed balance (record { rv_rat = m; queue = [] })
        → (m' : Map NodeId Ratio) × (solve_from balance fuel ns m ≡ done m')
          × All (HasRatio balance ids q base) m'
          × ((v : NodeId) → contains_key m v ≡ true → contains_key m' v ≡ true)
          × ((v : NodeId) → has (map (λ n. n.id) ns) v ≡ true → contains_key m' v ≡ true)
    unfolding solve_from has
    solve_from-All fuel [] seen m enough listed rooted known h closed =
        (m, refl, h, λ v k. k, λ v k. cc)
    solve_from-All fuel (n ∷ ns) seen m enough listed (root, rooted) known h closed =
        elim (Bool-cases (contains_key m n.id)) [
          | inl old ↦
              let (m', solved, h', grows, all) =
                solve_from-All fuel ns (n.id ∷ seen) m enough (λ v k. listed v (ground arith))
                  rooted (keyed_cons m n.id seen old known) h closed in
              (
                m',
                rw old solved,
                h',
                grows,
                keyed_cons m' n.id (map (λ x. x.id) ns) (grows n.id old) all,
              )
          | inr new ↦
              let (t, drained, h_t, closed_t, grows_t, first) =
                search_from fuel m n.id enough (listed n.id (ground arith))
                  (root_value n.id seen m root known new closed) new h closed in
              let (m', solved, h', grows, all) =
                solve_from-All fuel ns (n.id ∷ seen) t.rv_rat enough
                  (λ v k. listed v (ground arith)) rooted
                  (keyed_cons t.rv_rat n.id seen first (λ v k. grows_t v (known v k))) h_t
                  closed_t in
              (
                m',
                rw (new, drained) solved,
                h',
                λ v k. grows v (grows_t v k),
                keyed_cons m' n.id (map (λ x. x.id) ns) (grows n.id first) all,
              )
        ]

    pub solve_balance_ratios-All :
        (sub : Subgraph X)
        → node_ids sub ≡ ids
        → IsRooted balance q base [] sub.nodes
        → (m : Map NodeId Ratio) × (solve_balance_ratios balance sub ≡ done m)
          × All (HasRatio balance ids q base) m
          × ((v : NodeId) → has ids v ≡ true → contains_key m v ≡ true)
    unfolding solve_balance_ratios has
    solve_balance_ratios-All sub all_ids rooted =
        let (m, solved, h, _, all) =
          solve_from-All (length sub.nodes) sub.nodes [] []
            (omega (
              arith,
              length-map {0, 0} (λ (n : Node X). n.id) sub.nodes,
              ap (λ (l : List NodeId). length l) all_ids,
            ))
            (λ v k. subst (λ (l : List NodeId). has l v ≡ true) all_ids k) rooted (λ v k. cc) tt
            (λ u w k a. cc) in
        (m, solved, h, λ v k. all v (subst (λ (l : List NodeId). has l v ≡ true) (sym all_ids) k))
