-- ===== src/Balance/Search/Closed.antt =====
-- The queue of the search for ratios: no neighbor is forgotten, and the fuel lasts
-- (compiler/src/analyze.rs, the `while` loop of `solve_balance_ratios`).
use pipeit.Base.{
  ℕ, zero, suc, ◌+◌, ◌≤◌, ◌<◌, ◌≡◌, subst, ap, true, List, [], ◌∷◌, ◌⊎◌, inl, inr, arith, All,
  All-get, get, contains_key, has, length, eqb, eqb_iff, u32_mod, Bool-cases, List-cases,
  Option-cases, nat_eq, pair_eq,
}
use pipeit.Outcome.{done}
use pipeit.Balance.Search.{BalanceGraph, Search, expand, drain}
use pipeit.Balance.Search.Lowest.{lowest}
use pipeit.Balance.Search.Steps.{
  IsSolution, Adjacent, IsLinked, unvisited, HasRatio, Progress, Progress-refl, reach_all-Progress,
}
use pipeit.Graph.{NodeId}

-- A node with a ratio waits in the queue, or its neighbors have ratios too.
abbrev pub IsClosed : BalanceGraph → Search → Type 0
IsClosed balance s =
    (u w : NodeId)
    → contains_key s.rv_rat u ≡ true
    → Adjacent balance u w
    → (contains_key s.rv_rat w ≡ true) ⊎ (has s.queue u ≡ true)

module _ (balance : BalanceGraph) (ids : List NodeId) (q : NodeId → ℕ) (base : ℕ)
    (sol : IsSolution balance.rates q) (base_pos : 0 < base) (base_fits : base < u32_mod)
    (linked : IsLinked balance ids) where
  after-IsClosed :
      (u : NodeId) (rest : List NodeId) (s s' : Search)
      → s.queue ≡ u ∷ rest
      → IsClosed balance s
      → Progress balance ids q base (record s { queue = rest }) s'
      → ((w : NodeId)
          → contains_key s.rv_rat u ≡ true
          → Adjacent balance u w
          → contains_key s'.rv_rat w ≡ true)
      → IsClosed balance s'
  unfolding has
  after-IsClosed u rest s s' popped closed progress near x w keyed adjacent =
      elim (progress.fresh x keyed) [
        | inr waiting ↦ inr waiting
        | inl old ↦ elim (closed x w old adjacent) [
          | inl known ↦ inl (progress.grows w known)
          | inr queued ↦ elim (Bool-cases (eqb x u)) [
            | inl same ↦
                let e : x ≡ u = (eqb_iff x u).0 same in
                inl (
                  near w (subst (λ (y : NodeId). contains_key s.rv_rat y ≡ true) e old)
                    (subst (λ (y : NodeId). Adjacent balance y w) e adjacent))
            | inr other ↦ inr (progress.waits x (rw (popped, other) at queued))
          ]
        ]
      ]

  expand-IsClosed :
      (u : NodeId) (rest : List NodeId) (s : Search)
      → s.queue ≡ u ∷ rest
      → All (HasRatio balance ids q base) s.rv_rat
      → IsClosed balance s
      → (s' : Search) × (expand balance u (record s { queue = rest }) ≡ done s')
        × Progress balance ids q base (record s { queue = rest }) s'
        × IsClosed balance s'
  unfolding expand has
  expand-IsClosed u rest s popped h closed =
      let t : Search = record s { queue = rest } in
      let same = Progress-refl balance ids q base t h in
      elim (Option-cases (get s.rv_rat u)) [
        | inr no_ratio ↦ (
          t,
          rw (no_ratio, expand),
          same,
          after-IsClosed u rest s t popped closed same (λ w keyed _. ground arith),
        )
        | inl (r, keyed) ↦ elim (Option-cases (get balance.adjacency u)) [
          | inr alone ↦ (
            t,
            rw (keyed, alone, expand),
            same,
            after-IsClosed u rest s t popped closed same (λ w _ adjacent. ground arith),
          )
          | inl (ns, around) ↦
              let (s', reached, progress, all_reached) =
                reach_all-Progress balance ids q base sol base_fits linked u ns t
                  (λ n k. ground arith) h in
              let r_eq : r ≡ lowest (q u) base =
                All-get (HasRatio balance ids q base) s.rv_rat u r h keyed in
              (
                s',
                rw (keyed, around, expand, r_eq) reached,
                progress,
                after-IsClosed u rest s s' popped closed progress
                    (λ w _ adjacent. all_reached w (ground arith)),
              )
        ]
      ]

  pub drain-IsClosed :
      (fuel : ℕ) (s : Search)
      → unvisited s.rv_rat ids + length s.queue ≤ fuel
      → All (HasRatio balance ids q base) s.rv_rat
      → IsClosed balance s
      → (s' : Search) × (drain balance fuel s ≡ done s')
        × All (HasRatio balance ids q base) s'.rv_rat
        × IsClosed balance s'
        × (s'.queue ≡ [])
        × ((v : NodeId) → contains_key s.rv_rat v ≡ true → contains_key s'.rv_rat v ≡ true)
  unfolding drain
  drain-IsClosed zero s enough h closed = elim (List-cases s.queue) [
    | inl empty ↦ (s, ground arith, h, closed, empty, λ v k. k)
    | inr (u, rest, popped) ↦ absurd (omega (arith, ap (λ (l : List NodeId). length l) popped))
  ]
  drain-IsClosed (suc fuel) s enough h closed = elim (List-cases s.queue) [
    | inl empty ↦ (s, ground arith, h, closed, empty, λ v k. k)
    | inr (u, rest, popped) ↦
        let (t, expanded, progress, closed_t) = expand-IsClosed u rest s popped h closed in
        let enough_t : unvisited t.rv_rat ids + length t.queue ≤ fuel =
          omega (arith, progress.measure, ap (λ (l : List NodeId). length l) popped) in
        let (s', drained, h', closed', empty, grows) =
          drain-IsClosed fuel t enough_t progress.ratios closed_t in
        (
          s',
          rw (popped, drain, expanded) drained,
          h',
          closed',
          empty,
          λ v k. grows v (progress.grows v k),
        )
  ]
