-- ===== src/Balance/Equations/Fuel.antt =====
-- The solver for one subgraph ends (compiler/src/analyze.rs, `solve_subgraph_balance`).
use pipeit.Base.{
  ℕ, ◌≡◌, ◌≢◌, refl, sym, subst, ap, ◌∙◌, length, arith, Option, List, [], ◌∷◌, inl, inr, Map,
  String, insert, mul64, ◌%◌, u32_mod, nat_eq, List-cases,
}
use pipeit.Extern.{Extern}
use pipeit.Graph.{NodeId, Node, Subgraph, node_ids}
use pipeit.SubgraphIndex.Agree.{IsDistinct}
use pipeit.Outcome.{done, out_of_fuel, div}
use pipeit.Balance.Search.{Ratio, solve_balance_ratios}
use pipeit.Balance.Search.Fuel.{
  EndsWith, EndsWith-bind, div-EndsWith, solve_balance_ratios-EndsWith,
}
use pipeit.Balance.Normalize.{lcm_dens, scale, normalize_repetition_vector}
use pipeit.Balance.Equations.{Solved, build_balance_graph, solve_nonempty, solve_subgraph_balance}
use pipeit.Balance.Equations.Linked.{build_balance_graph-IsLinked}
use pipeit.Balance.Equations.Solve.{entered}

scale-EndsWith :
    (m : ℕ) (rs : Map NodeId Ratio) (rv : Map NodeId ℕ) → EndsWith (λ _. Unit {0}) (scale m rs rv)
unfolding scale
scale-EndsWith m [] rv = tt
scale-EndsWith m ((v, (num, den)) ∷ rs) rv =
    EndsWith-bind (λ _. Unit {0}) (λ _. Unit {0}) (div m den) _ (div-EndsWith m den)
      (λ k _. scale-EndsWith m rs (insert rv v (mul64 num k % u32_mod)))

normalize-EndsWith :
    (rs : Map NodeId Ratio) → EndsWith (λ _. Unit {0}) (normalize_repetition_vector rs)
unfolding normalize_repetition_vector
normalize-EndsWith rs =
    EndsWith-bind (λ _. Unit {0}) (λ _. Unit {0}) (scale (lcm_dens rs 1) rs []) _
      (scale-EndsWith (lcm_dens rs 1) rs []) (λ rv _. tt)

module _ {X : Extern} (sub : Subgraph X) (production consumption : Node X → Option ℕ) where
  solve_nonempty-EndsWith :
      (task label : String) (s : Solved X)
      → IsDistinct (node_ids sub)
      → EndsWith (λ _. Unit {0}) (solve_nonempty sub production consumption task label s)
  unfolding solve_nonempty
  solve_nonempty-EndsWith task label s distinct =
      let balance = build_balance_graph sub production consumption in
      let linked = build_balance_graph-IsLinked sub production consumption distinct in
      EndsWith-bind (λ _. Unit {0}) (λ _. Unit {0}) (solve_balance_ratios balance sub) _
        (solve_balance_ratios-EndsWith balance (node_ids sub) linked sub refl)
        λ m _.
          EndsWith-bind (λ _. Unit {0}) (λ _. Unit {0}) (normalize_repetition_vector m) _
            (normalize-EndsWith m) (λ rv _. tt)

  -- Where the nodes have different ids, the solver does not run out of fuel, whatever the rates
  -- are: it returns or divides by zero.
  pub solve_subgraph_balance-ne-out_of_fuel :
      (task label : String) (s : Solved X)
      → IsDistinct (node_ids sub)
      → solve_subgraph_balance sub production consumption task label s ≢ out_of_fuel
  unfolding solve_subgraph_balance
  solve_subgraph_balance-ne-out_of_fuel task label s distinct = elim (List-cases sub.nodes) [
    | inl empty ↦
        let stays : solve_subgraph_balance sub production consumption task label s ≡ done s =
          ground arith in
        cc
    | inr (n, ns, some_nodes) ↦
        let enters =
          entered sub production consumption task label s
            (omega (arith, ap (λ (l : List (Node X)). length l) some_nodes)) in
        λ e.
          subst (EndsWith (λ _. Unit {0})) (sym enters ∙ e)
            (solve_nonempty-EndsWith task label s distinct)
  ]
