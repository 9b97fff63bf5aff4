-- ===== src/Balance/Tests.antt =====
-- Runs of the balance solver (compiler/src/analyze.rs) on a row of three actors.
use pipeit.Base.{
  List, ℕ, ◌*◌, ◌<◌, ◌≡◌, ◌≢◌, refl, sym, subst, true, Option, none, some, [], ◌∷◌, inl, inr, count,
  has, Map, get, eqb, if◌then◌else◌, mul64, inc32, nat_eq, pair_eq, string_eq, arith,
}
use pipeit.Extern.Sample.{whole}
use pipeit.Graph.{NodeId, NodeKind, Node, Edge, Subgraph, node_ids}
use pipeit.SubgraphIndex.{stored_index, should_index, node_in_subgraph, find_node}
use pipeit.SubgraphIndex.Agree.{IsDistinct}
use pipeit.Outcome.{done, panic, out_of_fuel, div}
use pipeit.Balance.Gcd.{gcd}
use pipeit.Balance.Search.{
  BalanceGraph, solve_balance_ratios, reduce_ratio, propagate_ratio, settle, reach, reach_all,
  expand, drain, solve_from,
}
use pipeit.Balance.Search.Steps.{IsSolution}
use pipeit.Balance.Search.Ends.{IsRooted, here, hop}
use pipeit.Balance.Normalize.{
  lcm, lcm_dens, scale, gcd_values, divide_all, normalize_repetition_vector,
}
use pipeit.Balance.Equations.{
  Solved, count_incoming, blank_adjacency, connect, consumed_of, produced_of, balance_edge,
  balance_edges, build_balance_graph, verify_balance_equations, record_vector, solve_nonempty,
  solve_subgraph_balance,
}
use pipeit.Balance.Equations.Solve.{
  with_vector, solved_with, solve_subgraph_balance-solved_with, solve_subgraph_balance-least,
}
use pipeit.Ast.{ShapeConstraint}
use pipeit.Schedule.{NodePortRates}
use pipeit.Rates.Dims.{Thir}
use pipeit.Rates.{cached_production_rate, cached_consumption_rate}
use pipeit.Balance.Program.{
  Labelled, production, consumption, IsSolvable, AllSolved, solve_balance_equations,
  solve_balance_equations-AllSolved,
}
use pipeit.Balance.Equations.Fuel.{solve_subgraph_balance-ne-out_of_fuel}

abbrev actor_node : NodeId → Node whole
actor_node n = record { id = n; kind = NodeKind.actor "a" tt [] none n; span = tt }

abbrev edge : ℕ → NodeId → NodeId → Edge whole
edge n from to = record { id = n; source = from; target = to; span = tt }

abbrev row : Subgraph whole
row = record {
  nodes = actor_node 0 ∷ actor_node 1 ∷ actor_node 2 ∷ [];
  edges = edge 0 0 1 ∷ edge 1 1 2 ∷ [];
}

-- Actor 0 produces 2 tokens, 1 consumes 3 and produces 1, and 2 consumes 4.
abbrev row_production : Node whole → Option ℕ
row_production n = if eqb n.id 0 then some 2 else if eqb n.id 1 then some 1 else none

abbrev row_consumption : Node whole → Option ℕ
row_consumption n = if eqb n.id 1 then some 3 else if eqb n.id 2 then some 4 else none

abbrev blank : Solved whole
blank = record { diagnostics = []; repetition_vectors = []; rv_by_task = [] }

abbrev row_balance : BalanceGraph
row_balance = record {
  rates = ((0, 1), (2, 3)) ∷ ((1, 2), (1, 4)) ∷ [];
  adjacency = (0, 1 ∷ []) ∷ (1, 0 ∷ 2 ∷ []) ∷ (2, 1 ∷ []) ∷ [];
}

row_rates : build_balance_graph row row_production row_consumption ≡ row_balance
unfolding build_balance_graph balance_edges balance_edge connect consumed_of produced_of
    count_incoming blank_adjacency stored_index should_index node_in_subgraph find_node inc32
row_rates = refl

row_ratios :
    solve_balance_ratios row_balance row ≡ done ((0, (1, 1)) ∷ (1, (2, 3)) ∷ (2, (1, 6)) ∷ [])
unfolding solve_balance_ratios solve_from drain expand reach_all reach settle propagate_ratio
    reduce_ratio gcd div mul64
row_ratios = refl

row_vector :
    normalize_repetition_vector ((0, (1, 1)) ∷ (1, (2, 3)) ∷ (2, (1, 6)) ∷ [])
    ≡ done ((0, 6) ∷ (1, 4) ∷ (2, 1) ∷ [])
unfolding normalize_repetition_vector lcm_dens scale gcd_values divide_all lcm gcd div mul64
row_vector = refl

-- Twice the least solution.
abbrev firings : NodeId → ℕ
firings v = if eqb v 0 then 12 else if eqb v 1 then 8 else 2

row-IsDistinct : IsDistinct (node_ids row)
unfolding count
row-IsDistinct a = ground arith

firings-IsSolution : IsSolution row_balance.rates firings
firings-IsSolution = record { fits = λ v. ground arith; balanced = λ u v p c h. ground arith }

row-IsRooted : IsRooted row_balance firings 12 [] row.nodes
unfolding has
row-IsRooted = (inl refl, (inr (0, refl, hop here refl), (inr (1, refl, hop here refl), tt)))

solve_subgraph_balance-least_example :
    (rv : Map NodeId ℕ) × (k : ℕ) × (solve_subgraph_balance row row_production row_consumption
        "main" "pipeline" blank
      ≡ done (with_vector row row_production row_consumption "main" "pipeline" rv blank))
    × (0 < k)
    × ((v : NodeId)
        → has (node_ids row) v ≡ true
        → (r : ℕ) × (get rv v ≡ some r) × (k * r ≡ firings v))
solve_subgraph_balance-least_example =
    solve_subgraph_balance-least row row_production row_consumption firings (actor_node 0)
      (actor_node 1 ∷ actor_node 2 ∷ []) "main" "pipeline" blank refl row-IsDistinct
      (subst (λ (b : BalanceGraph). IsSolution b.rates firings) (sym row_rates) firings-IsSolution)
      (subst (λ (b : BalanceGraph). IsRooted b firings 12 [] row.nodes) (sym row_rates)
        row-IsRooted)

solve_subgraph_balance-ne-out_of_fuel_example :
    solve_subgraph_balance row row_production row_consumption "main" "pipeline" blank ≢ out_of_fuel
solve_subgraph_balance-ne-out_of_fuel_example =
    solve_subgraph_balance-ne-out_of_fuel row row_production row_consumption "main" "pipeline" blank
      row-IsDistinct

abbrev row_solved : Solved whole
row_solved =
    with_vector row row_production row_consumption "main" "pipeline" ((0, 6) ∷ (1, 4) ∷ (2, 1) ∷ [])
      blank

row_runs :
    solve_subgraph_balance row row_production row_consumption "main" "pipeline" blank
    ≡ done row_solved
unfolding solve_subgraph_balance solve_nonempty record_vector verify_balance_equations
row_runs = rw (row_rates, row_ratios, row_vector) refl

solve_subgraph_balance-solved_with_example :
    (rv : Map NodeId ℕ) × (row_solved
      ≡ solved_with row row_production row_consumption "main" "pipeline" rv blank)
solve_subgraph_balance-solved_with_example =
    solve_subgraph_balance-solved_with row row_production row_consumption "main" "pipeline" blank
      row_solved (omega arith) row_runs

-- An input count of 1 at a node with two incoming edges leaves 1 / 2 = 0 tokens for each.
abbrev joined : Subgraph whole
joined = record {
  nodes = actor_node 0 ∷ actor_node 1 ∷ actor_node 2 ∷ [];
  edges = edge 0 0 2 ∷ edge 1 1 2 ∷ [];
}

joined_panics :
    solve_subgraph_balance joined (λ n. some 1) (λ n. some 1) "main" "pipeline" blank ≡ panic
unfolding solve_subgraph_balance solve_nonempty build_balance_graph balance_edges balance_edge
    connect consumed_of produced_of count_incoming blank_adjacency stored_index should_index
    node_in_subgraph find_node inc32 solve_balance_ratios solve_from drain expand reach_all reach
    settle propagate_ratio reduce_ratio gcd div mul64 normalize_repetition_vector lcm_dens scale lcm
joined_panics = refl

-- The same row in two tasks, with the rates of its actors in the cache.
abbrev no_actors : Thir whole
no_actors = record { const_values = []; actors = [] }

abbrev no_shapes : Map NodeId (ShapeConstraint whole)
no_shapes = []

abbrev cache : Map NodeId NodePortRates
cache =
    (0, record { in_rate = none; out_rate = some 2 })
    ∷ (1, record { in_rate = some 3; out_rate = some 1 })
    ∷ (2, record { in_rate = some 4; out_rate = none })
    ∷ []

abbrev two_rows : List (Labelled whole)
two_rows = ("main", "pipeline", row) ∷ ("side", "pipeline", row) ∷ []

cached_row_rates :
    build_balance_graph row
      (production no_actors no_shapes cache)
      (consumption no_actors no_shapes cache)
    ≡ row_balance
unfolding build_balance_graph balance_edges balance_edge connect consumed_of produced_of
    count_incoming blank_adjacency stored_index should_index node_in_subgraph find_node inc32
    cached_production_rate cached_consumption_rate
cached_row_rates = refl

row-IsSolvable : IsSolvable no_actors no_shapes cache row
row-IsSolvable = record {
  firings = firings;
  first = actor_node 0;
  others = actor_node 1 ∷ actor_node 2 ∷ [];
  starts = refl;
  distinct = row-IsDistinct;
  solution =
      subst (λ (b : BalanceGraph). IsSolution b.rates firings) (sym cached_row_rates)
        firings-IsSolution;
  rooted =
      subst (λ (b : BalanceGraph). IsRooted b firings 12 [] row.nodes) (sym cached_row_rates)
        row-IsRooted;
}

solve_balance_equations-AllSolved_example :
    (s' : Solved whole) × (solve_balance_equations no_actors no_shapes cache two_rows blank
      ≡ done s')
    × (s'.diagnostics ≡ [])
    × AllSolved no_actors no_shapes cache s'.repetition_vectors two_rows
        (row-IsSolvable, (row-IsSolvable, tt))
solve_balance_equations-AllSolved_example =
    solve_balance_equations-AllSolved no_actors no_shapes cache two_rows blank
      (row-IsSolvable, (row-IsSolvable, tt)) (refl, (refl, tt))
