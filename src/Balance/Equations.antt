-- ===== src/Balance/Equations.antt =====
-- The rates of the edges, the check of a vector, and the whole solver for one subgraph
-- (compiler/src/analyze.rs, `build_balance_graph`, `verify_balance_equations`).
pub mod Linked
pub mod Verify
pub mod Solve
pub mod Fuel
use pipeit.Base.{
  ℕ, zero, suc, ◌+◌, ◌*◌, ◌/◌, ◌%◌, Bool, true, false, ◌||◌, ◌&&◌, Option, none, some, List, [],
  ◌∷◌, ◌++◌, map, String, Map, get, get_or, insert, or_insert, update, contains_key, length, eqb,
  ltb, if◌then◌else◌, inc32, mul64, u32_mod, nat_eq, string_eq, pair_eq, PartialEq,
}
use pipeit.Outcome.{Run, done, panic, out_of_fuel, ◌>>=◌, div}
use pipeit.Extern.{Extern}
use pipeit.Diag.{Diagnostic, error, e0304}
use pipeit.Graph.{NodeId, Node, Edge, Subgraph}
use pipeit.SubgraphIndex.{stored_index, node_in_subgraph}
use pipeit.Balance.Search.{BalanceGraph, solve_balance_ratios}
use pipeit.Balance.Normalize.{normalize_repetition_vector}

-- The fields of `AnalyzeCtx` that the solver changes.
pub record Solved (X : Extern) : Type 0 where
  pub diagnostics : List (Diagnostic X)
  pub repetition_vectors : Map (String × String) (Map NodeId ℕ)
  pub rv_by_task : Map String (Map NodeId ℕ)

module _ {X : Extern} where
  unfoldable pub count_incoming : List (Edge X) → Map NodeId ℕ → Map NodeId ℕ
  count_incoming [] m = m
  count_incoming (e ∷ es) m = count_incoming es (update m e.target 0 inc32)

  unfoldable pub blank_adjacency :
      List (Node X) → Map NodeId (List NodeId) → Map NodeId (List NodeId)
  blank_adjacency [] m = m
  blank_adjacency (n ∷ ns) m = blank_adjacency ns (or_insert m n.id [])

  -- What an edge between two nodes with the given rates adds.
  unfoldable pub connect : Edge X → ℕ → ℕ → BalanceGraph → BalanceGraph
  connect e p c b =
      let adjacency = update b.adjacency e.source [] (λ ns. ns ++ e.target ∷ []) in
      record {
        rates = insert b.rates (e.source, e.target) (p, c);
        adjacency = update adjacency e.target [] (λ ns. ns ++ e.source ∷ []);
      }

  -- `production` and `consumption` are `cached_production_rate` and `cached_consumption_rate`.
  module _ (sub : Subgraph X) (production consumption : Node X → Option ℕ) where
    -- The tokens of one edge, of those that the target consumes in a firing.
    unfoldable pub consumed_of : Map NodeId ℕ → Node X → NodeId → ℕ
    consumed_of incoming_count tgt id =
        let total_c : ℕ = elim (consumption tgt) [ none ↦ 1 | some c ↦ c ] in
        let num_in = get_or incoming_count id 1 in
        if ltb 1 num_in then total_c / num_in else total_c

    unfoldable pub produced_of : Node X → ℕ
    produced_of src = elim (production src) [ none ↦ 1 | some p ↦ p ]

    unfoldable pub balance_edge : Map NodeId ℕ → Edge X → BalanceGraph → BalanceGraph
    balance_edge incoming_count e b = elim (node_in_subgraph (stored_index sub) sub e.source) [
      | none ↦ b
      | some src ↦ elim (node_in_subgraph (stored_index sub) sub e.target) [
        | none ↦ b
        | some tgt ↦ connect e (produced_of src) (consumed_of incoming_count tgt e.target) b
      ]
    ]

    unfoldable pub balance_edges : Map NodeId ℕ → List (Edge X) → BalanceGraph → BalanceGraph
    balance_edges incoming_count [] b = b
    balance_edges incoming_count (e ∷ es) b =
        balance_edges incoming_count es (balance_edge incoming_count e b)

    unfoldable pub build_balance_graph : BalanceGraph
    build_balance_graph =
        balance_edges (count_incoming sub.edges []) sub.edges
          (record { rates = []; adjacency = blank_adjacency sub.nodes [] })

    -- The loop over the edges. A product of two u32 fits a u64.
    unfoldable pub verify_balance_equations :
        Map (NodeId × NodeId) (ℕ × ℕ)
        → Map NodeId ℕ
        → List (Edge X)
        → Bool
        → List (Diagnostic X)
        → Bool × List (Diagnostic X)
    verify_balance_equations rates rv [] consistent diags = (consistent, diags)
    verify_balance_equations rates rv (e ∷ es) consistent diags =
        let onward = verify_balance_equations rates rv es in
        elim (get rates (e.source, e.target)) [
          | none ↦ onward consistent diags
          | some (p, c) ↦
              if eqb (get_or rv e.source 1 * p) (get_or rv e.target 1 * c)
              then onward consistent diags
              else onward false
                  (diags ++ (record { level = error; code = e0304; span = e.span }) ∷ [])
        ]

    unfoldable pub insert_all : Map NodeId ℕ → Map NodeId ℕ → Map NodeId ℕ
    insert_all [] into = into
    insert_all ((v, n) ∷ rv) into = insert_all rv (insert into v n)

    -- What is done with the vector.
    unfoldable pub record_vector :
        String → String → Map NodeId ℕ → Bool × List (Diagnostic X) → Solved X → Solved X
    record_vector task label rv (consistent, diags) s =
        if consistent && ltb 0 (length rv)
        then record {
          diagnostics = diags;
          repetition_vectors = insert s.repetition_vectors (task, label) rv;
          rv_by_task = update s.rv_by_task task [] (insert_all rv);
        }
        else record s { diagnostics = diags }

    unfoldable pub solve_nonempty : String → String → Solved X → Run (Solved X)
    solve_nonempty task label s = do
      let balance = build_balance_graph
      rv_rat ← solve_balance_ratios balance sub
      rv ← normalize_repetition_vector rv_rat
      done (
          record_vector task label rv
            (verify_balance_equations balance.rates rv sub.edges true s.diagnostics) s)

    unfoldable pub solve_subgraph_balance : String → String → Solved X → Run (Solved X)
    solve_subgraph_balance task label s = elim sub.nodes [
      | [] ↦ done s
      | _ ∷ _ ↦ solve_nonempty task label s
    ]
