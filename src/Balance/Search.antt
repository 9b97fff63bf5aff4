-- ===== src/Balance/Search.antt =====
-- The search for ratios, `solve_balance_ratios` of compiler/src/analyze.rs.
pub mod Lowest
pub mod Steps
pub mod Closed
pub mod Ends
pub mod Fuel
use pipeit.Base.{
  ℕ, zero, suc, ◌+◌, ◌*◌, ◌/◌, ◌%◌, Bool, true, false, ◌||◌, ◌&&◌, Option, none, some, List, [],
  ◌∷◌, ◌++◌, map, String, Map, get, get_or, insert, or_insert, update, contains_key, length, eqb,
  ltb, if◌then◌else◌, inc32, mul64, u32_mod, nat_eq, string_eq, pair_eq, PartialEq,
}
use pipeit.Outcome.{Run, done, panic, out_of_fuel, ◌>>=◌, div}
use pipeit.Balance.Gcd.{gcd}
use pipeit.Extern.{Extern}
use pipeit.Graph.{NodeId, Node, Subgraph}

-- A fraction of u64 numbers, numerator first.
abbrev pub Ratio : Type 0
Ratio = ℕ × ℕ

pub record BalanceGraph : Type 0 where
  pub rates : Map (NodeId × NodeId) (ℕ × ℕ)
  pub adjacency : Map NodeId (List NodeId)

unfoldable pub reduce_ratio : ℕ → ℕ → Run Ratio
reduce_ratio num den = do let g = gcd num den; n ← div num g; d ← div den g; done (n, d)

-- The arms of `propagate_ratio`.
unfoldable pub propagate_ratio :
    NodeId → NodeId → ℕ → ℕ → Map (NodeId × NodeId) (ℕ × ℕ) → Run (Option Ratio)
propagate_ratio current neighbor cur_num cur_den rates = elim (get rates (current, neighbor)) [
  | some (p, c) ↦ reduce_ratio (mul64 cur_num p) (mul64 cur_den c) >>= λ r. done (some r)
  | none ↦ elim (get rates (neighbor, current)) [
    | some (p, c) ↦ reduce_ratio (mul64 cur_num c) (mul64 cur_den p) >>= λ r. done (some r)
    | none ↦ done none
  ]
]

-- The two collections of `solve_balance_ratios`.
pub record Search : Type 0 where
  pub rv_rat : Map NodeId Ratio
  pub queue : List NodeId

-- `rv_rat.insert(neighbor, next_ratio); queue.push_back(neighbor)`, if there is a ratio.
unfoldable pub settle : NodeId → Option Ratio → Search → Search
settle neighbor none s = s
settle neighbor (some r) s = record {
  rv_rat = insert s.rv_rat neighbor r;
  queue = s.queue ++ neighbor ∷ [];
}

module _ (balance : BalanceGraph) where
  -- One round of the loop over the neighbors.
  unfoldable pub reach : NodeId → Ratio → NodeId → Search → Run Search
  reach current (cur_num, cur_den) neighbor s =
      if contains_key s.rv_rat neighbor
      then done s
      else propagate_ratio current neighbor cur_num cur_den balance.rates >>= λ r.
          done (settle neighbor r s)

  unfoldable pub reach_all : NodeId → Ratio → List NodeId → Search → Run Search
  reach_all current ratio [] s = done s
  reach_all current ratio (n ∷ ns) s =
      let rest = reach_all current ratio ns in reach current ratio n s >>= rest

  -- The body of the `while` loop for the node that was popped.
  unfoldable pub expand : NodeId → Search → Run Search
  expand current s = elim (get s.rv_rat current) [
    | none ↦ done s
    | some ratio ↦ elim (get balance.adjacency current) [
      | none ↦ done s
      | some neighbors ↦ reach_all current ratio neighbors s
    ]
  ]

  unfoldable pub drain : ℕ → Search → Run Search
  drain zero s = elim s.queue [ [] ↦ done s | _ ∷ _ ↦ out_of_fuel ]
  drain (suc fuel) s = elim s.queue [
    | [] ↦ done s
    | current ∷ rest ↦ expand current (record s { queue = rest }) >>= drain fuel
  ]

  module _ {X : Extern} where
    -- The loop over the nodes; each search is given `fuel`.
    unfoldable pub solve_from : ℕ → List (Node X) → Map NodeId Ratio → Run (Map NodeId Ratio)
    solve_from fuel [] rv_rat = done rv_rat
    solve_from fuel (n ∷ ns) rv_rat =
        let skip = solve_from fuel ns rv_rat in
        let onward = λ (s : Search). solve_from fuel ns s.rv_rat in
        if contains_key rv_rat n.id
        then skip
        else drain fuel (record { rv_rat = insert rv_rat n.id (1, 1); queue = n.id ∷ [] })
          >>= onward

    -- A node is queued at most once, so the number of nodes is enough.
    unfoldable pub solve_balance_ratios : Subgraph X → Run (Map NodeId Ratio)
    solve_balance_ratios sub = solve_from (length sub.nodes) sub.nodes []
