-- ===== src/Balance/Program.antt =====
-- The balance equations of all subgraphs (compiler/src/analyze.rs, `solve_balance_equations`), with
-- the cached rates of the nodes.
use pipeit.Base.{
  ℕ, ◌*◌, ◌<◌, ◌≡◌, refl, ◌∙◌, Bool, true, false, Option, some, List, [], ◌∷◌, Map, String, get,
  get-insert, insert, has, if◌then◌else◌, nat_eq, string_eq, pair_eq, pair_beq_iff, ◌==◌, arith,
}
use pipeit.Extern.{Extern}
use pipeit.Ast.{ShapeConstraint}
use pipeit.Graph.{NodeId, Node, Subgraph, node_ids}
use pipeit.Outcome.{Run, done, ◌>>=◌}
use pipeit.SubgraphIndex.Agree.{IsDistinct}
use pipeit.Schedule.{NodePortRates}
use pipeit.Rates.Dims.{Thir}
use pipeit.Rates.{cached_production_rate, cached_consumption_rate}
use pipeit.Balance.Search.Steps.{IsSolution}
use pipeit.Balance.Search.Ends.{IsRooted}
use pipeit.Balance.Equations.{Solved, build_balance_graph, solve_subgraph_balance}
use pipeit.Balance.Equations.Solve.{rates, with_vector, solve_subgraph_balance-least}

-- A subgraph of a task, with the task's name and its label.
abbrev pub Labelled : Extern → Type 0
Labelled X = String × String × Subgraph X

module _ {X : Extern} (thir : Thir X) (shapes : Map NodeId (ShapeConstraint X))
    (cache : Map NodeId NodePortRates) where
  abbrev pub production : Node X → Option ℕ
  production n = cached_production_rate thir shapes cache n

  abbrev pub consumption : Node X → Option ℕ
  consumption n = cached_consumption_rate thir shapes cache n

  unfoldable pub solve_balance_equations : List (Labelled X) → Solved X → Run (Solved X)
  solve_balance_equations [] s = done s
  solve_balance_equations ((task, label, sub) ∷ subs) s =
      solve_subgraph_balance sub production consumption task label s
      >>= solve_balance_equations subs

  -- The conditions on a subgraph: it has a node, the ids differ, and `firings` is a solution of its
  -- balance equations that the search reaches from the first node.
  pub record IsSolvable (sub : Subgraph X) : Type 0 where
    pub firings : NodeId → ℕ
    pub first : Node X
    pub others : List (Node X)
    pub starts : sub.nodes ≡ first ∷ others
    pub distinct : IsDistinct (node_ids sub)
    pub solution : IsSolution (rates sub production consumption) firings
    pub rooted :
        IsRooted
          (build_balance_graph sub production consumption)
          firings
          (firings first.id)
          []
          sub.nodes

  abbrev pub AllSolvable : List (Labelled X) → Type 0
  AllSolvable [] = Unit
  AllSolvable ((task, label, sub) ∷ subs) = IsSolvable sub × AllSolvable subs

  abbrev is_key : String × String → List (Labelled X) → Bool
  is_key key [] = false
  is_key key ((task, label, sub) ∷ subs) = if (task, label) == key then true else is_key key subs

  -- No two of the subgraphs have the same task and label.
  abbrev pub AreLabelled : List (Labelled X) → Type 0
  AreLabelled [] = Unit
  AreLabelled ((task, label, sub) ∷ subs) = (is_key (task, label) subs ≡ false) × AreLabelled subs

  -- A vector is recorded that has a value for each node, and divides the solution.
  abbrev pub HasVector :
      Map (String × String) (Map NodeId ℕ)
      → String × String
      → (sub : Subgraph X) → (NodeId → ℕ)
      → Type 0
  HasVector vectors key sub q =
      (rv : Map NodeId ℕ) × (k : ℕ) × (get vectors key ≡ some rv)
      × (0 < k)
      × ((v : NodeId) → has (node_ids sub) v ≡ true → (r : ℕ) × (get rv v ≡ some r) × (k * r ≡ q v))

  abbrev pub AllSolved :
      Map (String × String) (Map NodeId ℕ) → (subs : List (Labelled X)) → AllSolvable subs → Type 0
  AllSolved vectors [] _ = Unit
  AllSolved vectors ((task, label, sub) ∷ subs) (solvable, rest) =
      HasVector vectors (task, label) sub solvable.firings × AllSolved vectors subs rest

  is_key_tail :
      (key : String × String) (task label : String) (sub : Subgraph X) (subs : List (Labelled X))
      → is_key key ((task, label, sub) ∷ subs) ≡ false
      → is_key key subs ≡ false
  is_key_tail key task label sub subs h = ground arith

  get-insert_other :
      {V : Type 0} (m : Map (String × String) V) (key : String × String) (task label : String)
      (sub : Subgraph X) (subs : List (Labelled X)) (rv : V)
      → is_key key ((task, label, sub) ∷ subs) ≡ false
      → get (insert m (task, label) rv) key ≡ get m key
  get-insert_other m key task label sub subs rv h =
      ground (arith, get-insert m (task, label) rv key, pair_beq_iff (task, label) key)

  -- The run keeps the vectors of the other keys.
  solve_balance_equations_keeps :
      (subs : List (Labelled X)) (s : Solved X) (solvable : AllSolvable subs)
      → AreLabelled subs
      → (s' : Solved X) × (solve_balance_equations subs s ≡ done s')
        × (s'.diagnostics ≡ s.diagnostics)
        × ((key : String × String)
            → is_key key subs ≡ false
            → get s'.repetition_vectors key ≡ get s.repetition_vectors key)
        × AllSolved s'.repetition_vectors subs solvable
  unfolding solve_balance_equations
  solve_balance_equations_keeps [] s solvable labelled = (s, refl, refl, (λ key h. refl), tt)
  solve_balance_equations_keeps ((task, label, sub) ∷ subs) s (solvable, rest) (alone, labelled) =
      let (rv, k, solved, k_pos, values) =
        solve_subgraph_balance-least sub production consumption solvable.firings solvable.first
          solvable.others task label s solvable.starts solvable.distinct solvable.solution
          solvable.rooted in
      let t : Solved X = with_vector sub production consumption task label rv s in
      let (s', onward, quiet, keeps, all) = solve_balance_equations_keeps subs t rest labelled in
      let recorded : get t.repetition_vectors (task, label) ≡ some rv = ground (
        arith,
        get-insert s.repetition_vectors (task, label) rv (task, label),
        pair_beq_iff (task, label) (task, label),
      ) in
      (
        s',
        rw solved onward,
        quiet,
        λ key other.
            keeps key (is_key_tail key task label sub subs other)
            ∙ get-insert_other s.repetition_vectors key task label sub subs rv other,
        ((rv, k, keeps (task, label) alone ∙ recorded, k_pos, values), all),
      )

  -- Where each subgraph of the program has a node, its nodes have different ids, its balance
  -- equations for the cached rates have a solution in positive u32 numbers for positive u32
  -- rates, with each node fired as often as the first one or joined to an earlier one, and no two
  -- subgraphs have the same task and label, the solver returns, reports nothing, and records for
  -- each subgraph a vector with a value for every node that the solution is a multiple of.
  pub solve_balance_equations-AllSolved :
      (subs : List (Labelled X)) (s : Solved X) (solvable : AllSolvable subs)
      → AreLabelled subs
      → (s' : Solved X) × (solve_balance_equations subs s ≡ done s')
        × (s'.diagnostics ≡ s.diagnostics)
        × AllSolved s'.repetition_vectors subs solvable
  solve_balance_equations-AllSolved subs s solvable labelled =
      let (s', onward, quiet, keeps, all) =
        solve_balance_equations_keeps subs s solvable labelled in
      (s', onward, quiet, all)
