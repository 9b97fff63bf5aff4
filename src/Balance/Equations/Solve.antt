-- ===== src/Balance/Equations/Solve.antt =====
-- The solver for one subgraph: what it records solves the equations, and where they have a
-- solution it records the least one (compiler/src/analyze.rs, `solve_subgraph_balance`).
use mathlib.Core.List
use native.Mathlib.Nat
use pipeit.Base.{
  ℕ, ◌*◌, ◌<◌, ◌≡◌, refl, sym, ap, ◌∙◌, Bool, true, ◌&&◌, Option, some, List, [], ◌∷◌, ◌++◌, inl,
  inr, arith, All, All-get, Map, get, insert, update, contains_key, has, all, keep, length, map,
  not, if◌then◌else◌, ltb, Option-cases, nat_eq, pair_eq, string_eq, String,
}
use pipeit.Extern.{Extern}
use pipeit.Graph.{NodeId, Node, Edge, Subgraph, node_ids}
use pipeit.SubgraphIndex.Agree.{IsDistinct}
use pipeit.Outcome.{Run, done, >>=-eq-done}
use pipeit.Balance.Search.{Ratio, solve_balance_ratios}
use pipeit.Balance.Search.Steps.{IsSolution, IsLinked}
use pipeit.Balance.Search.Ends.{IsRooted, solve_balance_ratios-All}
use pipeit.Balance.Normalize.{normalize_repetition_vector}
use pipeit.Balance.Normalize.Least.{Divides, normalize-Divides}
use pipeit.Balance.Equations.{
  Solved, insert_all, record_vector, solve_nonempty, solve_subgraph_balance, build_balance_graph,
  verify_balance_equations,
}
use pipeit.Balance.Equations.Linked.{build_balance_graph-IsLinked}
use pipeit.Balance.Equations.Verify.{is_balanced, mismatch, verify_balance_equations_lem}

module _ {X : Extern} (sub : Subgraph X) (production consumption : Node X → Option ℕ) where
  abbrev pub rates : Map (NodeId × NodeId) (ℕ × ℕ)
  rates = (build_balance_graph sub production consumption).rates

  -- The fields after a vector was accepted.
  abbrev pub with_vector : String → String → Map NodeId ℕ → Solved X → Solved X
  with_vector task label rv s = record {
    diagnostics = s.diagnostics;
    repetition_vectors = insert s.repetition_vectors (task, label) rv;
    rv_by_task = update s.rv_by_task task [] (insert_all sub production consumption rv);
  }

  abbrev pub with_errors : Map NodeId ℕ → Solved X → Solved X
  with_errors rv s = record s {
    diagnostics =
        s.diagnostics ++ map mismatch (keep (λ e. not (is_balanced rates rv e)) sub.edges);
  }

  abbrev pub solved_with : String → String → Map NodeId ℕ → Solved X → Solved X
  solved_with task label rv s =
      if all (is_balanced rates rv) sub.edges && ltb 0 (length rv)
      then with_vector task label rv s
      else with_errors rv s

  keep-none :
      (f : Edge X → Bool) (es : List (Edge X)) → all f es ≡ true → keep (λ e. not (f e)) es ≡ []
  keep-none f [] h = refl
  keep-none f (e ∷ es) h = ground (arith, keep-none f es)

  record_vector_lem :
      (task label : String) (rv : Map NodeId ℕ) (s : Solved X)
      → record_vector sub production consumption task label rv
          (verify_balance_equations sub production consumption rates rv sub.edges true
            s.diagnostics)
          s
        ≡ solved_with task label rv s
  unfolding record_vector
  record_vector_lem task label rv s =
      rw
        (verify_balance_equations_lem sub production consumption rates rv sub.edges true
          s.diagnostics)
        (ground (arith, keep-none (is_balanced rates rv) sub.edges, List.append-nil s.diagnostics))

  pub entered :
      (task label : String) (s : Solved X)
      → 0 < length sub.nodes
      → solve_subgraph_balance sub production consumption task label s
        ≡ solve_nonempty sub production consumption task label s
  unfolding solve_subgraph_balance
  entered task label s some_node = ground arith

  solve_nonempty_lem :
      (task label : String) (s : Solved X) (m : Map NodeId Ratio) (rv : Map NodeId ℕ)
      → solve_balance_ratios (build_balance_graph sub production consumption) sub ≡ done m
      → normalize_repetition_vector m ≡ done rv
      → solve_nonempty sub production consumption task label s ≡ done (solved_with task label rv s)
  unfolding solve_nonempty
  solve_nonempty_lem task label s m rv searched normalized =
      rw (searched, normalized) (ap (λ r. done r) (record_vector_lem task label rv s))

  accepted :
      (task label : String) (rv : Map NodeId ℕ) (s : Solved X)
      → all (is_balanced rates rv) sub.edges ≡ true
      → 0 < length rv
      → solved_with task label rv s ≡ with_vector task label rv s
  accepted task label rv s even full = rw even (ground arith)

  length_pos : (rv : Map NodeId ℕ) (v : NodeId) → contains_key rv v ≡ true → 0 < length rv
  length_pos [] v h = cc
  length_pos (x ∷ rv) v h = omega arith

  -- Where the solver returns for a subgraph with a node, there is a vector with which it ended: it
  -- is recorded, and nothing reported, if it has an entry and balances every edge with rates; otherwise
  -- nothing is recorded, and each edge that it does not balance is reported once, in order.
  pub solve_subgraph_balance-solved_with :
      (task label : String) (s s' : Solved X)
      → 0 < length sub.nodes
      → solve_subgraph_balance sub production consumption task label s ≡ done s'
      → (rv : Map NodeId ℕ) × (s' ≡ solved_with task label rv s)
  unfolding solve_nonempty
  solve_subgraph_balance-solved_with task label s s' some_node h =
      let (m, searched, h') =
        >>=-eq-done (solve_balance_ratios (build_balance_graph sub production consumption) sub) _
          (sym (entered task label s some_node) ∙ h) in
      let (rv, normalized, h'') = >>=-eq-done (normalize_repetition_vector m) _ h' in
      let returned : Run.done s' ≡ done (solved_with task label rv s) =
        sym (sym (entered task label s some_node) ∙ h)
        ∙ solve_nonempty_lem task label s m rv searched normalized in
      (rv, cc returned)

  module _ (q : NodeId → ℕ) (k : ℕ) (k_pos : 0 < k) (rv : Map NodeId ℕ) where
    value :
        (v : NodeId)
        → All (Divides k q) rv
        → contains_key rv v ≡ true
        → (r : ℕ) × (get rv v ≡ some r) × (k * r ≡ q v)
    value v h keyed = elim (Option-cases (get rv v)) [
      | inl (r, found) ↦ (r, found, All-get (Divides k q) rv v r h found)
      | inr nothing ↦ absurd (ground arith)
    ]

    cancel : (a b p c x y : ℕ) → k * a ≡ x → k * b ≡ y → x * p ≡ y * c → a * p ≡ b * c
    cancel a b p c x y of_x of_y balanced = Nat.eq_of_mul-eq-mul_left k k_pos (a * p) (b * c) (
        sym (Nat.mul_assoc k a p)
        ∙ ap (λ t. t * p) of_x
        ∙ balanced
        ∙ ap (λ t. t * c) (sym of_y)
        ∙ Nat.mul_assoc k b c)

    all_balanced :
        (es : List (Edge X))
        → IsSolution rates q
        → IsLinked (build_balance_graph sub production consumption) (node_ids sub)
        → All (Divides k q) rv
        → ((v : NodeId) → has (node_ids sub) v ≡ true → contains_key rv v ≡ true)
        → all (is_balanced rates rv) es ≡ true
    all_balanced [] sol linked h keyed = refl
    all_balanced (e ∷ es) sol linked h keyed =
        let rest = all_balanced es sol linked h keyed in
        elim (Option-cases (get rates (e.source, e.target))) [
          | inr none_here ↦ ground arith
          | inl ((p, c), rated) ↦
              let (source_in, target_in) = linked.ends e.source e.target (ground arith) in
              let (a, of_source, ka) = value e.source h (keyed e.source source_in) in
              let (b, of_target, kb) = value e.target h (keyed e.target target_in) in
              let even : a * p ≡ b * c =
                cancel a b p c (q e.source) (q e.target) ka kb
                  (sol.balanced e.source e.target p c rated).4 in
              ground arith
        ]

  -- Let the nodes have different ids, and let `q` give each node a positive u32 number of firings
  -- that balances every edge with rates, all rates being positive u32 numbers; let each node be fired
  -- as often as the first one or be joined to an earlier one by edges. Then the solver returns,
  -- reports nothing and records a vector with a value for each node, and `q` is a multiple of it.
  pub solve_subgraph_balance-least :
      (q : NodeId → ℕ) (n : Node X) (ns : List (Node X)) (task label : String) (s : Solved X)
      → sub.nodes ≡ n ∷ ns
      → IsDistinct (node_ids sub)
      → IsSolution rates q
      → IsRooted (build_balance_graph sub production consumption) q (q n.id) [] sub.nodes
      → (rv : Map NodeId ℕ) × (k : ℕ) × (solve_subgraph_balance sub production consumption task
            label s
          ≡ done (with_vector task label rv s))
        × (0 < k)
        × ((v : NodeId)
            → has (node_ids sub) v ≡ true
            → (r : ℕ) × (get rv v ≡ some r) × (k * r ≡ q v))
  unfolding has
  solve_subgraph_balance-least q n ns task label s nodes distinct sol rooted =
      let balance = build_balance_graph sub production consumption in
      let linked = build_balance_graph-IsLinked sub production consumption distinct in
      let (base_pos, base_fits) = sol.fits n.id in
      let (m, searched, h, keyed) =
        solve_balance_ratios-All balance (node_ids sub) q (q n.id) sol base_pos base_fits linked sub
          refl rooted in
      let (rv, k, normalized, k_pos, divides, kept) =
        normalize-Divides q (q n.id) sol.fits base_pos base_fits m h in
      let all_keyed : (v : NodeId) → has (node_ids sub) v ≡ true → contains_key rv v ≡ true =
        λ v i. kept v (keyed v i) in
      let even = all_balanced q k k_pos rv sub.edges sol linked divides all_keyed in
      (
        rv,
        k,
        entered task label s (omega (arith, ap (λ (l : List (Node X)). length l) nodes))
            ∙ solve_nonempty_lem task label s m rv searched normalized
            ∙ ap (λ r. done r)
                (accepted task label rv s even
                  (length_pos rv n.id (all_keyed n.id (rw nodes (ground arith))))),
        k_pos,
        λ v i. value q k k_pos rv v divides (all_keyed v i),
      )
