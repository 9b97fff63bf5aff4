-- ===== src/Spawn/Expand/Plain.antt =====
-- What the expanded program looks like (compiler/src/spawn.rs).
use pipeit.Base.{
  ℕ, zero, suc, ◌-◌, ◌≡◌, refl, Bool, true, false, Option, none, some, List, [], ◌∷◌, ◌++◌, Map,
  All, leb, String, Bool-cases, Option-cases, inl, inr,
}
use pipeit.Extern.{Extern}
use pipeit.Ast.{SpawnClause, TaskStmt, Statement, StatementKind, Program}
use pipeit.Spawn.Expand.{
  Output, spawn_range, expand_resolved, resolve_bound, expand_one_task, expand_kind, expand_all,
  expand_spawns,
}

module _ {X : Extern} where
  -- The statement is no task with a spawn clause.
  abbrev pub is_plain : StatementKind X → Bool
  is_plain (StatementKind.task task) = elim task.spawn [ none ↦ true | some _ ↦ false ]
  is_plain (StatementKind.set s) = true
  is_plain _ = true

  abbrev pub ArePlain : List (Statement X) → Type 0
  ArePlain = All (λ s. is_plain s.kind ≡ true)

  ArePlain-append : (xs ys : List (Statement X)) → ArePlain xs → ArePlain ys → ArePlain (xs ++ ys)
  ArePlain-append [] ys h k = k
  ArePlain-append (x ∷ xs) ys h k = (h.0, ArePlain-append xs ys h.1 k)

  spawn_range-ArePlain :
      (task : TaskStmt X) (spawn : SpawnClause X) (span : X.Span) (i count : ℕ)
      → ArePlain (spawn_range task spawn span i count)
  unfolding spawn_range
  spawn_range-ArePlain task spawn span i zero = tt
  spawn_range-ArePlain task spawn span i (suc count) =
      (refl, spawn_range-ArePlain task spawn span (suc i) count)

  expand_resolved-ArePlain :
      (task : TaskStmt X) (spawn : SpawnClause X) (span : X.Span) (begin end : Option ℕ)
      (o : Output X)
      → ArePlain o.out_stmts
      → ArePlain (expand_resolved task spawn span begin end o).out_stmts
  unfolding expand_resolved
  expand_resolved-ArePlain task spawn span (some b) (some e) o h = elim (Bool-cases (leb e b)) [
    | inl empty ↦ rw empty h
    | inr range ↦ rw range (
        ArePlain-append o.out_stmts (spawn_range task spawn span b (e - b)) h
          (spawn_range-ArePlain task spawn span b (e - b)))
  ]
  expand_resolved-ArePlain task spawn span _ _ o h = h

  expand_kind-ArePlain :
      (consts : Map String ℕ) (stmt : Statement X) (kind : StatementKind X) (o : Output X)
      → stmt.kind ≡ kind
      → ArePlain o.out_stmts
      → ArePlain (expand_kind consts stmt kind o).out_stmts
  unfolding expand_kind expand_one_task
  expand_kind-ArePlain consts stmt (StatementKind.task task) o e h =
      elim (Option-cases task.spawn) [
        | inr plain ↦
            rw (plain, expand_kind)
              (ArePlain-append o.out_stmts (stmt ∷ []) h (rw e (rw plain refl), tt))
        | inl (spawn, found) ↦
            let (begin, diags) = resolve_bound spawn.begin consts o.diags in
            let (end, diags') = resolve_bound spawn.end consts diags in
            rw (found, expand_kind)
              (expand_resolved-ArePlain task spawn stmt.span begin end (record o { diags = diags' })
                h)
      ]
  expand_kind-ArePlain consts stmt _ o e h =
      ArePlain-append o.out_stmts (stmt ∷ []) h (rw e refl, tt)

  expand_all-ArePlain :
      (consts : Map String ℕ) (stmts : List (Statement X)) (o : Output X)
      → ArePlain o.out_stmts
      → ArePlain (expand_all consts stmts o).out_stmts
  unfolding expand_all
  expand_all-ArePlain consts [] o h = h
  expand_all-ArePlain consts (s ∷ stmts) o h =
      expand_all-ArePlain consts stmts (expand_kind consts s s.kind o)
        (expand_kind-ArePlain consts s s.kind o refl h)

  -- No task of the expanded program has a spawn clause, whatever the bounds and the errors.
  pub expand_spawns-ArePlain :
      (program : Program X) → ArePlain (expand_spawns program).program.statements
  unfolding expand_spawns
  expand_spawns-ArePlain program = expand_all-ArePlain _ program.statements _ tt
