-- ===== src/Spawn/Expand/Reports.antt =====
-- What the expansion of a task reports (compiler/src/spawn.rs).
use pipeit.Base.{
  ℕ, ap, sym, ◌∙◌, ltb, if◌then◌else◌, none, inl, inr, Option-cases, ◌-◌, ◌≡◌, refl, Option, some,
  List, [], ◌∷◌, ◌++◌, Map, get, arith, String, string_eq,
}
use mathlib.Core.List
use pipeit.Extern.{Extern}
use pipeit.Ast.{SpawnBound, SpawnClause, TaskStmt, Statement}
use pipeit.Diag.{e0029, Diagnostic, error, e0026}
use pipeit.Spawn.Expand.{Output, spawn_range, expand_resolved, resolve_bound, expand_one_task}
use pipeit.Spawn.Expand.Copies.{bound_value}

module _ {X : Extern} where
  -- The error E0029 for a bound that names no known const.
  abbrev missing : SpawnBound X → Map String ℕ → List (Diagnostic X)
  missing (SpawnBound.literal n span) consts = []
  missing (SpawnBound.const_ref ident) consts = elim (get consts ident.name) [
    | none ↦ (record { level = error; code = e0029; span = ident.span }) ∷ []
    | some n ↦ []
  ]

  -- The copies for the indices in a range.
  abbrev pub in_range :
      TaskStmt X → SpawnClause X → X.Span → Option ℕ → Option ℕ → List (Statement X)
  in_range task spawn span (some begin) (some end) =
      if ltb begin end then spawn_range task spawn span begin (end - begin) else []
  in_range task spawn span _ _ = []

  -- The error E0026 for a range without an index.
  abbrev empty_range : SpawnClause X → Option ℕ → Option ℕ → List (Diagnostic X)
  empty_range spawn (some begin) (some end) =
      if ltb begin end then [] else (record { level = error; code = e0026; span = spawn.span }) ∷ []
  empty_range spawn _ _ = []

  -- The errors of a spawn clause.
  abbrev pub faults : SpawnClause X → Map String ℕ → List (Diagnostic X)
  faults spawn consts =
      missing spawn.begin consts
      ++ (missing spawn.end consts
          ++ empty_range spawn (bound_value spawn.begin consts) (bound_value spawn.end consts))

  resolve_bound-missing :
      (bound : SpawnBound X) (consts : Map String ℕ) (diags : List (Diagnostic X))
      → resolve_bound bound consts diags ≡ (bound_value bound consts, diags ++ missing bound consts)
  unfolding resolve_bound
  resolve_bound-missing (SpawnBound.literal n span) consts diags = rw (List.append-nil diags) refl
  resolve_bound-missing (SpawnBound.const_ref ident) consts diags =
      elim (Option-cases (get consts ident.name)) [
        | inl (v, e) ↦
            rw (resolve_bound, missing, e) (ap (λ ds. (some v, ds)) (sym (List.append-nil diags)))
        | inr e ↦ rw (resolve_bound, missing, e) refl
      ]

  expand_resolved_lem :
      (task : TaskStmt X) (spawn : SpawnClause X) (span : X.Span) (o : Output X) (b e : Option ℕ)
      → expand_resolved task spawn span b e o ≡ record {
        out_stmts = o.out_stmts ++ in_range task spawn span b e;
        diags = o.diags ++ empty_range spawn b e;
      }
  unfolding expand_resolved
  expand_resolved_lem task spawn span o (some begin) (some end) =
      ground (arith, List.append-nil o.out_stmts, List.append-nil o.diags)
  expand_resolved_lem task spawn span o (some begin) none =
      rw (List.append-nil o.out_stmts, List.append-nil o.diags) refl
  expand_resolved_lem task spawn span o none (some end) =
      rw (List.append-nil o.out_stmts, List.append-nil o.diags) refl
  expand_resolved_lem task spawn span o none none =
      rw (List.append-nil o.out_stmts, List.append-nil o.diags) refl

  pub expand_one_task-eq :
      (task : TaskStmt X) (spawn : SpawnClause X) (consts : Map String ℕ) (span : X.Span)
      (o : Output X)
      → expand_one_task task spawn consts span o ≡ record {
        out_stmts =
            o.out_stmts
            ++ in_range task spawn span
                (bound_value spawn.begin consts)
                (bound_value spawn.end consts);
        diags = o.diags ++ faults spawn consts;
      }
  unfolding expand_one_task
  expand_one_task-eq task spawn consts span o =
      let b = bound_value spawn.begin consts in
      let e = bound_value spawn.end consts in
      let once = o.diags ++ missing spawn.begin consts in
      rw
        (
          resolve_bound-missing spawn.begin consts o.diags,
          resolve_bound-missing spawn.end consts once,
          expand_resolved_lem task spawn span
              (record o { diags = once ++ missing spawn.end consts }) b e,
        )
        (ap (λ ds. record { out_stmts = o.out_stmts ++ in_range task spawn span b e; diags = ds })
          (List.append_assoc once (missing spawn.end consts) (empty_range spawn b e)
            ∙ List.append_assoc o.diags (missing spawn.begin consts)
                (missing spawn.end consts ++ empty_range spawn b e)))
