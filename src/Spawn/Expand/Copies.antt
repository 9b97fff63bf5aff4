-- ===== src/Spawn/Expand/Copies.antt =====
-- The tasks that a spawn clause becomes (compiler/src/spawn.rs).
use pipeit.Base.{
  ℕ, zero, suc, ◌+◌, ◌-◌, ◌<◌, ◌≡◌, refl, Option, some, List, ◌++◌, Map, get, length, get_elem?,
  arith, String, string_eq,
}
use pipeit.Extern.{Extern}
use pipeit.Ast.{SpawnBound, SpawnClause, TaskStmt, Statement}
use pipeit.Diag.{Diagnostic}
use pipeit.Spawn.Expand.{
  Output, spawned, spawn_range, expand_resolved, resolve_bound, expand_one_task,
}

pub add-zero : (i : ℕ) → i + 0 ≡ i
add-zero i = omega arith

pub add_suc : (i k : ℕ) → i + suc k ≡ suc i + k
add_suc i k = omega arith

module _ {X : Extern} where
  -- The value of a bound: the literal, or that of the named const.
  abbrev pub bound_value : SpawnBound X → Map String ℕ → Option ℕ
  bound_value (SpawnBound.literal n span) consts = some n
  bound_value (SpawnBound.const_ref ident) consts = get consts ident.name

  resolve_bound-some :
      (bound : SpawnBound X) (consts : Map String ℕ) (diags : List (Diagnostic X)) (n : ℕ)
      → bound_value bound consts ≡ some n
      → resolve_bound bound consts diags ≡ (some n, diags)
  unfolding resolve_bound
  resolve_bound-some (SpawnBound.literal m span) consts diags n h = ground arith
  resolve_bound-some (SpawnBound.const_ref ident) consts diags n h = ground arith

  pub length-spawn_range :
      (task : TaskStmt X) (spawn : SpawnClause X) (span : X.Span) (i count : ℕ)
      → length (spawn_range task spawn span i count) ≡ count
  unfolding spawn_range
  length-spawn_range task spawn span i zero = refl
  length-spawn_range task spawn span i (suc count) =
      omega (arith, length-spawn_range task spawn span (suc i) count)

  get_elem?-spawn_range :
      (task : TaskStmt X) (spawn : SpawnClause X) (span : X.Span) (i count k : ℕ)
      → k < count
      → get_elem? (spawn_range task spawn span i count) k ≡ some (spawned task spawn span (i + k))
  unfolding spawn_range
  get_elem?-spawn_range task spawn span i zero k h = absurd (omega arith)
  get_elem?-spawn_range task spawn span i (suc count) zero h = rw (add-zero i)
  get_elem?-spawn_range task spawn span i (suc count) (suc k) h =
      rw (add_suc i k) (get_elem?-spawn_range task spawn span (suc i) count k (omega arith))

  -- Where both bounds have values, the first below the second, the expansion of a task adds no
  -- diagnostic, and puts one task for each index from the first bound up to the second behind the
  -- statements that are already there, in the order of the indices.
  pub expand_one_task-range :
      (task : TaskStmt X) (spawn : SpawnClause X) (consts : Map String ℕ) (span : X.Span)
      (o : Output X) (begin end : ℕ)
      → bound_value spawn.begin consts ≡ some begin
      → bound_value spawn.end consts ≡ some end
      → begin < end
      → (copies : List (Statement X)) × (expand_one_task task spawn consts span o
          ≡ record o { out_stmts = o.out_stmts ++ copies })
        × (length copies ≡ end - begin)
        × ((k : ℕ)
            → k < end - begin
            → get_elem? copies k ≡ some (spawned task spawn span (begin + k)))
  unfolding expand_one_task expand_resolved
  expand_one_task-range task spawn consts span o begin end hb he lt = (
    spawn_range task spawn span begin (end - begin),
    rw
        (
          resolve_bound-some spawn.begin consts o.diags begin hb,
          resolve_bound-some spawn.end consts o.diags end he,
        )
        (ground arith),
    length-spawn_range task spawn span begin (end - begin),
    get_elem?-spawn_range task spawn span begin (end - begin),
  )
