-- ===== src/Spawn/Expand.antt =====
-- The expansion of a program (compiler/src/spawn.rs). `diags` and `out_stmts` are passed along.
pub mod Plain
pub mod Copies
pub mod Reports
pub mod Names
use Prim.Native.String.{◌++◌ as append}
use pipeit.Base.{
  ℕ, zero, suc, ◌-◌, Bool, true, false, ◌&&◌, Option, none, some, List, [], ◌∷◌, ◌++◌, map, String,
  Map, get, insert, string_eq, leb, eqb, if◌then◌else◌, u32_mod, PartialEq,
}
use pipeit.Extern.{Extern}
use pipeit.Diag.{Diagnostic, DiagLevel, DiagCode, error, e0026, e0028, e0029, e0030}
use pipeit.Ast.{
  Ident, Scalar, Value, ShapeDim, SpawnBound, SpawnClause, TaskStmt, SharedDecl, ConstStmt,
  Statement, StatementKind, Program,
}
use pipeit.Spawn.Subst.{substitute_task_body}

module _ (X : Extern) where
  pub record SpawnResult : Type 0 where
    pub program : Program X
    pub diagnostics : List (Diagnostic X)

  -- The two vectors that the loop over the statements fills.
  pub record Output : Type 0 where
    pub out_stmts : List (Statement X)
    pub diags : List (Diagnostic X)

-- `format!("{}__spawn_{}", name, i)`
unfoldable pub spawn_name : (X : Extern) → String → ℕ → String
spawn_name X name i = append name (append "__spawn_" (X.show i))

module _ {X : Extern} where
  abbrev failure : DiagCode → X.Span → Diagnostic X
  failure code span = record { level = error; code = code; span = span }

  -- The value of a const statement, if it is an integer that a u32 can hold.
  const_value : Value X → Option ℕ
  const_value (Value.scalar (Scalar.number n span is_int)) =
      if is_int && X.le (X.from_u32 0) n && X.le n (X.from_u32 (u32_mod - 1))
      then some (X.as_u32 n)
      else none
  const_value _ = none

  collect_const : StatementKind X → Map String ℕ → Map String ℕ
  unfolding const_value
  collect_const (StatementKind.const c) m = elim (const_value c.value) [
    | none ↦ m
    | some n ↦ insert m c.name.name n
  ]
  collect_const _ m = m

  collect_from : List (Statement X) → Map String ℕ → Map String ℕ
  unfolding collect_const
  collect_from [] m = m
  collect_from (s ∷ stmts) m = collect_from stmts (collect_const s.kind m)

  pub collect_integer_consts : List (Statement X) → Map String ℕ
  unfolding collect_from
  collect_integer_consts stmts = collect_from stmts []

  pub validate_shared_size : SharedDecl X → Map String ℕ → List (Diagnostic X) → List (Diagnostic X)
  validate_shared_size decl consts diags = elim decl.size [
    | ShapeDim.literal n span ↦ if eqb n 0 then diags ++ failure e0028 span ∷ [] else diags
    | ShapeDim.const_ref ident ↦ elim (get consts ident.name) [
      | none ↦ diags ++ failure e0030 ident.span ∷ []
      | some n ↦ if eqb n 0 then diags ++ failure e0028 ident.span ∷ [] else diags
    ]
  ]

  validate_all : List (Statement X) → Map String ℕ → List (Diagnostic X) → List (Diagnostic X)
  unfolding validate_shared_size
  validate_all [] consts diags = diags
  validate_all (s ∷ stmts) consts diags = validate_all stmts consts (elim s.kind [
    | StatementKind.shared decl ↦ validate_shared_size decl consts diags
    | _ ↦ diags
  ])

  pub resolve_bound :
      SpawnBound X → Map String ℕ → List (Diagnostic X) → Option ℕ × List (Diagnostic X)
  resolve_bound (SpawnBound.literal n span) consts diags = (some n, diags)
  resolve_bound (SpawnBound.const_ref ident) consts diags = elim (get consts ident.name) [
    | some v ↦ (some v, diags)
    | none ↦ (none, diags ++ failure e0029 ident.span ∷ [])
  ]

  -- One round of `for i in begin..end`.
  pub spawned : TaskStmt X → SpawnClause X → X.Span → ℕ → Statement X
  spawned task spawn stmt_span i = record {
    kind = StatementKind.task (record {
      freq = task.freq;
      freq_span = task.freq_span;
      name = record { name = spawn_name X task.name.name i; span = task.name.span };
      spawn = none;
      body = substitute_task_body spawn.index_var.name i task.body;
    });
    span = stmt_span;
  }

  -- The tasks for `count` indices from `i` on.
  pub spawn_range : TaskStmt X → SpawnClause X → X.Span → ℕ → ℕ → List (Statement X)
  unfolding spawned
  spawn_range task spawn stmt_span i zero = []
  spawn_range task spawn stmt_span i (suc count) =
      spawned task spawn stmt_span i ∷ spawn_range task spawn stmt_span (suc i) count

  expand_resolved : TaskStmt X → SpawnClause X → X.Span → Option ℕ → Option ℕ → Output X → Output X
  unfolding spawn_range
  expand_resolved task spawn stmt_span (some begin) (some end) o =
      if leb end begin
      then record o { diags = o.diags ++ failure e0026 spawn.span ∷ [] }
      else record o {
        out_stmts = o.out_stmts ++ spawn_range task spawn stmt_span begin (end - begin);
      }
  expand_resolved task spawn stmt_span _ _ o = o

  unfoldable pub expand_one_task :
      TaskStmt X → SpawnClause X → Map String ℕ → X.Span → Output X → Output X
  unfolding expand_resolved resolve_bound
  expand_one_task task spawn consts stmt_span o =
      let (begin, diags) = resolve_bound spawn.begin consts o.diags in
      let (end, diags') = resolve_bound spawn.end consts diags in
      expand_resolved task spawn stmt_span begin end (record o { diags = diags' })

  unfoldable pub expand_kind : Map String ℕ → Statement X → StatementKind X → Output X → Output X
  expand_kind consts stmt (StatementKind.task task) o = elim task.spawn [
    | none ↦ record o { out_stmts = o.out_stmts ++ stmt ∷ [] }
    | some spawn ↦ expand_one_task task spawn consts stmt.span o
  ]
  expand_kind consts stmt _ o = record o { out_stmts = o.out_stmts ++ stmt ∷ [] }

  -- The loop of phase 3.
  expand_all : Map String ℕ → List (Statement X) → Output X → Output X
  expand_all consts [] o = o
  expand_all consts (s ∷ stmts) o = expand_all consts stmts (expand_kind consts s s.kind o)

  unfoldable pub expand_spawns : Program X → SpawnResult X
  unfolding collect_integer_consts validate_all expand_all
  expand_spawns program =
      let consts = collect_integer_consts program.statements in
      let diags = validate_all program.statements consts [] in
      let o = expand_all consts program.statements (record { out_stmts = []; diags = diags }) in
      record {
        program = record { statements = o.out_stmts; span = program.span };
        diagnostics = o.diags;
      }
