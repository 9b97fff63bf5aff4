-- ===== src/Hir.antt =====
-- The HIR of a task, compiler/src/hir.rs: what the graph builder reads, with all defines expanded.
use pipeit.Base.{ℕ, List, Option, String}
use pipeit.Extern.{Extern}
use pipeit.Ast.{Arg, ShapeConstraint}

module _ (X : Extern) where
  open X use {F64, Span}

  pub record HirActorCall : Type 0 where
    pub name : String
    pub call_id : ℕ
    pub call_span : Span
    pub args : List (Arg X)
    pub type_args : List (String × Span)
    pub shape_constraint : Option (ShapeConstraint X)

  pub record HirSink : Type 0 where
    pub buffer_name : String
    pub scatter : Option ℕ
    pub span : Span

  pub data HirPipeElem : Type 0 where
    actor_call : HirActorCall → HirPipeElem
    tap : String → Span → HirPipeElem
    probe : String → Span → HirPipeElem

  pub data HirPipeSource : Type 0 where
    actor_call : HirActorCall → HirPipeSource
    buffer_read : String → Span → HirPipeSource
    gather_read : (family_name : String) (family_size : ℕ) (span : Span) → HirPipeSource
    tap_ref : String → Span → HirPipeSource

  pub record HirPipeExpr : Type 0 where
    pub source : HirPipeSource
    pub elements : List HirPipeElem
    pub sink : Option HirSink
    pub span : Span

  pub record HirPipeline : Type 0 where
    pub pipes : List HirPipeExpr
    pub span : Span

  pub data HirSwitchSource : Type 0 where
    buffer : String → Span → HirSwitchSource
    param : String → Span → HirSwitchSource

  pub record HirModal : Type 0 where
    pub control : HirPipeline
    pub modes : List (String × HirPipeline)
    pub switch : HirSwitchSource
    pub span : Span

  pub data HirTaskBody : Type 0 where
    pipeline : HirPipeline → HirTaskBody
    modal : HirModal → HirTaskBody

  pub record HirTask : Type 0 where
    pub name : String
    pub task_id : ℕ
    pub freq_hz : F64
    pub freq_span : Span
    pub body : HirTaskBody
