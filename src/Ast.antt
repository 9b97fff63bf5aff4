-- ===== src/Ast.antt =====
-- The syntax tree, compiler/src/ast.rs: one record or data type for each struct or enum.
-- A u32 or u64 is a number, a `Vec` is a list, and a `Box` is its content.
use pipeit.Base.{ℕ, List, Option, Bool, String}
use pipeit.Extern.{Extern}

module _ (X : Extern) where
  open X use {F64, Span}

  pub record Ident : Type 0 where
    pub name : String
    pub span : Span

  pub data Scalar : Type 0 where
    number : F64 → Span → Bool → Scalar
    freq : F64 → Span → Scalar
    size : ℕ → Span → Scalar
    string_lit : String → Span → Scalar
    ident : Ident → Scalar

  pub data Value : Type 0 where
    scalar : Scalar → Value
    array : List Scalar → Span → Value

  pub data Arg : Type 0 where
    value : Value → Arg
    param_ref : Ident → Arg
    const_ref : Ident → Arg
    tap_ref : Ident → Arg

  pub data ShapeDim : Type 0 where
    literal : ℕ → Span → ShapeDim
    const_ref : Ident → ShapeDim

  pub record ShapeConstraint : Type 0 where
    pub dims : List ShapeDim
    pub span : Span

  pub record ActorCall : Type 0 where
    pub name : Ident
    pub type_args : List Ident
    pub args : List Arg
    pub shape_constraint : Option ShapeConstraint
    pub span : Span

  pub data BufferIndex : Type 0 where
    plain : BufferIndex
    literal : ℕ → Span → BufferIndex
    ident : Ident → BufferIndex
    star : Span → BufferIndex

  pub record BufferRef : Type 0 where
    pub name : Ident
    pub index : BufferIndex

  pub record Sink : Type 0 where
    pub buffer : BufferRef
    pub span : Span

  pub data PipeElem : Type 0 where
    actor_call : ActorCall → PipeElem
    tap : Ident → PipeElem
    probe : Ident → PipeElem

  pub data PipeSource : Type 0 where
    buffer_read : BufferRef → PipeSource
    tap_ref : Ident → PipeSource
    actor_call : ActorCall → PipeSource

  pub record PipeExpr : Type 0 where
    pub source : PipeSource
    pub elements : List PipeElem
    pub sink : Option Sink
    pub span : Span

  pub record PipelineBody : Type 0 where
    pub lines : List PipeExpr
    pub span : Span

  pub data SwitchSource : Type 0 where
    buffer : Ident → SwitchSource
    param : Ident → SwitchSource

  pub record SwitchStmt : Type 0 where
    pub source : SwitchSource
    pub modes : List Ident
    pub default : Option Ident
    pub span : Span

  pub record ModeBlock : Type 0 where
    pub name : Ident
    pub body : PipelineBody
    pub span : Span

  pub record ControlBlock : Type 0 where
    pub body : PipelineBody
    pub span : Span

  pub record ModalBody : Type 0 where
    pub control : ControlBlock
    pub modes : List ModeBlock
    pub switch : SwitchStmt
    pub span : Span

  pub data TaskBody : Type 0 where
    pipeline : PipelineBody → TaskBody
    modal : ModalBody → TaskBody

  pub data SpawnBound : Type 0 where
    literal : ℕ → Span → SpawnBound
    const_ref : Ident → SpawnBound

  pub record SpawnClause : Type 0 where
    pub index_var : Ident
    pub begin : SpawnBound
    pub end : SpawnBound
    pub span : Span

  pub record TaskStmt : Type 0 where
    pub freq : F64
    pub freq_span : Span
    pub name : Ident
    pub spawn : Option SpawnClause
    pub body : TaskBody

  pub record SharedDecl : Type 0 where
    pub name : Ident
    pub size : ShapeDim
    pub span : Span

  pub data BindArg : Type 0 where
    positional : Scalar → BindArg
    named : Ident → Scalar → BindArg

  pub record BindEndpoint : Type 0 where
    pub transport : Ident
    pub args : List BindArg
    pub span : Span

  pub record BindStmt : Type 0 where
    pub name : Ident
    pub endpoint : BindEndpoint

  pub record DefineStmt : Type 0 where
    pub name : Ident
    pub params : List Ident
    pub body : PipelineBody

  pub record ParamStmt : Type 0 where
    pub name : Ident
    pub value : Scalar

  pub record ConstStmt : Type 0 where
    pub name : Ident
    pub value : Value

  pub data SetValue : Type 0 where
    number : F64 → Span → SetValue
    size : ℕ → Span → SetValue
    freq : F64 → Span → SetValue
    string_lit : String → Span → SetValue
    ident : Ident → SetValue

  pub record SetStmt : Type 0 where
    pub name : Ident
    pub value : SetValue

  pub data StatementKind : Type 0 where
    set : SetStmt → StatementKind
    const : ConstStmt → StatementKind
    param : ParamStmt → StatementKind
    define : DefineStmt → StatementKind
    task : TaskStmt → StatementKind
    bind : BindStmt → StatementKind
    shared : SharedDecl → StatementKind

  pub record Statement : Type 0 where
    pub kind : StatementKind
    pub span : Span

  pub record Program : Type 0 where
    pub statements : List Statement
    pub span : Span
