-- ===== src/Spawn/Subst.antt =====
-- Substitution of the index variable in a task body (compiler/src/spawn.rs).
use pipeit.Base.{ℕ, true, none, some, map, String, ◌==◌, string_eq, if◌then◌else◌}
use pipeit.Extern.{Extern}
use pipeit.Ast.{
  Scalar, Value, Arg, ShapeDim, ShapeConstraint, ActorCall, BufferIndex, BufferRef, Sink, PipeElem,
  PipeSource, PipeExpr, PipelineBody, ModeBlock, ModalBody, TaskBody,
}

module _ {X : Extern} (idx_var : String) (idx_val : ℕ) where
  unfoldable pub substitute_dim : ShapeDim X → ShapeDim X
  substitute_dim (ShapeDim.const_ref ident) =
      if ident.name == idx_var
      then ShapeDim.literal idx_val ident.span
      else ShapeDim.const_ref ident
  substitute_dim (ShapeDim.literal n span) = ShapeDim.literal n span

  unfoldable pub substitute_shape_constraint : ShapeConstraint X → ShapeConstraint X
  substitute_shape_constraint sc = record { dims = map substitute_dim sc.dims; span = sc.span }

  unfoldable pub substitute_arg : Arg X → Arg X
  substitute_arg (Arg.const_ref ident) =
      if ident.name == idx_var
      then Arg.value (Value.scalar (Scalar.number (X.from_u32 idx_val) ident.span true))
      else Arg.const_ref ident
  substitute_arg (Arg.value v) = Arg.value v
  substitute_arg (Arg.param_ref ident) = Arg.param_ref ident
  substitute_arg (Arg.tap_ref ident) = Arg.tap_ref ident

  unfoldable pub substitute_actor_call : ActorCall X → ActorCall X
  substitute_actor_call ac = record {
    name = ac.name;
    type_args = ac.type_args;
    args = map substitute_arg ac.args;
    shape_constraint = elim ac.shape_constraint [
      | none ↦ none
      | some sc ↦ some (substitute_shape_constraint sc)
    ];
    span = ac.span;
  }

  unfoldable pub substitute_index : BufferIndex X → BufferIndex X
  substitute_index (BufferIndex.ident ident) =
      if ident.name == idx_var
      then BufferIndex.literal idx_val ident.span
      else BufferIndex.ident ident
  substitute_index BufferIndex.plain = BufferIndex.plain
  substitute_index (BufferIndex.literal n span) = BufferIndex.literal n span
  substitute_index (BufferIndex.star span) = BufferIndex.star span

  unfoldable pub substitute_buffer_ref : BufferRef X → BufferRef X
  substitute_buffer_ref br = record { name = br.name; index = substitute_index br.index }

  unfoldable pub substitute_sink : Sink X → Sink X
  substitute_sink sink = record { buffer = substitute_buffer_ref sink.buffer; span = sink.span }

  unfoldable pub substitute_pipe_elem : PipeElem X → PipeElem X
  substitute_pipe_elem (PipeElem.actor_call ac) = PipeElem.actor_call (substitute_actor_call ac)
  substitute_pipe_elem (PipeElem.tap name) = PipeElem.tap name
  substitute_pipe_elem (PipeElem.probe name) = PipeElem.probe name

  unfoldable pub substitute_pipe_source : PipeSource X → PipeSource X
  substitute_pipe_source (PipeSource.buffer_read br) =
      PipeSource.buffer_read (substitute_buffer_ref br)
  substitute_pipe_source (PipeSource.tap_ref name) = PipeSource.tap_ref name
  substitute_pipe_source (PipeSource.actor_call ac) =
      PipeSource.actor_call (substitute_actor_call ac)

  unfoldable pub substitute_pipe_expr : PipeExpr X → PipeExpr X
  substitute_pipe_expr pe = record {
    source = substitute_pipe_source pe.source;
    elements = map substitute_pipe_elem pe.elements;
    sink = elim pe.sink [ none ↦ none | some s ↦ some (substitute_sink s) ];
    span = pe.span;
  }

  unfoldable pub substitute_pipeline_body : PipelineBody X → PipelineBody X
  substitute_pipeline_body pb = record { lines = map substitute_pipe_expr pb.lines; span = pb.span }

  unfoldable pub substitute_mode : ModeBlock X → ModeBlock X
  substitute_mode m = record {
    name = m.name;
    body = substitute_pipeline_body m.body;
    span = m.span;
  }

  unfoldable pub substitute_modal_body : ModalBody X → ModalBody X
  substitute_modal_body mb = record {
    control = record { body = substitute_pipeline_body mb.control.body; span = mb.control.span };
    modes = map substitute_mode mb.modes;
    switch = mb.switch;
    span = mb.span;
  }

  unfoldable pub substitute_task_body : TaskBody X → TaskBody X
  substitute_task_body (TaskBody.pipeline pb) = TaskBody.pipeline (substitute_pipeline_body pb)
  substitute_task_body (TaskBody.modal mb) = TaskBody.modal (substitute_modal_body mb)
