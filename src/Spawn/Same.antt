-- ===== src/Spawn/Same.antt =====
-- Substitution leaves a body that does not use the index variable as it is
-- (compiler/src/spawn.rs).
use pipeit.Base.{ℕ, ◌≡◌, refl, Bool, false, ◌||◌, Option, none, some, any, String, string_eq, arith}
use pipeit.Extern.{Extern}
use pipeit.Ast.{
  Arg, ShapeDim, ShapeConstraint, ActorCall, BufferIndex, BufferRef, Sink, PipeElem, PipeSource,
  PipeExpr, PipelineBody, ModeBlock, ModalBody, TaskBody,
}
use pipeit.Spawn.Subst.{
  substitute_dim, substitute_shape_constraint, substitute_arg, substitute_actor_call,
  substitute_index, substitute_buffer_ref, substitute_sink, substitute_pipe_elem,
  substitute_pipe_source, substitute_pipe_expr, substitute_pipeline_body, substitute_mode,
  substitute_modal_body, substitute_task_body,
}
use pipeit.Spawn.Free.{
  map-same, in_dim, in_shape, in_arg, in_call, in_index, in_sink, in_elem, in_source, in_expr,
  in_pipeline, in_mode, in_body,
}

or_parts : (a b : Bool) → (a || b) ≡ false → (a ≡ false) × (b ≡ false)
or_parts a b h = ground arith

module _ {X : Extern} (idx : String) (n : ℕ) where
  dim-same : (d : ShapeDim X) → in_dim idx d ≡ false → substitute_dim idx n d ≡ d
  unfolding substitute_dim
  dim-same (ShapeDim.const_ref ident) h = rw h
  dim-same (ShapeDim.literal m span) h = refl

  arg-same : (a : Arg X) → in_arg idx a ≡ false → substitute_arg idx n a ≡ a
  unfolding substitute_arg
  arg-same (Arg.const_ref ident) h = rw h
  arg-same (Arg.value v) h = refl
  arg-same _ h = refl

  shape-same :
      (sc : Option (ShapeConstraint X))
      → in_shape idx sc ≡ false
      → (elim sc [ none ↦ none | some c ↦ some (substitute_shape_constraint idx n c) ]) ≡ sc
  unfolding substitute_shape_constraint
  shape-same none h = refl
  shape-same (some c) h = rw (map-same (in_dim idx) (substitute_dim idx n) dim-same c.dims h)

  call-same : (ac : ActorCall X) → in_call idx ac ≡ false → substitute_actor_call idx n ac ≡ ac
  unfolding substitute_actor_call
  call-same ac h =
      let (in_args, in_dims) =
        or_parts (any (in_arg idx) ac.args) (in_shape idx ac.shape_constraint) h in
      rw (
        map-same (in_arg idx) (substitute_arg idx n) arg-same ac.args in_args,
        shape-same ac.shape_constraint in_dims,
      )

  index-same : (i : BufferIndex X) → in_index idx i ≡ false → substitute_index idx n i ≡ i
  unfolding substitute_index
  index-same (BufferIndex.ident ident) h = rw h
  index-same BufferIndex.plain h = refl
  index-same _ h = refl

  buffer_ref-same :
      (br : BufferRef X) → in_index idx br.index ≡ false → substitute_buffer_ref idx n br ≡ br
  unfolding substitute_buffer_ref
  buffer_ref-same br h = rw (index-same br.index h)

  elem-same : (e : PipeElem X) → in_elem idx e ≡ false → substitute_pipe_elem idx n e ≡ e
  unfolding substitute_pipe_elem
  elem-same (PipeElem.actor_call ac) h = rw (call-same ac h)
  elem-same (PipeElem.tap name) h = refl
  elem-same _ h = refl

  source-same : (s : PipeSource X) → in_source idx s ≡ false → substitute_pipe_source idx n s ≡ s
  unfolding substitute_pipe_source
  source-same (PipeSource.actor_call ac) h = rw (call-same ac h)
  source-same (PipeSource.buffer_read br) h = rw (buffer_ref-same br h)
  source-same (PipeSource.tap_ref name) h = refl

  sink-same :
      (s : Option (Sink X))
      → in_sink idx s ≡ false
      → (elim s [ none ↦ none | some t ↦ some (substitute_sink idx n t) ]) ≡ s
  unfolding substitute_sink
  sink-same none h = refl
  sink-same (some t) h = rw (buffer_ref-same t.buffer h)

  expr-same : (pe : PipeExpr X) → in_expr idx pe ≡ false → substitute_pipe_expr idx n pe ≡ pe
  unfolding substitute_pipe_expr
  expr-same pe h =
      let (in_src, rest) =
        or_parts (in_source idx pe.source) (any (in_elem idx) pe.elements || in_sink idx pe.sink)
          h in
      let (in_elems, in_snk) =
        or_parts (any (in_elem idx) pe.elements) (in_sink idx pe.sink) rest in
      rw (
        source-same pe.source in_src,
        map-same (in_elem idx) (substitute_pipe_elem idx n) elem-same pe.elements in_elems,
        sink-same pe.sink in_snk,
      )

  pipeline-same :
      (pb : PipelineBody X) → in_pipeline idx pb ≡ false → substitute_pipeline_body idx n pb ≡ pb
  unfolding substitute_pipeline_body
  pipeline-same pb h = rw (map-same (in_expr idx) (substitute_pipe_expr idx n) expr-same pb.lines h)

  mode-same : (m : ModeBlock X) → in_mode idx m ≡ false → substitute_mode idx n m ≡ m
  unfolding substitute_mode
  mode-same m h = rw (pipeline-same m.body h)

  modal-same :
      (mb : ModalBody X)
      → (in_pipeline idx mb.control.body || any (in_mode idx) mb.modes) ≡ false
      → substitute_modal_body idx n mb ≡ mb
  unfolding substitute_modal_body
  modal-same mb h =
      let (in_control, in_modes) =
        or_parts (in_pipeline idx mb.control.body) (any (in_mode idx) mb.modes) h in
      rw (
        pipeline-same mb.control.body in_control,
        map-same (in_mode idx) (substitute_mode idx n) mode-same mb.modes in_modes,
      )

  -- A body in which the index variable stands nowhere as an argument, a shape dimension or a buffer
  -- subscript is left unchanged by substitution.
  pub substitute-same :
      (body : TaskBody X) → in_body idx body ≡ false → substitute_task_body idx n body ≡ body
  unfolding substitute_task_body
  substitute-same (TaskBody.pipeline pb) h = rw (pipeline-same pb h)
  substitute-same (TaskBody.modal mb) h = rw (modal-same mb h)
