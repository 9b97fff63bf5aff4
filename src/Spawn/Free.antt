-- ===== src/Spawn/Free.antt =====
-- Where the index variable stands in a task body, at the places that compiler/src/spawn.rs
-- substitutes, and what substitution does to it.
use pipeit.Base.{
  ℕ, ◌≡◌, refl, Bool, false, ◌||◌, Option, none, some, List, [], ◌∷◌, map, any, String, ◌==◌,
  string_eq, arith,
}
use pipeit.Extern.{Extern}
use pipeit.Ast.{
  Arg, ShapeDim, ShapeConstraint, ActorCall, BufferIndex, Sink, PipeElem, PipeSource, PipeExpr,
  PipelineBody, ModeBlock, TaskBody,
}
use pipeit.Spawn.Subst.{
  substitute_dim, substitute_shape_constraint, substitute_arg, substitute_actor_call,
  substitute_index, substitute_buffer_ref, substitute_sink, substitute_pipe_elem,
  substitute_pipe_source, substitute_pipe_expr, substitute_pipeline_body, substitute_mode,
  substitute_modal_body, substitute_task_body,
}

module _ {A : Type 0} (p : A → Bool) (f : A → A) where
  pub any-map : ((a : A) → p (f a) ≡ false) → (xs : List A) → any p (map f xs) ≡ false
  any-map h [] = refl
  any-map h (x ∷ xs) = ground (arith, h x, any-map h xs)

  pub map-same :
      ((a : A) → p a ≡ false → f a ≡ a) → (xs : List A) → any p xs ≡ false → map f xs ≡ xs
  map-same h [] e = refl
  map-same h (x ∷ xs) e = ground (arith, h x, map-same h xs)

module _ {X : Extern} (idx : String) where
  abbrev pub in_dim : ShapeDim X → Bool
  in_dim (ShapeDim.const_ref ident) = ident.name == idx
  in_dim (ShapeDim.literal n span) = false

  abbrev pub in_shape : Option (ShapeConstraint X) → Bool
  in_shape none = false
  in_shape (some sc) = any in_dim sc.dims

  abbrev pub in_arg : Arg X → Bool
  in_arg (Arg.const_ref ident) = ident.name == idx
  in_arg (Arg.value v) = false
  in_arg (Arg.param_ref ident) = false
  in_arg (Arg.tap_ref ident) = false

  abbrev pub in_call : ActorCall X → Bool
  in_call ac = any in_arg ac.args || in_shape ac.shape_constraint

  abbrev pub in_index : BufferIndex X → Bool
  in_index (BufferIndex.ident ident) = ident.name == idx
  in_index BufferIndex.plain = false
  in_index (BufferIndex.literal n span) = false
  in_index (BufferIndex.star span) = false

  abbrev pub in_sink : Option (Sink X) → Bool
  in_sink none = false
  in_sink (some s) = in_index s.buffer.index

  abbrev pub in_elem : PipeElem X → Bool
  in_elem (PipeElem.actor_call ac) = in_call ac
  in_elem (PipeElem.tap name) = false
  in_elem (PipeElem.probe name) = false

  abbrev pub in_source : PipeSource X → Bool
  in_source (PipeSource.buffer_read br) = in_index br.index
  in_source (PipeSource.tap_ref name) = false
  in_source (PipeSource.actor_call ac) = in_call ac

  abbrev pub in_expr : PipeExpr X → Bool
  in_expr pe = in_source pe.source || (any in_elem pe.elements || in_sink pe.sink)

  abbrev pub in_pipeline : PipelineBody X → Bool
  in_pipeline pb = any in_expr pb.lines

  abbrev pub in_mode : ModeBlock X → Bool
  in_mode m = in_pipeline m.body

  -- Does the index variable stand in the body, as an argument, a shape dimension or a subscript?
  abbrev pub in_body : TaskBody X → Bool
  in_body (TaskBody.pipeline pb) = in_pipeline pb
  in_body (TaskBody.modal mb) = in_pipeline mb.control.body || any in_mode mb.modes

  module _ (n : ℕ) where
    dim-gone : (d : ShapeDim X) → in_dim (substitute_dim idx n d) ≡ false
    unfolding substitute_dim
    dim-gone (ShapeDim.const_ref ident) = ground arith
    dim-gone (ShapeDim.literal m span) = refl

    arg-gone : (a : Arg X) → in_arg (substitute_arg idx n a) ≡ false
    unfolding substitute_arg
    arg-gone (Arg.const_ref ident) = ground arith
    arg-gone (Arg.value v) = refl
    arg-gone _ = refl

    call-gone : (ac : ActorCall X) → in_call (substitute_actor_call idx n ac) ≡ false
    unfolding substitute_actor_call substitute_shape_constraint
    call-gone ac =
        rw (any-map in_arg (substitute_arg idx n) arg-gone ac.args) (go ac.shape_constraint)
      where
        go :
            (sc : Option (ShapeConstraint X))
            → in_shape
                (elim sc [ none ↦ none | some c ↦ some (substitute_shape_constraint idx n c) ])
              ≡ false
        go none = refl
        go (some c) = any-map in_dim (substitute_dim idx n) dim-gone c.dims

    index-gone : (i : BufferIndex X) → in_index (substitute_index idx n i) ≡ false
    unfolding substitute_index
    index-gone (BufferIndex.ident ident) = ground arith
    index-gone BufferIndex.plain = refl
    index-gone _ = refl

    elem-gone : (e : PipeElem X) → in_elem (substitute_pipe_elem idx n e) ≡ false
    unfolding substitute_pipe_elem
    elem-gone (PipeElem.actor_call ac) = call-gone ac
    elem-gone (PipeElem.tap name) = refl
    elem-gone _ = refl

    source-gone : (s : PipeSource X) → in_source (substitute_pipe_source idx n s) ≡ false
    unfolding substitute_pipe_source substitute_buffer_ref
    source-gone (PipeSource.actor_call ac) = call-gone ac
    source-gone (PipeSource.buffer_read br) = index-gone br.index
    source-gone (PipeSource.tap_ref name) = refl

    sink-gone :
        (s : Option (Sink X))
        → in_sink (elim s [ none ↦ none | some t ↦ some (substitute_sink idx n t) ]) ≡ false
    unfolding substitute_sink substitute_buffer_ref
    sink-gone none = refl
    sink-gone (some t) = index-gone t.buffer.index

    expr-gone : (pe : PipeExpr X) → in_expr (substitute_pipe_expr idx n pe) ≡ false
    unfolding substitute_pipe_expr
    expr-gone pe =
        rw
          (
            source-gone pe.source,
            any-map in_elem (substitute_pipe_elem idx n) elem-gone pe.elements,
          )
          (sink-gone pe.sink)

    pipeline-gone : (pb : PipelineBody X) → in_pipeline (substitute_pipeline_body idx n pb) ≡ false
    unfolding substitute_pipeline_body
    pipeline-gone pb = any-map in_expr (substitute_pipe_expr idx n) expr-gone pb.lines

    -- After substitution the index variable stands nowhere in the body as an argument, a shape
    -- dimension or a buffer subscript, in pipelines and in modal tasks.
    pub substitute-gone : (body : TaskBody X) → in_body (substitute_task_body idx n body) ≡ false
    unfolding substitute_task_body substitute_modal_body substitute_mode
    substitute-gone (TaskBody.pipeline pb) = pipeline-gone pb
    substitute-gone (TaskBody.modal mb) =
        rw (pipeline-gone mb.control.body)
          (any-map in_mode (substitute_mode idx n) (λ m. pipeline-gone m.body) mb.modes)
