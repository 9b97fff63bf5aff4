-- ===== src/Builder.antt =====
-- The graph builder, compiler/src/graph.rs: `SubgraphCtx` and the parts of `GraphBuilder` that make
-- the subgraphs of a task. The search for cycles is in Cycles.
-- `add_edge` also returns the new edge's id in the code, where no caller uses it.
pub mod Invariant
pub mod Steps
pub mod Sound
pub mod Owns
pub mod Program
pub mod Tests
use Prim.Native.String.{◌++◌ as append}
use pipeit.Base.{
  ℕ, zero, suc, Option, none, some, List, [], ◌∷◌, ◌++◌, String, Map, get, insert, or_insert, inc32,
  string_eq, PartialEq,
}
use pipeit.Extern.{Extern}
use pipeit.Ast.{Ident, Arg}
use pipeit.Diag.{Diagnostic, error, e0500}
use pipeit.Graph.{NodeId, EdgeId, NodeKind, Node, Edge, Subgraph, TaskGraph}
use pipeit.Hir.{
  HirActorCall, HirSink, HirPipeElem, HirPipeSource, HirPipeExpr, HirPipeline, HirModal,
  HirTaskBody, HirTask,
}

module _ (X : Extern) where
  pub record SubgraphCtx : Type 0 where
    pub nodes : List (Node X)
    pub edges : List (Edge X)
    pub next_node_id : ℕ
    pub next_edge_id : ℕ
    pub taps : Map String NodeId
    pub buffer_writes : Map String NodeId
    pub buffer_reads : Map String NodeId
    pub pending_tap_inputs : List (NodeId × String × X.Span)

  -- The fields of `GraphBuilder` that the building of subgraphs changes.
  pub record GraphBuilder : Type 0 where
    pub task_graphs : Map String (TaskGraph X)
    pub diagnostics : List (Diagnostic X)
    pub next_global_node_id : ℕ
    pub next_global_edge_id : ℕ

-- `format!("{}__{}", family_name, i)`
abbrev pub elem_name : (X : Extern) → String → ℕ → String
elem_name X family_name i = append family_name (append "__" (X.show i))

-- The loops over the elements of a family, for `count` indices from `i` on.
unfoldable pub register_reads :
    (X : Extern) → String → NodeId → ℕ → ℕ → Map String NodeId → Map String NodeId
register_reads X family_name id i zero reads = reads
register_reads X family_name id i (suc count) reads =
    register_reads X family_name id (suc i) count (or_insert reads (elem_name X family_name i) id)

unfoldable pub register_writes :
    (X : Extern) → String → NodeId → ℕ → ℕ → Map String NodeId → Map String NodeId
register_writes X family_name id i zero writes = writes
register_writes X family_name id i (suc count) writes =
    register_writes X family_name id (suc i) count (insert writes (elem_name X family_name i) id)

module _ {X : Extern} where
  unfoldable pub empty_ctx : ℕ → ℕ → SubgraphCtx X
  empty_ctx start_node_id start_edge_id = record {
    nodes = [];
    edges = [];
    next_node_id = start_node_id;
    next_edge_id = start_edge_id;
    taps = [];
    buffer_writes = [];
    buffer_reads = [];
    pending_tap_inputs = [];
  }

  unfoldable pub add_node : NodeKind X → X.Span → SubgraphCtx X → NodeId × SubgraphCtx X
  add_node kind span ctx = (
    ctx.next_node_id,
    record ctx {
      next_node_id = inc32 ctx.next_node_id;
      nodes = ctx.nodes ++ (record { id = ctx.next_node_id; kind = kind; span = span }) ∷ [];
    },
  )

  unfoldable pub add_edge : NodeId → NodeId → X.Span → SubgraphCtx X → SubgraphCtx X
  add_edge source target span ctx = record ctx {
    next_edge_id = inc32 ctx.next_edge_id;
    edges =
        ctx.edges
        ++ (record { id = ctx.next_edge_id; source = source; target = target; span = span }) ∷ [];
  }

  -- `if let Some(prev) = prev_node`
  unfoldable pub link_prev : Option NodeId → NodeId → X.Span → SubgraphCtx X → SubgraphCtx X
  link_prev none id span ctx = ctx
  link_prev (some prev) id span ctx = add_edge prev id span ctx

  -- One round of the loop over the arguments of a call.
  unfoldable pub tap_input : NodeId → Arg X → SubgraphCtx X → SubgraphCtx X
  tap_input id (Arg.tap_ref ident) ctx = elim (get ctx.taps ident.name) [
    | some fork_id ↦ add_edge fork_id id ident.span ctx
    | none ↦ record ctx {
      pending_tap_inputs = ctx.pending_tap_inputs ++ (id, ident.name, ident.span) ∷ [];
    }
  ]
  tap_input id _ ctx = ctx

  unfoldable pub tap_inputs : NodeId → List (Arg X) → SubgraphCtx X → SubgraphCtx X
  tap_inputs id [] ctx = ctx
  tap_inputs id (arg ∷ args) ctx = tap_inputs id args (tap_input id arg ctx)

  unfoldable pub build_actor_node : HirActorCall X → SubgraphCtx X → NodeId × SubgraphCtx X
  build_actor_node call ctx =
      let kind =
        NodeKind.actor call.name call.call_span call.args call.shape_constraint call.call_id in
      let (id, ctx') = add_node kind call.call_span ctx in (id, tap_inputs id call.args ctx')

  unfoldable pub build_source : HirPipeSource X → SubgraphCtx X → Option NodeId × SubgraphCtx X
  build_source (HirPipeSource.actor_call call) ctx =
      let (id, ctx') = build_actor_node call ctx in (some id, ctx')
  build_source (HirPipeSource.buffer_read name span) ctx =
      let (id, ctx') = add_node (NodeKind.buffer_read name) span ctx in
      (some id, record ctx' { buffer_reads = or_insert ctx'.buffer_reads name id })
  build_source (HirPipeSource.gather_read family_name family_size span) ctx =
      let (id, ctx') = add_node (NodeKind.gather_read family_name family_size) span ctx in
      (
        some id,
        record ctx' {
          buffer_reads = register_reads X family_name id 0 family_size ctx'.buffer_reads;
        },
      )
  build_source (HirPipeSource.tap_ref name span) ctx = (get ctx.taps name, ctx)

  -- One round of the loop over the elements of a pipe with the given span.
  unfoldable pub build_elem :
      X.Span → HirPipeElem X → Option NodeId → SubgraphCtx X → NodeId × SubgraphCtx X
  build_elem expr_span (HirPipeElem.actor_call call) prev ctx =
      let (id, ctx') = build_actor_node call ctx in (id, link_prev prev id expr_span ctx')
  build_elem expr_span (HirPipeElem.tap name span) prev ctx =
      let (id, ctx') = add_node (NodeKind.fork name) span ctx in
      let ctx2 = link_prev prev id span ctx' in
      (id, record ctx2 { taps = insert ctx2.taps name id })
  build_elem expr_span (HirPipeElem.probe name span) prev ctx =
      let (id, ctx') = add_node (NodeKind.probe name) span ctx in (id, link_prev prev id span ctx')

  unfoldable pub build_elems :
      X.Span → List (HirPipeElem X) → Option NodeId → SubgraphCtx X → Option NodeId × SubgraphCtx X
  build_elems expr_span [] prev ctx = (prev, ctx)
  build_elems expr_span (elem ∷ elems) prev ctx =
      let (id, ctx') = build_elem expr_span elem prev ctx in
      build_elems expr_span elems (some id) ctx'

  unfoldable pub build_sink :
      HirSink X → Option ℕ → Option NodeId → SubgraphCtx X → Option NodeId × SubgraphCtx X
  build_sink sink (some family_size) prev ctx =
      let (id, ctx') =
        add_node (NodeKind.scatter_write sink.buffer_name family_size) sink.span ctx in
      let ctx2 = link_prev prev id sink.span ctx' in
      (
        some id,
        record ctx2 {
          buffer_writes = register_writes X sink.buffer_name id 0 family_size ctx2.buffer_writes;
        },
      )
  build_sink sink none prev ctx =
      let (id, ctx') = add_node (NodeKind.buffer_write sink.buffer_name) sink.span ctx in
      let ctx2 = link_prev prev id sink.span ctx' in
      (some id, record ctx2 { buffer_writes = insert ctx2.buffer_writes sink.buffer_name id })

  -- What follows the loop over the elements.
  unfoldable pub build_end :
      Option (HirSink X) → Option NodeId → SubgraphCtx X → Option NodeId × SubgraphCtx X
  build_end none prev ctx = (prev, ctx)
  build_end (some sink) prev ctx = build_sink sink sink.scatter prev ctx

  unfoldable pub build_pipe_expr : HirPipeExpr X → SubgraphCtx X → Option NodeId × SubgraphCtx X
  build_pipe_expr expr ctx =
      let (from, ctx') = build_source expr.source ctx in
      let (prev, ctx2) = build_elems expr.span expr.elements from ctx' in
      build_end expr.sink prev ctx2

  unfoldable pub build_pipes : List (HirPipeExpr X) → SubgraphCtx X → SubgraphCtx X
  build_pipes [] ctx = ctx
  build_pipes (pipe ∷ pipes) ctx = build_pipes pipes (build_pipe_expr pipe ctx).1

  -- The loop over the pending inputs, which `mem::take` has taken out of the context.
  unfoldable pub resolve_pending :
      List (NodeId × String × X.Span)
      → SubgraphCtx X
      → List (Diagnostic X)
      → SubgraphCtx X × List (Diagnostic X)
  resolve_pending [] ctx diags = (ctx, diags)
  resolve_pending ((actor_id, tap_name, span) ∷ pending) ctx diags = elim (get ctx.taps tap_name) [
    | some fork_id ↦ resolve_pending pending (add_edge fork_id actor_id span ctx) diags
    | none ↦
        resolve_pending pending ctx
          (diags ++ (record { level = error; code = e0500; span = span }) ∷ [])
  ]

  unfoldable pub build_subgraph : HirPipeline X → GraphBuilder X → Subgraph X × GraphBuilder X
  build_subgraph pipeline b =
      let ctx =
        build_pipes pipeline.pipes (empty_ctx b.next_global_node_id b.next_global_edge_id) in
      let (ctx', diags) =
        resolve_pending ctx.pending_tap_inputs (record ctx { pending_tap_inputs = [] })
          b.diagnostics in
      (
        record { nodes = ctx'.nodes; edges = ctx'.edges },
        record b {
          diagnostics = diags;
          next_global_node_id = ctx'.next_node_id;
          next_global_edge_id = ctx'.next_edge_id;
        },
      )

  unfoldable pub build_modes :
      List (String × HirPipeline X) → GraphBuilder X → List (String × Subgraph X) × GraphBuilder X
  build_modes [] b = ([], b)
  build_modes ((name, pipeline) ∷ modes) b =
      let (sub, b') = build_subgraph pipeline b in
      let (subs, b2) = build_modes modes b' in ((name, sub) ∷ subs, b2)

  unfoldable pub build_body : HirTaskBody X → GraphBuilder X → TaskGraph X × GraphBuilder X
  build_body (HirTaskBody.pipeline p) b =
      let (sub, b') = build_subgraph p b in (TaskGraph.pipeline sub, b')
  build_body (HirTaskBody.modal m) b =
      let (control, b') = build_subgraph m.control b in
      let (modes, b2) = build_modes m.modes b' in (TaskGraph.modal control modes, b2)

  unfoldable pub build_all_tasks : List (HirTask X) → GraphBuilder X → GraphBuilder X
  build_all_tasks [] b = b
  build_all_tasks (task ∷ tasks) b =
      let (g, b') = build_body task.body b in
      build_all_tasks tasks (record b' { task_graphs = insert b'.task_graphs task.name g })
