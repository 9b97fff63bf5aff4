-- ===== src/Builder/Sound.antt =====
-- The subgraphs that compiler/src/graph.rs builds are sound: different node ids, and edges between
-- nodes of the subgraph.
use pipeit.Base.{
  ℕ, ◌+◌, ◌≤◌, ◌<◌, ◌≡◌, true, Option, none, some, List, [], ◌∷◌, String, get, length, All, count,
  has, has_iff-count, u32_mod, arith, string_eq, Option-cases, inl, inr,
}
use pipeit.Extern.{Extern}
use pipeit.Diag.{Diagnostic}
use pipeit.Graph.{NodeId, node_ids}
use pipeit.Hir.{HirSink, HirPipeExpr, HirPipeline}
use pipeit.Builder.{
  SubgraphCtx, GraphBuilder, empty_ctx, add_edge, build_source, build_elems, build_end,
  build_pipe_expr, build_pipes, resolve_pending, build_subgraph,
}
use pipeit.Builder.Invariant.{All-get, Knows, KnowsPrev, Grows, Inv, Inv-add_edge}
use pipeit.Schedule.Runs.{IsSound}
use pipeit.Builder.Steps.{Step, build_source_lem, build_elems_lem, build_sink_lem}

module _ {X : Extern} (start : ℕ) where
  build_pipe_expr_lem :
      (expr : HirPipeExpr X) (c : SubgraphCtx X)
      → Inv start c
      → Step start c (build_pipe_expr expr c).1
  unfolding build_pipe_expr build_end
  build_pipe_expr_lem expr c inv =
      let ((inv', grows), p) = build_source_lem start expr.source c inv in
      let (from, c') = build_source expr.source c in
      let ((inv2, grows2), p2) = build_elems_lem start expr.span expr.elements from c' inv' p in
      let (prev, c2) = build_elems expr.span expr.elements from c' in
      ended expr.sink prev c2 inv2 p2 (λ v h. grows2 v (grows v h))
    where
      ended :
          (sink : Option (HirSink X)) (prev : Option NodeId) (d : SubgraphCtx X)
          → Inv start d
          → KnowsPrev d prev
          → Grows c d
          → Step start c (build_end sink prev d).1
      ended none prev d i p g = (i, g)
      ended (some s) prev d i p g =
          let ((i', g'), _) = build_sink_lem start s s.scatter prev d i p in
          (i', λ v h. g' v (g v h))

  build_pipes_lem :
      (pipes : List (HirPipeExpr X)) (c : SubgraphCtx X)
      → Inv start c
      → Inv start (build_pipes pipes c)
  unfolding build_pipes
  build_pipes_lem [] c inv = inv
  build_pipes_lem (pipe ∷ pipes) c inv =
      build_pipes_lem pipes (build_pipe_expr pipe c).1 ((build_pipe_expr_lem pipe c inv).0)

  resolve_pending_lem :
      (pending : List (NodeId × String × X.Span)) (c : SubgraphCtx X) (diags : List (Diagnostic X))
      → Inv start c
      → All (λ p. Knows c p.0) pending
      → Inv start (resolve_pending pending c diags).0
  unfolding resolve_pending add_edge
  resolve_pending_lem [] c diags inv h = inv
  resolve_pending_lem ((actor_id, tap_name, span) ∷ pending) c diags inv h =
      elim (Option-cases (get c.taps tap_name)) [
        | inl (fork_id, found) ↦
            rw (found, resolve_pending)
              (resolve_pending_lem pending (add_edge fork_id actor_id span c) diags
                (Inv-add_edge start fork_id actor_id span c inv
                  (All-get (Knows c) c.taps tap_name fork_id inv.tapped found) h.0)
                (still fork_id actor_id span pending h.1))
        | inr missing ↦ rw (missing, resolve_pending) (resolve_pending_lem pending c _ inv h.1)
      ]
    where
      still :
          (u v : NodeId) (at : X.Span) (rest : List (NodeId × String × X.Span))
          → All (λ p. Knows c p.0) rest
          → All (λ p. Knows (add_edge u v at c) p.0) rest
      still u v at rest k = k

  Inv-empty : (edge_id : ℕ) → Inv {X = X} start (empty_ctx start edge_id)
  unfolding empty_ctx count
  Inv-empty edge_id = record {
    closed = tt;
    tapped = tt;
    waiting = tt;
    fresh = λ lt. (omega arith, λ v. omega arith);
  }

  Inv-taken : (c : SubgraphCtx X) → Inv start c → Inv start (record c { pending_tap_inputs = [] })
  Inv-taken c inv = record {
    closed = inv.closed;
    tapped = inv.tapped;
    waiting = tt;
    fresh = inv.fresh;
  }

module _ {X : Extern} (pipeline : HirPipeline X) (b : GraphBuilder X) where
  -- A subgraph with fewer than 2^32 edges, whose nodes the builder's counter of 2^32 has room for,
  -- is sound: its node ids are different, and its edges lead between its nodes. Its ids lie between
  -- the counter before and the counter after, which grows by the number of nodes.
  pub build_subgraph-IsSound :
      b.next_global_node_id + length (build_subgraph pipeline b).0.nodes < u32_mod
      → length (build_subgraph pipeline b).0.edges < u32_mod
      → IsSound (build_subgraph pipeline b).0
        × ((v : NodeId)
            → has (node_ids (build_subgraph pipeline b).0) v ≡ true
            → (b.next_global_node_id ≤ v) × (v < (build_subgraph pipeline b).1.next_global_node_id))
        × ((build_subgraph pipeline b).1.next_global_node_id
            ≡ b.next_global_node_id + length (build_subgraph pipeline b).0.nodes)
  unfolding build_subgraph
  build_subgraph-IsSound room fits =
      let start = b.next_global_node_id in
      let ctx = build_pipes pipeline.pipes (empty_ctx start b.next_global_edge_id) in
      let built =
        build_pipes_lem start pipeline.pipes (empty_ctx start b.next_global_edge_id)
          (Inv-empty start b.next_global_edge_id) in
      let inv =
        resolve_pending_lem start ctx.pending_tap_inputs (record ctx { pending_tap_inputs = [] })
          b.diagnostics (Inv-taken start ctx built) built.waiting in
      let given = (inv.fresh room).1 in
      (
        record { distinct = λ v. ground (arith, given v); closed = inv.closed; fits = fits },
        (λ v h. ground (arith, given v, has_iff-count v (node_ids (build_subgraph pipeline b).0))),
        (inv.fresh room).0,
      )
