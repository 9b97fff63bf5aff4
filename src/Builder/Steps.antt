-- ===== src/Builder/Steps.antt =====
-- What the steps of the builder of a subgraph (compiler/src/graph.rs) keep.
use pipeit.Base.{
  ℕ, ◌≡◌, refl, Option, none, some, List, [], ◌∷◌, String, Map, get, insert, string_eq,
  Option-cases, inl, inr,
}
use pipeit.Extern.{Extern}
use pipeit.Ast.{Arg}
use pipeit.Graph.{NodeId, NodeKind}
use pipeit.Hir.{HirActorCall, HirSink, HirPipeElem, HirPipeSource}
use pipeit.Builder.{
  SubgraphCtx, add_node, add_edge, link_prev, tap_input, tap_inputs, build_actor_node, build_source,
  build_elem, build_elems, build_sink,
}
use pipeit.Builder.Invariant.{
  All-append, All-get, All-insert, Knows, KnowsPrev, Grows, Inv, add_node_lem, Inv-add_edge,
}

module _ {X : Extern} (start : ℕ) where
  abbrev pub Step : SubgraphCtx X → SubgraphCtx X → Type 0
  Step c c' = Inv start c' × Grows c c'

  link_prev_lem :
      (prev : Option NodeId) (id : NodeId) (span : X.Span) (c : SubgraphCtx X)
      → Inv start c
      → KnowsPrev c prev
      → Knows c id
      → Step c (link_prev prev id span c)
  unfolding link_prev add_edge
  link_prev_lem none id span c inv p k = (inv, λ v h. h)
  link_prev_lem (some prev) id span c inv p k =
      (Inv-add_edge start prev id span c inv p k, λ v h. h)

  tap_input_lem :
      (id : NodeId) (arg : Arg X) (c : SubgraphCtx X)
      → Inv start c
      → Knows c id
      → Step c (tap_input id arg c)
  unfolding tap_input add_edge
  tap_input_lem id (Arg.tap_ref ident) c inv k = elim (Option-cases (get c.taps ident.name)) [
    | inl (fork_id, found) ↦
        rw (found, tap_input)
          (
            Inv-add_edge start fork_id id ident.span c inv
                (All-get (Knows c) c.taps ident.name fork_id inv.tapped found) k,
            λ v h. h,
          )
    | inr missing ↦
        rw (missing, tap_input)
          (
            record {
              closed = inv.closed;
              tapped = inv.tapped;
              waiting =
                  All-append (λ (p : NodeId × String × X.Span). Knows c p.0) c.pending_tap_inputs _
                    inv.waiting k;
              fresh = inv.fresh;
            },
            λ v h. h,
          )
  ]
  tap_input_lem id _ c inv k = (inv, λ v h. h)

  tap_inputs_lem :
      (id : NodeId) (args : List (Arg X)) (c : SubgraphCtx X)
      → Inv start c
      → Knows c id
      → Step c (tap_inputs id args c)
  unfolding tap_inputs
  tap_inputs_lem id [] c inv k = (inv, λ v h. h)
  tap_inputs_lem id (arg ∷ args) c inv k =
      let (inv', grows) = tap_input_lem id arg c inv k in
      let (inv2, grows2) = tap_inputs_lem id args (tap_input id arg c) inv' (grows id k) in
      (inv2, λ v h. grows2 v (grows v h))

  build_actor_node_lem :
      (call : HirActorCall X) (c : SubgraphCtx X)
      → Inv start c
      → Step c (build_actor_node call c).1
        × Knows (build_actor_node call c).1 (build_actor_node call c).0
  unfolding build_actor_node
  build_actor_node_lem call c inv =
      let kind =
        NodeKind.actor call.name call.call_span call.args call.shape_constraint call.call_id in
      let (inv', grows, k) = add_node_lem start kind call.call_span c inv in
      let (id, c') = add_node kind call.call_span c in
      let (inv2, grows2) = tap_inputs_lem id call.args c' inv' k in
      ((inv2, λ v h. grows2 v (grows v h)), grows2 id k)

  KnowsPrev-Grows :
      (c d : SubgraphCtx X) (q : Option NodeId) → Grows c d → KnowsPrev c q → KnowsPrev d q
  KnowsPrev-Grows c d none g h = tt
  KnowsPrev-Grows c d (some v) g h = g v h

  -- A new node that is linked to the one before it.
  linked_lem :
      (kind : NodeKind X) (node_span span : X.Span) (prev : Option NodeId) (c : SubgraphCtx X)
      → Inv start c
      → KnowsPrev c prev
      → Step c (link_prev prev (add_node kind node_span c).0 span (add_node kind node_span c).1)
        × Knows
            (link_prev prev (add_node kind node_span c).0 span (add_node kind node_span c).1)
            (add_node kind node_span c).0
  linked_lem kind node_span span prev c inv p =
      let (inv', grows, k) = add_node_lem start kind node_span c inv in
      let (id, c') = add_node kind node_span c in
      let (inv2, grows2) =
        link_prev_lem prev id span c' inv' (KnowsPrev-Grows c c' prev grows p) k in
      ((inv2, λ v h. grows2 v (grows v h)), grows2 id k)

  -- Other buffers, and another tap.
  Inv-buffers :
      (c : SubgraphCtx X) (reads writes : Map String NodeId)
      → Inv start c
      → Inv start (record c { buffer_reads = reads; buffer_writes = writes })
  Inv-buffers c reads writes inv = record {
    closed = inv.closed;
    tapped = inv.tapped;
    waiting = inv.waiting;
    fresh = inv.fresh;
  }

  Inv-tap :
      (c : SubgraphCtx X) (name : String) (v : NodeId)
      → Inv start c
      → Knows c v
      → Inv start (record c { taps = insert c.taps name v })
  Inv-tap c name v inv k = record {
    closed = inv.closed;
    tapped = All-insert (Knows c) c.taps name v inv.tapped k;
    waiting = inv.waiting;
    fresh = inv.fresh;
  }

  -- What is known of a step that leaves off at a node.
  abbrev pub At : SubgraphCtx X → Option NodeId × SubgraphCtx X → Type 0
  At c (prev, c') = Step c c' × KnowsPrev c' prev

  pub build_source_lem :
      (source : HirPipeSource X) (c : SubgraphCtx X) → Inv start c → At c (build_source source c)
  unfolding build_source
  build_source_lem (HirPipeSource.actor_call call) c inv = build_actor_node_lem call c inv
  build_source_lem (HirPipeSource.buffer_read name span) c inv =
      let (inv', grows, k) = add_node_lem start (NodeKind.buffer_read name) span c inv in
      ((Inv-buffers _ _ _ inv', grows), k)
  build_source_lem (HirPipeSource.gather_read family_name family_size span) c inv =
      let (inv', grows, k) =
        add_node_lem start (NodeKind.gather_read family_name family_size) span c inv in
      ((Inv-buffers _ _ _ inv', grows), k)
  build_source_lem (HirPipeSource.tap_ref name span) c inv =
      ((inv, λ v h. h), known (get c.taps name) refl)
    where
      known : (q : Option NodeId) → get c.taps name ≡ q → KnowsPrev c q
      known none e = tt
      known (some v) e = All-get (Knows c) c.taps name v inv.tapped e

  build_elem_lem :
      (span : X.Span) (elem : HirPipeElem X) (prev : Option NodeId) (c : SubgraphCtx X)
      → Inv start c
      → KnowsPrev c prev
      → Step c (build_elem span elem prev c).1
        × Knows (build_elem span elem prev c).1 (build_elem span elem prev c).0
  unfolding build_elem
  build_elem_lem span (HirPipeElem.actor_call call) prev c inv p =
      let ((inv', grows), k) = build_actor_node_lem call c inv in
      let (id, c') = build_actor_node call c in
      let (inv2, grows2) =
        link_prev_lem prev id span c' inv' (KnowsPrev-Grows c c' prev grows p) k in
      ((inv2, λ v h. grows2 v (grows v h)), grows2 id k)
  build_elem_lem span (HirPipeElem.tap name tap_span) prev c inv p =
      let ((inv', grows), k) = linked_lem (NodeKind.fork name) tap_span tap_span prev c inv p in
      ((Inv-tap _ name _ inv' k, grows), k)
  build_elem_lem span (HirPipeElem.probe name probe_span) prev c inv p =
      linked_lem (NodeKind.probe name) probe_span probe_span prev c inv p

  pub build_elems_lem :
      (span : X.Span) (elems : List (HirPipeElem X)) (prev : Option NodeId) (c : SubgraphCtx X)
      → Inv start c
      → KnowsPrev c prev
      → At c (build_elems span elems prev c)
  unfolding build_elems
  build_elems_lem span [] prev c inv p = ((inv, λ v h. h), p)
  build_elems_lem span (elem ∷ elems) prev c inv p =
      let ((inv', grows), k) = build_elem_lem span elem prev c inv p in
      let (id, c') = build_elem span elem prev c in
      let ((inv2, grows2), q) = build_elems_lem span elems (some id) c' inv' k in
      ((inv2, λ v h. grows2 v (grows v h)), q)

  pub build_sink_lem :
      (sink : HirSink X) (scatter : Option ℕ) (prev : Option NodeId) (c : SubgraphCtx X)
      → Inv start c
      → KnowsPrev c prev
      → At c (build_sink sink scatter prev c)
  unfolding build_sink
  build_sink_lem sink (some family_size) prev c inv p =
      let ((inv', grows), k) =
        linked_lem (NodeKind.scatter_write sink.buffer_name family_size) sink.span sink.span prev c
          inv p in
      ((Inv-buffers _ _ _ inv', grows), k)
  build_sink_lem sink none prev c inv p =
      let ((inv', grows), k) =
        linked_lem (NodeKind.buffer_write sink.buffer_name) sink.span sink.span prev c inv p in
      ((Inv-buffers _ _ _ inv', grows), k)
