-- ===== src/Builder/Tests.antt =====
-- A run of the graph builder (compiler/src/graph.rs) on a feedback loop through a tap.
use pipeit.Base.{List, All, ℕ, ◌≡◌, refl, none, some, [], ◌∷◌, map, inc32, arith}
use pipeit.Extern.Sample.{whole}
use pipeit.Ast.{Arg}
use pipeit.Graph.{NodeId, Subgraph, node_ids}
use pipeit.Hir.{
  HirActorCall, HirPipeElem, HirPipeSource, HirPipeline, HirTaskBody, HirTask, HirSwitchSource,
}
use pipeit.Builder.{
  GraphBuilder, empty_ctx, add_node, add_edge, link_prev, tap_input, tap_inputs, build_actor_node,
  build_source, build_elem, build_elems, build_sink, build_end, build_pipe_expr, build_pipes,
  resolve_pending, build_subgraph, build_modes, build_body, build_all_tasks,
}
use pipeit.SubgraphIndex.Agree.{IsDistinct}
use pipeit.Feedback.Nodes.{all_nodes, ids}
use pipeit.Builder.Program.{program_subgraphs, TasksFit, build_all_tasks-IsDistinct}
use pipeit.Schedule.Runs.{IsSound}

abbrev call : ℕ → HirActorCall whole
call id = record {
  name = "add";
  call_id = id;
  call_span = tt;
  args = Arg.tap_ref (record { name = "fb"; span = tt }) ∷ [];
  type_args = [];
  shape_constraint = none;
}

-- `add(:fb) | add(:fb) | :fb -> out`
abbrev looped : HirPipeline whole
looped = record {
  pipes =
      (record {
        source = HirPipeSource.actor_call (call 0);
        elements = HirPipeElem.actor_call (call 1) ∷ HirPipeElem.tap "fb" tt ∷ [];
        sink = some (record { buffer_name = "out"; scatter = none; span = tt });
        span = tt;
      })
      ∷ [];
  span = tt;
}

abbrev builder : GraphBuilder whole
builder = record {
  task_graphs = [];
  diagnostics = [];
  next_global_node_id = 5;
  next_global_edge_id = 0;
}

looped_ids : node_ids (build_subgraph looped builder).0 ≡ 5 ∷ 6 ∷ 7 ∷ 8 ∷ []
unfolding build_subgraph resolve_pending build_pipes build_pipe_expr build_end build_sink
    build_elems build_elem build_source build_actor_node tap_inputs tap_input link_prev add_edge
    add_node empty_ctx inc32
looped_ids = refl

looped_links :
    map {B = NodeId × NodeId} (λ e. (e.source, e.target)) (build_subgraph looped builder).0.edges
    ≡ (5, 6) ∷ (6, 7) ∷ (7, 8) ∷ (7, 5) ∷ (7, 6) ∷ []
unfolding build_subgraph resolve_pending build_pipes build_pipe_expr build_end build_sink
    build_elems build_elem build_source build_actor_node tap_inputs tap_input link_prev add_edge
    add_node empty_ctx inc32
looped_links = refl

-- A task with the loop, and a modal task with the loop as its control and as its mode.
abbrev tasks : List (HirTask whole)
tasks =
    (record {
      name = "a";
      task_id = 0;
      freq_hz = 1;
      freq_span = tt;
      body = HirTaskBody.pipeline looped;
    })
    ∷ (record {
      name = "b";
      task_id = 1;
      freq_hz = 1;
      freq_span = tt;
      body = HirTaskBody.modal (record {
        control = looped;
        modes = ("m", looped) ∷ [];
        switch = HirSwitchSource.param "p" tt;
        span = tt;
      });
    })
    ∷ []

tasks-TasksFit : TasksFit tasks builder
unfolding build_subgraph resolve_pending build_pipes build_pipe_expr build_end build_sink
    build_elems build_elem build_source build_actor_node tap_inputs tap_input link_prev add_edge
    add_node empty_ctx inc32 build_body build_modes
tasks-TasksFit = (
  (omega arith, omega arith),
  (((omega arith, omega arith), ((omega arith, omega arith), tt)), tt),
)

build_all_tasks-IsDistinct_example :
    All
      (λ (s : Subgraph whole). IsSound s)
      (program_subgraphs (build_all_tasks tasks builder).task_graphs)
    × IsDistinct (ids (all_nodes (program_subgraphs (build_all_tasks tasks builder).task_graphs)))
build_all_tasks-IsDistinct_example = build_all_tasks-IsDistinct tasks builder refl tasks-TasksFit
