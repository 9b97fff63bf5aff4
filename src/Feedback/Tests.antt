-- ===== src/Feedback/Tests.antt =====
-- Runs of the delay check (compiler/src/analyze.rs) on a loop with a delay and on one without.
use mathlib.Core.List.{Memᴰ}
use pipeit.Base.{
  ℕ, ◌≡◌, refl, true, none, List, [], ◌∷◌, ◌++◌, count, has, contains, nat_eq, pair_eq, string_eq,
  arith,
}
use pipeit.Extern.Sample.{whole}
use pipeit.Diag.{error, e0305}
use pipeit.Graph.{NodeId, NodeKind, Node, Edge, Subgraph}
use pipeit.Outcome.{done}
use pipeit.SubgraphIndex.{identify_back_edges, is_delay, find_node, should_index}
use pipeit.SubgraphIndex.Agree.{IsDistinct}
use pipeit.SubgraphIndex.BackEdges.{IsStep}
use pipeit.Schedule.Runs.{IsSound}
use pipeit.Cycles.{
  pop, drop, close_cycle, meet, meet_all, mark_begun, mark_done, dfs_cycle, dfs_all, adjacency_of,
  detect_cycles_in_subgraph,
}
use pipeit.Feedback.{
  build_global_node_index, index_subgraphs, index_positions, scan_subgraphs,
  find_node_in_any_subgraph, has_delay, span_of, check_cycle, check_feedback_delays,
}
use pipeit.Feedback.Nodes.{all_nodes, ids}
use pipeit.Feedback.Breaks.{due, check_feedback_delays_lem, accepted_cycle_breaks}

abbrev fork_node : NodeId → Node whole
fork_node n = record { id = n; kind = NodeKind.fork "t"; span = tt }

abbrev delay_node : NodeId → Node whole
delay_node n = record { id = n; kind = NodeKind.actor "delay" tt [] none n; span = tt }

abbrev edge : ℕ → NodeId → NodeId → Edge whole
edge n from to = record { id = n; source = from; target = to; span = tt }

abbrev ring : Subgraph whole
ring = record {
  nodes = delay_node 0 ∷ fork_node 1 ∷ fork_node 2 ∷ [];
  edges = edge 0 0 1 ∷ edge 1 1 2 ∷ edge 2 2 0 ∷ [];
}

abbrev stuck : Subgraph whole
stuck = record { nodes = fork_node 3 ∷ fork_node 4 ∷ []; edges = edge 0 3 4 ∷ edge 1 4 3 ∷ [] }

abbrev subs : List (Subgraph whole)
subs = stuck ∷ ring ∷ []

subs-IsDistinct : IsDistinct (ids (all_nodes subs))
unfolding count
subs-IsDistinct a = ground arith

ring-IsSound : IsSound ring
unfolding has count
ring-IsSound = record {
  distinct = λ a. ground arith;
  closed = ((refl, refl), ((refl, refl), ((refl, refl), tt)));
  fits = omega arith;
}

ring_found : detect_cycles_in_subgraph ring ≡ done ((0 ∷ 1 ∷ 2 ∷ []) ∷ [])
unfolding detect_cycles_in_subgraph dfs_all dfs_cycle meet_all meet mark_begun mark_done close_cycle
    pop drop adjacency_of
ring_found = refl

ring_accepted : check_feedback_delays subs ((0 ∷ 1 ∷ 2 ∷ []) ∷ []) [] ≡ []
unfolding check_feedback_delays check_cycle has_delay find_node_in_any_subgraph
    build_global_node_index index_subgraphs index_positions scan_subgraphs find_node is_delay
    should_index
ring_accepted = refl

stuck_reported :
    check_feedback_delays subs ((3 ∷ 4 ∷ []) ∷ (0 ∷ 1 ∷ 2 ∷ []) ∷ []) []
    ≡ (record { level = error; code = e0305; span = tt }) ∷ []
unfolding check_feedback_delays check_cycle has_delay find_node_in_any_subgraph span_of
    build_global_node_index index_subgraphs index_positions scan_subgraphs find_node is_delay
    should_index
stuck_reported = refl

check_feedback_delays_lem_example :
    check_feedback_delays subs ((3 ∷ 4 ∷ []) ∷ (0 ∷ 1 ∷ 2 ∷ []) ∷ []) []
    ≡ [] ++ due subs ((3 ∷ 4 ∷ []) ∷ (0 ∷ 1 ∷ 2 ∷ []) ∷ [])
check_feedback_delays_lem_example =
    check_feedback_delays_lem subs ((3 ∷ 4 ∷ []) ∷ (0 ∷ 1 ∷ 2 ∷ []) ∷ []) [] subs-IsDistinct

accepted_cycle_breaks_example :
    (u : NodeId) × (v : NodeId) × IsStep (0 ∷ 1 ∷ 2 ∷ []) u v
    × (contains (identify_back_edges ring ((0 ∷ 1 ∷ 2 ∷ []) ∷ [])) (u, v) ≡ true)
accepted_cycle_breaks_example =
    accepted_cycle_breaks subs 1 ring ((0 ∷ 1 ∷ 2 ∷ []) ∷ []) ((0 ∷ 1 ∷ 2 ∷ []) ∷ [])
      (0 ∷ 1 ∷ 2 ∷ []) [] subs-IsDistinct refl ring-IsSound ring_found (Memᴰ.head refl)
      (Memᴰ.head refl) ring_accepted
