-- ===== src/Cycles/Tests.antt =====
-- Runs of the search for cycles (compiler/src/graph.rs) on a feedback loop, on a row, and on two
-- loops through one delay each.
use mathlib.Core.List.{Memᴰ}
use pipeit.Base.{
  ℕ, ◌≡◌, refl, true, none, some, List, [], ◌∷◌, ◌++◌, All, count, has, any, contains, nat_eq,
  pair_eq, string_eq, arith,
}
use pipeit.Extern.Sample.{whole}
use pipeit.Diag.{error, e0400}
use pipeit.Graph.{NodeId, NodeKind, Node, Edge, Subgraph, TaskGraph}
use pipeit.Outcome.{done}
use pipeit.SubgraphIndex.{identify_back_edges, is_delay, find_node}
use pipeit.SubgraphIndex.BackEdges.{IsStep, delay_at}
use pipeit.Kahn.{links, start, loop, sort_values}
use pipeit.Kahn.Loop.{rounds}
use pipeit.Schedule.{
  SubgraphSchedule, Input, State, emit, sort_subgraph, sort_nonempty, finish, edge_buffers,
}
use pipeit.Schedule.Runs.{IsSound}
use pipeit.Cycles.{
  pop, drop, close_cycle, meet, meet_all, mark_begun, mark_done, dfs_cycle, dfs_all, adjacency_of,
  detect_cycles_in_subgraph, detect_all_cycles,
}
use pipeit.Cycles.Detect.{IsCycleOf, Grows, detect_cycles_in_subgraph-Grows}
use pipeit.Cycles.Program.{program_cycles, detect_all_cycles_lem}
use pipeit.Cycles.Sorts.{no_cycle_sorts, found_cycle_breaks}

abbrev fork_node : NodeId → Node whole
fork_node n = record { id = n; kind = NodeKind.fork "t"; span = tt }

abbrev delay_node : NodeId → Node whole
delay_node n = record { id = n; kind = NodeKind.actor "delay" tt [] none n; span = tt }

abbrev edge : ℕ → NodeId → NodeId → Edge whole
edge n from to = record { id = n; source = from; target = to; span = tt }

-- A delay, then two forks, and back.
abbrev ring : Subgraph whole
ring = record {
  nodes = delay_node 0 ∷ fork_node 1 ∷ fork_node 2 ∷ [];
  edges = edge 0 0 1 ∷ edge 1 1 2 ∷ edge 2 2 0 ∷ [];
}

abbrev row : Subgraph whole
row = record {
  nodes = fork_node 2 ∷ fork_node 1 ∷ fork_node 0 ∷ [];
  edges = edge 0 0 1 ∷ edge 1 1 2 ∷ edge 2 0 2 ∷ [];
}

-- The way from 1 to 3 forks, over the delay 2 and over the delay 5; 3 leads back to 0.
abbrev two_loops : Subgraph whole
two_loops = record {
  nodes = fork_node 0 ∷ fork_node 1 ∷ delay_node 2 ∷ fork_node 3 ∷ delay_node 5 ∷ [];
  edges = edge 0 0 1 ∷ edge 1 1 2 ∷ edge 2 2 3 ∷ edge 3 3 0 ∷ edge 4 1 5 ∷ edge 5 5 3 ∷ [];
}

abbrev input : List (List NodeId) → Input whole
input cycles = record {
  tasks = [];
  tick_rate_hz = 1000;
  graph = record { tasks = []; inter_task_edges = []; cycles = cycles };
  repetition_vectors = [];
  node_port_rates = [];
}

abbrev initial : State whole
initial = record { diagnostics = []; task_schedules = [] }

ring_found : detect_cycles_in_subgraph ring ≡ done ((0 ∷ 1 ∷ 2 ∷ []) ∷ [])
unfolding detect_cycles_in_subgraph dfs_all dfs_cycle meet_all meet mark_begun mark_done close_cycle
    pop drop adjacency_of
ring_found = refl

row_found : detect_cycles_in_subgraph row ≡ done []
unfolding detect_cycles_in_subgraph dfs_all dfs_cycle meet_all meet mark_begun mark_done close_cycle
    pop drop adjacency_of
row_found = refl

-- The search finds one of the two loops: 3 is done when it is reached from 5.
two_loops_found : detect_cycles_in_subgraph two_loops ≡ done ((0 ∷ 1 ∷ 2 ∷ 3 ∷ []) ∷ [])
unfolding detect_cycles_in_subgraph dfs_all dfs_cycle meet_all meet mark_begun mark_done close_cycle
    pop drop adjacency_of
two_loops_found = refl

-- The other loop keeps its edges, and the sort reports E0400, although a delay is on each loop.
two_loops_unsorted :
    sort_subgraph (input ((0 ∷ 1 ∷ 2 ∷ 3 ∷ []) ∷ [])) two_loops [] initial
    ≡ some (none, emit error e0400 tt initial)
unfolding sort_subgraph sort_nonempty finish identify_back_edges links rounds sort_values start loop
    edge_buffers has
two_loops_unsorted = refl

ring-IsSound : IsSound ring
unfolding has count
ring-IsSound = record {
  distinct = λ a. ground arith;
  closed = ((refl, refl), ((refl, refl), ((refl, refl), tt)));
  fits = omega arith;
}

row-IsSound : IsSound row
unfolding has count
row-IsSound = record {
  distinct = λ a. ground arith;
  closed = ((refl, refl), ((refl, refl), ((refl, refl), tt)));
  fits = omega arith;
}

detect_cycles_in_subgraph-Grows_example :
    (cycles : List (List NodeId)) × (detect_cycles_in_subgraph ring ≡ done cycles)
    × All (IsCycleOf ring) cycles
    × (cycles ≡ [] → (rank : NodeId → ℕ) × Grows ring rank)
detect_cycles_in_subgraph-Grows_example = detect_cycles_in_subgraph-Grows ring

no_cycle_sorts_example :
    (sched : SubgraphSchedule) × (sort_subgraph (input []) row [] initial
      ≡ some (some sched, initial))
no_cycle_sorts_example = no_cycle_sorts row (input []) [] initial row-IsSound row_found

ring_delay : any (delay_at ring) (0 ∷ 1 ∷ 2 ∷ []) ≡ true
unfolding find_node is_delay
ring_delay = refl

found_cycle_breaks_example :
    (u : NodeId) × (v : NodeId) × IsStep (0 ∷ 1 ∷ 2 ∷ []) u v
    × (contains (identify_back_edges ring ((7 ∷ []) ∷ (0 ∷ 1 ∷ 2 ∷ []) ∷ [])) (u, v) ≡ true)
found_cycle_breaks_example =
    found_cycle_breaks ring ((0 ∷ 1 ∷ 2 ∷ []) ∷ []) ((7 ∷ []) ∷ (0 ∷ 1 ∷ 2 ∷ []) ∷ [])
      (0 ∷ 1 ∷ 2 ∷ []) ring-IsSound ring_found (Memᴰ.head refl) (Memᴰ.tail (Memᴰ.head refl))
      ring_delay

detect_all_cycles_lem_example :
    detect_all_cycles (("a", TaskGraph.pipeline ring) ∷ ("b", TaskGraph.pipeline row) ∷ []) []
    ≡ done
        ([] ++ program_cycles (("a", TaskGraph.pipeline ring) ∷ ("b", TaskGraph.pipeline row) ∷ []))
detect_all_cycles_lem_example =
    detect_all_cycles_lem (("a", TaskGraph.pipeline ring) ∷ ("b", TaskGraph.pipeline row) ∷ []) []
