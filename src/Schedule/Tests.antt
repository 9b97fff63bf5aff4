-- ===== src/Schedule/Tests.antt =====
-- Runs of compiler/src/schedule.rs on a feedback loop of three nodes, and on one without a delay.
use mathlib.Core.Logic.{◌↔◌}
use pipeit.Base.{
  Option, Bool-cases, subst, ℕ, ◌<◌, ◌≡◌, refl, true, none, some, [], ◌∷◌, count, has, index_of,
  get, String, string_eq, nat_eq, pair_eq, arith, inl, inr, ◌==◌,
}
use pipeit.Extern.Sample.{whole}
use pipeit.Diag.{error, e0400}
use pipeit.Graph.{NodeId, NodeKind, Node, Edge, Subgraph, TaskGraph, node_ids}
use pipeit.SubgraphIndex.{identify_back_edges}
use pipeit.Kahn.Arcs.{arcs}
use pipeit.Kahn.{links, start, loop, sort_values}
use pipeit.Kahn.Loop.{rounds}
use pipeit.Schedule.{
  SubgraphSchedule, RepetitionVector, Input, State, emit, sort_subgraph, sort_nonempty, finish,
  edge_buffers, delay_initial_tokens, schedule,
}
use pipeit.Schedule.Runs.{IsSound, fired_ids, flow, IsRank, sort_subgraph_ends}
use pipeit.Schedule.Order.{fires_once, fires_in_order, sorts_iff_acyclic, unsorted_reports}
use pipeit.Schedule.Cert.{check_subgraph_coverage, verify_s2_all_nodes_fired}
use pipeit.Schedule.Cert.Coverage.{coverage_iff}
use pipeit.Schedule.Cert.Total.{IsSoundTask, schedule-passes}

abbrev fork_node : NodeId → Node whole
fork_node n = record { id = n; kind = NodeKind.fork "t"; span = tt }

abbrev delay_node : NodeId → Node whole
delay_node n = record { id = n; kind = NodeKind.actor "delay" tt [] none n; span = tt }

abbrev edge : ℕ → NodeId → NodeId → Edge whole
edge n from to = record { id = n; source = from; target = to; span = tt }

-- A delay, then two forks, and back.
abbrev ring : Subgraph whole
ring = record {
  nodes = delay_node 0 ∷ fork_node 1 ∷ fork_node 2 ∷ [];
  edges = edge 0 0 1 ∷ edge 1 1 2 ∷ edge 2 2 0 ∷ [];
}

-- The same without the delay.
abbrev stuck : Subgraph whole
stuck = record { nodes = fork_node 0 ∷ fork_node 1 ∷ []; edges = edge 0 0 1 ∷ edge 1 1 0 ∷ [] }

abbrev input : Input whole
input = record {
  tasks = (record { name = "a"; freq_hz = 3000; freq_span = tt }) ∷ [];
  tick_rate_hz = 1000;
  graph = record {
    tasks = ("a", TaskGraph.pipeline ring) ∷ [];
    inter_task_edges = [];
    cycles = (0 ∷ 1 ∷ 2 ∷ []) ∷ [];
  };
  repetition_vectors = (("a", "pipeline"), (2, 4) ∷ []) ∷ [];
  node_port_rates = (2, record { in_rate = none; out_rate = some 3 }) ∷ [];
}

abbrev rv : RepetitionVector
rv = (2, 4) ∷ []

abbrev initial : State whole
initial = record { diagnostics = []; task_schedules = [] }

abbrev ring_schedule : SubgraphSchedule
ring_schedule = record {
  firings =
      (record { node_id = 1; repetition_count = 1 })
      ∷ (record { node_id = 2; repetition_count = 4 })
      ∷ (record { node_id = 0; repetition_count = 1 })
      ∷ [];
  edge_buffers = ((0, 1), 1) ∷ ((1, 2), 1) ∷ ((2, 0), 12) ∷ [];
}

ring_sorts : sort_subgraph input ring rv initial ≡ some (some ring_schedule, initial)
unfolding sort_subgraph sort_nonempty finish identify_back_edges links rounds sort_values start loop
    edge_buffers has delay_initial_tokens
ring_sorts = refl

stuck_reports : sort_subgraph input stuck rv initial ≡ some (none, emit error e0400 tt initial)
unfolding sort_subgraph sort_nonempty finish identify_back_edges links rounds sort_values start loop
    edge_buffers has
stuck_reports = refl

ring-IsSound : IsSound ring
unfolding has count
ring-IsSound = record {
  distinct = λ a. ground arith;
  closed = ((refl, refl), ((refl, refl), ((refl, refl), tt)));
  fits = omega arith;
}

stuck-IsSound : IsSound stuck
unfolding has count
stuck-IsSound = record {
  distinct = λ a. ground arith;
  closed = ((refl, refl), ((refl, refl), tt));
  fits = omega arith;
}

fires_once_example :
    (initial ≡ initial)
    × ((v : NodeId) → count v (fired_ids ring_schedule) ≡ count v (node_ids ring))
fires_once_example = fires_once input ring rv ring-IsSound initial initial ring_schedule ring_sorts

flow_1_2 : 0 < flow input ring 1 2
unfolding identify_back_edges has arcs
flow_1_2 = omega arith

fires_in_order_example : index_of 1 (fired_ids ring_schedule) < index_of 2 (fired_ids ring_schedule)
fires_in_order_example =
    fires_in_order input ring rv ring-IsSound initial initial ring_schedule ring_sorts 1 2 flow_1_2

sort_subgraph_ends_example :
    (r : Option SubgraphSchedule) × (s' : State whole) × (sort_subgraph input ring rv initial
      ≡ some (r, s'))
sort_subgraph_ends_example = sort_subgraph_ends input ring rv initial ring-IsSound.fits

sorts_iff_acyclic_example :
    ∥ (
      (sched : SubgraphSchedule) × (s' : State whole) × (sort_subgraph input stuck rv initial
        ≡ some (some sched, s'))) ∥₁
    ↔ ∥ ((rank : NodeId → ℕ) × IsRank input stuck rank) ∥₁
sorts_iff_acyclic_example = sorts_iff_acyclic input stuck rv stuck-IsSound initial

unsorted_reports_example :
    (emit error e0400 tt initial ≡ emit error e0400 tt initial)
    × ((rank : NodeId → ℕ) → ¬ IsRank input stuck rank)
unsorted_reports_example =
    unsorted_reports input stuck rv stuck-IsSound initial (emit error e0400 tt initial)
      stuck_reports

coverage_iff_example :
    (check_subgraph_coverage ring_schedule ring ≡ true)
    ↔ ((v : NodeId) → count v (fired_ids ring_schedule) ≡ count v (node_ids ring))
coverage_iff_example = coverage_iff ring_schedule ring ring-IsSound.distinct

sounds : (name : String) (g : TaskGraph whole) → get input.graph.tasks name ≡ some g → IsSoundTask g
sounds name g h = elim (Bool-cases ("a" == name)) [
  | inl same ↦
      let g_is : TaskGraph.pipeline ring ≡ g = cc (rw same at h) in
      subst IsSoundTask g_is ring-IsSound
  | inr other ↦ absurd (cc (rw other at h))
]

schedule-passes_example :
    (s : State whole) × (schedule input ≡ some s)
    × (verify_s2_all_nodes_fired s.task_schedules input.graph ≡ true)
schedule-passes_example = schedule-passes input sounds
