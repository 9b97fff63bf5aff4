-- ===== src/Schedule/Cert.antt =====
-- The postconditions that compiler/src/schedule.rs checks of a schedule (`verify_schedule`).
pub mod Coverage
pub mod Total
use pipeit.Base.{
  ℕ, Bool, true, false, not, ◌&&◌, ◌||◌, Option, none, some, List, [], ◌∷◌, map, find, all, length,
  has, Map, get, contains_key, eqb, if◌then◌else◌, String, ◌==◌, string_eq, nat_eq, PartialEq,
}
use pipeit.Extern.{Extern}
use pipeit.Graph.{NodeId, Node, Subgraph, TaskGraph, ProgramGraph, node_ids}
use pipeit.Kahn.{FiringEntry}
use pipeit.Schedule.{SubgraphSchedule, TaskSchedule, TaskMeta}

pub record ScheduleCert : Type 0 where
  pub s1_all_tasks_scheduled : Bool
  pub s2_all_nodes_fired : Bool

abbrev pub all_pass : ScheduleCert → Bool
all_pass c = c.s1_all_tasks_scheduled && c.s2_all_nodes_fired

-- The loop over the firings: the nodes seen, or `none` at a duplicate.
see : List NodeId → List FiringEntry → Option (List NodeId)
see seen [] = some seen
see seen (f ∷ fs) =
    let rest = see (f.node_id ∷ seen) fs in if has seen f.node_id then none else rest

module _ {X : Extern} where
  check_coverage : List FiringEntry → Subgraph X → Bool
  unfolding see
  check_coverage firings sub = elim (see [] firings) [
    | none ↦ false
    | some seen ↦ all (λ n. has seen n.id) sub.nodes
  ]

  pub check_subgraph_coverage : SubgraphSchedule → Subgraph X → Bool
  unfolding check_coverage
  check_subgraph_coverage sched sub =
      if eqb (length sched.firings) (length sub.nodes)
      then check_coverage sched.firings sub
      else false

  pub check_modes : List (String × SubgraphSchedule) → List (String × Subgraph X) → Bool
  unfolding check_subgraph_coverage
  check_modes [] graphs = true
  check_modes ((name, sched) ∷ scheds) graphs =
      elim (find (λ m. m.0 == name) graphs) [
        | none ↦ false
        | some (_, g) ↦ check_subgraph_coverage sched g
      ]
      && check_modes scheds graphs

  pub check_task : TaskSchedule → TaskGraph X → Bool
  unfolding check_modes
  check_task (TaskSchedule.pipeline sched) (TaskGraph.pipeline sub) =
      check_subgraph_coverage sched sub
  check_task (TaskSchedule.modal control scheds) (TaskGraph.modal graph graphs) =
      check_subgraph_coverage control graph && check_modes scheds graphs
  check_task _ _ = false

  pub verify_s1_all_tasks_scheduled : Map String (TaskMeta X) → List String → Bool
  verify_s1_all_tasks_scheduled tasks names = all (contains_key tasks) names

  pub verify_s2_all_nodes_fired : Map String (TaskMeta X) → ProgramGraph X → Bool
  unfolding check_task
  verify_s2_all_nodes_fired [] graph = true
  verify_s2_all_nodes_fired ((name, meta) ∷ tasks) graph =
      elim (get graph.tasks name) [ none ↦ false | some g ↦ check_task meta.schedule g ]
      && verify_s2_all_nodes_fired tasks graph

  pub verify_schedule : Map String (TaskMeta X) → ProgramGraph X → List String → ScheduleCert
  unfolding verify_s1_all_tasks_scheduled verify_s2_all_nodes_fired
  verify_schedule tasks graph names = record {
    s1_all_tasks_scheduled = verify_s1_all_tasks_scheduled tasks names;
    s2_all_nodes_fired = verify_s2_all_nodes_fired tasks graph;
  }
