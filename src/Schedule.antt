-- ===== src/Schedule.antt =====
-- Schedule generation, compiler/src/schedule.rs: the sort of a subgraph with its error, the sizes
-- of the intra-task buffers, the K factor, and the loop over the tasks. `ScheduleCtx` is split into
-- what it reads (`Input`) and what it writes (`State`). An action returns `none` if the fuel of a
-- sort ran out. The task name and the label only go into the message, and are left out.
pub mod Cert
pub mod Runs
pub mod Order
pub mod Buffers
pub mod Tests
use Prim.Native.Nat.{min}
use pipeit.Base.{
  ℕ, ◌+◌, Bool, true, false, Option, none, some, List, [], ◌∷◌, ◌++◌, map, length, Map, get, get_or,
  insert, contains, mul32, ltb, if◌then◌else◌, String, ◌==◌, string_eq, nat_eq, pair_eq, PartialEq,
}
use pipeit.Extern.{Extern}
use pipeit.Ast.{Arg, value, Value, scalar, Scalar, number}
use pipeit.Diag.{Diagnostic, DiagLevel, DiagCode, error, warning, e0400, w0400}
use pipeit.Graph.{NodeId, NodeKind, actor, Node, Edge, Subgraph, TaskGraph, ProgramGraph}
use pipeit.SubgraphIndex.{find_node, is_delay, identify_back_edges}
use pipeit.Kahn.{FiringEntry, Kahn, Links, links, start, loop, sort_values}
use pipeit.Kahn.Loop.{rounds}

pub record SubgraphSchedule : Type 0 where
  pub firings : List FiringEntry
  pub edge_buffers : Map (NodeId × NodeId) ℕ

pub data TaskSchedule : Type 0 where
  pipeline : SubgraphSchedule → TaskSchedule
  modal : (control : SubgraphSchedule) (modes : List (String × SubgraphSchedule)) → TaskSchedule

-- compiler/src/analyze.rs
pub record NodePortRates : Type 0 where
  pub in_rate : Option ℕ
  pub out_rate : Option ℕ

abbrev pub RepetitionVector : Type 0
RepetitionVector = Map NodeId ℕ

abbrev max_k_factor : ℕ
max_k_factor = 500

module _ (X : Extern) where
  pub record TaskMeta : Type 0 where
    pub schedule : TaskSchedule
    pub k_factor : ℕ
    pub freq_hz : X.F64

  -- The fields of an `HirTask` that the scheduler reads.
  pub record TaskClock : Type 0 where
    pub name : String
    pub freq_hz : X.F64
    pub freq_span : X.Span

  pub record Input : Type 0 where
    pub tasks : List TaskClock
    pub tick_rate_hz : X.F64
    pub graph : ProgramGraph X
    pub repetition_vectors : Map (String × String) RepetitionVector
    pub node_port_rates : Map NodeId NodePortRates

  pub record State : Type 0 where
    pub diagnostics : List (Diagnostic X)
    pub task_schedules : Map String TaskMeta

  abbrev pub M : Type 0 → Type 0
  M A = State → Option (A × State)

infixl 5 ◌>>=◌
abbrev pub ◌>>=◌ : {X : Extern} {A B : Type 0} → M X A → (A → M X B) → M X B
◌>>=◌ m f s = elim (m s) [ none ↦ none | some (a, s') ↦ f a s' ]

abbrev pub pure : {X : Extern} {A : Type 0} → A → M X A
pure a s = some (a, s)

abbrev pub out_rate_at : Map NodeId NodePortRates → NodeId → ℕ
out_rate_at rates n = elim (get rates n) [
  | none ↦ 1
  | some r ↦ elim r.out_rate [ none ↦ 1 | some p ↦ p ]
]

-- K = ceil(freq / tick_rate), at most `max_k_factor`.
pub compute_k_factor : (X : Extern) → X.F64 → X.F64 → ℕ
compute_k_factor X freq_hz tick_rate_hz =
    if X.le freq_hz tick_rate_hz
    then 1
    else min (X.as_u32 (X.ceil (X.div freq_hz tick_rate_hz))) max_k_factor

-- The guardrail on the effective timer rate: `1e9 / (freq_hz / k) < 10_000`.
too_fast : (X : Extern) → X.F64 → ℕ → Bool
too_fast X freq_hz k =
    X.lt (X.div (X.from_u32 1000000000) (X.div freq_hz (X.from_u32 k))) (X.from_u32 10000)

module _ {X : Extern} where
  abbrev pub emit : DiagLevel → DiagCode → X.Span → State X → State X
  emit level code span s = record s {
    diagnostics = s.diagnostics ++ (record { level = level; code = code; span = span }) ∷ [];
  }

  first_number : List (Arg X) → ℕ
  first_number (value (scalar (number n span is_int)) ∷ args) = X.as_u32 n
  first_number _ = 1

  delay_args : NodeKind X → ℕ
  unfolding is_delay first_number
  delay_args (actor name call_span args shape_constraint call_id) =
      if name == "delay" then first_number args else 1
  delay_args _ = 1

  pub delay_initial_tokens : Subgraph X → NodeId → ℕ
  unfolding delay_args
  delay_initial_tokens sub n = elim (find_node sub n) [ none ↦ 1 | some x ↦ delay_args x.kind ]

  -- The loop of `compute_edge_buffers` over the edges.
  unfoldable pub edge_buffers :
      Subgraph X
      → Map NodeId NodePortRates
      → RepetitionVector
      → List (NodeId × NodeId)
      → List (Edge X)
      → Map (NodeId × NodeId) ℕ
      → Map (NodeId × NodeId) ℕ
  unfolding mul32
  edge_buffers sub rates rv back [] buffers = buffers
  edge_buffers sub rates rv back (e ∷ es) buffers = edge_buffers sub rates rv back es (
      insert buffers (e.source, e.target)
        (if contains back (e.source, e.target)
          then delay_initial_tokens sub e.source
          else mul32 (out_rate_at rates e.source) (get_or rv e.source 1)))

  -- What follows the loop of the sort: the error for unscheduled nodes, or the result.
  unfoldable pub finish :
      Input X
      → Subgraph X
      → RepetitionVector
      → List (NodeId × NodeId)
      → Kahn
      → M X (Option SubgraphSchedule)
  finish i sub rv back t s =
      if ltb (length t.firings) (length sub.nodes)
      then some (none, emit error e0400 X.no_span s)
      else some (
        some (record {
          firings = t.firings;
          edge_buffers = edge_buffers sub i.node_port_rates rv back sub.edges [];
        }),
        s,
      )

  unfoldable pub sort_nonempty :
      Input X → Subgraph X → RepetitionVector → M X (Option SubgraphSchedule)
  unfolding finish
  sort_nonempty i sub rv s =
      let back = identify_back_edges sub i.graph.cycles in
      let l = links back sub in
      elim (loop (rounds l) (sort_values l.adj) rv (start l)) [
        | none ↦ none
        | some t ↦ finish i sub rv back t s
      ]

  unfoldable pub sort_subgraph :
      Input X → Subgraph X → RepetitionVector → M X (Option SubgraphSchedule)
  sort_subgraph i sub rv s = elim sub.nodes [
    | [] ↦ some (some (record { firings = []; edge_buffers = [] }), s)
    | _ ∷ _ ↦ sort_nonempty i sub rv s
  ]

  -- `Some` of a repetition vector is sorted.
  pub sort_known : Input X → Subgraph X → Option RepetitionVector → M X (Option SubgraphSchedule)
  sort_known i sub none s = some (none, s)
  sort_known i sub (some rv) s = sort_subgraph i sub rv s

  -- The loop over the modes, which leaves out a mode that has no schedule.
  pub sort_modes :
      Input X → String → List (String × Subgraph X) → M X (List (String × SubgraphSchedule))
  sort_modes i task [] = pure []
  sort_modes i task ((mode, sub) ∷ modes) =
      let rest = sort_modes i task modes in
      do
        sched ← sort_known i sub (get i.repetition_vectors (task, mode))
        scheds ← rest
        pure (elim sched [ none ↦ scheds | some x ↦ (mode, x) ∷ scheds ])

  pub sort_task : Input X → String → TaskGraph X → M X (Option TaskSchedule)
  sort_task i task (TaskGraph.pipeline sub) = do
    sched ← sort_known i sub (get i.repetition_vectors (task, "pipeline"))
    pure (elim sched [ none ↦ none | some x ↦ some (TaskSchedule.pipeline x) ])
  sort_task i task (TaskGraph.modal control modes) = do
    sched ← sort_known i control (get i.repetition_vectors (task, "control"))
    elim sched [
      | none ↦ pure none
      | some x ↦ do scheds ← sort_modes i task modes; pure (some (TaskSchedule.modal x scheds))
    ]

  -- What follows the sort of a task's subgraphs.
  pub record_task : Input X → TaskClock X → TaskSchedule → State X → State X
  unfolding compute_k_factor too_fast
  record_task i task sched s =
      let k = compute_k_factor X task.freq_hz i.tick_rate_hz in
      let s' = if too_fast X task.freq_hz k then emit warning w0400 task.freq_span s else s in
      record s' {
        task_schedules =
            insert s'.task_schedules task.name
              (record { schedule = sched; k_factor = k; freq_hz = task.freq_hz });
      }

  pub schedule_graph : Input X → TaskClock X → TaskGraph X → State X → Option (State X)
  schedule_graph i task g s = elim (sort_task i task.name g s) [
    | none ↦ none
    | some (none, s') ↦ some s'
    | some (some sched, s') ↦ some (record_task i task sched s')
  ]

  pub schedule_task : Input X → TaskClock X → State X → Option (State X)
  schedule_task i task s = elim (get i.graph.tasks task.name) [
    | none ↦ some s
    | some g ↦ schedule_graph i task g s
  ]

  pub schedule_tasks : Input X → List (TaskClock X) → State X → Option (State X)
  schedule_tasks i [] s = some s
  schedule_tasks i (task ∷ tasks) s =
      let rest = schedule_tasks i tasks in
      elim (schedule_task i task s) [ none ↦ none | some s' ↦ rest s' ]

  -- `schedule`, with `ScheduleCtx::new`, `schedule_all_tasks` and `build_result`.
  pub schedule : Input X → Option (State X)
  schedule i = schedule_tasks i i.tasks (record { diagnostics = []; task_schedules = [] })
