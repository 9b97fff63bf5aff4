-- ===== src/Schedule/Cert/Total.antt =====
-- The schedule of a whole program (compiler/src/schedule.rs) passes the check S2.
use pipeit.Base.{
  ◌≡◌, refl, ◌∙◌, true, false, Option, none, some, List, [], ◌∷◌, find, All, Map, get, insert,
  arith, String, ◌==◌, string_eq, pair_eq, Option-cases, Bool-cases, inl, inr,
}
use pipeit.Extern.{Extern}
use pipeit.Graph.{Subgraph, TaskGraph}
use pipeit.Schedule.{
  SubgraphSchedule, TaskSchedule, TaskMeta, TaskClock, RepetitionVector, Input, State, ◌>>=◌,
  sort_known, sort_modes, sort_task, compute_k_factor, record_task, schedule_graph, schedule_task,
  schedule_tasks, schedule,
}
use pipeit.Schedule.Runs.{IsSound, sort_subgraph_ends, sort_subgraph-none}
use pipeit.Schedule.Order.{fires_once}
use pipeit.Schedule.Cert.{
  check_subgraph_coverage, check_modes, check_task, verify_s2_all_nodes_fired,
}
use pipeit.Schedule.Cert.Coverage.{coverage_iff}

module _ {X : Extern} where
  -- No mode name stands twice.
  abbrev pub IsDistinctModes : List (String × Subgraph X) → Type 0
  IsDistinctModes [] = Unit
  IsDistinctModes (m ∷ ms) = All (λ m'. (m.0 == m'.0) ≡ false) ms × IsDistinctModes ms

  abbrev pub IsSoundTask : TaskGraph X → Type 0
  IsSoundTask (TaskGraph.pipeline sub) = IsSound sub
  IsSoundTask (TaskGraph.modal control modes) =
      IsSound control × All (λ m. IsSound m.1) modes × IsDistinctModes modes

  abbrev Covers : Option SubgraphSchedule → Subgraph X → Type 0
  Covers none sub = Unit
  Covers (some sched) sub = check_subgraph_coverage sched sub ≡ true

  abbrev CoversTask : Option TaskSchedule → TaskGraph X → Type 0
  CoversTask none g = Unit
  CoversTask (some sched) g = check_task sched g ≡ true

  -- The modes are found by their names.
  abbrev AreFound : List (String × Subgraph X) → List (String × Subgraph X) → Type 0
  AreFound graphs = All (λ m. find (λ g. g.0 == m.0) graphs ≡ some m)

  AreFound-cons :
      (m : String × Subgraph X) (ms graphs : List (String × Subgraph X))
      → All (λ m'. (m.0 == m'.0) ≡ false) ms
      → AreFound graphs ms
      → AreFound (m ∷ graphs) ms
  AreFound-cons m [] graphs d f = tt
  AreFound-cons m (n ∷ ms) graphs d f =
      (ground (arith, d.0, f.0), AreFound-cons m ms graphs d.1 f.1)

  AreFound-self : (ms : List (String × Subgraph X)) → IsDistinctModes ms → AreFound ms ms
  AreFound-self [] d = tt
  AreFound-self (m ∷ ms) d = (
    ground (arith, string_eq.equal_iff m.0 m.0),
    AreFound-cons m ms ms d.0 (AreFound-self ms d.1),
  )

  check_modes-add :
      (graphs : List (String × Subgraph X)) (mode : String) (sub : Subgraph X)
      → find (λ g. g.0 == mode) graphs ≡ some (mode, sub)
      → (r : Option SubgraphSchedule) (rs : List (String × SubgraphSchedule)) → Covers r sub
      → check_modes rs graphs ≡ true
      → check_modes (elim r [ none ↦ rs | some x ↦ (mode, x) ∷ rs ]) graphs ≡ true
  unfolding check_modes
  check_modes-add graphs mode sub found none rs covers ok = ok
  check_modes-add graphs mode sub found (some x) rs covers ok = simp (found, covers) ok

  Covers-pipeline :
      (sub : Subgraph X) (r : Option SubgraphSchedule)
      → Covers r sub
      → CoversTask
          (elim r [ none ↦ none | some x ↦ some (TaskSchedule.pipeline x) ])
          (TaskGraph.pipeline sub)
  unfolding check_task
  Covers-pipeline sub none h = tt
  Covers-pipeline sub (some x) h = h

  covers_modal :
      (control : Subgraph X) (modes : List (String × Subgraph X)) (x : SubgraphSchedule)
      (rs : List (String × SubgraphSchedule))
      → check_subgraph_coverage x control ≡ true
      → check_modes rs modes ≡ true
      → check_task (TaskSchedule.modal x rs) (TaskGraph.modal control modes) ≡ true
  unfolding check_task
  covers_modal control modes x rs h ok = simp h ok

  module _ (i : Input X) where
    sort_known-ends :
        (sub : Subgraph X) (rv : Option RepetitionVector) (s : State X)
        → IsSound sub
        → (r : Option SubgraphSchedule) × (s' : State X) × (sort_known i sub rv s ≡ some (r, s'))
          × (s'.task_schedules ≡ s.task_schedules)
          × Covers r sub
    unfolding sort_known
    sort_known-ends sub none s sound = (none, s, refl, refl, tt)
    sort_known-ends sub (some rv) s sound =
        let (r, s', e) = sort_subgraph_ends i sub rv s sound.fits in
        elim (Option-cases r) [
          | inr r_none ↦
              let e' = rw r_none at e in
              (none, s', e', rw ((sort_subgraph-none i sub rv s s' sound.fits e').0) refl, tt)
          | inl (sched, r_some) ↦
              let e' = rw r_some at e in
              let (same, once) = fires_once i sub rv sound s s' sched e' in
              (some sched, s', e', rw same refl, (coverage_iff sched sub sound.distinct).1 once)
        ]

    sort_modes-ends :
        (task : String) (graphs ms : List (String × Subgraph X)) (s : State X)
        → All (λ m. IsSound m.1) ms
        → AreFound graphs ms
        → (r : List (String × SubgraphSchedule)) × (s' : State X) × (sort_modes i task ms s
            ≡ some (r, s'))
          × (s'.task_schedules ≡ s.task_schedules)
          × (check_modes r graphs ≡ true)
    unfolding sort_modes check_modes
    sort_modes-ends task graphs [] s sound found = ([], s, refl, refl, refl)
    sort_modes-ends task graphs ((mode, sub) ∷ ms) s sound found =
        let (r, s', e, same, covers) =
          sort_known-ends sub (get i.repetition_vectors (task, mode)) s sound.0 in
        let (rs, s2, e2, same2, ok) = sort_modes-ends task graphs ms s' sound.1 found.1 in
        (
          elim r [ none ↦ rs | some x ↦ (mode, x) ∷ rs ],
          s2,
          simp (e, e2, sort_modes, ◌>>=◌),
          same2 ∙ same,
          check_modes-add graphs mode sub found.0 r rs covers ok,
        )

    sort_task-ends :
        (task : String) (g : TaskGraph X) (s : State X)
        → IsSoundTask g
        → (r : Option TaskSchedule) × (s' : State X) × (sort_task i task g s ≡ some (r, s'))
          × (s'.task_schedules ≡ s.task_schedules)
          × CoversTask r g
    unfolding sort_task
    sort_task-ends task (TaskGraph.pipeline sub) s sound =
        let (r, s', e, same, covers) =
          sort_known-ends sub (get i.repetition_vectors (task, "pipeline")) s sound in
        (
          elim r [ none ↦ none | some x ↦ some (TaskSchedule.pipeline x) ],
          s',
          simp (e, sort_task, ◌>>=◌),
          same,
          Covers-pipeline sub r covers,
        )
    sort_task-ends task (TaskGraph.modal control modes) s sound =
        let (r, s', e, same, covers) =
          sort_known-ends control (get i.repetition_vectors (task, "control")) s sound.0 in
        let (rs, s2, e2, same2, ok) =
          sort_modes-ends task modes modes s' sound.1 (AreFound-self modes sound.2) in
        elim (Option-cases r) [
          | inr r_none ↦ (none, s', simp (e, r_none, sort_task, ◌>>=◌), same, tt)
          | inl (x, r_some) ↦ (
            some (TaskSchedule.modal x rs),
            s2,
            simp (e, r_some, e2, sort_task, ◌>>=◌),
            same2 ∙ same,
            covers_modal control modes x rs (rw r_some at covers) ok,
          )
        ]

    record_task_lem :
        (task : TaskClock X) (x : TaskSchedule) (s : State X)
        → (m : TaskMeta X) × (m.schedule ≡ x)
          × ((record_task i task x s).task_schedules ≡ insert s.task_schedules task.name m)
    unfolding record_task
    record_task_lem task x s = (
      record {
        schedule = x;
        k_factor = compute_k_factor X task.freq_hz i.tick_rate_hz;
        freq_hz = task.freq_hz;
      },
      refl,
      ground arith,
    )

    -- Every entry of the schedules passes the check of its task.
    abbrev Passes : String × TaskMeta X → Type 0
    Passes (name, m) =
        (elim (get i.graph.tasks name) [ none ↦ false | some g ↦ check_task m.schedule g ]) ≡ true

    All-insert :
        (tasks : Map String (TaskMeta X)) (name : String) (m : TaskMeta X)
        → All Passes tasks
        → Passes (name, m)
        → All Passes (insert tasks name m)
    All-insert [] name m h p = (p, tt)
    All-insert ((name', m') ∷ tasks) name m h p = elim (Bool-cases (name' == name)) [
      | inl same ↦ rw same (p, h.1)
      | inr other ↦ rw other (h.0, All-insert tasks name m h.1 p)
    ]

    schedule_graph-ends :
        (task : TaskClock X) (g : TaskGraph X) (s : State X)
        → get i.graph.tasks task.name ≡ some g
        → IsSoundTask g
        → All Passes s.task_schedules
        → (s' : State X) × (schedule_graph i task g s ≡ some s') × All Passes s'.task_schedules
    unfolding schedule_graph
    schedule_graph-ends task g s known sound passes =
        let (r, s', e, same, covers) = sort_task-ends task.name g s sound in
        elim (Option-cases r) [
          | inr r_none ↦ (s', simp (e, r_none, schedule_graph), rw same passes)
          | inl (x, r_some) ↦
              let (m, m_is, inserted) = record_task_lem task x s' in
              (
                record_task i task x s',
                simp (e, r_some, schedule_graph),
                rw (inserted, same)
                    (All-insert s.task_schedules task.name m passes
                      (simp (known, m_is) (rw r_some at covers))),
              )
        ]

    module _
        (sounds : (name : String) (g : TaskGraph X)
          → get i.graph.tasks name ≡ some g
          → IsSoundTask g) where
      schedule_tasks-ends :
          (tasks : List (TaskClock X)) (s : State X)
          → All Passes s.task_schedules
          → (s' : State X) × (schedule_tasks i tasks s ≡ some s') × All Passes s'.task_schedules
      unfolding schedule_tasks schedule_task
      schedule_tasks-ends [] s passes = (s, refl, passes)
      schedule_tasks-ends (task ∷ tasks) s passes =
          elim (Option-cases (get i.graph.tasks task.name)) [
            | inr unknown ↦
                let (s', e, passes') = schedule_tasks-ends tasks s passes in
                (s', simp (unknown, schedule_tasks, schedule_task) e, passes')
            | inl (g, known) ↦
                let (s1, e1, passes1) =
                  schedule_graph-ends task g s known (sounds task.name g known) passes in
                let (s', e, passes') = schedule_tasks-ends tasks s1 passes1 in
                (s', simp (known, e1, schedule_tasks, schedule_task) e, passes')
          ]

      s2_of_Passes :
          (tasks : Map String (TaskMeta X))
          → All Passes tasks
          → verify_s2_all_nodes_fired tasks i.graph ≡ true
      unfolding verify_s2_all_nodes_fired
      s2_of_Passes [] h = refl
      s2_of_Passes ((name, m) ∷ tasks) h = ground (arith, h.0, s2_of_Passes tasks h.1)

      -- For a program whose task graphs are sound and name no mode twice, `schedule` ends, and what
      -- it returns passes the check S2 (`verify_s2_all_nodes_fired`).
      pub schedule-passes :
          (s : State X) × (schedule i ≡ some s)
          × (verify_s2_all_nodes_fired s.task_schedules i.graph ≡ true)
      unfolding schedule
      schedule-passes =
          let (s, e, passes) =
            schedule_tasks-ends i.tasks (record { diagnostics = []; task_schedules = [] }) tt in
          (s, e, s2_of_Passes s.task_schedules passes)
