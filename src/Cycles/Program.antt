-- ===== src/Cycles/Program.antt =====
-- The cycles of a whole program (compiler/src/graph.rs, `GraphBuilder::detect_all_cycles`).
use mathlib.Core.List
use pipeit.Base.{◌≡◌, refl, sym, ap, ◌∙◌, List, [], ◌∷◌, ◌++◌, map, String}
use pipeit.Outcome.{Run, done, panic, out_of_fuel, ◌>>=◌}
use pipeit.Extern.{Extern}
use pipeit.Graph.{NodeId, Subgraph, TaskGraph}
use pipeit.SubgraphIndex.{subgraphs_of}
use pipeit.Cycles.{detect_cycles_in_subgraph, detect_modes, detect_in_task, detect_all_cycles}
use pipeit.Cycles.Detect.{detect_cycles_in_subgraph-Grows}

abbrev pub returned : Run (List (List NodeId)) → List (List NodeId)
returned (done cycles) = cycles
returned panic = []
returned out_of_fuel = []

module _ {X : Extern} where
  abbrev pub cycles_of : Subgraph X → List (List NodeId)
  cycles_of sub = returned (detect_cycles_in_subgraph sub)

  abbrev pub cycles_of_all : List (Subgraph X) → List (List NodeId)
  cycles_of_all [] = []
  cycles_of_all (sub ∷ subs) = cycles_of sub ++ cycles_of_all subs

  -- The cycles of the subgraphs of the tasks, in order.
  abbrev pub program_cycles : List (String × TaskGraph X) → List (List NodeId)
  program_cycles [] = []
  program_cycles ((_, task_graph) ∷ tasks) =
      cycles_of_all (subgraphs_of task_graph) ++ program_cycles tasks

  cycles_of_lem : (sub : Subgraph X) → detect_cycles_in_subgraph sub ≡ done (cycles_of sub)
  cycles_of_lem sub =
      let (cycles, e, _, _) = detect_cycles_in_subgraph-Grows sub in
      e ∙ ap (λ l. done l) (sym (ap returned e))

  detect_modes_lem :
      (modes : List (String × Subgraph X)) (cycles : List (List NodeId))
      → detect_modes modes cycles ≡ done (cycles ++ cycles_of_all (map (λ m. m.1) modes))
  unfolding detect_modes
  detect_modes_lem [] cycles = rw (List.append-nil cycles) refl
  detect_modes_lem ((_, sub) ∷ modes) cycles =
      ap (λ (r : Run (List (List NodeId))). r >>= λ more. detect_modes modes (cycles ++ more))
        (cycles_of_lem sub)
      ∙ detect_modes_lem modes (cycles ++ cycles_of sub)
      ∙ ap (λ l. done l)
          (List.append_assoc cycles (cycles_of sub) (cycles_of_all (map (λ m. m.1) modes)))

  detect_in_task_lem :
      (task_graph : TaskGraph X) (cycles : List (List NodeId))
      → detect_in_task task_graph cycles ≡ done (cycles ++ cycles_of_all (subgraphs_of task_graph))
  unfolding detect_in_task subgraphs_of
  detect_in_task_lem (TaskGraph.pipeline sub) cycles =
      ap (λ (r : Run (List (List NodeId))). r >>= λ more. done (cycles ++ more)) (cycles_of_lem sub)
      ∙ ap (λ l. done (cycles ++ l)) (sym (List.append-nil (cycles_of sub)))
  detect_in_task_lem (TaskGraph.modal control modes) cycles =
      ap (λ (r : Run (List (List NodeId))). r >>= λ more. detect_modes modes (cycles ++ more))
        (cycles_of_lem control)
      ∙ detect_modes_lem modes (cycles ++ cycles_of control)
      ∙ ap (λ l. done l)
          (List.append_assoc cycles (cycles_of control) (cycles_of_all (map (λ m. m.1) modes)))

  -- The detection ends for every program, and returns the cycles of all subgraphs, in the order of the
  -- tasks, a control subgraph before the modes.
  pub detect_all_cycles_lem :
      (tasks : List (String × TaskGraph X)) (cycles : List (List NodeId))
      → detect_all_cycles tasks cycles ≡ done (cycles ++ program_cycles tasks)
  unfolding detect_all_cycles
  detect_all_cycles_lem [] cycles = rw (List.append-nil cycles) refl
  detect_all_cycles_lem ((name, task_graph) ∷ tasks) cycles =
      ap (λ (r : Run (List (List NodeId))). r >>= detect_all_cycles tasks)
        (detect_in_task_lem task_graph cycles)
      ∙ detect_all_cycles_lem tasks (cycles ++ cycles_of_all (subgraphs_of task_graph))
      ∙ ap (λ l. done l)
          (List.append_assoc cycles (cycles_of_all (subgraphs_of task_graph))
            (program_cycles tasks))
