-- ===== src/Builder/Program.antt =====
-- The subgraphs of all tasks that compiler/src/graph.rs builds share no node id.
use pipeit.Base.{
  ◌+◌, ◌≤◌, ◌≡◌, refl, List, [], ◌∷◌, ◌++◌, String, Map, insert, All, count, arith, string_eq,
  Bool-cases, inl, inr, ◌==◌,
}
use pipeit.Extern.{Extern}
use pipeit.Graph.{NodeId, Subgraph, TaskGraph}
use pipeit.Hir.{HirPipeline, HirTaskBody, HirTask}
use pipeit.SubgraphIndex.{subgraphs_of}
use pipeit.SubgraphIndex.Agree.{IsDistinct}
use pipeit.Feedback.Nodes.{all_nodes, ids}
use pipeit.Schedule.Runs.{IsSound}
use pipeit.Builder.{GraphBuilder, build_subgraph, build_modes, build_body, build_all_tasks}
use pipeit.Builder.Owns.{uses, uses_append, All-join, Owns, BodyFits, build_body-Owns}

module _ {X : Extern} where
  -- The subgraphs of all tasks.
  abbrev pub program_subgraphs : Map String (TaskGraph X) → List (Subgraph X)
  program_subgraphs [] = []
  program_subgraphs ((name, g) ∷ tasks) = subgraphs_of g ++ program_subgraphs tasks

  -- The builder after one task.
  abbrev pub after : HirTask X → GraphBuilder X → GraphBuilder X
  after task b =
      let (g, b') = build_body task.body b in
      record b' { task_graphs = insert b'.task_graphs task.name g }

  abbrev pub TasksFit : List (HirTask X) → GraphBuilder X → Type 0
  TasksFit [] b = Unit
  TasksFit (task ∷ tasks) b = BodyFits task.body b × TasksFit tasks (after task b)

  build_modes-task_graphs :
      (modes : List (String × HirPipeline X)) (b : GraphBuilder X)
      → (build_modes modes b).1.task_graphs ≡ b.task_graphs
  unfolding build_modes build_subgraph
  build_modes-task_graphs [] b = refl
  build_modes-task_graphs ((name, p) ∷ modes) b =
      build_modes-task_graphs modes (build_subgraph p b).1

  build_body-task_graphs :
      (body : HirTaskBody X) (b : GraphBuilder X)
      → (build_body body b).1.task_graphs ≡ b.task_graphs
  unfolding build_body build_subgraph
  build_body-task_graphs (HirTaskBody.pipeline p) b = refl
  build_body-task_graphs (HirTaskBody.modal m) b =
      build_modes-task_graphs m.modes (build_subgraph m.control b).1

  uses-insert :
      (v : NodeId) (m : Map String (TaskGraph X)) (k : String) (g : TaskGraph X)
      → uses v (program_subgraphs (insert m k g))
        ≤ uses v (program_subgraphs m) + uses v (subgraphs_of g)
  unfolding count
  uses-insert v [] k g = omega (arith, uses_append v (subgraphs_of g) [])
  uses-insert v ((j, h) ∷ m) k g =
      let before = uses_append v (subgraphs_of h) (program_subgraphs m) in
      elim (Bool-cases (j == k)) [
        | inl hit ↦
            rw hit (omega (arith, before, uses_append v (subgraphs_of g) (program_subgraphs m)))
        | inr miss ↦ rw miss (
            omega (
              arith,
              before,
              uses_append v (subgraphs_of h) (program_subgraphs (insert m k g)),
              uses-insert v m k g,
            ))
      ]

  All-rest :
      (P : Subgraph X → Type 0) (xs ys : List (Subgraph X)) → All P (xs ++ ys) → All P xs × All P ys
  All-rest P [] ys h = (tt, h)
  All-rest P (x ∷ xs) ys h = let (left, right) = All-rest P xs ys h.1 in ((h.0, left), right)

  All-insert_task :
      (P : Subgraph X → Type 0) (m : Map String (TaskGraph X)) (k : String) (g : TaskGraph X)
      → All P (program_subgraphs m)
      → All P (subgraphs_of g)
      → All P (program_subgraphs (insert m k g))
  All-insert_task P [] k g h new = All-join P (subgraphs_of g) [] new tt
  All-insert_task P ((j, old) ∷ m) k g h new =
      let (first, rest) = All-rest P (subgraphs_of old) (program_subgraphs m) h in
      elim (Bool-cases (j == k)) [
        | inl hit ↦ rw hit (All-join P (subgraphs_of g) (program_subgraphs m) new rest)
        | inr miss ↦ rw miss (
            All-join P (subgraphs_of old) (program_subgraphs (insert m k g)) first
              (All-insert_task P m k g rest new))
      ]

  -- What the builder keeps from task to task.
  abbrev IsKept : GraphBuilder X → Type 0
  IsKept b = Owns 0 b.next_global_node_id (program_subgraphs b.task_graphs)

  IsKept-after :
      (task : HirTask X) (b : GraphBuilder X)
      → BodyFits task.body b
      → IsKept b
      → IsKept (after task b)
  IsKept-after task b fit kept =
      let new = build_body-Owns task.body b fit in
      let g = (build_body task.body b).0 in
      rw (build_body-task_graphs task.body b) (record {
        grows = omega (arith, kept.grows, new.grows);
        sound = All-insert_task (λ s. IsSound s) b.task_graphs task.name g kept.sound new.sound;
        given = λ v. ground (
          arith,
          uses-insert v b.task_graphs task.name g,
          kept.given v,
          new.given v,
          kept.grows,
          new.grows,
        );
      })

  build_all_tasks-IsKept :
      (tasks : List (HirTask X)) (b : GraphBuilder X)
      → TasksFit tasks b
      → IsKept b
      → IsKept (build_all_tasks tasks b)
  unfolding build_all_tasks
  build_all_tasks-IsKept [] b fit kept = kept
  build_all_tasks-IsKept (task ∷ tasks) b fit kept =
      build_all_tasks-IsKept tasks (after task b) fit.1 (IsKept-after task b fit.0 kept)

  -- Let the builder have no task yet, and let each subgraph that it builds have fewer than 2^32 edges
  -- and find room for its nodes in the node counter of 2^32. Then every subgraph of the tasks is
  -- sound, its edges lead between its nodes, and no node id stands twice in the program.
  pub build_all_tasks-IsDistinct :
      (tasks : List (HirTask X)) (b : GraphBuilder X)
      → b.task_graphs ≡ []
      → TasksFit tasks b
      → All
          (λ (s : Subgraph X). IsSound s)
          (program_subgraphs (build_all_tasks tasks b).task_graphs)
        × IsDistinct (ids (all_nodes (program_subgraphs (build_all_tasks tasks b).task_graphs)))
  unfolding count
  build_all_tasks-IsDistinct tasks b empty fit =
      let none_yet : IsKept b =
        rw empty (record { grows = omega arith; sound = tt; given = λ v. omega arith }) in
      let kept = build_all_tasks-IsKept tasks b fit none_yet in
      (kept.sound, λ v. ground (arith, kept.given v))
