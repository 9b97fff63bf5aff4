-- ===== src/Cycles.antt =====
-- The cycles of a subgraph, `detect_all_cycles` and what it calls in compiler/src/graph.rs. A call of
-- `dfs_cycle` takes fuel for the calls below it.
pub mod Adjacency
pub mod Walks
pub mod Colors
pub mod Calls
pub mod Detect
pub mod Program
pub mod Sorts
pub mod Tests
use pipeit.Base.{
  ℕ, zero, suc, ◌+◌, Bool, Option, none, some, List, [], ◌∷◌, ◌++◌, Map, get, get_or, insert,
  or_insert, update, position, length, eqb, if◌then◌else◌, nat_eq, String,
}
use pipeit.Outcome.{Run, done, panic, out_of_fuel, ◌>>=◌}
use pipeit.Extern.{Extern}
use pipeit.Graph.{NodeId, Node, Edge, Subgraph, TaskGraph}

-- The collections of the search; a node is unvisited at 0, in progress at 1, and done at 2.
pub record Dfs : Type 0 where
  pub visited : Map NodeId ℕ
  pub path : List NodeId
  pub cycles : List (List NodeId)

-- `path.pop()`
unfoldable pub pop : List NodeId → List NodeId
pop [] = []
pop (x ∷ xs) = elim xs [ [] ↦ [] | _ ∷ _ ↦ x ∷ pop xs ]

-- `&path[pos..]`
unfoldable pub drop : ℕ → List NodeId → List NodeId
drop zero xs = xs
drop (suc i) [] = []
drop (suc i) (x ∷ xs) = drop i xs

-- A neighbor that is in progress closes a cycle.
unfoldable pub close_cycle : NodeId → Dfs → Dfs
close_cycle next s = elim (position (λ n. eqb n next) s.path) [
  | none ↦ s
  | some pos ↦ record s { cycles = s.cycles ++ drop pos s.path ∷ [] }
]

-- The body of the loop over the neighbors, where `visit` is `dfs_cycle`.
unfoldable pub meet : (NodeId → Dfs → Run Dfs) → NodeId → Dfs → Run Dfs
meet visit next s =
    let color = get_or s.visited next 0 in
    if eqb color 0 then visit next s else if eqb color 1 then done (close_cycle next s) else done s

unfoldable pub meet_all : (NodeId → Dfs → Run Dfs) → List NodeId → Dfs → Run Dfs
meet_all visit [] s = done s
meet_all visit (n ∷ ns) s = meet visit n s >>= meet_all visit ns

unfoldable pub mark_begun : NodeId → Dfs → Dfs
mark_begun node s = record s { visited = insert s.visited node 1; path = s.path ++ node ∷ [] }

unfoldable pub mark_done : NodeId → Dfs → Dfs
mark_done node s = record s { visited = insert s.visited node 2; path = pop s.path }

module _ (adj : Map NodeId (List NodeId)) where
  unfoldable pub dfs_cycle : ℕ → NodeId → Dfs → Run Dfs
  dfs_cycle zero node s = out_of_fuel
  dfs_cycle (suc fuel) node s = do
    let neighbors : List NodeId = elim (get adj node) [ none ↦ [] | some ns ↦ ns ]
    t ← meet_all (dfs_cycle fuel) neighbors (mark_begun node s)
    done (mark_done node t)

  module _ {X : Extern} where
    unfoldable pub dfs_all : ℕ → List (Node X) → Dfs → Run Dfs
    dfs_all fuel [] s = done s
    dfs_all fuel (n ∷ ns) s =
        let first = dfs_cycle fuel n.id s in
        (if eqb (get_or s.visited n.id 0) 0 then first else done s) >>= dfs_all fuel ns

module _ {X : Extern} where
  unfoldable pub add_nodes : List (Node X) → Map NodeId (List NodeId) → Map NodeId (List NodeId)
  add_nodes [] adj = adj
  add_nodes (n ∷ ns) adj = add_nodes ns (or_insert adj n.id [])

  unfoldable pub add_edges : List (Edge X) → Map NodeId (List NodeId) → Map NodeId (List NodeId)
  add_edges [] adj = adj
  add_edges (e ∷ es) adj = add_edges es (update adj e.source [] (λ ns. ns ++ e.target ∷ []))

  unfoldable pub adjacency_of : Subgraph X → Map NodeId (List NodeId)
  unfolding add_nodes add_edges
  adjacency_of sub = add_edges sub.edges (add_nodes sub.nodes [])

  -- A call is for a node that was unvisited, and each is a node or the target of an edge, so that
  -- calls nest at most this deep.
  unfoldable pub detect_cycles_in_subgraph : Subgraph X → Run (List (List NodeId))
  detect_cycles_in_subgraph sub = elim sub.nodes [
    | [] ↦ done []
    | _ ∷ _ ↦
        dfs_all (adjacency_of sub) (length sub.nodes + length sub.edges) sub.nodes
          (record { visited = []; path = []; cycles = [] })
        >>= λ s. done s.cycles
  ]

  unfoldable pub detect_modes :
      List (String × Subgraph X) → List (List NodeId) → Run (List (List NodeId))
  detect_modes [] cycles = done cycles
  detect_modes ((_, sub) ∷ modes) cycles =
      detect_cycles_in_subgraph sub >>= λ more. detect_modes modes (cycles ++ more)

  unfoldable pub detect_in_task : TaskGraph X → List (List NodeId) → Run (List (List NodeId))
  detect_in_task (TaskGraph.pipeline sub) cycles =
      detect_cycles_in_subgraph sub >>= λ more. done (cycles ++ more)
  detect_in_task (TaskGraph.modal control modes) cycles =
      detect_cycles_in_subgraph control >>= λ more. detect_modes modes (cycles ++ more)

  -- The loop over the tasks.
  unfoldable pub detect_all_cycles :
      List (String × TaskGraph X) → List (List NodeId) → Run (List (List NodeId))
  detect_all_cycles [] cycles = done cycles
  detect_all_cycles ((_, task_graph) ∷ tasks) cycles =
      detect_in_task task_graph cycles >>= detect_all_cycles tasks
