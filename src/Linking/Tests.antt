-- ===== src/Linking/Tests.antt =====
-- A run of the linking of tasks (compiler/src/graph.rs): one task writes a buffer, another reads it.
use mathlib.Core.List.{Memᴰ}
use pipeit.Base.{ℕ, true, false, refl, [], ◌∷◌, All, String, Map, string_eq}
use pipeit.Extern.Sample.{whole}
use pipeit.Graph.{NodeKind, TaskGraph}
use pipeit.SubgraphIndex.{subgraphs_of}
use pipeit.Linking.{BufferInfo, link_inter_task_edges}
use pipeit.Linking.Ends.{HasNode, Joins, link_inter_task_edges-Joins}
use pipeit.Linking.Complete.{joined, link_inter_task_edges-adds}

abbrev one_node : ℕ → NodeKind whole → TaskGraph whole
one_node id kind =
    TaskGraph.pipeline
      (record { nodes = (record { id = id; kind = kind; span = tt }) ∷ []; edges = [] })

abbrev tasks : Map String (TaskGraph whole)
tasks =
    ("w", one_node 3 (NodeKind.buffer_write "b"))
    ∷ ("r", one_node 7 (NodeKind.buffer_read "b"))
    ∷ []

abbrev info : BufferInfo
info = record { writer_task = "w"; readers = "r" ∷ [] }

writer : HasNode tasks true "w" "b" 3
unfolding subgraphs_of
writer = (
  one_node 3 (NodeKind.buffer_write "b"),
  refl,
  (_, _, Memᴰ.head refl, Memᴰ.head refl, refl, refl),
)

reader : HasNode tasks false "r" "b" 7
unfolding subgraphs_of
reader = (
  one_node 7 (NodeKind.buffer_read "b"),
  refl,
  (_, _, Memᴰ.head refl, Memᴰ.head refl, refl, refl),
)

link_inter_task_edges-Joins_example :
    All (Joins tasks) (link_inter_task_edges tasks (("b", info) ∷ []) [])
link_inter_task_edges-Joins_example = link_inter_task_edges-Joins tasks (("b", info) ∷ []) [] tt

link_inter_task_edges-adds_example :
    (w : ℕ) × (r : ℕ) × HasNode tasks true "w" "b" w
    × HasNode tasks false "r" "b" r
    × Memᴰ (joined tasks "b" "w" "r" w r) (link_inter_task_edges tasks (("b", info) ∷ []) [])
link_inter_task_edges-adds_example =
    link_inter_task_edges-adds tasks (("b", info) ∷ []) [] "b" "r" info 3 7 (Memᴰ.head refl)
      (Memᴰ.head refl) writer reader
