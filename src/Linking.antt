-- ===== src/Linking.antt =====
-- The edges between tasks, compiler/src/graph.rs: the search for the node of a shared buffer, and
-- the loop over the buffers that compiler/src/resolve.rs has found. The code reads the HashMap of
-- buffers in any order; here the order is that of a list.
pub mod Ends
pub mod Complete
pub mod Tests
use pipeit.Base.{
  Bool, true, false, Option, none, some, List, [], ◌∷◌, ◌++◌, String, Map, get, find, ◌==◌,
  string_eq,
}
use pipeit.Extern.{Extern}
use pipeit.Graph.{
  NodeId, NodeKind, buffer_read, buffer_write, Node, Subgraph, TaskGraph, InterTaskEdge,
}
use pipeit.SubgraphIndex.{subgraphs_of}

-- The fields of a buffer that the linking reads; the span of a reader is left out.
pub record BufferInfo : Type 0 where
  pub writer_task : String
  pub readers : List String

module _ {X : Extern} where
  -- The two guarded arms of the `match`.
  abbrev pub is_buffer_node : String → Bool → NodeKind X → Bool
  is_buffer_node buffer_name true (buffer_write name) = name == buffer_name
  is_buffer_node buffer_name false (buffer_read name) = name == buffer_name
  is_buffer_node buffer_name _ _ = false

  unfoldable pub find_in_subgraphs : String → Bool → List (Subgraph X) → Option NodeId
  find_in_subgraphs buffer_name is_write [] = none
  find_in_subgraphs buffer_name is_write (sub ∷ subs) =
      elim (find (λ n. is_buffer_node buffer_name is_write n.kind) sub.nodes) [
        | some n ↦ some n.id
        | none ↦ find_in_subgraphs buffer_name is_write subs
      ]

  unfoldable pub find_buffer_node_in_task : TaskGraph X → String → Bool → Option NodeId
  find_buffer_node_in_task g buffer_name is_write =
      find_in_subgraphs buffer_name is_write (subgraphs_of g)

  unfoldable pub find_buffer_node :
      Map String (TaskGraph X) → Bool → String → String → Option NodeId
  find_buffer_node tasks is_write task_name buffer_name = elim (get tasks task_name) [
    | none ↦ none
    | some g ↦ find_buffer_node_in_task g buffer_name is_write
  ]

  -- One round of the loop over the readers of a buffer, for the nodes that were found.
  unfoldable pub join_nodes :
      String
      → String
      → String
      → Option NodeId
      → Option NodeId
      → List (InterTaskEdge X)
      → List (InterTaskEdge X)
  join_nodes buf_name writer_task reader_task (some w_node) (some r_node) edges =
      edges
      ++ (record {
        buffer_name = buf_name;
        writer_task = writer_task;
        writer_node = w_node;
        reader_task = reader_task;
        reader_node = r_node;
      })
        ∷ []
  join_nodes buf_name writer_task reader_task _ _ edges = edges

  unfoldable pub link_readers :
      Map String (TaskGraph X)
      → String
      → String
      → List String
      → List (InterTaskEdge X)
      → List (InterTaskEdge X)
  link_readers tasks buf_name writer_task [] edges = edges
  link_readers tasks buf_name writer_task (reader ∷ readers) edges =
      link_readers tasks buf_name writer_task readers (
        join_nodes buf_name writer_task reader (find_buffer_node tasks true writer_task buf_name)
          (find_buffer_node tasks false reader buf_name) edges)

  unfoldable pub link_inter_task_edges :
      Map String (TaskGraph X)
      → List (String × BufferInfo)
      → List (InterTaskEdge X)
      → List (InterTaskEdge X)
  link_inter_task_edges tasks [] edges = edges
  link_inter_task_edges tasks ((buf_name, info) ∷ buffers) edges =
      link_inter_task_edges tasks buffers
        (link_readers tasks buf_name info.writer_task info.readers edges)
