-- ===== src/Linking/Ends.antt =====
-- What an edge between tasks joins (compiler/src/graph.rs).
use mathlib.Core.List.{Memᴰ}
use pipeit.Base.{
  find-Mem, ap, refl, ◌≡◌, Bool, true, false, some, List, [], ◌∷◌, String, Map, get, find, All,
  string_eq, Option-cases, inl, inr,
}
use pipeit.Extern.{Extern}
use pipeit.Graph.{NodeId, NodeKind, Node, Subgraph, TaskGraph, InterTaskEdge}
use pipeit.SubgraphIndex.{subgraphs_of}
use pipeit.Builder.Invariant.{All-append}
use pipeit.Linking.{
  BufferInfo, is_buffer_node, find_in_subgraphs, find_buffer_node_in_task, find_buffer_node,
  join_nodes, link_readers, link_inter_task_edges,
}

module _ {X : Extern} where
  -- A node that writes, or reads, the buffer.
  abbrev pub buffer_kind : Bool → String → NodeKind X
  buffer_kind true name = NodeKind.buffer_write name
  buffer_kind false name = NodeKind.buffer_read name

  -- One of the subgraphs has the node `v`, which writes (or reads) the buffer.
  abbrev pub StandsIn : String → Bool → List (Subgraph X) → NodeId → Type 0
  StandsIn buffer_name is_write subs v =
      (sub : Subgraph X) × (n : Node X) × Memᴰ sub subs
      × Memᴰ n sub.nodes
      × (n.id ≡ v)
      × (n.kind ≡ buffer_kind is_write buffer_name)

  is_buffer_node-buffer_kind :
      (name : String) (is_write : Bool) (kind : NodeKind X)
      → is_buffer_node name is_write kind ≡ true
      → kind ≡ buffer_kind is_write name
  is_buffer_node-buffer_kind name true (NodeKind.buffer_write other) h =
      ap (λ s. NodeKind.buffer_write s) ((string_eq.equal_iff other name).0 h)
  is_buffer_node-buffer_kind name false (NodeKind.buffer_read other) h =
      ap (λ s. NodeKind.buffer_read s) ((string_eq.equal_iff other name).0 h)
  is_buffer_node-buffer_kind name _ _ h = absurd cc

  find_in_subgraphs-StandsIn :
      (buffer_name : String) (is_write : Bool) (subs : List (Subgraph X)) (v : NodeId)
      → find_in_subgraphs buffer_name is_write subs ≡ some v
      → StandsIn buffer_name is_write subs v
  unfolding find_in_subgraphs
  find_in_subgraphs-StandsIn buffer_name is_write [] v e = absurd cc
  find_in_subgraphs-StandsIn buffer_name is_write (sub ∷ subs) v e =
      let wanted = λ (x : Node X). is_buffer_node buffer_name is_write x.kind in
      elim (Option-cases (find wanted sub.nodes)) [
        | inl (n, found) ↦
            let same : n.id ≡ v = cc (rw (found, find_in_subgraphs) at e) in
            let (m, holds) = find-Mem wanted sub.nodes n found in
            (
              sub,
              n,
              Memᴰ.head refl,
              m,
              same,
              is_buffer_node-buffer_kind buffer_name is_write n.kind holds,
            )
        | inr missing ↦
            let (at, n, m, inside, named, kind) =
              find_in_subgraphs-StandsIn buffer_name is_write subs v
                (rw (missing, find_in_subgraphs) at e) in
            (at, n, Memᴰ.tail m, inside, named, kind)
      ]

  -- The task has the node, which writes (or reads) the buffer.
  abbrev pub HasNode : Map String (TaskGraph X) → Bool → String → String → NodeId → Type 0
  HasNode tasks is_write task buffer_name v =
      (g : TaskGraph X) × (get tasks task ≡ some g)
      × StandsIn buffer_name is_write (subgraphs_of g) v

  abbrev pub Joins : Map String (TaskGraph X) → InterTaskEdge X → Type 0
  Joins tasks e =
      HasNode tasks true e.writer_task e.buffer_name e.writer_node
      × HasNode tasks false e.reader_task e.buffer_name e.reader_node

  pub find_buffer_node-HasNode :
      (tasks : Map String (TaskGraph X)) (is_write : Bool) (task buffer_name : String) (v : NodeId)
      → find_buffer_node tasks is_write task buffer_name ≡ some v
      → HasNode tasks is_write task buffer_name v
  unfolding find_buffer_node find_buffer_node_in_task
  find_buffer_node-HasNode tasks is_write task buffer_name v e =
      elim (Option-cases (get tasks task)) [
        | inl (g, known) ↦ (
          g,
          known,
          find_in_subgraphs-StandsIn buffer_name is_write (subgraphs_of g) v
              (rw (known, find_buffer_node, find_buffer_node_in_task) at e),
        )
        | inr unknown ↦ absurd (cc (rw (unknown, find_buffer_node) at e))
      ]

  join_nodes-Joins :
      (tasks : Map String (TaskGraph X)) (buf_name writer reader : String)
      (edges : List (InterTaskEdge X))
      → All (Joins tasks) edges
      → All (Joins tasks) (
          join_nodes buf_name writer reader
            (find_buffer_node tasks true writer buf_name)
            (find_buffer_node tasks false reader buf_name)
            edges)
  unfolding join_nodes
  join_nodes-Joins tasks buf_name writer reader edges h =
      elim (Option-cases (find_buffer_node tasks true writer buf_name)) [
        | inr no_writer ↦ rw (no_writer, join_nodes) h
        | inl (w, written) ↦ elim (Option-cases (find_buffer_node tasks false reader buf_name)) [
          | inr no_reader ↦ rw (written, no_reader, join_nodes) h
          | inl (r, read) ↦
              rw (written, read, join_nodes)
                (All-append (Joins tasks) edges _ h (
                  find_buffer_node-HasNode tasks true writer buf_name w written,
                  find_buffer_node-HasNode tasks false reader buf_name r read,
                ))
        ]
      ]

  link_readers-Joins :
      (tasks : Map String (TaskGraph X)) (buf_name writer : String) (readers : List String)
      (edges : List (InterTaskEdge X))
      → All (Joins tasks) edges
      → All (Joins tasks) (link_readers tasks buf_name writer readers edges)
  unfolding link_readers
  link_readers-Joins tasks buf_name writer [] edges h = h
  link_readers-Joins tasks buf_name writer (reader ∷ readers) edges h =
      link_readers-Joins tasks buf_name writer readers _
        (join_nodes-Joins tasks buf_name writer reader edges h)

  -- To link tasks adds only edges that lead from a node of the writer's task that writes the buffer
  -- to a node of the reader's task that reads it.
  pub link_inter_task_edges-Joins :
      (tasks : Map String (TaskGraph X)) (buffers : List (String × BufferInfo))
      (edges : List (InterTaskEdge X))
      → All (Joins tasks) edges
      → All (Joins tasks) (link_inter_task_edges tasks buffers edges)
  unfolding link_inter_task_edges
  link_inter_task_edges-Joins tasks [] edges h = h
  link_inter_task_edges-Joins tasks ((buf_name, info) ∷ buffers) edges h =
      link_inter_task_edges-Joins tasks buffers _
        (link_readers-Joins tasks buf_name info.writer_task info.readers edges h)
