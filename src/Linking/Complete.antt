-- ===== src/Linking/Complete.antt =====
-- No reader of a shared buffer is left out (compiler/src/graph.rs).
use mathlib.Core.List.{Memᴰ}
use pipeit.Base.{
  find-some, Bool, find, Option-cases, string_eq, inl, inr, ◌≡◌, refl, ap, true, false, Option,
  some, List, [], ◌∷◌, ◌++◌, String, Map,
}
use pipeit.Extern.{Extern}
use pipeit.SubgraphIndex.{subgraphs_of}
use pipeit.Linking.Ends.{buffer_kind, StandsIn, HasNode, find_buffer_node-HasNode}
use pipeit.Graph.{Node, Subgraph, NodeId, TaskGraph, InterTaskEdge}
use pipeit.Linking.{
  is_buffer_node, find_in_subgraphs, find_buffer_node_in_task, BufferInfo, find_buffer_node,
  join_nodes, link_readers, link_inter_task_edges,
}

module _ {A : Type 0} where
  Mem-left : (xs ys : List A) (a : A) → Memᴰ a xs → Memᴰ a (xs ++ ys)
  Mem-left [] ys a h = elim h [ ]
  Mem-left (x ∷ xs) ys a (Memᴰ.head same) = Memᴰ.head same
  Mem-left (x ∷ xs) ys a (Memᴰ.tail h) = Memᴰ.tail (Mem-left xs ys a h)

  Mem-last : (xs : List A) (a : A) → Memᴰ a (xs ++ a ∷ [])
  Mem-last [] a = Memᴰ.head refl
  Mem-last (x ∷ xs) a = Memᴰ.tail (Mem-last xs a)

module _ {X : Extern} (tasks : Map String (TaskGraph X)) where
  join_nodes-keeps :
      (name writer reader : String) (w r : Option NodeId) (edges : List (InterTaskEdge X))
      (e : InterTaskEdge X)
      → Memᴰ e edges
      → Memᴰ e (join_nodes name writer reader w r edges)
  unfolding join_nodes
  join_nodes-keeps name writer reader (some w) (some r) edges e h = Mem-left edges _ e h
  join_nodes-keeps name writer reader _ _ edges e h = h

  link_readers-keeps :
      (name writer : String) (readers : List String) (edges : List (InterTaskEdge X))
      (e : InterTaskEdge X)
      → Memᴰ e edges
      → Memᴰ e (link_readers tasks name writer readers edges)
  unfolding link_readers
  link_readers-keeps name writer [] edges e h = h
  link_readers-keeps name writer (reader ∷ readers) edges e h =
      link_readers-keeps name writer readers _ e (join_nodes-keeps name writer reader _ _ edges e h)

  link_inter_task_edges-keeps :
      (buffers : List (String × BufferInfo)) (edges : List (InterTaskEdge X)) (e : InterTaskEdge X)
      → Memᴰ e edges
      → Memᴰ e (link_inter_task_edges tasks buffers edges)
  unfolding link_inter_task_edges
  link_inter_task_edges-keeps [] edges e h = h
  link_inter_task_edges-keeps ((name, info) ∷ buffers) edges e h =
      link_inter_task_edges-keeps buffers _ e
        (link_readers-keeps name info.writer_task info.readers edges e h)

  -- The edge of a buffer from `w` to `r`.
  abbrev pub joined : String → String → String → NodeId → NodeId → InterTaskEdge X
  joined name writer reader w r = record {
    buffer_name = name;
    writer_task = writer;
    writer_node = w;
    reader_task = reader;
    reader_node = r;
  }

  link_readers-adds :
      (name writer reader : String) (w r : NodeId) (readers : List String)
      (edges : List (InterTaskEdge X))
      → find_buffer_node tasks true writer name ≡ some w
      → find_buffer_node tasks false reader name ≡ some r
      → Memᴰ reader readers
      → Memᴰ (joined name writer reader w r) (link_readers tasks name writer readers edges)
  unfolding link_readers join_nodes
  link_readers-adds name writer reader w r [] edges hw hr m = elim m [ ]
  link_readers-adds name writer reader w r (x ∷ readers) edges hw hr (Memᴰ.tail m) =
      link_readers-adds name writer reader w r readers _ hw hr m
  link_readers-adds name writer reader w r (x ∷ readers) edges hw hr (Memᴰ.head same) =
      rw (← same, hw, hr)
        (link_readers-keeps name writer readers _ (joined name writer reader w r)
          (Mem-last edges _))

  link_inter_task_edges-found :
      (buffers : List (String × BufferInfo)) (edges : List (InterTaskEdge X)) (name reader : String)
      (info : BufferInfo) (w r : NodeId)
      → Memᴰ (name, info) buffers
      → Memᴰ reader info.readers
      → find_buffer_node tasks true info.writer_task name ≡ some w
      → find_buffer_node tasks false reader name ≡ some r
      → Memᴰ (joined name info.writer_task reader w r) (link_inter_task_edges tasks buffers edges)
  unfolding link_inter_task_edges
  link_inter_task_edges-found [] edges name reader info w r m n hw hr = elim m [ ]
  link_inter_task_edges-found ((name', info') ∷ buffers) edges name reader info w r (Memᴰ.tail m) n
        hw hr =
      link_inter_task_edges-found buffers _ name reader info w r m n hw hr
  link_inter_task_edges-found ((name', info') ∷ buffers) edges name reader info w r (Memᴰ.head same)
        n hw hr =
      let same_name : name ≡ name' = ap (λ p. p.0) same in
      let same_info : info ≡ info' = ap (λ p. p.1) same in
      rw (← same_name, ← same_info)
        (link_inter_task_edges-keeps buffers _ _
          (link_readers-adds name info.writer_task reader w r info.readers edges hw hr n))

  is_buffer_node-holds :
      (name : String) (is_write : Bool)
      → is_buffer_node {X = X} name is_write (buffer_kind is_write name) ≡ true
  is_buffer_node-holds name true = (string_eq.equal_iff name name).1 refl
  is_buffer_node-holds name false = (string_eq.equal_iff name name).1 refl

  find_in_subgraphs-some :
      (name : String) (is_write : Bool) (subs : List (Subgraph X)) (v : NodeId)
      → StandsIn name is_write subs v
      → (w : NodeId) × (find_in_subgraphs name is_write subs ≡ some w)
  unfolding find_in_subgraphs
  find_in_subgraphs-some name is_write [] v (sub, n, m, inside, same, kind) = elim m [ ]
  find_in_subgraphs-some name is_write (s ∷ subs) v (sub, n, m, inside, same, kind) =
      let wanted = λ (x : Node X). is_buffer_node name is_write x.kind in
      elim (Option-cases (find wanted s.nodes)) [
        | inl (x, found) ↦ (x.id, rw (find_in_subgraphs, found) refl)
        | inr missing ↦ elim m [
          | Memᴰ.tail later ↦
              let (w, found) =
                find_in_subgraphs-some name is_write subs v (sub, n, later, inside, same, kind) in
              (w, rw (find_in_subgraphs, missing) found)
          | Memᴰ.head at ↦
              let hit : wanted n ≡ true = rw kind (is_buffer_node-holds name is_write) in
              let (x, found) = find-some wanted s.nodes n (rw (← at) inside) hit in absurd cc
        ]
      ]

  find_buffer_node-some :
      (is_write : Bool) (task name : String) (v : NodeId)
      → HasNode tasks is_write task name v
      → (w : NodeId) × (find_buffer_node tasks is_write task name ≡ some w)
  unfolding find_buffer_node find_buffer_node_in_task
  find_buffer_node-some is_write task name v (g, known, stands) =
      let (w, found) = find_in_subgraphs-some name is_write (subgraphs_of g) v stands in
      (w, rw (find_buffer_node, find_buffer_node_in_task, known) found)

  -- Where the writer's task has a `BufferWrite` node of a buffer and the task of one of its readers
  -- has a `BufferRead` node of it, the linking adds an edge of the buffer from such a node of the
  -- writer's task to such a node of the reader's.
  pub link_inter_task_edges-adds :
      (buffers : List (String × BufferInfo)) (edges : List (InterTaskEdge X)) (name reader : String)
      (info : BufferInfo) (written read : NodeId)
      → Memᴰ (name, info) buffers
      → Memᴰ reader info.readers
      → HasNode tasks true info.writer_task name written
      → HasNode tasks false reader name read
      → (w : NodeId) × (r : NodeId) × HasNode tasks true info.writer_task name w
        × HasNode tasks false reader name r
        × Memᴰ (joined name info.writer_task reader w r) (link_inter_task_edges tasks buffers edges)
  link_inter_task_edges-adds buffers edges name reader info written read m n hw hr =
      let (w, found_w) = find_buffer_node-some true info.writer_task name written hw in
      let (r, found_r) = find_buffer_node-some false reader name read hr in
      (
        w,
        r,
        find_buffer_node-HasNode tasks true info.writer_task name w found_w,
        find_buffer_node-HasNode tasks false reader name r found_r,
        link_inter_task_edges-found buffers edges name reader info w r m n found_w found_r,
      )
