-- ===== src/Feedback/Nodes.antt =====
-- The index of all nodes and the scan of all subgraphs find the same node
-- (compiler/src/analyze.rs, `find_node_in_any_subgraph`).
use native.Mathlib.Nat
use pipeit.Base.{
  ℕ, zero, suc, ◌+◌, ◌<◌, ◌≡◌, refl, sym, ap, subst, ◌∙◌, none, some, List, [], ◌∷◌, ◌++◌, inl, inr,
  All, All-insert, All-get, Map, get, insert, find, map, count, length, get_elem?, Bool-cases,
  Option-cases, nat_eq, arith, ◌==◌,
}
use pipeit.Extern.{Extern}
use pipeit.Graph.{NodeId, Node, Subgraph}
use pipeit.SubgraphIndex.{should_index, find_node}
use pipeit.SubgraphIndex.Agree.{IsDistinct}
use pipeit.Feedback.{
  index_positions, index_subgraphs, build_global_node_index, scan_subgraphs,
  find_node_in_any_subgraph,
}

module _ {X : Extern} where
  abbrev pub all_nodes : List (Subgraph X) → List (Node X)
  all_nodes [] = []
  all_nodes (sub ∷ subs) = sub.nodes ++ all_nodes subs

  abbrev pub ids : List (Node X) → List NodeId
  ids ns = map (λ n. n.id) ns

  find-append :
      (ns ms : List (Node X)) (v : NodeId)
      → find (λ n. n.id == v) (ns ++ ms) ≡ elim (find (λ (n : Node X). n.id == v) ns) [
        | some n ↦ some n
        | none ↦ find (λ n. n.id == v) ms
      ]
  find-append [] ms v = refl
  find-append (n ∷ ns) ms v = ground (arith, find-append ns ms v)

  scan_subgraphs-find :
      (subs : List (Subgraph X)) (v : NodeId)
      → scan_subgraphs subs v ≡ find (λ n. n.id == v) (all_nodes subs)
  unfolding scan_subgraphs find_node
  scan_subgraphs-find [] v = refl
  scan_subgraphs-find (sub ∷ subs) v =
      ground (arith, scan_subgraphs-find subs v, find-append sub.nodes (all_nodes subs) v)

  count_at :
      (ns : List (Node X)) (i : ℕ) (n : Node X) → get_elem? ns i ≡ some n → 0 < count n.id (ids ns)
  unfolding count
  count_at [] i n h = cc
  count_at (x ∷ ns) zero n h = ground arith
  count_at (x ∷ ns) (suc i) n h = ground (arith, count_at ns i n)

  pub find_unique :
      (ns : List (Node X)) (i : ℕ) (n : Node X)
      → IsDistinct (ids ns)
      → get_elem? ns i ≡ some n
      → find (λ x. x.id == n.id) ns ≡ some n
  unfolding count
  find_unique [] i n distinct h = cc
  find_unique (x ∷ ns) zero n distinct h = ground arith
  find_unique (x ∷ ns) (suc i) n distinct h =
      ground (
        arith,
        distinct n.id,
        count_at ns i n,
        find_unique ns i n (λ a. ground (arith, distinct a)),
      )

  pub get-append_left :
      (ns ms : List (Node X)) (i : ℕ) (n : Node X)
      → get_elem? ns i ≡ some n
      → get_elem? (ns ++ ms) i ≡ some n
  get-append_left [] ms i n h = cc
  get-append_left (x ∷ ns) ms zero n h = h
  get-append_left (x ∷ ns) ms (suc i) n h = get-append_left ns ms i n h

  pub get-append_right :
      (ns ms : List (Node X)) (i : ℕ) → get_elem? (ns ++ ms) (length ns + i) ≡ get_elem? ms i
  get-append_right [] ms i = rw (Nat.zero-add i) refl
  get-append_right (x ∷ ns) ms i = rw (Nat.suc-add (length ns) i) (get-append_right ns ms i)

  pub position_in_all :
      (subs : List (Subgraph X)) (key pos : ℕ) (sub : Subgraph X) (n : Node X)
      → get_elem? subs key ≡ some sub
      → get_elem? sub.nodes pos ≡ some n
      → (i : ℕ) × (get_elem? (all_nodes subs) i ≡ some n)
  position_in_all [] key pos sub n at_key at_pos = cc
  position_in_all (s ∷ subs) zero pos sub n at_key at_pos =
      let same : s ≡ sub = cc in
      (pos, get-append_left s.nodes (all_nodes subs) pos n (rw same at_pos))
  position_in_all (s ∷ subs) (suc key) pos sub n at_key at_pos =
      let (i, at_i) = position_in_all subs key pos sub n at_key at_pos in
      (length s.nodes + i, get-append_right s.nodes (all_nodes subs) i ∙ at_i)

  -- The entry leads to a node with the id.
  abbrev Leads : List (Subgraph X) → NodeId × (ℕ × ℕ) → Type 0
  Leads subs (id, (key, pos)) =
      (sub : Subgraph X) × (n : Node X) × (get_elem? subs key ≡ some sub)
      × (get_elem? sub.nodes pos ≡ some n)
      × (n.id ≡ id)

  index_positions-All :
      (subs : List (Subgraph X)) (sub : Subgraph X) (key i : ℕ) (ns : List (Node X))
      (nodes : Map NodeId (ℕ × ℕ))
      → get_elem? subs key ≡ some sub
      → ((j : ℕ) → get_elem? sub.nodes (i + j) ≡ get_elem? ns j)
      → All (Leads subs) nodes
      → All (Leads subs) (index_positions key i ns nodes)
  unfolding index_positions
  index_positions-All subs sub key i [] nodes at_key suffix h = h
  index_positions-All subs sub key i (n ∷ ns) nodes at_key suffix h =
      let here : get_elem? sub.nodes i ≡ some n =
        subst (λ (k : ℕ). get_elem? sub.nodes k ≡ some n) (omega arith) (suffix 0) in
      index_positions-All subs sub key (suc i) ns (insert nodes n.id (key, i)) at_key
        (λ j.
          ap (λ (k : ℕ). get_elem? sub.nodes k) (let e : suc i + j ≡ i + suc j = omega arith in e)
          ∙ suffix (suc j))
        (All-insert (Leads subs) nodes n.id (key, i) h (sub, n, at_key, here, refl))

  index_subgraphs-All :
      (all : List (Subgraph X)) (key : ℕ) (subs : List (Subgraph X)) (nodes : Map NodeId (ℕ × ℕ))
      → ((j : ℕ) → get_elem? all (key + j) ≡ get_elem? subs j)
      → All (Leads all) nodes
      → All (Leads all) (index_subgraphs key subs nodes)
  unfolding index_subgraphs
  index_subgraphs-All all key [] nodes suffix h = h
  index_subgraphs-All all key (sub ∷ subs) nodes suffix h =
      let here : get_elem? all key ≡ some sub =
        subst (λ (k : ℕ). get_elem? all k ≡ some sub) (omega arith) (suffix 0) in
      let onward = λ (m : Map NodeId (ℕ × ℕ)) (k : All (Leads all) m).
        index_subgraphs-All all (suc key) subs m
          (λ j.
            ap (λ (k : ℕ). get_elem? all k) (let e : suc key + j ≡ key + suc j = omega arith in e)
            ∙ suffix (suc j))
          k in
      elim (Bool-cases (should_index sub)) [
        | inr small ↦ rw small (onward nodes h)
        | inl large ↦ rw large (
            onward (index_positions key 0 sub.nodes nodes) (
              index_positions-All all sub key 0 sub.nodes nodes here
                (λ j. ap (λ (k : ℕ). get_elem? sub.nodes k) (Nat.zero-add j)) h))
      ]

  pub find_node_in_any_subgraph-find :
      (subs : List (Subgraph X)) (v : NodeId)
      → IsDistinct (ids (all_nodes subs))
      → find_node_in_any_subgraph subs v ≡ find (λ n. n.id == v) (all_nodes subs)
  unfolding find_node_in_any_subgraph build_global_node_index
  find_node_in_any_subgraph-find subs v distinct =
      let sound : All (Leads subs) (build_global_node_index subs) =
        index_subgraphs-All subs 0 subs [] (λ j. ap (λ (k : ℕ). get_elem? subs k) (Nat.zero-add j))
          tt in
      elim (Option-cases (get (build_global_node_index subs) v)) [
        | inr absent ↦ rw (absent, find_node_in_any_subgraph) (scan_subgraphs-find subs v)
        | inl ((key, pos), present) ↦
            let (sub, n, at_key, at_pos, same) =
              All-get (Leads subs) (build_global_node_index subs) v (key, pos) sound present in
            let (i, at_i) = position_in_all subs key pos sub n at_key at_pos in
            rw (present, find_node_in_any_subgraph, at_key, at_pos)
              (sym (
                subst (λ (x : NodeId). find (λ m. m.id == x) (all_nodes subs) ≡ some n) same
                  (find_unique (all_nodes subs) i n distinct at_i)))
      ]
