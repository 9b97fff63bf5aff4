-- ===== src/SubgraphIndex/BackEdges.antt =====
-- Which edges `identify_back_edges` (compiler/src/subgraph_index.rs) marks.
use mathlib.Core.List.{Memᴰ}
use pipeit.Base.{
  ℕ, zero, suc, ◌+◌, ◌<◌, ◌%◌, ◌≡◌, refl, ◌⊎◌, inl, inr, Bool, true, false, ◌&&◌, Option, none,
  some, List, [], ◌∷◌, length, get_elem?, any, all, has, contains, include, contains-include, ◌==◌,
  if◌then◌else◌, arith, nat_eq, pair_eq, Bool-cases,
}
use pipeit.Extern.{Extern}
use pipeit.Graph.{NodeId, Subgraph, node_ids}
use pipeit.SubgraphIndex.{
  find_node, is_delay, cycle_back_edge, add_cycle, add_cycles, identify_back_edges,
}

-- A step of a cycle: `v` stands behind `u`, or first where `u` is last.
abbrev pub IsStep : List NodeId → NodeId → NodeId → Type 0
IsStep cycle u v =
    (i : ℕ) × (get_elem? cycle i ≡ some u) × (get_elem? cycle ((i + 1) % length cycle) ≡ some v)

-- `rest` is what stands in the cycle from position `i` on.
abbrev IsSuffix : List NodeId → ℕ → List NodeId → Type 0
IsSuffix cycle i rest = (j : ℕ) → get_elem? cycle (i + j) ≡ get_elem? rest j

IsSuffix-tail :
    (cycle : List NodeId) (i nid : ℕ) (rest : List NodeId)
    → IsSuffix cycle i (nid ∷ rest)
    → IsSuffix cycle (suc i) rest
IsSuffix-tail cycle i nid rest s j = ground (arith, s (suc j))

get_elem?-lt : (xs : List ℕ) (i : ℕ) → i < length xs → (x : ℕ) × (get_elem? xs i ≡ some x)
get_elem?-lt [] i h = absurd (omega arith)
get_elem?-lt (x ∷ xs) zero h = (x, refl)
get_elem?-lt (x ∷ xs) (suc i) h = get_elem?-lt xs i (omega arith)

length_of_get_elem? : (xs : List ℕ) (i x : ℕ) → get_elem? xs i ≡ some x → 0 < length xs
length_of_get_elem? [] i x h = cc
length_of_get_elem? (y ∷ xs) i x h = omega arith

next_step :
    (cycle : List NodeId) (i nid : ℕ) (rest : List NodeId)
    → IsSuffix cycle i (nid ∷ rest)
    → (get_elem? cycle i ≡ some nid)
      × ((next : ℕ) × (get_elem? cycle ((i + 1) % length cycle) ≡ some next))
next_step cycle i nid rest s =
    let at_i : get_elem? cycle i ≡ some nid = ground (arith, s 0) in
    (
      at_i,
      get_elem?-lt cycle ((i + 1) % length cycle)
          (grind (arith, length_of_get_elem? cycle i nid at_i)),
    )

hit_cases :
    (b : Bool) (back : List (NodeId × NodeId)) (x y u v : NodeId)
    → contains (if b then include back (x, y) else back) (u, v) ≡ true
    → (contains back (u, v) ≡ true) ⊎ ((b ≡ true) × (x ≡ u) × (y ≡ v))
hit_cases b back x y u v h = ground (arith, contains-include back (x, y) (u, v))

module _ {X : Extern} where
  -- `find_node` gives a delay actor.
  abbrev pub delay_at : Subgraph X → NodeId → Bool
  delay_at sub u = elim (find_node sub u) [ none ↦ false | some n ↦ is_delay n.kind ]

  abbrev pub has_link : Subgraph X → NodeId → NodeId → Bool
  has_link sub u v = any (λ e. e.source == u && e.target == v) sub.edges

  -- One of the cycles lies in the subgraph and steps from `u` to `v`.
  abbrev pub IsOnCycle : Subgraph X → List (List NodeId) → NodeId → NodeId → Type 0
  IsOnCycle sub [] u v = ⊥
  IsOnCycle sub (c ∷ cs) u v =
      ((all (has (node_ids sub)) c ≡ true) × IsStep c u v) ⊎ IsOnCycle sub cs u v

  cycle_back_edge-skip :
      (sub : Subgraph X) (cycle : List NodeId) (i nid : ℕ) (rest : List NodeId)
      (back : List (NodeId × NodeId))
      → delay_at sub nid ≡ false
      → cycle_back_edge sub cycle i (nid ∷ rest) back ≡ cycle_back_edge sub cycle (suc i) rest back
  unfolding cycle_back_edge
  cycle_back_edge-skip sub cycle i nid rest back h = ground arith

  cycle_back_edge-hit :
      (sub : Subgraph X) (cycle : List NodeId) (i nid : ℕ) (rest : List NodeId)
      (back : List (NodeId × NodeId)) (next : NodeId)
      → delay_at sub nid ≡ true
      → get_elem? cycle ((i + 1) % length cycle) ≡ some next
      → cycle_back_edge sub cycle i (nid ∷ rest) back
        ≡ (if has_link sub nid next then include back (nid, next) else back)
  unfolding cycle_back_edge
  cycle_back_edge-hit sub cycle i nid rest back next h e = ground arith

  cycle_back_edge_sound :
      (sub : Subgraph X) (cycle : List NodeId) (i : ℕ) (rest : List NodeId)
      (back : List (NodeId × NodeId)) (u v : NodeId)
      → IsSuffix cycle i rest
      → contains (cycle_back_edge sub cycle i rest back) (u, v) ≡ true
      → (contains back (u, v) ≡ true)
        ⊎ ((delay_at sub u ≡ true) × (has_link sub u v ≡ true) × IsStep cycle u v)
  unfolding cycle_back_edge
  cycle_back_edge_sound sub cycle i [] back u v s h = inl h
  cycle_back_edge_sound sub cycle i (nid ∷ rest) back u v s h =
      elim (Bool-cases (delay_at sub nid)) [
        | inr other ↦
            cycle_back_edge_sound sub cycle (suc i) rest back u v (IsSuffix-tail cycle i nid rest s)
              (rw (cycle_back_edge-skip sub cycle i nid rest back other) at h)
        | inl delay ↦
            let (at_i, (next, at_next)) = next_step cycle i nid rest s in
            let marked =
              rw (cycle_back_edge-hit sub cycle i nid rest back next delay at_next) at h in
            elim (hit_cases (has_link sub nid next) back nid next u v marked) [
              | inl old ↦ inl old
              | inr (linked, to_u, to_v) ↦ inr (
                rw to_u at delay,
                rw (to_u, to_v) at linked,
                (i, rw to_u at at_i, rw to_v at at_next),
              )
            ]
      ]

  cycle_back_edge_complete :
      (sub : Subgraph X) (cycle : List NodeId) (i : ℕ) (rest : List NodeId)
      (back : List (NodeId × NodeId))
      → IsSuffix cycle i rest
      → ((u v : NodeId) → IsStep cycle u v → has_link sub u v ≡ true)
      → any (delay_at sub) rest ≡ true
      → (u : NodeId) × (v : NodeId) × IsStep cycle u v
        × (contains (cycle_back_edge sub cycle i rest back) (u, v) ≡ true)
  unfolding cycle_back_edge
  cycle_back_edge_complete sub cycle i [] back s links d = cc
  cycle_back_edge_complete sub cycle i (nid ∷ rest) back s links d =
      elim (Bool-cases (delay_at sub nid)) [
        | inr other ↦ rw (cycle_back_edge-skip sub cycle i nid rest back other) (
            cycle_back_edge_complete sub cycle (suc i) rest back (IsSuffix-tail cycle i nid rest s)
              links (rw other at d))
        | inl delay ↦
            let (at_i, (next, at_next)) = next_step cycle i nid rest s in
            let step : IsStep cycle nid next = (i, at_i, at_next) in
            (
              nid,
              next,
              step,
              rw (cycle_back_edge-hit sub cycle i nid rest back next delay at_next) (
                  ground
                    (arith, links nid next step, contains-include back (nid, next) (nid, next))),
            )
      ]

  cycle_back_edge-keeps :
      (sub : Subgraph X) (cycle : List NodeId) (i : ℕ) (rest : List NodeId)
      (back : List (NodeId × NodeId)) (u v : NodeId)
      → contains back (u, v) ≡ true
      → contains (cycle_back_edge sub cycle i rest back) (u, v) ≡ true
  unfolding cycle_back_edge
  cycle_back_edge-keeps sub cycle i [] back u v h = h
  cycle_back_edge-keeps sub cycle i (nid ∷ rest) back u v h =
      let next : Option NodeId = get_elem? cycle ((i + 1) % length cycle) in
      ground (
        arith,
        cycle_back_edge-keeps sub cycle (suc i) rest back u v h,
        contains-include back (nid, elim next [ none ↦ 0 | some x ↦ x ]) (u, v),
      )

  add_cycles-keeps :
      (sub : Subgraph X) (back : List (NodeId × NodeId)) (cycles : List (List NodeId))
      (u v : NodeId)
      → contains back (u, v) ≡ true
      → contains (add_cycles sub back cycles) (u, v) ≡ true
  unfolding add_cycles add_cycle
  add_cycles-keeps sub back [] u v h = h
  add_cycles-keeps sub back (c ∷ cs) u v h =
      add_cycles-keeps sub (add_cycle sub back c) cs u v
        (ground (arith, cycle_back_edge-keeps sub c 0 c back u v h))

  add_cycles_sound :
      (sub : Subgraph X) (back : List (NodeId × NodeId)) (cycles : List (List NodeId))
      (u v : NodeId)
      → contains (add_cycles sub back cycles) (u, v) ≡ true
      → (contains back (u, v) ≡ true)
        ⊎ ((delay_at sub u ≡ true) × (has_link sub u v ≡ true) × IsOnCycle sub cycles u v)
  unfolding add_cycles add_cycle
  add_cycles_sound sub back [] u v h = inl h
  add_cycles_sound sub back (c ∷ cs) u v h =
      elim (add_cycles_sound sub (add_cycle sub back c) cs u v h) [
        | inr (delay, linked, on) ↦ inr (delay, linked, inr on)
        | inl old ↦ elim (Bool-cases (all (has (node_ids sub)) c)) [
          | inr outside ↦ inl (rw (outside, add_cycle) at old)
          | inl inside ↦
              elim (cycle_back_edge_sound sub c 0 c back u v (λ j. ground arith)
                (rw (inside, add_cycle) at old)) [
                  | inl older ↦ inl older
                  | inr (delay, linked, step) ↦ inr (delay, linked, inl (inside, step))
                ]
        ]
      ]

  add_cycles_complete :
      (sub : Subgraph X) (back : List (NodeId × NodeId)) (cycles : List (List NodeId))
      (c : List NodeId)
      → Memᴰ c cycles
      → all (has (node_ids sub)) c ≡ true
      → ((u v : NodeId) → IsStep c u v → has_link sub u v ≡ true)
      → any (delay_at sub) c ≡ true
      → (u : NodeId) × (v : NodeId) × IsStep c u v
        × (contains (add_cycles sub back cycles) (u, v) ≡ true)
  unfolding add_cycles add_cycle
  add_cycles_complete sub back [] c m inside links delay = elim m [ ]
  add_cycles_complete sub back (d ∷ cs) c (Memᴰ.tail m) inside links delay =
      add_cycles_complete sub (add_cycle sub back d) cs c m inside links delay
  add_cycles_complete sub back (d ∷ cs) c (Memᴰ.head e) inside links delay =
      let (u, v, step, marked) =
        cycle_back_edge_complete sub c 0 c back (λ j. ground arith) links delay in
      (
        u,
        v,
        step,
        add_cycles-keeps sub (add_cycle sub back d) cs u v (rw (← e, inside, add_cycle) marked),
      )

  -- Every edge that is marked as a back edge leaves a delay actor of the subgraph, is an edge of
  -- the subgraph, and is a step of one of the detected cycles, all of whose nodes are in the
  -- subgraph.
  pub identify_back_edges_sound :
      (sub : Subgraph X) (cycles : List (List NodeId)) (u v : NodeId)
      → contains (identify_back_edges sub cycles) (u, v) ≡ true
      → (delay_at sub u ≡ true) × (has_link sub u v ≡ true) × IsOnCycle sub cycles u v
  unfolding identify_back_edges
  identify_back_edges_sound sub cycles u v h = elim (add_cycles_sound sub [] cycles u v h) [
    | inl none_yet ↦ cc
    | inr facts ↦ facts
  ]

  -- Each detected cycle that lies in the subgraph, follows its edges and passes a delay actor has a
  -- step that is marked as a back edge.
  pub identify_back_edges_breaks :
      (sub : Subgraph X) (cycles : List (List NodeId)) (c : List NodeId)
      → Memᴰ c cycles
      → all (has (node_ids sub)) c ≡ true
      → ((u v : NodeId) → IsStep c u v → has_link sub u v ≡ true)
      → any (delay_at sub) c ≡ true
      → (u : NodeId) × (v : NodeId) × IsStep c u v
        × (contains (identify_back_edges sub cycles) (u, v) ≡ true)
  unfolding identify_back_edges
  identify_back_edges_breaks sub cycles c m inside links delay =
      add_cycles_complete sub [] cycles c m inside links delay
