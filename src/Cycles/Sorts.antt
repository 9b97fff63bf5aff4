-- ===== src/Cycles/Sorts.antt =====
-- From the detection of cycles to the sort of a subgraph (compiler/src/graph.rs,
-- compiler/src/subgraph_index.rs, compiler/src/schedule.rs).
use mathlib.Core.List.{Memᴰ}
use native.Mathlib.Nat
use pipeit.Base.{
  ℕ, zero, suc, ◌+◌, ◌%◌, ◌<◌, ◌≡◌, refl, sym, subst, ◌∙◌, Bool, true, ◌&&◌, some, List, [], ◌∷◌,
  All, has, any, all, length, get_elem?, eqb_iff, nat_eq, pair_eq, arith, contains, ◌==◌,
}
use pipeit.Outcome.{Run, done}
use pipeit.Extern.{Extern}
use pipeit.Graph.{NodeId, Edge, Subgraph, node_ids}
use pipeit.SubgraphIndex.{identify_back_edges}
use pipeit.SubgraphIndex.BackEdges.{IsStep, delay_at, identify_back_edges_breaks}
use pipeit.Kahn.Arcs.{arcs}
use pipeit.Schedule.{SubgraphSchedule, RepetitionVector, Input, State, sort_subgraph}
use pipeit.Schedule.Runs.{IsSound, back, arcs-closed}
use pipeit.Schedule.Order.{acyclic_sorts}
use pipeit.Cycles.{detect_cycles_in_subgraph}
use pipeit.Cycles.Detect.{IsCycleOf, detect_cycles_in_subgraph-Grows}

get-lt : (xs : List ℕ) (k : ℕ) → k < length xs → (x : ℕ) × (get_elem? xs k ≡ some x)
get-lt [] k h = absurd (omega arith)
get-lt (x ∷ xs) zero h = (x, refl)
get-lt (x ∷ xs) (suc k) h = get-lt xs k (omega arith)

lt-get : (xs : List ℕ) (k : ℕ) {x : ℕ} → get_elem? xs k ≡ some x → k < length xs
lt-get [] k h = cc
lt-get (y ∷ xs) zero h = omega arith
lt-get (y ∷ xs) (suc k) h = omega (arith, lt-get xs k h)

all_of_get :
    (p : ℕ → Bool) (xs : List ℕ)
    → ((k x : ℕ) → get_elem? xs k ≡ some x → p x ≡ true)
    → all p xs ≡ true
all_of_get p [] h = refl
all_of_get p (x ∷ xs) h =
    let first = h 0 x refl in let rest = all_of_get p xs (λ k y e. h (suc k) y e) in ground arith

All-Memᴰ {ℓ} : {A : Type ℓ} (P : A → Type 0) (xs : List A) (x : A) → All P xs → Memᴰ x xs → P x
All-Memᴰ P [] x h m = elim m [ ]
All-Memᴰ P (y ∷ xs) x h (Memᴰ.head e) = subst P (sym e) h.0
All-Memᴰ P (y ∷ xs) x h (Memᴰ.tail m) = All-Memᴰ P xs x h.1 m

module _ {X : Extern} where
  link_of_arcs :
      (back : List (NodeId × NodeId)) (es : List (Edge X)) (u v : NodeId)
      → 0 < arcs back es u v
      → any (λ e. e.source == u && e.target == v) es ≡ true
  unfolding arcs
  link_of_arcs back [] u v h = absurd (omega arith)
  link_of_arcs back (e ∷ es) u v h = ground (arith, link_of_arcs back es u v)

  has-source :
      (ids : List NodeId) (es : List (Edge X)) (u v : NodeId)
      → All (λ (e : Edge X). (has ids e.source ≡ true) × (has ids e.target ≡ true)) es
      → any (λ e. e.source == u && e.target == v) es ≡ true
      → has ids u ≡ true
  has-source ids [] u v c h = cc
  has-source ids (e ∷ es) u v c h = ground (arith, has-source ids es u v c.1, eqb_iff e.source u)

  -- A sound subgraph in which the search finds no cycle gets a schedule, without a report.
  pub no_cycle_sorts :
      (sub : Subgraph X) (i : Input X) (rv : RepetitionVector) (s : State X)
      → IsSound sub
      → detect_cycles_in_subgraph sub ≡ done []
      → (sched : SubgraphSchedule) × (sort_subgraph i sub rv s ≡ some (some sched, s))
  no_cycle_sorts sub i rv s sound none_found =
      let (cycles, e, _, acyclic) = detect_cycles_in_subgraph-Grows sub in
      let returned : Run.done cycles ≡ done [] = sym e ∙ none_found in
      let (rank, grows) = acyclic (cc returned) in
      acyclic_sorts i sub rv sound s rank λ u v arc.
        grows u v (arcs-closed (node_ids sub) (back i sub) sub.edges u v sound.closed arc).0
          (link_of_arcs (back i sub) sub.edges u v arc)

  pub cycle_in_nodes :
      (sub : Subgraph X) (c : List NodeId)
      → IsSound sub
      → IsCycleOf sub c
      → all (has (node_ids sub)) c ≡ true
  cycle_in_nodes sub c sound round = all_of_get (has (node_ids sub)) c λ k u at_k.
      let long : 0 < length c = omega (arith, lt-get c k at_k) in
      let (v, at_next) = get-lt c ((k + 1) % length c) (Nat.mod-lt (k + 1) long) in
      has-source (node_ids sub) sub.edges u v sound.closed (round.1 u v (k, at_k, at_next))

  pub found_cycle-IsCycleOf :
      (sub : Subgraph X) (found : List (List NodeId)) (c : List NodeId)
      → detect_cycles_in_subgraph sub ≡ done found
      → Memᴰ c found
      → IsCycleOf sub c
  found_cycle-IsCycleOf sub found c detected in_found =
      let (cs, e, rounds, _) = detect_cycles_in_subgraph-Grows sub in
      let same : cs ≡ found = let r : Run.done cs ≡ done found = sym e ∙ detected in cc r in
      All-Memᴰ (IsCycleOf sub) found c (subst (All (IsCycleOf sub)) same rounds) in_found

  -- In a sound subgraph, a cycle that the search finds and that passes a delay actor has a step that
  -- is a back edge, whatever other cycles there are.
  pub found_cycle_breaks :
      (sub : Subgraph X) (found cycles : List (List NodeId)) (c : List NodeId)
      → IsSound sub
      → detect_cycles_in_subgraph sub ≡ done found
      → Memᴰ c found
      → Memᴰ c cycles
      → any (delay_at sub) c ≡ true
      → (u : NodeId) × (v : NodeId) × IsStep c u v
        × (contains (identify_back_edges sub cycles) (u, v) ≡ true)
  found_cycle_breaks sub found cycles c sound detected in_found in_cycles delay =
      let round = found_cycle-IsCycleOf sub found c detected in_found in
      identify_back_edges_breaks sub cycles c in_cycles (cycle_in_nodes sub c sound round) round.1
        delay
