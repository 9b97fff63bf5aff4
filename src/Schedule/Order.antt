-- ===== src/Schedule/Order.antt =====
-- What `sort_subgraph` (compiler/src/schedule.rs) returns, and when.
use mathlib.Core.Logic.{◌↔◌, ∥∥₁_map}
use pipeit.Base.{
  ℕ, suc, ◌≤◌, ◌<◌, ◌≡◌, true, none, some, [], All, count, count-eq_of_length, length-le_of_count,
  has, has_iff-count, index_of, length, length-map, arith, get_or, Option-cases, inl, inr, nat_eq,
  pair_eq,
}
use pipeit.Extern.{Extern}
use pipeit.Diag.{error, e0400}
use pipeit.Graph.{NodeId, Node, Subgraph, node_ids}
use pipeit.Kahn.{FiringEntry, Kahn, fired}
use pipeit.Kahn.Arcs.{waits, waiting_source}
use pipeit.Kahn.Complete.{fired-le, fired-key, all_fired}
use pipeit.Schedule.{SubgraphSchedule, RepetitionVector, Input, State, emit, sort_subgraph}
use pipeit.Schedule.Runs.{
  IsSound, fired_ids, back, flow, IsRank, arcs-closed, IsEnd, IsFull, sort_subgraph_ends,
  sort_subgraph-some, sort_subgraph-none,
}

module _ {X : Extern} (i : Input X) (sub : Subgraph X) (rv : RepetitionVector)
    (sound : IsSound sub) where
  node_of_waits : (v : NodeId) → 0 < waits (back i sub) sub.edges [] v → has (node_ids sub) v ≡ true
  node_of_waits v h =
      let (u, arc, _) = waiting_source (back i sub) sub.edges [] v h in
      (arcs-closed (node_ids sub) (back i sub) sub.edges u v sound.closed arc).1

  fired-le-nodes :
      (t : Kahn) → IsEnd i sub rv t → (v : NodeId) → count v (fired t) ≤ count v (node_ids sub)
  fired-le-nodes t done v = ground (
    arith,
    fired-le (back i sub) sub sound.fits rv t done v,
    fired-key (back i sub) sub sound.fits rv t done v,
    node_of_waits v,
    has_iff-count v (fired t),
    has_iff-count v (node_ids sub),
  )

  fired-eq-nodes :
      (sched : SubgraphSchedule) (t : Kahn)
      → IsFull i sub rv sched t
      → (v : NodeId) → count v (fired t) ≡ count v (node_ids sub)
  fired-eq-nodes sched t (done, same, full, _) =
      count-eq_of_length (fired t) (node_ids sub) (fired-le-nodes t done) (
        omega (
          arith,
          length-map {0, 0} (λ (f : FiringEntry). f.node_id) t.firings,
          length-map {0, 0} (λ (n : Node X). n.id) sub.nodes,
        ))

  all_fired_of_rank :
      (t : Kahn) (rank : NodeId → ℕ)
      → IsEnd i sub rv t
      → IsRank i sub rank
      → length sub.nodes ≤ length t.firings
  all_fired_of_rank t rank done up =
      let nodes_fired = λ (v : NodeId).
        all_fired (back i sub) sub sound.fits rv t done rank up
          (λ u w arc. (arcs-closed (node_ids sub) (back i sub) sub.edges u w sound.closed arc).0)
          (suc (rank v)) v (omega arith) in
      omega (
        arith,
        length-le_of_count (node_ids sub) (fired t) (λ v. ground (
          arith,
          nodes_fired v,
          sound.distinct v,
          has_iff-count v (fired t),
          has_iff-count v (node_ids sub),
        )),
        length-map {0, 0} (λ (f : FiringEntry). f.node_id) t.firings,
        length-map {0, 0} (λ (n : Node X). n.id) sub.nodes,
      )

  module _ (s s' : State X) (sched : SubgraphSchedule)
      (sorted : sort_subgraph i sub rv s ≡ some (some sched, s')) where
    -- A result leaves the state as it was, and holds every node of the subgraph exactly once and
    -- nothing else.
    pub fires_once : (s' ≡ s) × ((v : NodeId) → count v (fired_ids sched) ≡ count v (node_ids sub))
    unfolding count
    fires_once =
        let (same, runs) = sort_subgraph-some i sub rv s s' sched sound.fits sorted in
        (
          same,
          elim runs [
            | inl (empty, e) ↦ λ v. rw (empty, e)
            | inr (t, full) ↦ λ v. rw (full.1) (fired-eq-nodes sched t full v)
          ],
        )

    -- In a result every edge that is not a back edge leads from a node that fires earlier to one
    -- that fires later.
    pub fires_in_order :
        (u v : NodeId)
        → 0 < flow i sub u v
        → index_of u (fired_ids sched) < index_of v (fired_ids sched)
    unfolding has
    fires_in_order u v arc =
        let (from, to) = arcs-closed (node_ids sub) (back i sub) sub.edges u v sound.closed arc in
        elim (sort_subgraph-some i sub rv s s' sched sound.fits sorted).1 [
          | inl (empty, e) ↦ absurd (cc (rw empty at to))
          | inr (t, full) ↦ rw (full.1) (
              full.0.inv.ordered u v arc (
                ground (
                  arith,
                  fired-eq-nodes sched t full v,
                  has_iff-count v (fired t),
                  has_iff-count v (node_ids sub),
                )))
        ]

    -- In a result every node fires as often as the repetition vector says, and once where it is
    -- silent.
    pub fires_counted : All (λ f. f.repetition_count ≡ get_or rv f.node_id 1) sched.firings
    fires_counted = elim (sort_subgraph-some i sub rv s s' sched sound.fits sorted).1 [
      | inl (empty, e) ↦ rw e tt
      | inr (t, full) ↦ rw (full.1) full.0.counted
    ]

  -- A subgraph whose edges, but for the back edges, form no cycle has a schedule.
  pub acyclic_sorts :
      (s : State X) (rank : NodeId → ℕ)
      → IsRank i sub rank
      → (sched : SubgraphSchedule) × (sort_subgraph i sub rv s ≡ some (some sched, s))
  acyclic_sorts s rank up =
      let (r, s', e) = sort_subgraph_ends i sub rv s sound.fits in
      elim (Option-cases r) [
        | inl (sched, r_some) ↦
            let e' = rw r_some at e in
            (sched, rw ((sort_subgraph-some i sub rv s s' sched sound.fits e').0) at e')
        | inr r_none ↦
            let (_, (t, done, short)) =
              sort_subgraph-none i sub rv s s' sound.fits (rw r_none at e) in
            absurd (omega (arith, all_fired_of_rank t rank done up))
      ]

  -- A subgraph gets a schedule exactly if its edges, but for the back edges, form no cycle.
  pub sorts_iff_acyclic :
      (s : State X)
      → ∥ (
          (sched : SubgraphSchedule) × (s' : State X) × (sort_subgraph i sub rv s
            ≡ some (some sched, s'))) ∥₁
        ↔ ∥ ((rank : NodeId → ℕ) × IsRank i sub rank) ∥₁
  sorts_iff_acyclic s = (
    λ sorted.
        ∥∥₁_map sorted
          (λ (sched, s', e). ((λ v. index_of v (fired_ids sched)), fires_in_order s s' sched e)),
    λ ranked.
        ∥∥₁_map ranked (λ (rank, up). let (sched, e) = acyclic_sorts s rank up in (sched, s, e)),
  )

  -- A subgraph without a schedule adds one error, E0400, to the diagnostics and changes nothing
  -- else, and its edges, without the back edges, form a cycle.
  pub unsorted_reports :
      (s s' : State X)
      → sort_subgraph i sub rv s ≡ some (none, s')
      → (s' ≡ emit error e0400 X.no_span s) × ((rank : NodeId → ℕ) → ¬ IsRank i sub rank)
  unsorted_reports s s' e =
      let (reported, (t, done, short)) = sort_subgraph-none i sub rv s s' sound.fits e in
      (reported, λ rank up. absurd (omega (arith, all_fired_of_rank t rank done up)))
