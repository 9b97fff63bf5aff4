-- ===== src/Schedule/Cert/Coverage.antt =====
-- What the postcondition check S2 (`check_subgraph_coverage`, compiler/src/schedule.rs) decides.
use pipeit.Base.{
  ◌+◌, ◌≤◌, ◌≡◌, refl, sym, true, some, List, [], ◌∷◌, map, all, length, length-map, has,
  has_iff-count, count, count-eq_of_length, length-eq_of_count, eqb, arith, Bool-cases,
  Option-cases, inl, inr, ◌↔◌,
}
use pipeit.Extern.{Extern}
use pipeit.Graph.{NodeId, Node, Subgraph, node_ids}
use pipeit.SubgraphIndex.Agree.{IsDistinct}
use pipeit.Kahn.{FiringEntry}
use pipeit.Schedule.{SubgraphSchedule}
use pipeit.Schedule.Runs.{fired_ids}
use pipeit.Schedule.Cert.{see, check_subgraph_coverage}

abbrev ids_of : List FiringEntry → List NodeId
ids_of = map (λ f. f.node_id)

-- A walk over the firings that meets no duplicate has seen just them.
see-some :
    (seen : List NodeId) (fs : List FiringEntry) (r : List NodeId)
    → see seen fs ≡ some r
    → (v : NodeId)
    → (count v r ≡ count v seen + count v (ids_of fs)) × (count v seen ≤ 1 → count v r ≤ 1)
unfolding see count
see-some seen [] r h v = (ground arith, ground arith)
see-some seen (f ∷ fs) r h v = elim (Bool-cases (has seen f.node_id)) [
  | inl twice ↦ absurd (cc (rw (twice, see) at h))
  | inr new ↦
      let (counts, once) = see-some (f.node_id ∷ seen) fs r (rw (new, see) at h) v in
      (omega arith, ground (arith, has_iff-count f.node_id seen))
]

see-ends :
    (seen : List NodeId) (fs : List FiringEntry)
    → ((v : NodeId) → count v seen + count v (ids_of fs) ≤ 1)
    → (r : List NodeId) × (see seen fs ≡ some r)
unfolding see count
see-ends seen [] h = (seen, refl)
see-ends seen (f ∷ fs) h = elim (Bool-cases (has seen f.node_id)) [
  | inl twice ↦ absurd (ground (arith, h f.node_id, has_iff-count f.node_id seen))
  | inr new ↦ rw (new, see) (see-ends (f.node_id ∷ seen) fs (λ v. omega (arith, h v)))
]

module _ {X : Extern} where
  all-has :
      (seen : List NodeId) (ns : List (Node X))
      → ((v : NodeId) → has (map (λ n. n.id) ns) v ≡ true → has seen v ≡ true)
      → all (λ n. has seen n.id) ns ≡ true
  unfolding has
  all-has seen [] h = refl
  all-has seen (n ∷ ns) h = ground (arith, h n.id, all-has seen ns (λ v e. h v (ground arith)))

  has_of_all :
      (seen : List NodeId) (ns : List (Node X)) (v : NodeId)
      → all (λ n. has seen n.id) ns ≡ true
      → has (map (λ n. n.id) ns) v ≡ true
      → has seen v ≡ true
  unfolding has
  has_of_all seen [] v h e = cc
  has_of_all seen (n ∷ ns) v h e = ground (arith, has_of_all seen ns v)

  module _ (sched : SubgraphSchedule) (sub : Subgraph X)
      (distinct : IsDistinct (node_ids sub)) where
    covers_of_counts :
        ((v : NodeId) → count v (fired_ids sched) ≡ count v (node_ids sub))
        → check_subgraph_coverage sched sub ≡ true
    unfolding check_subgraph_coverage count
    covers_of_counts h =
        let (r, seen) = see-ends [] sched.firings (λ v. omega (arith, h v, distinct v)) in
        let covers = all-has r sub.nodes λ v node. ground (
          arith,
          (see-some [] sched.firings r seen v).0,
          h v,
          has_iff-count v r,
          has_iff-count v (node_ids sub),
        ) in
        ground (
          arith,
          seen,
          covers,
          length-eq_of_count (fired_ids sched) (node_ids sub) h,
          length-map {0, 0} (λ (f : FiringEntry). f.node_id) sched.firings,
          length-map {0, 0} (λ (n : Node X). n.id) sub.nodes,
        )

    coverage-true :
        check_subgraph_coverage sched sub ≡ true
        → (length sched.firings ≡ length sub.nodes)
          × ((r : List NodeId) × (see [] sched.firings ≡ some r)
              × (all (λ n. has r n.id) sub.nodes ≡ true))
    unfolding check_subgraph_coverage
    coverage-true h = elim (Bool-cases (eqb (length sched.firings) (length sub.nodes))) [
      | inr differ ↦ absurd (cc (rw differ at h))
      | inl same ↦ elim (Option-cases (see [] sched.firings)) [
        | inr twice ↦ absurd (ground arith)
        | inl (r, seen) ↦ (ground arith, (r, seen, ground arith))
      ]
    ]

    counts_of_covers :
        check_subgraph_coverage sched sub ≡ true
        → (v : NodeId) → count v (fired_ids sched) ≡ count v (node_ids sub)
    unfolding count
    counts_of_covers h v =
        let (same, (r, seen, covers)) = coverage-true h in
        let counts = λ (w : NodeId). see-some [] sched.firings r seen w in
        sym (
          count-eq_of_length (node_ids sub) (fired_ids sched)
            (λ w. ground (
              arith,
              distinct w,
              (counts w).0,
              has_of_all r sub.nodes w covers,
              has_iff-count w r,
              has_iff-count w (node_ids sub),
            ))
            (omega (
              arith,
              length-map {0, 0} (λ (f : FiringEntry). f.node_id) sched.firings,
              length-map {0, 0} (λ (n : Node X). n.id) sub.nodes,
            ))
            v)

    -- For a subgraph whose nodes have different ids, the check S2 accepts a schedule exactly if the
    -- schedule fires every node of the subgraph once and nothing else.
    pub coverage_iff :
        (check_subgraph_coverage sched sub ≡ true)
        ↔ ((v : NodeId) → count v (fired_ids sched) ≡ count v (node_ids sub))
    coverage_iff = (counts_of_covers, covers_of_counts)
