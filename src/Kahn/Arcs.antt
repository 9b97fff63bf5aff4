-- ===== src/Kahn/Arcs.antt =====
-- The edges that the sort obeys, counted: what the in-degrees and adjacency lists of
-- compiler/src/schedule.rs stand for.
use pipeit.Base.{
  ℕ, ◌+◌, ◌≤◌, ◌<◌, ◌≡◌, Bool, true, false, not, ◌&&◌, List, [], ◌∷◌, ◌++◌, count, count-append,
  has, has_iff-count, contains, eqb, if◌then◌else◌, length, arith, Bool-cases, inl, inr, nat_eq,
  pair_eq,
}
use pipeit.Extern.{Extern}
use pipeit.Graph.{NodeId, Edge}

module _ {X : Extern} (back : List (NodeId × NodeId)) where
  abbrev pub is_live : Edge X → Bool
  is_live e = not (contains back (e.source, e.target))

  -- How many edges that are no back edges lead from `u` to `v`.
  unfoldable pub arcs : List (Edge X) → NodeId → NodeId → ℕ
  arcs [] u v = 0
  arcs (e ∷ es) u v =
      (if is_live e && (eqb e.source u && eqb e.target v) then 1 else 0) + arcs es u v

  -- How many of them lead to `v` from a node that has not fired.
  unfoldable pub waits : List (Edge X) → List NodeId → NodeId → ℕ
  waits [] done v = 0
  waits (e ∷ es) done v =
      (if is_live e && (eqb e.target v && not (has done e.source)) then 1 else 0) + waits es done v

  pub waits-le :
      (es : List (Edge X)) (done : List NodeId) (v : NodeId) → waits es done v ≤ length es
  unfolding waits
  waits-le [] done v = omega arith
  waits-le (e ∷ es) done v = ground (arith, waits-le es done v)

  -- A node that fires releases its arcs.
  pub waits-fire :
      (es : List (Edge X)) (done : List NodeId) (n v : NodeId)
      → count n done ≡ 0
      → waits es (done ++ n ∷ []) v + arcs es n v ≡ waits es done v
  unfolding waits arcs count
  waits-fire [] done n v h = omega arith
  waits-fire (e ∷ es) done n v h = ground (
    arith,
    waits-fire es done n v h,
    has_iff-count e.source done,
    has_iff-count e.source (done ++ n ∷ []),
    count-append e.source done (n ∷ []),
  )

  pub fired_of_waits :
      (es : List (Edge X)) (done : List NodeId) (u v : NodeId)
      → waits es done v ≡ 0
      → 0 < arcs es u v
      → has done u ≡ true
  unfolding waits arcs
  fired_of_waits [] done u v z h = absurd (omega arith)
  fired_of_waits (e ∷ es) done u v z h = ground (arith, fired_of_waits es done u v)

  pub waiting_source :
      (es : List (Edge X)) (done : List NodeId) (v : NodeId)
      → 0 < waits es done v
      → (u : NodeId) × (0 < arcs es u v) × (has done u ≡ false)
  unfolding waits arcs
  waiting_source [] done v h = absurd (omega arith)
  waiting_source (e ∷ es) done v h =
      elim (Bool-cases (is_live e && (eqb e.target v && not (has done e.source)))) [
        | inl here ↦ (e.source, ground arith, ground arith)
        | inr other ↦
            let (u, arc, unfired) = waiting_source es done v (ground arith) in
            (u, omega arith, unfired)
      ]
