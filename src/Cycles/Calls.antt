-- ===== src/Cycles/Calls.antt =====
-- A call of the depth-first search, from the mark in progress to the mark done
-- (compiler/src/graph.rs, `dfs_cycle`).
use pipeit.Base.{
  ℕ, zero, suc, ◌≤◌, ◌<◌, ◌≡◌, refl, sym, ap, subst, ◌∙◌, true, List, [], ◌∷◌, ◌++◌, inl, inr, Map,
  get-insert, has, map, eqb, eqb_iff, if◌then◌else◌, Bool-cases, nat_eq, arith,
}
use pipeit.Outcome.{done}
use pipeit.Extern.{Extern}
use pipeit.Graph.{NodeId, Node}
use pipeit.Cycles.{Dfs, pop, mark_begun, mark_done, dfs_cycle, dfs_all}
use pipeit.Cycles.Adjacency.{neighbors, has-append_last}
use pipeit.Cycles.Walks.{Leads, IsWalk, IsWalk-single, pop-append}
use pipeit.Cycles.Colors.{
  color, whites, whites-le, whites-lt, Inv, IsRanked, Explored, Explored-refl, Explored-trans,
  Explored-Inv, Visits, meet_all-Explored,
}

color-mark_begun :
    (n : NodeId) (s : Dfs) (v : NodeId)
    → color (mark_begun n s) v ≡ (if eqb n v then 1 else color s v)
unfolding mark_begun
color-mark_begun n s v = ground (arith, get-insert s.visited n 1 v)

color-mark_done :
    (n : NodeId) (s : Dfs) (v : NodeId)
    → color (mark_done n s) v ≡ (if eqb n v then 2 else color s v)
unfolding mark_done
color-mark_done n s v = ground (arith, get-insert s.visited n 2 v)

path-mark_begun : (n : NodeId) (s : Dfs) → (mark_begun n s).path ≡ s.path ++ n ∷ []
unfolding mark_begun
path-mark_begun n s = refl

mark_begun-Inv : (n : NodeId) (s : Dfs) → Inv s → Inv (mark_begun n s)
unfolding mark_begun
mark_begun-Inv n s i = record {
  legal = λ v. ground (arith, get-insert s.visited n 1 v, i.legal v);
  on_path =
      λ v gray. ground (arith, get-insert s.visited n 1 v, i.on_path v, has-append_last s.path n v);
}

module _ (adj : Map NodeId (List NodeId)) where
  mark_begun-IsRanked :
      (n : NodeId) (s : Dfs) → color s n ≡ 0 → IsRanked adj s → IsRanked adj (mark_begun n s)
  mark_begun-IsRanked n s white (rank, bound, below, falls) = (
    rank,
    bound,
    λ u black. below u (ground (arith, color-mark_begun n s u)),
    λ u v black leads.
        let (v_black, falling) = falls u v (ground (arith, color-mark_begun n s u)) leads in
        (ground (arith, color-mark_begun n s v, eqb_iff n v), falling),
  )

  mark_done-IsRanked :
      (n : NodeId) (s : Dfs)
      → color s n ≡ 1
      → ((m : NodeId) → Leads adj n m → color s m ≡ 2)
      → IsRanked adj s
      → IsRanked adj (mark_done n s)
  mark_done-IsRanked n s gray blacks (rank, bound, below, falls) = (
    λ v. if eqb n v then bound else rank v,
    suc bound,
    λ u black. ground (arith, color-mark_done n s u, below u),
    λ u v black leads. elim (Bool-cases (eqb n u)) [
      | inl same ↦
          let v_black : color s v ≡ 2 =
            blacks v (subst (λ (x : NodeId). Leads adj x v) (sym ((eqb_iff n u).0 same)) leads) in
          ground (arith, color-mark_done n s v, eqb_iff n v, below v)
      | inr other ↦
          let (v_black, falling) = falls u v (ground (arith, color-mark_done n s u)) leads in
          ground (arith, color-mark_done n s v, eqb_iff n v)
    ],
  )

  mark_done-Explored :
      (n : NodeId) (s t : Dfs)
      → color s n ≡ 0
      → Explored adj (mark_begun n s) t
      → (t.cycles ≡ [] → (m : NodeId) → Leads adj n m → color t m ≡ 2)
      → Explored adj s (mark_done n t)
  unfolding mark_begun mark_done
  mark_done-Explored n s t white e blacks =
      let gray : color t n ≡ 1 = ground (arith, e.keeps n, get-insert s.visited n 1 n) in
      record {
        path_same = ap pop e.path_same ∙ pop-append s.path n;
        keeps = λ v.
            ground (
              arith,
              e.keeps v,
              get-insert s.visited n 1 v,
              get-insert t.visited n 2 v,
              eqb_iff n v,
            );
        rounds = λ h. e.rounds h;
        no_cycles = λ h. e.no_cycles h;
        ranked = λ h r.
            mark_done-IsRanked n t gray (blacks h) (e.ranked h (mark_begun-IsRanked n s white r));
      }

  module _ (ids : List NodeId) (listed : (u v : NodeId) → Leads adj u v → has ids v ≡ true) where
    fewer_whites :
        (n : NodeId) (s : Dfs)
        → color s n ≡ 0
        → has ids n ≡ true
        → whites (mark_begun n s) ids < whites s ids
    fewer_whites n s white known =
        whites-lt s (mark_begun n s) n ids (λ v h. ground (arith, color-mark_begun n s v)) white
          (ground (arith, color-mark_begun n s n)) known

    pub dfs_cycle-Visits : (fuel : ℕ) → Visits adj ids listed fuel (dfs_cycle adj fuel)
    unfolding dfs_cycle
    dfs_cycle-Visits zero n s i white walk known enough =
        absurd (omega (arith, fewer_whites n s white known))
    dfs_cycle-Visits (suc fuel) n s i white walk known enough =
        let (t, seen, e, blacks) =
          meet_all-Explored adj ids listed fuel (dfs_cycle adj fuel) (dfs_cycle-Visits fuel) s.path
            n (neighbors adj n) (mark_begun n s) (path-mark_begun n s) walk (λ m h. h)
            (mark_begun-Inv n s i) (omega (arith, fewer_whites n s white known)) in
        (
          mark_done n t,
          rw seen refl,
          mark_done-Explored n s t white e blacks,
          ground (arith, color-mark_done n t n),
        )

    -- The search from one of the nodes, if it is unvisited.
    first_call :
        (fuel : ℕ) (n : NodeId) (s : Dfs)
        → Inv s
        → s.path ≡ []
        → has ids n ≡ true
        → whites s ids ≤ fuel
        → (t : Dfs) × ((if eqb (color s n) 0 then dfs_cycle adj fuel n s else done s) ≡ done t)
          × Explored adj s t
          × (color t n ≡ 2)
    unfolding has
    first_call fuel n s i empty known enough = elim (Bool-cases (eqb (color s n) 0)) [
      | inl white ↦
          let alone : IsWalk adj (s.path ++ n ∷ []) =
            subst (λ (p : List NodeId). IsWalk adj (p ++ n ∷ [])) (sym empty)
              (IsWalk-single adj n) in
          let (t, visited, e, black) =
            dfs_cycle-Visits fuel n s i (ground arith) alone known enough in
          (t, rw white visited, e, black)
      | inr seen ↦
          let not_gray : color s n ≡ 1 → ⊥ =
            λ gray. cc (subst (λ (p : List NodeId). has p n ≡ true) empty (i.on_path n gray)) in
          (s, rw seen refl, Explored-refl adj s, ground (arith, i.legal n))
    ]

    module _ {X : Extern} where
      pub dfs_all-Explored :
          (fuel : ℕ) (ns : List (Node X)) (s : Dfs)
          → Inv s
          → s.path ≡ []
          → ((v : NodeId) → has (map (λ n. n.id) ns) v ≡ true → has ids v ≡ true)
          → whites s ids ≤ fuel
          → (s' : Dfs) × (dfs_all adj fuel ns s ≡ done s')
            × Explored adj s s'
            × ((v : NodeId) → has (map (λ n. n.id) ns) v ≡ true → color s' v ≡ 2)
      unfolding dfs_all has
      dfs_all-Explored fuel [] s i empty known enough = (s, refl, Explored-refl adj s, λ v h. cc)
      dfs_all-Explored fuel (n ∷ ns) s i empty known enough =
          let (t, called, first, black) =
            first_call fuel n.id s i empty (known n.id (ground arith)) enough in
          let fewer : whites t ids ≤ whites s ids =
            whites-le s t ids (λ v h. ground (arith, first.keeps v)) in
          let (s', all_called, rest, blacks) =
            dfs_all-Explored fuel ns t (Explored-Inv adj first i) (first.path_same ∙ empty)
              (λ v h. known v (ground arith)) (omega arith) in
          (
            s',
            rw (called, all_called) refl,
            Explored-trans adj first rest,
            λ v v_in. elim (Bool-cases (eqb v n.id)) [
              | inl same ↦
                  subst (λ (y : NodeId). color s' y ≡ 2) (sym ((eqb_iff v n.id).0 same))
                    (ground (arith, rest.keeps n.id))
              | inr other ↦ blacks v (rw other at v_in)
            ],
          )
