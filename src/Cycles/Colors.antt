-- ===== src/Cycles/Colors.antt =====
-- The depth-first search of compiler/src/graph.rs, `dfs_cycle`: it ends within its fuel, cuts out
-- rounds only, and where it cuts out none, the nodes that are done can be ranked along the edges.
use pipeit.Base.{
  ℕ, ◌+◌, ◌≤◌, ◌<◌, ◌≡◌, ◌≢◌, refl, sym, subst, ◌∙◌, true, List, [], ◌∷◌, ◌++◌, ◌⊎◌, inl, inr, All,
  Map, get_or, has, length, eqb, eqb_iff, if◌then◌else◌, Bool-cases, nat_eq, arith,
}
use pipeit.Outcome.{Run, done}
use pipeit.Graph.{NodeId}
use pipeit.Cycles.{Dfs, drop, close_cycle, meet, meet_all}
use pipeit.Cycles.Walks.{Leads, IsWalk, IsRound, IsWalk-append, drop-IsRound, position_found}

abbrev pub color : Dfs → NodeId → ℕ
color s v = get_or s.visited v 0

-- How many of the nodes are unvisited.
pub whites : Dfs → List NodeId → ℕ
whites s [] = 0
whites s (v ∷ vs) = (if eqb (color s v) 0 then 1 else 0) + whites s vs

pub whites-le-length : (s : Dfs) (ids : List NodeId) → whites s ids ≤ length ids
unfolding whites
whites-le-length s [] = omega arith
whites-le-length s (v ∷ vs) = ground (arith, whites-le-length s vs)

pub whites-le :
    (s t : Dfs) (ids : List NodeId)
    → ((v : NodeId) → color t v ≡ 0 → color s v ≡ 0)
    → whites t ids ≤ whites s ids
unfolding whites
whites-le s t [] h = omega arith
whites-le s t (v ∷ vs) h = ground (arith, whites-le s t vs h, h v)

pub whites-lt :
    (s t : Dfs) (n : NodeId) (ids : List NodeId)
    → ((v : NodeId) → color t v ≡ 0 → color s v ≡ 0)
    → color s n ≡ 0
    → color t n ≡ 1
    → has ids n ≡ true
    → whites t ids < whites s ids
unfolding whites has
whites-lt s t n [] h white gray listed = cc
whites-lt s t n (v ∷ vs) h white gray listed =
    ground (arith, whites-lt s t n vs h white gray, whites-le s t vs h, h v, eqb_iff n v)

All-append_last {ℓ} :
    {A : Type ℓ} (P : A → Type 0) (xs : List A) (x : A) → All P xs → P x → All P (xs ++ x ∷ [])
All-append_last P [] x h p = (p, tt)
All-append_last P (y ∷ xs) x h p = (h.0, All-append_last P xs x h.1 p)

append_last-ne-nil {ℓ} : {A : Type ℓ} (xs : List A) (x : A) → xs ++ x ∷ [] ≢ []
append_last-ne-nil [] x h = cc
append_last-ne-nil (y ∷ xs) x h = cc

pub record Inv (s : Dfs) : Type 0 where
  pub legal : (v : NodeId) → color s v ≤ 2
  pub on_path : (v : NodeId) → color s v ≡ 1 → has s.path v ≡ true

module _ (adj : Map NodeId (List NodeId)) where
  -- A rank that falls along the edges of the nodes that are done.
  abbrev pub IsRanked : Dfs → Type 0
  IsRanked s =
      (rank : NodeId → ℕ) × (bound : ℕ) × ((u : NodeId) → color s u ≡ 2 → rank u < bound)
      × ((u v : NodeId) → color s u ≡ 2 → Leads adj u v → (color s v ≡ 2) × (rank v < rank u))

  -- What holds when a part of the search that began in `s` is over.
  pub record Explored (s s' : Dfs) : Type 0 where
    pub path_same : s'.path ≡ s.path
    pub keeps : (v : NodeId) → (color s' v ≡ color s v) ⊎ (color s v ≡ 0) × (color s' v ≡ 2)
    pub rounds : All (IsRound adj) s.cycles → All (IsRound adj) s'.cycles
    pub no_cycles : s'.cycles ≡ [] → s.cycles ≡ []
    pub ranked : s'.cycles ≡ [] → IsRanked s → IsRanked s'

  pub Explored-refl : (s : Dfs) → Explored s s
  Explored-refl s = record {
    path_same = refl;
    keeps = λ v. inl refl;
    rounds = λ h. h;
    no_cycles = λ h. h;
    ranked = λ _ h. h;
  }

  pub Explored-trans : {s t u : Dfs} → Explored s t → Explored t u → Explored s u
  Explored-trans a b = record {
    path_same = b.path_same ∙ a.path_same;
    keeps = λ v. ground (arith, a.keeps v, b.keeps v);
    rounds = λ h. b.rounds (a.rounds h);
    no_cycles = λ h. a.no_cycles (b.no_cycles h);
    ranked = λ h r. b.ranked h (a.ranked (b.no_cycles h) r);
  }

  pub Explored-Inv : {s s' : Dfs} → Explored s s' → Inv s → Inv s'
  Explored-Inv {s} {s'} e i = record {
    legal = λ v. ground (arith, e.keeps v, i.legal v);
    on_path = λ v gray.
        subst (λ (p : List NodeId). has p v ≡ true) (sym e.path_same)
          (i.on_path v (ground (arith, e.keeps v)));
  }

  close_cycle-Explored :
      (m : NodeId) (s : Dfs)
      → has s.path m ≡ true
      → IsWalk adj (s.path ++ m ∷ [])
      → Explored s (close_cycle m s) × ((close_cycle m s).cycles ≢ [])
  unfolding close_cycle
  close_cycle-Explored m s on_path walk =
      let (pos, found) = position_found s.path m on_path in
      let c = drop pos s.path in
      let t : Dfs = record s { cycles = s.cycles ++ c ∷ [] } in
      let some_cycle = append_last-ne-nil s.cycles c in
      let explored : Explored s t = record {
        path_same = refl;
        keeps = λ v. inl refl;
        rounds = λ h.
            All-append_last (IsRound adj) s.cycles c h (drop-IsRound adj s.path m pos walk found);
        no_cycles = λ h. absurd (some_cycle h);
        ranked = λ h. absurd (some_cycle h);
      } in
      let closes : close_cycle m s ≡ t = rw (found, close_cycle) refl in
      (
        subst (λ (x : Dfs). Explored s x) (sym closes) explored,
        subst (λ (x : Dfs). x.cycles ≢ []) (sym closes) some_cycle,
      )

  module _ (ids : List NodeId) (listed : (u v : NodeId) → Leads adj u v → has ids v ≡ true) where
    -- What a call for an unvisited node does.
    abbrev pub Visits : ℕ → (NodeId → Dfs → Run Dfs) → Type 0
    Visits fuel visit =
        (m : NodeId) (s : Dfs)
        → Inv s
        → color s m ≡ 0
        → IsWalk adj (s.path ++ m ∷ [])
        → has ids m ≡ true
        → whites s ids ≤ fuel
        → (s' : Dfs) × (visit m s ≡ done s') × Explored s s' × (color s' m ≡ 2)

    module _ (fuel : ℕ) (visit : NodeId → Dfs → Run Dfs) (visits : Visits fuel visit) where
      meet-Explored :
          (q : List NodeId) (n m : NodeId) (s : Dfs)
          → s.path ≡ q ++ n ∷ []
          → IsWalk adj (q ++ n ∷ [])
          → Leads adj n m
          → Inv s
          → whites s ids ≤ fuel
          → (s' : Dfs) × (meet visit m s ≡ done s')
            × Explored s s'
            × (s'.cycles ≡ [] → color s' m ≡ 2)
      unfolding meet
      meet-Explored q n m s ends walk leads i enough =
          let onward : IsWalk adj (s.path ++ m ∷ []) =
            subst (λ (p : List NodeId). IsWalk adj (p ++ m ∷ [])) (sym ends)
              (IsWalk-append adj q n m walk leads) in
          elim (Bool-cases (eqb (color s m) 0)) [
            | inl white ↦
                let (s', visited, explored, black) =
                  visits m s i (ground arith) onward (listed n m leads) enough in
                (s', rw white visited, explored, λ _. black)
            | inr seen ↦ elim (Bool-cases (eqb (color s m) 1)) [
              | inl gray ↦
                  let (explored, some_cycle) =
                    close_cycle-Explored m s (i.on_path m (ground arith)) onward in
                  (close_cycle m s, rw (seen, gray) refl, explored, λ h. absurd (some_cycle h))
              | inr black ↦
                  (s, rw (seen, black) refl, Explored-refl s, λ _. ground (arith, i.legal m))
            ]
          ]

      pub meet_all-Explored :
          (q : List NodeId) (n : NodeId) (ms : List NodeId) (s : Dfs)
          → s.path ≡ q ++ n ∷ []
          → IsWalk adj (q ++ n ∷ [])
          → ((m : NodeId) → has ms m ≡ true → Leads adj n m)
          → Inv s
          → whites s ids ≤ fuel
          → (s' : Dfs) × (meet_all visit ms s ≡ done s')
            × Explored s s'
            × (s'.cycles ≡ [] → (m : NodeId) → has ms m ≡ true → color s' m ≡ 2)
      unfolding meet_all has
      meet_all-Explored q n [] s ends walk leads i enough = (s, refl, Explored-refl s, λ _ m h. cc)
      meet_all-Explored q n (m ∷ ms) s ends walk leads i enough =
          let (t, seen, first, black) =
            meet-Explored q n m s ends walk (leads m (ground arith)) i enough in
          let fewer : whites t ids ≤ whites s ids =
            whites-le s t ids (λ v h. ground (arith, first.keeps v)) in
          let (s', rest_seen, rest, blacks) =
            meet_all-Explored q n ms t (first.path_same ∙ ends) walk (λ x h. leads x (ground arith))
              (Explored-Inv first i) (omega arith) in
          (
            s',
            rw (seen, rest_seen) refl,
            Explored-trans first rest,
            λ h x x_in. elim (Bool-cases (eqb x m)) [
              | inl same ↦
                  let m_black : color t m ≡ 2 = black (rest.no_cycles h) in
                  subst (λ (y : NodeId). color s' y ≡ 2) (sym ((eqb_iff x m).0 same))
                    (ground (arith, rest.keeps m))
              | inr other ↦ blacks h x (rw other at x_in)
            ],
          )
