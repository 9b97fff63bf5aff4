-- ===== src/Balance/Search/Steps.antt =====
-- One step of the search for ratios (compiler/src/analyze.rs, the loop over the neighbors in
-- `solve_balance_ratios`), where the equations have a solution `q` over the denominator `base`.
use pipeit.Base.{
  ℕ, ◌+◌, ◌*◌, ◌≤◌, ◌<◌, ◌≡◌, refl, sym, subst, Bool, true, false, ◌||◌, some, List, [], ◌∷◌, ◌++◌,
  ◌⊎◌, inl, inr, arith, All, All-insert, Map, get, get_or, get-insert, insert, contains_key, has,
  length, length-append, eqb, eqb_iff, if◌then◌else◌, u32_mod, Bool-cases, Option-cases, nat_eq,
  pair_eq,
}
use pipeit.Outcome.{done}
use pipeit.Balance.Search.{Ratio, BalanceGraph, Search, propagate_ratio, settle, reach, reach_all}
use pipeit.Balance.Search.Lowest.{lowest, reduce_ratio_step}
use pipeit.Graph.{NodeId}

-- `q` gives each node a number of firings that balances each edge; all numbers fit a u32.
pub record IsSolution (rates : Map (NodeId × NodeId) (ℕ × ℕ)) (q : NodeId → ℕ) : Type 0 where
  pub fits : (v : NodeId) → (0 < q v) × (q v < u32_mod)
  pub balanced :
      (u v : NodeId) (p c : ℕ)
      → get rates (u, v) ≡ some (p, c)
      → (0 < p) × (p < u32_mod) × (0 < c) × (c < u32_mod) × (q u * p ≡ q v * c)

-- `w` is listed as a neighbor of `u`.
abbrev pub Adjacent : BalanceGraph → NodeId → NodeId → Type 0
Adjacent balance u w = has (get_or balance.adjacency u []) w ≡ true

abbrev pub has_rates : BalanceGraph → NodeId → NodeId → Bool
has_rates balance u w = contains_key balance.rates (u, w) || contains_key balance.rates (w, u)

-- Neighbors and the ends of rated edges are nodes, and an edge between neighbors has rates.
pub record IsLinked (balance : BalanceGraph) (ids : List NodeId) : Type 0 where
  pub listed : (u w : NodeId) → Adjacent balance u w → has ids w ≡ true
  pub rated : (u w : NodeId) → Adjacent balance u w → has_rates balance u w ≡ true
  pub ends :
      (u w : NodeId)
      → contains_key balance.rates (u, w) ≡ true
      → (has ids u ≡ true) × (has ids w ≡ true)

pub unvisited : Map NodeId Ratio → List NodeId → ℕ
unvisited m [] = 0
unvisited m (v ∷ vs) = (if contains_key m v then 0 else 1) + unvisited m vs

pub unvisited-le-length : (m : Map NodeId Ratio) (vs : List NodeId) → unvisited m vs ≤ length vs
unfolding unvisited
unvisited-le-length m [] = omega arith
unvisited-le-length m (v ∷ vs) = ground (arith, unvisited-le-length m vs)

pub has-append_last : (xs : List ℕ) (n v : ℕ) → has (xs ++ n ∷ []) v ≡ (has xs v || eqb v n)
unfolding has
has-append_last [] n v = ground arith
has-append_last (x ∷ xs) n v = ground (arith, has-append_last xs n v)

pub contains_key-insert :
    (m : Map NodeId Ratio) (n : NodeId) (r : Ratio) (v : NodeId)
    → contains_key (insert m n r) v ≡ (eqb n v || contains_key m v)
contains_key-insert m n r v = ground (arith, get-insert m n r v)

pub unvisited-le :
    (m : Map NodeId Ratio) (n : NodeId) (r : Ratio) (ids : List NodeId)
    → unvisited (insert m n r) ids ≤ unvisited m ids
unfolding unvisited
unvisited-le m n r [] = omega arith
unvisited-le m n r (v ∷ vs) = ground (arith, unvisited-le m n r vs, contains_key-insert m n r v)

pub unvisited-insert :
    (m : Map NodeId Ratio) (n : NodeId) (r : Ratio) (ids : List NodeId)
    → has ids n ≡ true
    → contains_key m n ≡ false
    → unvisited (insert m n r) ids < unvisited m ids
unfolding unvisited has
unvisited-insert m n r [] h fresh = cc
unvisited-insert m n r (v ∷ vs) h fresh =
    ground (arith, unvisited-insert m n r vs, unvisited-le m n r vs, contains_key-insert m n r v)

module _ (balance : BalanceGraph) (ids : List NodeId) (q : NodeId → ℕ) (base : ℕ) where
  abbrev pub HasRatio : NodeId × Ratio → Type 0
  HasRatio (v, r) = r ≡ lowest (q v) base

  -- What holds after some rounds of the loop over the neighbors that began in `s`.
  pub record Progress (s s' : Search) : Type 0 where
    pub ratios : All HasRatio s'.rv_rat
    pub grows : (v : NodeId) → contains_key s.rv_rat v ≡ true → contains_key s'.rv_rat v ≡ true
    pub waits : (v : NodeId) → has s.queue v ≡ true → has s'.queue v ≡ true
    pub fresh :
        (v : NodeId)
        → contains_key s'.rv_rat v ≡ true
        → (contains_key s.rv_rat v ≡ true) ⊎ (has s'.queue v ≡ true)
    pub measure :
        unvisited s'.rv_rat ids + length s'.queue ≤ unvisited s.rv_rat ids + length s.queue

  pub Progress-refl : (s : Search) → All HasRatio s.rv_rat → Progress s s
  Progress-refl s h = record {
    ratios = h;
    grows = λ v k. k;
    waits = λ v k. k;
    fresh = λ v k. inl k;
    measure = omega arith;
  }

  pub Progress-trans : {s t u : Search} → Progress s t → Progress t u → Progress s u
  Progress-trans a b = record {
    ratios = b.ratios;
    grows = λ v k. b.grows v (a.grows v k);
    waits = λ v k. b.waits v (a.waits v k);
    fresh = λ v k. elim (b.fresh v k) [
      | inr waiting ↦ inr waiting
      | inl old ↦ elim (a.fresh v old) [ inl older ↦ inl older | inr w ↦ inr (b.waits v w) ]
    ];
    measure = omega (arith, a.measure, b.measure);
  }

  pub settle-Progress :
      (s : Search) (n : NodeId)
      → All HasRatio s.rv_rat
      → has ids n ≡ true
      → contains_key s.rv_rat n ≡ false
      → Progress s (settle n (some (lowest (q n) base)) s)
  unfolding settle
  settle-Progress s n h known new =
      let r = lowest (q n) base in
      record {
        ratios = All-insert HasRatio s.rv_rat n r h refl;
        grows = λ v k. ground (arith, contains_key-insert s.rv_rat n r v);
        waits = λ v k. ground (arith, has-append_last s.queue n v);
        fresh =
            λ v k. ground (arith, contains_key-insert s.rv_rat n r v, has-append_last s.queue n v);
        measure = omega (
          arith,
          unvisited-insert s.rv_rat n r ids known new,
          length-append {0} s.queue (n ∷ []),
        );
      }

  module _ (sol : IsSolution balance.rates q) (base_fits : base < u32_mod) where
    open sol use {fits, balanced}

    propagate_ratio-lowest :
        (u w : NodeId)
        → has_rates balance u w ≡ true
        → propagate_ratio u w (lowest (q u) base).0 (lowest (q u) base).1 balance.rates
          ≡ done (some (lowest (q w) base))
    unfolding propagate_ratio
    propagate_ratio-lowest u w rated = elim (Option-cases (get balance.rates (u, w))) [
      | inl ((p, c), e) ↦
          let (p_pos, p_fits, c_pos, c_fits, even) = balanced u w p c e in
          let (u_pos, u_fits) = fits u in
          rw
            (
              e,
              propagate_ratio,
              reduce_ratio_step (q u) (q w) base p c u_pos u_fits base_fits p_pos p_fits c_pos
                  c_fits even,
            )
            refl
      | inr e ↦ elim (Option-cases (get balance.rates (w, u))) [
        | inl ((p, c), e') ↦
            let (p_pos, p_fits, c_pos, c_fits, even) = balanced w u p c e' in
            let (u_pos, u_fits) = fits u in
            rw
              (
                e,
                e',
                propagate_ratio,
                reduce_ratio_step (q u) (q w) base c p u_pos u_fits base_fits c_pos c_fits p_pos
                    p_fits (omega arith),
              )
              refl
        | inr e' ↦ ground arith
      ]
    ]

    module _ (linked : IsLinked balance ids) (u : NodeId) where
      -- The loop gives a ratio to each of the neighbors.
      pub reach-Progress :
          (n : NodeId) (s : Search)
          → Adjacent balance u n
          → All HasRatio s.rv_rat
          → (s' : Search) × (reach balance u (lowest (q u) base) n s ≡ done s')
            × Progress s s'
            × (contains_key s'.rv_rat n ≡ true)
      unfolding reach settle
      reach-Progress n s near h = elim (Bool-cases (contains_key s.rv_rat n)) [
        | inl old ↦ (s, rw old, Progress-refl s h, old)
        | inr new ↦ (
          settle n (some (lowest (q n) base)) s,
          rw (new, propagate_ratio-lowest u n (linked.rated u n near)),
          settle-Progress s n h (linked.listed u n near) new,
          ground (arith, contains_key-insert s.rv_rat n (lowest (q n) base) n),
        )
      ]

      pub reach_all-Progress :
          (ns : List NodeId) (s : Search)
          → ((n : NodeId) → has ns n ≡ true → Adjacent balance u n)
          → All HasRatio s.rv_rat
          → (s' : Search) × (reach_all balance u (lowest (q u) base) ns s ≡ done s')
            × Progress s s'
            × ((n : NodeId) → has ns n ≡ true → contains_key s'.rv_rat n ≡ true)
      unfolding reach_all has
      reach_all-Progress [] s near h = (s, refl, Progress-refl s h, λ n k. cc)
      reach_all-Progress (n ∷ ns) s near h =
          let (t, reached, first, now) = reach-Progress n s (near n (ground arith)) h in
          let (s', ended, rest, later) =
            reach_all-Progress ns t (λ m k. near m (ground arith)) first.ratios in
          (
            s',
            rw (reached, ended),
            Progress-trans first rest,
            λ m k. elim (Bool-cases (eqb m n)) [
              | inl same ↦
                  subst (λ x. contains_key s'.rv_rat x ≡ true) (sym ((eqb_iff m n).0 same))
                    (rest.grows n now)
              | inr other ↦ later m (rw other at k)
            ],
          )
