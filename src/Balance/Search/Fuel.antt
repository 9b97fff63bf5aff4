-- ===== src/Balance/Search/Fuel.antt =====
-- The search for ratios ends, whatever the rates are: it returns or divides by zero
-- (compiler/src/analyze.rs, `solve_balance_ratios`).
use pipeit.Base.{
  ℕ, zero, suc, ◌+◌, ◌≤◌, ◌≡◌, subst, ap, true, false, Option, none, some, List, [], ◌∷◌, inl, inr,
  arith, Map, get, insert, contains_key, has, length, length-append, length-map, eqb, map, mul64,
  Bool-cases, List-cases, Option-cases, nat_eq, pair_eq,
}
use pipeit.Outcome.{Run, done, panic, out_of_fuel, ◌>>=◌, div}
use pipeit.Balance.Gcd.{gcd}
use pipeit.Balance.Search.{
  Ratio, BalanceGraph, Search, reduce_ratio, propagate_ratio, settle, reach, reach_all, expand,
  drain, solve_from, solve_balance_ratios,
}
use pipeit.Balance.Search.Steps.{
  Adjacent, IsLinked, unvisited, unvisited-insert, unvisited-le-length,
}
use pipeit.Extern.{Extern}
use pipeit.Graph.{NodeId, Node, Subgraph, node_ids}

-- Fuel is not what stops the run, and what it returns meets `P`.
abbrev pub EndsWith {ℓ} : {A : Type ℓ} → (A → Type 0) → Run A → Type 0
EndsWith P (done a) = P a
EndsWith P panic = Unit {0}
EndsWith P out_of_fuel = ⊥

pub EndsWith-bind {ℓ κ} :
    {A : Type ℓ} {B : Type κ} (P : A → Type 0) (Q : B → Type 0) (m : Run A) (f : A → Run B)
    → EndsWith P m
    → ((a : A) → P a → EndsWith Q (f a))
    → EndsWith Q (m >>= f)
EndsWith-bind P Q (done a) f p k = k a p
EndsWith-bind P Q panic f p k = tt
EndsWith-bind P Q out_of_fuel f p k = p

pub div-EndsWith : (a b : ℕ) → EndsWith (λ _. Unit {0}) (div a b)
unfolding div
div-EndsWith a b = elim (Bool-cases (eqb b 0)) [ inl e ↦ rw (e, div) tt | inr e ↦ rw (e, div) tt ]

reduce_ratio-EndsWith : (a b : ℕ) → EndsWith (λ _. Unit {0}) (reduce_ratio a b)
unfolding reduce_ratio
reduce_ratio-EndsWith a b =
    EndsWith-bind (λ _. Unit {0}) (λ _. Unit {0}) (div a (gcd a b)) _ (div-EndsWith a (gcd a b))
      λ n _.
        EndsWith-bind (λ _. Unit {0}) (λ _. Unit {0}) (div b (gcd a b)) _ (div-EndsWith b (gcd a b))
          (λ d _. tt)

module _ (balance : BalanceGraph) (ids : List NodeId) (linked : IsLinked balance ids) where
  measure : Search → ℕ
  measure s = unvisited s.rv_rat ids + length s.queue

  propagate_ratio-EndsWith :
      (u w num den : ℕ) → EndsWith (λ _. Unit {0}) (propagate_ratio u w num den balance.rates)
  unfolding propagate_ratio
  propagate_ratio-EndsWith u w num den = elim (Option-cases (get balance.rates (u, w))) [
    | inl ((p, c), e) ↦
        rw (e, propagate_ratio)
          (EndsWith-bind (λ _. Unit {0}) (λ _. Unit {0}) (reduce_ratio (mul64 num p) (mul64 den c))
            _ (reduce_ratio-EndsWith (mul64 num p) (mul64 den c)) (λ r _. tt))
    | inr e ↦ elim (Option-cases (get balance.rates (w, u))) [
      | inl ((p, c), e') ↦
          rw (e, e', propagate_ratio)
            (EndsWith-bind (λ _. Unit {0}) (λ _. Unit {0})
              (reduce_ratio (mul64 num c) (mul64 den p)) _
              (reduce_ratio-EndsWith (mul64 num c) (mul64 den p)) (λ r _. tt))
      | inr e' ↦ rw (e, e', propagate_ratio) tt
    ]
  ]

  settle_measure :
      (n : NodeId) (r : Option Ratio) (s : Search)
      → has ids n ≡ true
      → contains_key s.rv_rat n ≡ false
      → measure (settle n r s) ≤ measure s
  unfolding measure settle
  settle_measure n none s listed new = omega arith
  settle_measure n (some r) s listed new =
      omega
        (arith, unvisited-insert s.rv_rat n r ids listed new, length-append {0} s.queue (n ∷ []))

  reach-EndsWith :
      (u n : NodeId) (r : Ratio) (s : Search)
      → Adjacent balance u n
      → EndsWith (λ s'. measure s' ≤ measure s) (reach balance u r n s)
  unfolding reach
  reach-EndsWith u n (num, den) s near = elim (Bool-cases (contains_key s.rv_rat n)) [
    | inl old ↦ rw (old, reach) (omega arith)
    | inr new ↦
        rw (new, reach)
          (EndsWith-bind (λ _. Unit {0}) (λ s'. measure s' ≤ measure s)
            (propagate_ratio u n num den balance.rates) _ (propagate_ratio-EndsWith u n num den)
            (λ r _. settle_measure n r s (linked.listed u n near) new))
  ]

  reach_all-EndsWith :
      (u : NodeId) (r : Ratio) (ns : List NodeId) (s : Search) (bound : ℕ)
      → ((n : NodeId) → has ns n ≡ true → Adjacent balance u n)
      → measure s ≤ bound
      → EndsWith (λ s'. measure s' ≤ bound) (reach_all balance u r ns s)
  unfolding reach_all has
  reach_all-EndsWith u r [] s bound near h = h
  reach_all-EndsWith u r (n ∷ ns) s bound near h =
      EndsWith-bind (λ s'. measure s' ≤ measure s) (λ s'. measure s' ≤ bound)
        (reach balance u r n s) _ (reach-EndsWith u n r s (near n (ground arith)))
        (λ t h'. reach_all-EndsWith u r ns t bound (λ m k. near m (ground arith)) (omega arith))

  expand-EndsWith :
      (u : NodeId) (s : Search) → EndsWith (λ s'. measure s' ≤ measure s) (expand balance u s)
  unfolding expand
  expand-EndsWith u s = elim (Option-cases (get s.rv_rat u)) [
    | inr none_here ↦ rw (none_here, expand) (omega arith)
    | inl (r, keyed) ↦ elim (Option-cases (get balance.adjacency u)) [
      | inr alone ↦ rw (keyed, alone, expand) (omega arith)
      | inl (ns, around) ↦
          rw (keyed, around, expand)
            (reach_all-EndsWith u r ns s (measure s) (λ n k. ground arith) (omega arith))
    ]
  ]

  drain-EndsWith :
      (fuel : ℕ) (s : Search) → measure s ≤ fuel → EndsWith (λ _. Unit {0}) (drain balance fuel s)
  unfolding drain measure
  drain-EndsWith zero s h = elim (List-cases s.queue) [
    | inl empty ↦ rw (empty, drain) tt
    | inr (u, rest, popped) ↦ absurd (omega (arith, ap (λ (l : List NodeId). length l) popped))
  ]
  drain-EndsWith (suc fuel) s h = elim (List-cases s.queue) [
    | inl empty ↦ rw (empty, drain) tt
    | inr (u, rest, popped) ↦
        let t : Search = record s { queue = rest } in
        let fewer : measure t ≤ fuel = omega (arith, ap (λ (l : List NodeId). length l) popped) in
        rw (popped, drain)
          (EndsWith-bind (λ s'. measure s' ≤ measure t) (λ _. Unit {0}) (expand balance u t) _
            (expand-EndsWith u t) (λ s' k. drain-EndsWith fuel s' (omega arith)))
  ]

  module _ {X : Extern} where
    solve_from-EndsWith :
        (fuel : ℕ) (ns : List (Node X)) (m : Map NodeId Ratio)
        → length ids ≤ fuel
        → ((v : NodeId) → has (map (λ n. n.id) ns) v ≡ true → has ids v ≡ true)
        → EndsWith (λ _. Unit {0}) (solve_from balance fuel ns m)
    unfolding solve_from measure has
    solve_from-EndsWith fuel [] m enough listed = tt
    solve_from-EndsWith fuel (n ∷ ns) m enough listed = elim (Bool-cases (contains_key m n.id)) [
      | inl old ↦ rw old (solve_from-EndsWith fuel ns m enough (λ v k. listed v (ground arith)))
      | inr new ↦
          let s : Search = record { rv_rat = insert m n.id (1, 1); queue = n.id ∷ [] } in
          let first : has ids n.id ≡ true = listed n.id (ground arith) in
          let enough_s : measure s ≤ fuel =
            omega
              (arith, unvisited-insert m n.id (1, 1) ids first new, unvisited-le-length m ids) in
          rw new (
            EndsWith-bind (λ _. Unit {0}) (λ _. Unit {0}) (drain balance fuel s) _
              (drain-EndsWith fuel s enough_s)
              (λ t _. solve_from-EndsWith fuel ns t.rv_rat enough (λ v k. listed v (ground arith))))
    ]

    pub solve_balance_ratios-EndsWith :
        (sub : Subgraph X)
        → node_ids sub ≡ ids
        → EndsWith (λ _. Unit {0}) (solve_balance_ratios balance sub)
    unfolding solve_balance_ratios
    solve_balance_ratios-EndsWith sub all_ids =
        solve_from-EndsWith (length sub.nodes) sub.nodes []
          (omega (
            arith,
            length-map {0, 0} (λ (n : Node X). n.id) sub.nodes,
            ap (λ (l : List NodeId). length l) all_ids,
          ))
          (λ v k. subst (λ (l : List NodeId). has l v ≡ true) all_ids k)
