-- ===== src/Cycles/Walks.antt =====
-- Walks along the adjacency lists: the path of the search and the cycles that it cuts out
-- (compiler/src/graph.rs, `dfs_cycle`).
use native.Mathlib.Nat
use pipeit.Base.{
  ℕ, zero, suc, ◌+◌, ◌%◌, ◌≤◌, ◌<◌, ◌≡◌, refl, sym, ap, subst, ◌∙◌, true, false, none, some, List,
  [], ◌∷◌, ◌++◌, inl, inr, Map, has, position, length, length-append, get_elem?, eqb, ltb,
  if◌then◌else◌, Bool-cases, nat_eq, arith,
}
use pipeit.Graph.{NodeId}
use pipeit.SubgraphIndex.BackEdges.{IsStep}
use pipeit.Cycles.{drop, pop}
use pipeit.Cycles.Adjacency.{neighbors}

get-append_last :
    (xs : List ℕ) (n i : ℕ)
    → get_elem? (xs ++ n ∷ []) i
      ≡ (if ltb i (length xs) then get_elem? xs i else if eqb i (length xs) then some n else none)
get-append_last [] n zero = refl
get-append_last [] n (suc i) = ground arith
get-append_last (x ∷ xs) n zero = ground arith
get-append_last (x ∷ xs) n (suc i) = ground (arith, get-append_last xs n i)

get-lt : (xs : List ℕ) (i : ℕ) {x : ℕ} → get_elem? xs i ≡ some x → i < length xs
get-lt [] i h = cc
get-lt (y ∷ xs) zero h = omega arith
get-lt (y ∷ xs) (suc i) h = omega (arith, get-lt xs i h)

get-drop : (i : ℕ) (xs : List ℕ) (j : ℕ) → get_elem? (drop i xs) j ≡ get_elem? xs (i + j)
unfolding drop
get-drop zero xs j = rw (Nat.zero-add j) refl
get-drop (suc i) [] j = refl
get-drop (suc i) (x ∷ xs) j = rw (Nat.suc-add i j) (get-drop i xs j)

length-drop : (i : ℕ) (xs : List ℕ) → i ≤ length xs → length (drop i xs) + i ≡ length xs
unfolding drop
length-drop zero xs h = omega arith
length-drop (suc i) [] h = absurd (omega arith)
length-drop (suc i) (x ∷ xs) h = omega (arith, length-drop i xs (omega arith))

position_at :
    (xs : List ℕ) (m i : ℕ) → position (λ n. eqb n m) xs ≡ some i → get_elem? xs i ≡ some m
position_at [] m i h = cc
position_at (x ∷ xs) m zero h = ground arith
position_at (x ∷ xs) m (suc i) h = ground (arith, position_at xs m i)

pub position_found :
    (xs : List ℕ) (m : ℕ) → has xs m ≡ true → (i : ℕ) × (position (λ n. eqb n m) xs ≡ some i)
unfolding has
position_found [] m h = cc
position_found (x ∷ xs) m h = elim (Bool-cases (eqb x m)) [
  | inl same ↦ (0, ground arith)
  | inr other ↦ let (i, found) = position_found xs m (ground arith) in (suc i, ground arith)
]

pub pop-append : (xs : List NodeId) (n : NodeId) → pop (xs ++ n ∷ []) ≡ xs
unfolding pop
pop-append [] n = refl
pop-append (x ∷ []) n = refl
pop-append (x ∷ y ∷ xs) n = ap (λ (l : List NodeId). x ∷ l) (pop-append (y ∷ xs) n)

mod_next : (i n : ℕ) → ltb (suc i) n ≡ true → (i + 1) % n ≡ suc i
mod_next i n h = Nat.mod-eq_of_lt (ground arith) ∙ omega arith

mod_wrap : (i n : ℕ) → i < n → ltb (suc i) n ≡ false → (i + 1) % n ≡ 0
mod_wrap i n h wraps =
    let e : i + 1 ≡ n = ground arith in subst (λ (k : ℕ). k % n ≡ 0) (sym e) (Nat.mod_self n)

module _ (adj : Map NodeId (List NodeId)) where
  abbrev pub Leads : NodeId → NodeId → Type 0
  Leads u v = has (neighbors adj u) v ≡ true

  -- Each node leads to the next one.
  abbrev pub IsWalk : List NodeId → Type 0
  IsWalk xs = (i u v : ℕ) → get_elem? xs i ≡ some u → get_elem? xs (suc i) ≡ some v → Leads u v

  -- There is a node; each leads to the next one, and the last to the first.
  abbrev pub IsRound : List NodeId → Type 0
  IsRound c = (0 < length c) × ((u v : NodeId) → IsStep c u v → Leads u v)

  pub IsWalk-single : (n : NodeId) → IsWalk (n ∷ [])
  IsWalk-single n i u v at_i at_next = cc

  pub IsWalk-append :
      (xs : List NodeId) (n m : NodeId)
      → IsWalk (xs ++ n ∷ [])
      → Leads n m
      → IsWalk ((xs ++ n ∷ []) ++ m ∷ [])
  IsWalk-append xs n m walk leads i u v at_i at_next =
      let long : length (xs ++ n ∷ []) ≡ length xs + 1 = length-append {0} xs (n ∷ []) in
      elim (Bool-cases (ltb i (length xs))) [
        | inl early ↦
            walk i u v (ground (arith, get-append_last (xs ++ n ∷ []) m i))
              (ground (arith, get-append_last (xs ++ n ∷ []) m (suc i)))
        | inr late ↦
            let at_end : i ≡ length xs = ground (arith, get-append_last (xs ++ n ∷ []) m (suc i)) in
            let u_eq : n ≡ u =
              ground (arith, get-append_last (xs ++ n ∷ []) m i, get-append_last xs n i) in
            let v_eq : m ≡ v = ground (arith, get-append_last (xs ++ n ∷ []) m (suc i)) in
            subst (λ (x : NodeId). Leads x v) u_eq (subst (λ (x : NodeId). Leads n x) v_eq leads)
      ]

  drop_step :
      (xs : List NodeId) (m pos : ℕ)
      → IsWalk (xs ++ m ∷ [])
      → position (λ n. eqb n m) xs ≡ some pos
      → (u v : NodeId) → IsStep (drop pos xs) u v
      → Leads u v
  drop_step xs m pos walk found u v (i, at_i, at_next) =
      let first : get_elem? xs pos ≡ some m = position_at xs m pos found in
      let pos_lt : pos < length xs = get-lt xs pos first in
      let total : length (drop pos xs) + pos ≡ length xs = length-drop pos xs (omega arith) in
      let at_u : get_elem? xs (pos + i) ≡ some u = sym (get-drop pos xs i) ∙ at_i in
      let u_lt : pos + i < length xs = get-lt xs (pos + i) at_u in
      elim (Bool-cases (ltb (suc i) (length (drop pos xs)))) [
        | inl inside ↦
            let small : (i + 1) % length (drop pos xs) ≡ suc i =
              mod_next i (length (drop pos xs)) inside in
            let at_v : get_elem? xs (suc (pos + i)) ≡ some v =
              subst (λ (k : ℕ). get_elem? xs k ≡ some v) (omega arith)
                (sym (get-drop pos xs (suc i)) ∙ rw small at at_next) in
            let v_lt : suc (pos + i) < length xs = get-lt xs (suc (pos + i)) at_v in
            walk (pos + i) u v (ground (arith, get-append_last xs m (pos + i)))
              (ground (arith, get-append_last xs m (suc (pos + i))))
        | inr wraps ↦
            let small : (i + 1) % length (drop pos xs) ≡ 0 =
              mod_wrap i (length (drop pos xs)) (omega (arith, get-lt (drop pos xs) i at_i))
                wraps in
            let at_v : get_elem? xs pos ≡ some v =
              subst (λ (k : ℕ). get_elem? xs k ≡ some v) (omega arith)
                (sym (get-drop pos xs 0) ∙ rw small at at_next) in
            let i_lt : i < length (drop pos xs) = get-lt (drop pos xs) i at_i in
            walk (pos + i) u v (ground (arith, get-append_last xs m (pos + i)))
              (ground (arith, get-append_last xs m (suc (pos + i))))
      ]

  -- What stands in a walk from its last node on is a round.
  pub drop-IsRound :
      (xs : List NodeId) (m pos : ℕ)
      → IsWalk (xs ++ m ∷ [])
      → position (λ n. eqb n m) xs ≡ some pos
      → IsRound (drop pos xs)
  drop-IsRound xs m pos walk found =
      let pos_lt : pos < length xs = get-lt xs pos (position_at xs m pos found) in
      (omega (arith, length-drop pos xs), drop_step xs m pos walk found)
