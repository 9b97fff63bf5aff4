-- ===== src/Kahn/Invariant.antt =====
-- What every round of Kahn's loop (compiler/src/schedule.rs) keeps.
use pipeit.Base.{
  ℕ, ◌+◌, ◌<◌, ◌≡◌, refl, ap, true, false, List, [], ◌∷◌, ◌++◌, map, count, count-append, has,
  has_iff-count, index_of, Map, get_or, get-insert, if◌then◌else◌, length, arith, dec32, dec32-eq,
  u32_mod, nat_eq,
}
use mathlib.Core.List.{map-append}
use pipeit.Extern.{Extern}
use pipeit.Graph.{NodeId, Edge}
use pipeit.Kahn.{Kahn, fired, relax, relax_all, fire}
use pipeit.Kahn.Arcs.{arcs, waits, waits-fire, fired_of_waits}
use pipeit.Kahn.Degrees.{zero_at}

index_of-append :
    (a : ℕ) (xs ys : List ℕ)
    → index_of a (xs ++ ys) ≡ (if has xs a then index_of a xs else length xs + index_of a ys)
unfolding index_of has
index_of-append a [] ys = omega arith
index_of-append a (x ∷ xs) ys = ground (arith, index_of-append a xs ys)

index_of-lt : (a : ℕ) (xs : List ℕ) → has xs a ≡ true → index_of a xs < length xs
unfolding index_of has
index_of-lt a [] h = cc
index_of-lt a (x ∷ xs) h = ground (arith, index_of-lt a xs)

index_of-absent : (a : ℕ) (xs : List ℕ) → has xs a ≡ false → index_of a xs ≡ length xs
unfolding index_of has
index_of-absent a [] h = refl
index_of-absent a (x ∷ xs) h = ground (arith, index_of-absent a xs)

module _ {X : Extern} (back : List (NodeId × NodeId)) (es : List (Edge X)) where
  -- `ns` are the neighbors that the node which fired last has still to release.
  pub record Inv (ns : List NodeId) (s : Kahn) : Type 0 where
    pub degree : (v : NodeId) → get_or s.in_degree v 0 ≡ waits back es (fired s) v + count v ns
    pub small : (v : NodeId) → get_or s.in_degree v 0 < u32_mod
    pub once : (v : NodeId) → count v s.queue + count v (fired s) ≡ zero_at s.in_degree v
    pub ordered :
        (u v : NodeId)
        → 0 < arcs back es u v
        → has (fired s) v ≡ true
        → index_of u (fired s) < index_of v (fired s)

  module _ (next : NodeId) (ns : List NodeId) (s : Kahn) (inv : Inv (next ∷ ns) s) where
    relax-degree :
        (v : NodeId) → get_or (relax next s).in_degree v 0 ≡ waits back es (fired s) v + count v ns
    unfolding relax count
    relax-degree v =
        let d : ℕ = get_or s.in_degree next 0 in
        ground (
          arith,
          inv.degree v,
          inv.degree next,
          inv.small next,
          dec32-eq d,
          get-insert s.in_degree next (dec32 d) v,
        )

    relax-fired : (relax next s).firings ≡ s.firings
    unfolding relax
    relax-fired = ground arith

    relax-once :
        (v : NodeId)
        → count v (relax next s).queue + count v (fired s) ≡ zero_at (relax next s).in_degree v
    unfolding relax count
    relax-once v =
        let d : ℕ = get_or s.in_degree next 0 in
        ground (
          arith,
          inv.degree next,
          inv.small next,
          inv.once v,
          dec32-eq d,
          get-insert s.in_degree next (dec32 d) v,
          count-append v s.queue (next ∷ []),
        )

    relax-small : (v : NodeId) → get_or (relax next s).in_degree v 0 < u32_mod
    unfolding relax count
    relax-small v =
        let d : ℕ = get_or s.in_degree next 0 in
        ground (
          arith,
          inv.degree next,
          inv.small next,
          inv.small v,
          dec32-eq d,
          get-insert s.in_degree next (dec32 d) v,
        )

    pub relax-Inv : Inv ns (relax next s)
    relax-Inv =
        let same : fired (relax next s) ≡ fired s = ap (map (λ f. f.node_id)) relax-fired in
        record {
          degree = λ v. rw same (relax-degree v);
          small = relax-small;
          once = λ v. rw same (relax-once v);
          ordered = rw same inv.ordered;
        }

  pub relax_all-Inv : (ns : List NodeId) (s : Kahn) → Inv ns s → Inv [] (relax_all ns s)
  unfolding relax_all
  relax_all-Inv [] s inv = inv
  relax_all-Inv (n ∷ ns) s inv = relax_all-Inv ns (relax n s) (relax-Inv n ns s inv)

  -- The node at the head of the queue waits for nothing.
  module _ (rv : Map NodeId ℕ) (n : NodeId) (rest : List NodeId) (s : Kahn) (inv : Inv [] s)
      (head : s.queue ≡ n ∷ rest) where
    head_free : (waits back es (fired s) n ≡ 0) × (count n (fired s) ≡ 0)
    unfolding count
    head_free =
        let q = ap (count n) head in
        (ground (arith, inv.once n, inv.degree n, q), ground (arith, inv.once n, q))

    fired-fire : fired (fire rv n rest s) ≡ fired s ++ n ∷ []
    unfolding fire
    fired-fire = map-append (λ f. f.node_id) s.firings _

    fire-ordered :
        (u v : NodeId)
        → 0 < arcs back es u v
        → has (fired s ++ n ∷ []) v ≡ true
        → index_of u (fired s ++ n ∷ []) < index_of v (fired s ++ n ∷ [])
    unfolding count index_of
    fire-ordered u v arc here =
        let (free, new) = head_free in
        ground (
          arith,
          inv.ordered u v arc,
          fired_of_waits back es (fired s) u n free,
          index_of-append u (fired s) (n ∷ []),
          index_of-append v (fired s) (n ∷ []),
          index_of-lt u (fired s),
          index_of-lt v (fired s),
          index_of-absent u (fired s),
          has_iff-count v (fired s ++ n ∷ []),
          has_iff-count v (fired s),
          has_iff-count n (fired s),
          count-append v (fired s) (n ∷ []),
        )

    pub fire-Inv :
        (ns : List NodeId)
        → ((v : NodeId) → count v ns ≡ arcs back es n v)
        → Inv ns (fire rv n rest s)
    unfolding fire count
    fire-Inv ns next =
        let (free, new) = head_free in
        record {
          degree = λ v.
              rw fired-fire
                (omega (arith, inv.degree v, next v, waits-fire back es (fired s) n v new));
          small = inv.small;
          once = λ v.
              rw fired-fire
                (omega (arith, inv.once v, count-append v (fired s) (n ∷ []), ap (count v) head));
          ordered = rw fired-fire fire-ordered;
        }
