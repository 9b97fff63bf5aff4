-- ===== src/Kahn/Loop.antt =====
-- Kahn's loop (compiler/src/schedule.rs) ends, and what it has fired then.
use pipeit.Base.{
  ℕ, zero, suc, ◌+◌, ◌≤◌, ◌<◌, ◌≡◌, refl, ap, ◌∙◌, not, some, List, [], ◌∷◌, ◌++◌, map, keep, count,
  has, All, List-cases, Map, get, get_or, insert, get-insert, contains_key, eqb, if◌then◌else◌,
  length, length-append, length-map, length-sort, arith, dec32, dec32-eq, u32_mod, nat_eq, inl, inr,
}
use pipeit.Extern.{Extern}
use pipeit.Graph.{NodeId, Edge, Subgraph}
use pipeit.Kahn.{
  FiringEntry, Links, Kahn, key_of, is_source, relax, relax_all, fire, loop, ready, sort_values,
  links, start,
}
use pipeit.Kahn.Arcs.{arcs, waits-le}
use pipeit.Kahn.Degrees.{IsLinked-links}
use pipeit.Kahn.Invariant.{Inv, relax-Inv, fire-Inv}

nonzero : Map NodeId ℕ → ℕ
nonzero m = length (keep (λ p. not (eqb p.1 0)) m)

nonzero-insert :
    (m : Map NodeId ℕ) (v d w : ℕ)
    → get m v ≡ some d
    → 0 < d
    → nonzero (insert m v w) + 1 ≡ nonzero m + (if eqb w 0 then 0 else 1)
unfolding nonzero
nonzero-insert [] v d w e h = cc
nonzero-insert ((j, x) ∷ m) v d w e h = ground (arith, nonzero-insert m v d w)

nonzero-zero : (m : Map NodeId ℕ) → nonzero m + length (keep is_source m) ≡ length m
unfolding nonzero
nonzero-zero [] = omega arith
nonzero-zero ((j, x) ∷ m) = ground (arith, nonzero-zero m)

-- The rounds that are left.
work : Kahn → ℕ
work s = nonzero s.in_degree + length s.queue

abbrev IsCounted : Map NodeId ℕ → FiringEntry → Type 0
IsCounted rv f = f.repetition_count ≡ get_or rv f.node_id 1

All-snoc {ℓ κ} :
    {A : Type ℓ} (P : A → Type κ) (xs : List A) (x : A) → All P xs → P x → All P (xs ++ x ∷ [])
All-snoc P [] x h p = (p, tt)
All-snoc P (y ∷ xs) x h p = (h.0, All-snoc P xs x h.1 p)

loop_stops :
    (fuel : ℕ) (adj : Map NodeId (List NodeId)) (rv : Map NodeId ℕ) (s : Kahn)
    → s.queue ≡ []
    → loop fuel adj rv s ≡ some s
unfolding loop
loop_stops zero adj rv s e = simp (e, loop)
loop_stops (suc fuel) adj rv s e = simp (e, loop)

module _ {X : Extern} (back : List (NodeId × NodeId)) (es : List (Edge X)) where
  relax-work :
      (next : NodeId) (ns : List NodeId) (s : Kahn)
      → Inv back es (next ∷ ns) s
      → (work (relax next s) ≡ work s)
        × ((v : NodeId) → contains_key (relax next s).in_degree v ≡ contains_key s.in_degree v)
        × ((relax next s).firings ≡ s.firings)
  unfolding relax work count
  relax-work next ns s inv =
      let d : ℕ = get_or s.in_degree next 0 in
      (
        ground (
          arith,
          inv.degree next,
          inv.small next,
          dec32-eq d,
          nonzero-insert s.in_degree next d (dec32 d),
          length-append s.queue (next ∷ []),
        ),
        λ v. ground (arith, get-insert s.in_degree next (dec32 d) v),
        ground arith,
      )

  relax_all_lem :
      (ns : List NodeId) (s : Kahn)
      → Inv back es ns s
      → Inv back es [] (relax_all ns s)
        × (work (relax_all ns s) ≡ work s)
        × ((v : NodeId) → contains_key (relax_all ns s).in_degree v ≡ contains_key s.in_degree v)
        × ((relax_all ns s).firings ≡ s.firings)
  unfolding relax_all
  relax_all_lem [] s inv = (inv, refl, λ v. refl, refl)
  relax_all_lem (n ∷ ns) s inv =
      let (same_work, same_keys, same_firings) = relax-work n ns s inv in
      let (inv', w, k, f) = relax_all_lem ns (relax n s) (relax-Inv back es n ns s inv) in
      (inv', w ∙ same_work, λ v. k v ∙ same_keys v, f ∙ same_firings)

  -- The state in which the loop stops.
  pub record IsDone (rv : Map NodeId ℕ) (s t : Kahn) : Type 0 where
    pub inv : Inv back es [] t
    pub empty : t.queue ≡ []
    pub keys : (v : NodeId) → contains_key t.in_degree v ≡ contains_key s.in_degree v
    pub counted : All (IsCounted rv) t.firings

  module _ (adj : Map NodeId (List NodeId)) (rv : Map NodeId ℕ)
      (next : (u v : NodeId) → count v (get_or adj u []) ≡ arcs back es u v) where
    loop-IsDone :
        (fuel : ℕ) (s : Kahn)
        → Inv back es [] s
        → All (IsCounted rv) s.firings
        → work s ≤ fuel
        → (t : Kahn) × (loop fuel adj rv s ≡ some t) × IsDone rv s t
    unfolding loop work fire
    loop-IsDone zero s inv c w = elim (List-cases s.queue) [
      | inl empty ↦ (
        s,
        loop_stops zero adj rv s empty,
        record { inv = inv; empty = empty; keys = λ v. refl; counted = c },
      )
      | inr (n, rest, e) ↦ absurd (omega (arith, ap length e))
    ]
    loop-IsDone (suc fuel) s inv c w = elim (List-cases s.queue) [
      | inl empty ↦ (
        s,
        loop_stops (suc fuel) adj rv s empty,
        record { inv = inv; empty = empty; keys = λ v. refl; counted = c },
      )
      | inr (n, rest, e) ↦
          let ns = get_or adj n [] in
          let s' = fire rv n rest s in
          let counted : All (IsCounted rv) s'.firings =
            All-snoc (IsCounted rv) s.firings _ c refl in
          let (inv', w', k', f') =
            relax_all_lem ns s' (fire-Inv back es rv n rest s inv e ns (next n)) in
          let (t, ends, done) =
            loop-IsDone fuel (relax_all ns s') inv' (rw f' counted)
              (omega (arith, w', ap length e)) in
          (
            t,
            rw (e, loop) ends,
            record {
              inv = done.inv;
              empty = done.empty;
              keys = λ v. done.keys v ∙ k' v;
              counted = done.counted;
            },
          )
    ]

-- The rounds that the loop is given: one for each key of the in-degree map.
unfoldable pub rounds : Links → ℕ
rounds l = length l.in_degree

work-start : (l : Links) → work (start l) ≡ rounds l
unfolding work start ready rounds
work-start l =
    let zeros = map key_of (keep is_source l.in_degree) in
    omega (
      arith,
      nonzero-zero l.in_degree,
      length-sort zeros,
      length-map {0, 0} key_of (keep is_source l.in_degree),
    )

module _ {X : Extern} (back : List (NodeId × NodeId)) (sub : Subgraph X)
    (fits : length sub.edges < u32_mod) where
  Inv-start : Inv back sub.edges [] (start (links back sub))
  unfolding start count has
  Inv-start =
      let linked = IsLinked-links back sub fits in
      record {
        degree = λ v. omega (arith, linked.degree v);
        small = λ v. omega (arith, linked.degree v, waits-le back sub.edges [] v);
        once = λ v. omega (arith, linked.queue v);
        ordered = λ u v arc h. cc;
      }

  -- The loop ends within its rounds, in a state that keeps the invariant.
  pub sort_ends :
      (rv : Map NodeId ℕ)
      → let l = links back sub in
        (t : Kahn) × (loop (rounds l) (sort_values l.adj) rv (start l) ≡ some t)
        × IsDone back sub.edges rv (start l) t
  unfolding start
  sort_ends rv =
      let l = links back sub in
      loop-IsDone back sub.edges (sort_values l.adj) rv (IsLinked-links back sub fits).next
        (rounds l) (start l) Inv-start tt (omega (arith, work-start l))
