-- ===== src/Adjacent/Push.antt =====
-- One round of the search: the loop over the edges (compiler/src/graph.rs,
-- `adjacent_actor_call_id`).
use pipeit.Base.{
  ℕ, ◌+◌, ◌≤◌, ◌<◌, ◌≡◌, refl, sym, ap, subst, ◌∙◌, Bool, true, false, ◌||◌, none, some, List, [],
  ◌∷◌, ◌++◌, ◌⊎◌, inl, inr, has, length, length-append, eqb, eqb_iff, if◌then◌else◌, Bool-cases,
  Option-cases, nat_eq, arith,
}
use pipeit.Extern.{Extern}
use pipeit.Graph.{NodeId, Edge}
use pipeit.Cycles.Adjacency.{has-append_last}
use pipeit.Adjacent.{Front, next_of, follow, follow_all}

module _ {X : Extern} (back : Bool) where
  -- An edge of the list leads from `u` to `v` in the direction of the search.
  pub leads : List (Edge X) → NodeId → NodeId → Bool
  leads [] u v = false
  leads (e ∷ es) u v = (elim (next_of back e u) [ none ↦ false | some w ↦ eqb w v ]) || leads es u v

  -- The end of the edge that the search can reach.
  abbrev far_end : Edge X → NodeId
  far_end e = if back then e.source else e.target

  -- How many edges lead to a node that is not visited.
  pub open_edges : List NodeId → List (Edge X) → ℕ
  open_edges visited [] = 0
  open_edges visited (e ∷ es) = (if has visited (far_end e) then 0 else 1) + open_edges visited es

  pub open_edges-le :
      (visited : List NodeId) (es : List (Edge X)) → open_edges visited es ≤ length es
  unfolding open_edges
  open_edges-le visited [] = omega arith
  open_edges-le visited (e ∷ es) = ground (arith, open_edges-le visited es)

  open_edges-cons-le :
      (v : NodeId) (visited : List NodeId) (es : List (Edge X))
      → open_edges (v ∷ visited) es ≤ open_edges visited es
  unfolding open_edges has
  open_edges-cons-le v visited [] = omega arith
  open_edges-cons-le v visited (e ∷ es) = ground (arith, open_edges-cons-le v visited es)

  open_edges-cons-lt :
      (u v : NodeId) (visited : List NodeId) (es : List (Edge X))
      → leads es u v ≡ true
      → has visited v ≡ false
      → open_edges (v ∷ visited) es < open_edges visited es
  unfolding open_edges has leads next_of
  open_edges-cons-lt u v visited [] h new = cc
  open_edges-cons-lt u v visited (e ∷ es) h new = ground (
    arith,
    open_edges-cons-lt u v visited es,
    open_edges-cons-le v visited es,
    eqb_iff e.source v,
    eqb_iff e.target v,
  )

  module _ (all : List (Edge X)) (u : NodeId) where
    pub record Pushed (f f' : Front) : Type 0 where
      pub grows : (v : NodeId) → has f.visited v ≡ true → has f'.visited v ≡ true
      pub waits : (v : NodeId) → has f.queue v ≡ true → has f'.queue v ≡ true
      pub queued :
          ((v : NodeId) → has f.queue v ≡ true → has f.visited v ≡ true)
          → (v : NodeId) → has f'.queue v ≡ true
          → has f'.visited v ≡ true
      pub fresh :
          (v : NodeId)
          → has f'.visited v ≡ true
          → (has f.visited v ≡ true) ⊎ (has f'.queue v ≡ true) × (leads all u v ≡ true)
      pub measure :
          open_edges f'.visited all + length f'.queue ≤ open_edges f.visited all + length f.queue

    Pushed-refl : (f : Front) → Pushed f f
    Pushed-refl f = record {
      grows = λ v h. h;
      waits = λ v h. h;
      queued = λ k. k;
      fresh = λ v h. inl h;
      measure = omega arith;
    }

    Pushed-trans : {f g h : Front} → Pushed f g → Pushed g h → Pushed f h
    Pushed-trans a b = record {
      grows = λ v k. b.grows v (a.grows v k);
      waits = λ v k. b.waits v (a.waits v k);
      queued = λ k. b.queued (a.queued k);
      fresh = λ v k. elim (b.fresh v k) [
        | inr now ↦ inr now
        | inl old ↦ elim (a.fresh v old) [
          | inl older ↦ inl older
          | inr (waiting, edge) ↦ inr (b.waits v waiting, edge)
        ]
      ];
      measure = omega (arith, a.measure, b.measure);
    }

    follow-Pushed :
        (e : Edge X) (f : Front)
        → ((v : NodeId) → next_of back e u ≡ some v → leads all u v ≡ true)
        → Pushed f (follow back u e f)
          × ((v : NodeId) → next_of back e u ≡ some v → has (follow back u e f).visited v ≡ true)
    unfolding has follow
    follow-Pushed e f inside = elim (Option-cases (next_of back e u)) [
      | inr away ↦
          let stays : follow back u e f ≡ f = rw (away, follow) refl in
          (subst (λ (g : Front). Pushed f g) (sym stays) (Pushed-refl f), λ v h. cc (sym away ∙ h))
      | inl (w, near) ↦ elim (Bool-cases (has f.visited w)) [
        | inl old ↦
            let stays : follow back u e f ≡ f = rw (near, follow, old) refl in
            (
              subst (λ (g : Front). Pushed f g) (sym stays) (Pushed-refl f),
              λ v h.
                  let same : w ≡ v = let k : some w ≡ some v = sym near ∙ h in cc k in
                  subst (λ (g : Front). has g.visited v ≡ true) (sym stays)
                    (subst (λ (x : NodeId). has f.visited x ≡ true) same old),
            )
        | inr new ↦
            let g : Front = record { queue = f.queue ++ w ∷ []; visited = w ∷ f.visited } in
            let moves : follow back u e f ≡ g = rw (near, follow, new) refl in
            let edge = inside w near in
            let pushed : Pushed f g = record {
              grows = λ v h. ground arith;
              waits = λ v h. ground (arith, has-append_last f.queue w v);
              queued = λ k v h. ground (arith, has-append_last f.queue w v, k v, eqb_iff v w);
              fresh = λ v h. ground (arith, has-append_last f.queue w v, eqb_iff v w);
              measure = omega (
                arith,
                open_edges-cons-lt u w f.visited all edge new,
                length-append {0} f.queue (w ∷ []),
              );
            } in
            (
              subst (λ (x : Front). Pushed f x) (sym moves) pushed,
              λ v h.
                  let same : w ≡ v = let k : some w ≡ some v = sym near ∙ h in cc k in
                  subst (λ (x : Front). has x.visited v ≡ true) (sym moves) (ground arith),
            )
      ]
    ]

    -- After the loop all that the edges lead to is visited.
    pub follow_all-Pushed :
        (es : List (Edge X)) (f : Front)
        → ((v : NodeId) → leads es u v ≡ true → leads all u v ≡ true)
        → Pushed f (follow_all back u es f)
          × ((v : NodeId) → leads es u v ≡ true → has (follow_all back u es f).visited v ≡ true)
    unfolding follow_all leads
    follow_all-Pushed [] f inside = (Pushed-refl f, λ v h. cc)
    follow_all-Pushed (e ∷ es) f inside =
        let (first, now) = follow-Pushed e f (λ v h. inside v (ground arith)) in
        let (rest, later) =
          follow_all-Pushed es (follow back u e f) (λ v h. inside v (ground arith)) in
        (
          Pushed-trans first rest,
          λ v h. elim (Option-cases (next_of back e u)) [
            | inr away ↦ later v (ground arith)
            | inl (w, near) ↦ elim (Bool-cases (eqb w v)) [
              | inl same ↦
                  let e_v : next_of back e u ≡ some v =
                    near ∙ ap (λ (x : NodeId). some x) ((eqb_iff w v).0 same) in
                  rest.grows v (now v e_v)
              | inr other ↦ later v (ground arith)
            ]
          ],
        )
