-- ===== src/Kahn/Degrees.antt =====
-- What the in-degree map and the adjacency lists hold before the loop of
-- compiler/src/schedule.rs begins.
use pipeit.Base.{
  ltb, ap, ◌||◌, ℕ, ◌+◌, ◌≤◌, ◌<◌, ◌≡◌, refl, ◌∙◌, ◌&&◌, none, some, List, [], ◌∷◌, ◌++◌, map, keep,
  count, count-append, count-sort, has, Map, get, get_or, insert, or_insert, get-insert,
  get-or_insert, contains_key, eqb, if◌then◌else◌, length, arith, inc32, inc32-eq, u32_mod, nat_eq,
  pair_eq, Option-cases, inl, inr,
}
use pipeit.Extern.{Extern}
use pipeit.Graph.{NodeId, Node, Edge, Subgraph, node_ids}
use pipeit.Kahn.{Links, key_of, is_source, ready, sort_values, link_nodes, link, link_edges, links}
use pipeit.Kahn.Arcs.{arcs, waits, is_live}

-- Is the key there, with degree 0?
abbrev pub zero_at : Map NodeId ℕ → NodeId → ℕ
zero_at m v = elim (get m v) [ none ↦ 0 | some d ↦ if eqb d 0 then 1 else 0 ]

abbrev keys {ℓ} : {V : Type ℓ} → Map NodeId V → List NodeId
keys m = map key_of m

-- No key stands twice.
abbrev IsMap : Map NodeId ℕ → Type 0
IsMap m = (k : NodeId) → count k (keys m) ≡ (if contains_key m k then 1 else 0)

keys-insert :
    (m : Map NodeId ℕ) (j : NodeId) (w : ℕ) (k : NodeId)
    → count k (keys (insert m j w))
      ≡ count k (keys m) + (if contains_key m j then 0 else if eqb k j then 1 else 0)
unfolding count
keys-insert [] j w k = ground arith
keys-insert ((i, x) ∷ m) j w k = ground (arith, keys-insert m j w k)

IsMap-insert : (m : Map NodeId ℕ) (j : NodeId) (w : ℕ) → IsMap m → IsMap (insert m j w)
IsMap-insert m j w h k = ground (arith, h k, keys-insert m j w k, get-insert m j w k)

absent_of_count : (m : Map NodeId ℕ) (k : NodeId) → count k (keys m) ≡ 0 → get m k ≡ none
unfolding count
absent_of_count [] k h = refl
absent_of_count ((j, x) ∷ m) k h = ground (arith, absent_of_count m k)

count-zero_keys :
    (m : Map NodeId ℕ) (v : NodeId)
    → count v (keys m) ≤ 1
    → count v (map key_of (keep is_source m)) ≡ zero_at m v
unfolding count
count-zero_keys [] v h = refl
count-zero_keys ((j, x) ∷ m) v h = ground (arith, count-zero_keys m v, absent_of_count m v)

pub count-ready : (m : Map NodeId ℕ) (v : NodeId) → IsMap m → count v (ready m) ≡ zero_at m v
unfolding ready
count-ready m v h =
    count-sort v (map key_of (keep is_source m)) ∙ count-zero_keys m v (ground (arith, h v))

get-sort_values :
    (adj : Map NodeId (List NodeId)) (u v : NodeId)
    → count v (get_or (sort_values adj) u []) ≡ count v (get_or adj u [])
unfolding sort_values
get-sort_values [] u v = refl
get-sort_values ((j, ns) ∷ adj) u v = ground (arith, get-sort_values adj u v, count-sort v ns)

module _ {X : Extern} where
  link_nodes_lem :
      (ns : List (Node X)) (l : Links) (u v : NodeId)
      → (get_or (link_nodes ns l).in_degree v 0 ≡ get_or l.in_degree v 0)
        × (get_or (link_nodes ns l).adj u [] ≡ get_or l.adj u [])
        × (contains_key (link_nodes ns l).in_degree v
            ≡ (contains_key l.in_degree v || has (map (λ n. n.id) ns) v))
  unfolding link_nodes has
  link_nodes_lem [] l u v = (refl, refl, ground arith)
  link_nodes_lem (n ∷ ns) l u v =
      let l' : Links = record {
        in_degree = or_insert l.in_degree n.id 0;
        adj = or_insert l.adj n.id [];
      } in
      let ih = link_nodes_lem ns l' u v in
      (
        ground (arith, ih.0, get-or_insert l.in_degree n.id 0 v),
        ground (arith, ih.1, get-or_insert l.adj n.id [] u),
        ground (arith, ih.2, get-or_insert l.in_degree n.id 0 v),
      )

  IsMap-link_nodes :
      (ns : List (Node X)) (l : Links) → IsMap l.in_degree → IsMap (link_nodes ns l).in_degree
  unfolding link_nodes
  IsMap-link_nodes [] l h = h
  IsMap-link_nodes (n ∷ ns) l h =
      IsMap-link_nodes ns
        (record { in_degree = or_insert l.in_degree n.id 0; adj = or_insert l.adj n.id [] })
        (elim (Option-cases (get l.in_degree n.id)) [
          | inl (d, e) ↦ λ k. ground (arith, h k)
          | inr e ↦ λ k. ground (arith, IsMap-insert l.in_degree n.id 0 h k)
        ])

  module _ (back : List (NodeId × NodeId)) where
    abbrev hits : Edge X → NodeId → ℕ
    hits e v = if is_live back e && eqb e.target v then 1 else 0

    link_lem :
        (e : Edge X) (l : Links) (v : NodeId)
        → get_or l.in_degree v 0 + 1 < u32_mod
        → (get_or (link back e l).in_degree v 0 ≡ get_or l.in_degree v 0 + hits e v)
          × (contains_key (link back e l).in_degree v
              ≡ (contains_key l.in_degree v || ltb 0 (hits e v)))
    unfolding link
    link_lem e l v h =
        let d : ℕ = get_or l.in_degree e.target 0 in
        (
          ground (arith, get-insert l.in_degree e.target (inc32 d) v, inc32-eq d),
          ground (arith, get-insert l.in_degree e.target (inc32 d) v),
        )

    link_edges_lem :
        (es : List (Edge X)) (l : Links) (v : NodeId)
        → get_or l.in_degree v 0 + length es < u32_mod
        → (get_or (link_edges back es l).in_degree v 0
            ≡ get_or l.in_degree v 0 + waits back es [] v)
          × (contains_key (link_edges back es l).in_degree v
              ≡ (contains_key l.in_degree v || ltb 0 (waits back es [] v)))
    unfolding link_edges waits has
    link_edges_lem [] l v h = (omega arith, ground arith)
    link_edges_lem (e ∷ es) l v h =
        let (degree, key) = link_lem e l v (omega arith) in
        let ih = link_edges_lem es (link back e l) v (ground arith) in
        (ground (arith, ih.0), ground (arith, ih.1))

    link_edges-adj :
        (es : List (Edge X)) (l : Links) (u v : NodeId)
        → count v (get_or (link_edges back es l).adj u [])
          ≡ count v (get_or l.adj u []) + arcs back es u v
    unfolding link_edges link arcs count
    link_edges-adj [] l u v = omega arith
    link_edges-adj (e ∷ es) l u v =
        let old = get_or l.adj e.source [] in
        ground (
          arith,
          link_edges-adj es (link back e l) u v,
          get-insert l.adj e.source (old ++ e.target ∷ []) u,
          count-append v old (e.target ∷ []),
        )

    IsMap-link_edges :
        (es : List (Edge X)) (l : Links)
        → IsMap l.in_degree
        → IsMap (link_edges back es l).in_degree
    unfolding link_edges link
    IsMap-link_edges [] l h = h
    IsMap-link_edges (e ∷ es) l h = IsMap-link_edges es (link back e l) λ k.
        ground (
          arith,
          h k,
          IsMap-insert l.in_degree e.target (inc32 (get_or l.in_degree e.target 0)) h k,
        )

    -- What the loop starts from, for a graph whose edges a u32 can count.
    pub record IsLinked (sub : Subgraph X) (l : Links) : Type 0 where
      pub degree : (v : NodeId) → get_or l.in_degree v 0 ≡ waits back sub.edges [] v
      pub key :
          (v : NodeId)
          → contains_key l.in_degree v ≡ (has (node_ids sub) v || ltb 0 (waits back sub.edges [] v))
      pub next :
          (u v : NodeId) → count v (get_or (sort_values l.adj) u []) ≡ arcs back sub.edges u v
      pub queue : (v : NodeId) → count v (ready l.in_degree) ≡ zero_at l.in_degree v

    pub IsLinked-links :
        (sub : Subgraph X) → length sub.edges < u32_mod → IsLinked sub (links back sub)
    unfolding links count
    IsLinked-links sub h =
        let none_yet : Links = record { in_degree = []; adj = [] } in
        let l = link_nodes sub.nodes none_yet in
        let nodes = λ (u v : NodeId). link_nodes_lem sub.nodes none_yet u v in
        let edges = λ (v : NodeId). link_edges_lem sub.edges l v (omega (arith, (nodes v v).0)) in
        record {
          degree = λ v. omega (arith, (edges v).0, (nodes v v).0);
          key = λ v. ground (arith, (edges v).1, (nodes v v).2);
          next = λ u v. ground (
            arith,
            get-sort_values (link_edges back sub.edges l).adj u v,
            link_edges-adj sub.edges l u v,
            ap (count v) (nodes u v).1,
          );
          queue = λ v.
              count-ready _ v
                (IsMap-link_edges sub.edges l (IsMap-link_nodes sub.nodes none_yet (λ k. refl)));
        }
