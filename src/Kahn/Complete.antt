-- ===== src/Kahn/Complete.antt =====
-- Which nodes the topological sort of compiler/src/schedule.rs reaches.
use pipeit.Base.{
  ℕ, zero, suc, ◌≤◌, ◌<◌, ◌≡◌, ap, true, false, ◌||◌, List, [], count, has, has_iff-count, Map,
  contains_key, ltb, length, arith, u32_mod, Bool-cases, inl, inr, nat_eq,
}
use pipeit.Extern.{Extern}
use pipeit.Graph.{NodeId, Subgraph, node_ids}
use pipeit.Kahn.{Kahn, fired, links, start}
use pipeit.Kahn.Arcs.{arcs, waits, waiting_source}
use pipeit.Kahn.Degrees.{IsLinked, IsLinked-links}
use pipeit.Kahn.Loop.{IsDone}

module _ {X : Extern} (back : List (NodeId × NodeId)) (sub : Subgraph X)
    (fits : length sub.edges < u32_mod) (rv : Map NodeId ℕ) (t : Kahn)
    (done : IsDone back sub.edges rv (start (links back sub)) t) where
  linked : IsLinked back sub (links back sub)
  linked = IsLinked-links back sub fits

  keys : (v : NodeId) → contains_key t.in_degree v ≡ contains_key (links back sub).in_degree v
  unfolding start
  keys v = done.keys v

  -- A node fires at most once, and only if it is a node or the target of an edge.
  pub fired-le : (v : NodeId) → count v (fired t) ≤ 1
  unfolding count
  fired-le v = ground (arith, done.inv.once v, ap (count v) done.empty)

  pub fired-key :
      (v : NodeId)
      → has (fired t) v ≡ true
      → (has (node_ids sub) v || ltb 0 (waits back sub.edges [] v)) ≡ true
  unfolding count
  fired-key v h = ground (
    arith,
    done.inv.once v,
    ap (count v) done.empty,
    has_iff-count v (fired t),
    keys v,
    linked.key v,
  )

  -- A node that does not fire waits for another one that does not.
  pub stuck_source :
      (v : NodeId)
      → has (node_ids sub) v ≡ true
      → has (fired t) v ≡ false
      → (u : NodeId) × (0 < arcs back sub.edges u v) × (has (fired t) u ≡ false)
  unfolding count
  stuck_source v node absent = waiting_source back sub.edges (fired t) v (
      ground (
        arith,
        done.inv.once v,
        done.inv.degree v,
        ap (count v) done.empty,
        has_iff-count v (fired t),
        keys v,
        linked.key v,
      ))

  -- Where the arcs lead to nodes of ever higher rank, every node fires.
  pub all_fired :
      (rank : NodeId → ℕ)
      → ((u v : NodeId) → 0 < arcs back sub.edges u v → rank u < rank v)
      → ((u v : NodeId) → 0 < arcs back sub.edges u v → has (node_ids sub) u ≡ true)
      → (bound : ℕ) (v : NodeId) → rank v < bound
      → has (node_ids sub) v ≡ true
      → has (fired t) v ≡ true
  all_fired rank up closed zero v r node = elim r [ ]
  all_fired rank up closed (suc bound) v r node = elim (Bool-cases (has (fired t) v)) [
    | inl yes_fired ↦ yes_fired
    | inr absent ↦
        let (u, arc, unfired) = stuck_source v node absent in
        let earlier =
          all_fired rank up closed bound u (omega (arith, up u v arc)) (closed u v arc) in
        cc
  ]
