-- ===== src/Adjacent.antt =====
-- The actor next to a buffer node, `adjacent_actor_call_id` of compiler/src/graph.rs: a breadth-first
-- search along the edges in one direction.
pub mod Push
pub mod Nearest
pub mod Tests
use pipeit.Base.{
  ℕ, zero, suc, Bool, true, false, Option, none, some, List, [], ◌∷◌, ◌++◌, any, find, length, has,
  eqb, if◌then◌else◌, nat_eq, ◌==◌,
}
use pipeit.Outcome.{Run, done, panic, out_of_fuel, ◌>>=◌}
use pipeit.Extern.{Extern}
use pipeit.Graph.{NodeId, NodeKind, Node, Edge, Subgraph, TaskGraph}
use pipeit.SubgraphIndex.{subgraphs_of}

-- The queue and the set of visited nodes.
pub record Front : Type 0 where
  pub queue : List NodeId
  pub visited : List NodeId

module _ {X : Extern} where
  unfoldable pub call_id_of : NodeKind X → Option ℕ
  call_id_of (NodeKind.actor name call_span args shape_constraint call_id) = some call_id
  call_id_of _ = none

  module _ (walk_predecessors : Bool) where
    -- The other end of an edge at `current`.
    unfoldable pub next_of : Edge X → NodeId → Option NodeId
    next_of e current =
        if walk_predecessors
        then if e.target == current then some e.source else none
        else if e.source == current
        then some e.target
        else none

    -- The body of the loop over the edges.
    unfoldable pub follow : NodeId → Edge X → Front → Front
    follow current e f = elim (next_of e current) [
      | none ↦ f
      | some next ↦
          if has f.visited next
          then f
          else record { queue = f.queue ++ next ∷ []; visited = next ∷ f.visited }
    ]

    unfoldable pub follow_all : NodeId → List (Edge X) → Front → Front
    follow_all current [] f = f
    follow_all current (e ∷ es) f = follow_all current es (follow current e f)

    module _ (sub : Subgraph X) where
      unfoldable pub call_id_at : NodeId → Option ℕ
      call_id_at current = elim (find (λ n. n.id == current) sub.nodes) [
        | none ↦ none
        | some n ↦ call_id_of n.kind
      ]

      unfoldable pub search : ℕ → Front → Run (Option ℕ)
      search zero f = elim f.queue [ [] ↦ done none | _ ∷ _ ↦ out_of_fuel ]
      search (suc fuel) f = elim f.queue [
        | [] ↦ done none
        | current ∷ rest ↦ elim (call_id_at current) [
          | some call_id ↦ done (some call_id)
          | none ↦ search fuel (follow_all current sub.edges (record f { queue = rest }))
        ]
      ]

    -- A node is queued for an edge that leads to it, but for the first one, and no node twice.
    unfoldable pub search_subgraphs : NodeId → List (Subgraph X) → Run (Option ℕ)
    search_subgraphs node_id [] = done none
    search_subgraphs node_id (sub ∷ subs) =
        let rest = search_subgraphs node_id subs in
        let onward : Option ℕ → Run (Option ℕ) =
          λ r. elim r [ some call_id ↦ done (some call_id) | none ↦ rest ] in
        if any (λ n. n.id == node_id) sub.nodes
        then search sub (suc (length sub.edges))
            (record { queue = node_id ∷ []; visited = node_id ∷ [] })
          >>= onward
        else rest

  unfoldable pub adjacent_actor_call_id : TaskGraph X → NodeId → Bool → Run (Option ℕ)
  adjacent_actor_call_id task_graph node_id walk_predecessors =
      search_subgraphs walk_predecessors node_id (subgraphs_of task_graph)
