-- ===== src/Adjacent/Tests.antt =====
-- Runs of the search for the adjacent actor (compiler/src/graph.rs) over a fork.
use pipeit.Base.{ℕ, ◌≡◌, refl, true, false, none, some, [], ◌∷◌, has, nat_eq, string_eq}
use pipeit.Extern.Sample.{whole}
use pipeit.Graph.{NodeId, NodeKind, Node, Edge, TaskGraph}
use pipeit.Outcome.{done}
use pipeit.SubgraphIndex.{subgraphs_of}
use pipeit.Adjacent.{
  adjacent_actor_call_id, search_subgraphs, search, follow_all, follow, next_of, call_id_at,
  call_id_of,
}

abbrev node : NodeId → NodeKind whole → Node whole
node n kind = record { id = n; kind = kind; span = tt }

abbrev edge : ℕ → NodeId → NodeId → Edge whole
edge n from to = record { id = n; source = from; target = to; span = tt }

-- The actor with the call id 7, a fork, and two buffers that are written.
abbrev graph : TaskGraph whole
graph =
    TaskGraph.modal (record { nodes = node 9 (NodeKind.probe "p") ∷ []; edges = [] })
      ((
        "m",
        record {
          nodes =
              node 0 (NodeKind.actor "a" tt [] none 7)
              ∷ node 1 (NodeKind.fork "t")
              ∷ node 2 (NodeKind.buffer_write "x")
              ∷ [];
          edges = edge 0 0 1 ∷ edge 1 1 2 ∷ [];
        },
      )
        ∷ [])

upstream : adjacent_actor_call_id graph 2 true ≡ done (some 7)
unfolding adjacent_actor_call_id subgraphs_of search_subgraphs search follow_all follow next_of
    call_id_at call_id_of has
upstream = refl

downstream : adjacent_actor_call_id graph 2 false ≡ done none
unfolding adjacent_actor_call_id subgraphs_of search_subgraphs search follow_all follow next_of
    call_id_at call_id_of has
downstream = refl
