-- ===== src/SubgraphIndex/Tests.antt =====
-- Runs of compiler/src/subgraph_index.rs on a small feedback loop and on a ring of 40 items.
use mathlib.Core.List.{Memᴰ}
use Prim.Native.Nat.{ℕ, zero, suc, ◌≤◌}
use pipeit.Base.{
  ◌≡◌, refl, true, none, List, [], ◌∷◌, map, length, find, keep, any, all, has, count, contains,
  ◌==◌, nat_eq, pair_eq, string_eq, arith,
}
use pipeit.Extern.Sample.{whole}
use pipeit.Graph.{NodeId, NodeKind, Node, Edge, Subgraph, node_ids}
use pipeit.SubgraphIndex.{
  stored_index, node_in_subgraph, query_incoming, query_outgoing, incoming_edge_count,
  outgoing_edge_count, find_node, identify_back_edges, is_delay, should_index,
}
use pipeit.SubgraphIndex.Agree.{IsDistinct, query-scan, counts-scan, node_in_subgraph-scan}
use pipeit.SubgraphIndex.BackEdges.{
  IsStep, IsOnCycle, delay_at, has_link, identify_back_edges_sound, identify_back_edges_breaks,
}

abbrev delay_node : NodeId → Node whole
delay_node n = record { id = n; kind = NodeKind.actor "delay" tt [] none n; span = tt }

abbrev fork_node : NodeId → Node whole
fork_node n = record { id = n; kind = NodeKind.fork "t"; span = tt }

abbrev edge : ℕ → NodeId → NodeId → Edge whole
edge n from to = record { id = n; source = from; target = to; span = tt }

-- A delay that feeds a fork, and back.
abbrev feedback : Subgraph whole
feedback = record { nodes = delay_node 0 ∷ fork_node 1 ∷ []; edges = edge 0 0 1 ∷ edge 1 1 0 ∷ [] }

abbrev forks : ℕ → List (Node whole)
forks zero = []
forks (suc n) = fork_node n ∷ forks n

abbrev links_down : ℕ → List (Edge whole)
links_down zero = []
links_down (suc n) = edge n (suc n) n ∷ links_down n

-- Twenty-one forks in a row, large enough to be indexed.
abbrev row : Subgraph whole
row = record { nodes = forks 21; edges = links_down 20 }

row_indexed : should_index row ≡ true
unfolding should_index
row_indexed = refl

query-scan_example :
    (query_incoming (stored_index row) row 3 ≡ find (λ e. e.target == 3) row.edges)
    × (query_outgoing (stored_index row) row 3 ≡ find (λ e. e.source == 3) row.edges)
query-scan_example = query-scan row 3

counts-scan_example :
    (incoming_edge_count (stored_index row) row 3 ≡ length (keep (λ e. e.target == 3) row.edges))
    × (outgoing_edge_count (stored_index row) row 3 ≡ length (keep (λ e. e.source == 3) row.edges))
counts-scan_example = counts-scan row 3

count-forks_above : (n a : ℕ) → n ≤ a → count a (map (λ x. x.id) (forks n)) ≡ 0
unfolding count
count-forks_above zero a h = refl
count-forks_above (suc n) a h = ground (arith, count-forks_above n a)

forks-IsDistinct : (n : ℕ) → IsDistinct (map (λ x. x.id) (forks n))
unfolding count
forks-IsDistinct zero a = omega arith
forks-IsDistinct (suc n) a = ground (arith, forks-IsDistinct n a, count-forks_above n a)

node_in_subgraph-scan_example : node_in_subgraph (stored_index row) row 7 ≡ find_node row 7
node_in_subgraph-scan_example = node_in_subgraph-scan row 7 (forks-IsDistinct 21)

marked : contains (identify_back_edges feedback ((0 ∷ 1 ∷ []) ∷ [])) (0, 1) ≡ true
unfolding identify_back_edges has
marked = refl

identify_back_edges_sound_example :
    (delay_at feedback 0 ≡ true)
    × (has_link feedback 0 1 ≡ true)
    × IsOnCycle feedback ((0 ∷ 1 ∷ []) ∷ []) 0 1
identify_back_edges_sound_example =
    identify_back_edges_sound feedback ((0 ∷ 1 ∷ []) ∷ []) 0 1 marked

steps_linked : (u v : NodeId) → IsStep (0 ∷ 1 ∷ []) u v → has_link feedback u v ≡ true
steps_linked u v (zero, at, next) = ground arith
steps_linked u v (suc zero, at, next) = ground arith
steps_linked u v (suc (suc i), at, next) = cc

inside : all (has (node_ids feedback)) (0 ∷ 1 ∷ []) ≡ true
unfolding has
inside = refl

delayed : any (delay_at feedback) (0 ∷ 1 ∷ []) ≡ true
unfolding find_node is_delay
delayed = refl

identify_back_edges_breaks_example :
    (u : NodeId) × (v : NodeId) × IsStep (0 ∷ 1 ∷ []) u v
    × (contains (identify_back_edges feedback ((0 ∷ 1 ∷ []) ∷ [])) (u, v) ≡ true)
identify_back_edges_breaks_example =
    identify_back_edges_breaks feedback ((0 ∷ 1 ∷ []) ∷ []) (0 ∷ 1 ∷ []) (Memᴰ.head refl) inside
      steps_linked delayed
