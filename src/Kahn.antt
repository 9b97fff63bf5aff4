-- ===== src/Kahn.antt =====
-- The topological sort of `ScheduleCtx::sort_subgraph` (compiler/src/schedule.rs): in-degrees and
-- adjacency lists without the back edges, and Kahn's loop over a queue. A Vec, a VecDeque and a
-- HashMap are lists; the order of a HashMap is not seen, since what is read off it is sorted.
pub mod Arcs
pub mod Degrees
pub mod Invariant
pub mod Loop
pub mod Complete
use pipeit.Base.{
  ℕ, zero, suc, ◌<◌, Bool, Option, none, some, List, [], ◌∷◌, ◌++◌, map, keep, sort, Map, get,
  get_or, insert, or_insert, update, contains, inc32, dec32, eqb, if◌then◌else◌, nat_eq, pair_eq,
  PartialEq,
}
use pipeit.Extern.{Extern}
use pipeit.Graph.{NodeId, Node, Edge, Subgraph}

pub record FiringEntry : Type 0 where
  pub node_id : NodeId
  pub repetition_count : ℕ

pub record Links : Type 0 where
  pub in_degree : Map NodeId ℕ
  pub adj : Map NodeId (List NodeId)

-- The variables of the loop.
pub record Kahn : Type 0 where
  pub in_degree : Map NodeId ℕ
  pub queue : List NodeId
  pub firings : List FiringEntry

abbrev pub fired : Kahn → List NodeId
fired s = map (λ f. f.node_id) s.firings

-- `for &next in neighbors`
pub relax : NodeId → Kahn → Kahn
unfolding dec32
relax next s = elim (get s.in_degree next) [
  | none ↦ s
  | some deg ↦
      let less = dec32 deg in
      record s {
        in_degree = insert s.in_degree next less;
        queue = if eqb less 0 then s.queue ++ next ∷ [] else s.queue;
      }
]

pub relax_all : List NodeId → Kahn → Kahn
unfolding relax
relax_all [] s = s
relax_all (next ∷ ns) s = relax_all ns (relax next s)

-- One round of `while let Some(node_id) = queue.pop_front()`, up to the loop over the neighbors.
pub fire : Map NodeId ℕ → NodeId → List NodeId → Kahn → Kahn
fire rv n rest s = record s {
  queue = rest;
  firings = s.firings ++ (record { node_id = n; repetition_count = get_or rv n 1 }) ∷ [];
}

-- The `while` loop with fuel: `none` means that the fuel ran out.
unfoldable pub loop : ℕ → Map NodeId (List NodeId) → Map NodeId ℕ → Kahn → Option Kahn
unfolding relax_all fire
loop zero adj rv s = elim s.queue [ [] ↦ some s | _ ∷ _ ↦ none ]
loop (suc fuel) adj rv s = elim s.queue [
  | [] ↦ some s
  | n ∷ rest ↦ loop fuel adj rv (relax_all (get_or adj n []) (fire rv n rest s))
]

abbrev key_of {ℓ} : {V : Type ℓ} → NodeId × V → NodeId
key_of p = p.0

abbrev is_source : NodeId × ℕ → Bool
is_source p = eqb p.1 0

-- The keys of degree 0, in the order of their ids.
pub ready : Map NodeId ℕ → List NodeId
unfolding sort
ready in_degree = sort (map key_of (keep is_source in_degree))

-- `neighbors.sort_by_key(|id| id.0)` for every list.
unfoldable pub sort_values : Map NodeId (List NodeId) → Map NodeId (List NodeId)
unfolding sort
sort_values [] = []
sort_values ((n, ns) ∷ adj) = (n, sort ns) ∷ sort_values adj

module _ {X : Extern} where
  pub link_nodes : List (Node X) → Links → Links
  link_nodes [] l = l
  link_nodes (n ∷ ns) l =
      link_nodes ns
        (record { in_degree = or_insert l.in_degree n.id 0; adj = or_insert l.adj n.id [] })

  pub link : List (NodeId × NodeId) → Edge X → Links → Links
  unfolding inc32
  link back e l = if contains back (e.source, e.target) then l else record {
    in_degree = update l.in_degree e.target 0 inc32;
    adj = update l.adj e.source [] (λ ns. ns ++ e.target ∷ []);
  }

  pub link_edges : List (NodeId × NodeId) → List (Edge X) → Links → Links
  unfolding link
  link_edges back [] l = l
  link_edges back (e ∷ es) l = link_edges back es (link back e l)

  unfoldable pub links : List (NodeId × NodeId) → Subgraph X → Links
  unfolding link_nodes link_edges
  links back sub =
      link_edges back sub.edges (link_nodes sub.nodes (record { in_degree = []; adj = [] }))

unfoldable pub start : Links → Kahn
unfolding ready
start l = record { in_degree = l.in_degree; queue = ready l.in_degree; firings = [] }
