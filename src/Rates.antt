-- ===== src/Rates.antt =====
-- The port rates of a node: the dimensions of a port (compiler/src/thir.rs, `resolve_port_rate` and
-- what it calls) and the rates of all nodes with their cache (compiler/src/analyze.rs).
pub mod Dims
pub mod Shapes
pub mod Cache
pub mod Tests
use pipeit.Base.{ℕ, Option, none, some, List, [], ◌∷◌, Map, get, insert, map, nat_eq}
use pipeit.Extern.{Extern}
use pipeit.Ast.{Arg, ShapeDim, ShapeConstraint}
use pipeit.Graph.{NodeId, NodeKind, Node, Subgraph}
use pipeit.Registry.{ActorMeta, PortShape}
use pipeit.Schedule.{NodePortRates}
use pipeit.Rates.Dims.{Thir, lookup, resolve_port_rate}

module _ {X : Extern} (thir : Thir X) (inferred_shapes : Map NodeId (ShapeConstraint X)) where
  abbrev pub dims_of : Option (ShapeConstraint X) → Option (List (ShapeDim X))
  dims_of none = none
  dims_of (some sc) = some sc.dims

  -- The rate of one port of an actor: with the written shape, or else with the inferred one.
  unfoldable pub actor_rate :
      (ActorMeta → PortShape)
      → NodeId
      → List (Arg X)
      → Option (ShapeConstraint X)
      → ActorMeta
      → Option ℕ
  actor_rate port id args constraint info =
      elim (resolve_port_rate thir (port info) info args (dims_of constraint)) [
        | some rate ↦ some rate
        | none ↦ resolve_port_rate thir (port info) info args (dims_of (get inferred_shapes id))
      ]

  unfoldable pub rate_of_kind : NodeId → NodeKind X → Option ℕ
  rate_of_kind id (NodeKind.actor name call_span args constraint call_id) =
      elim (lookup thir name) [
        | none ↦ none
        | some info ↦ actor_rate (λ m. m.out_shape) id args constraint info
      ]
  rate_of_kind id (NodeKind.gather_read family_name element_count) = some element_count
  rate_of_kind id (NodeKind.scatter_write family_name element_count) = some 1
  rate_of_kind id _ = some 1

  unfoldable pub production_rate : Node X → Option ℕ
  production_rate n = rate_of_kind n.id n.kind

  unfoldable pub in_rate_of_kind : NodeId → NodeKind X → Option ℕ
  in_rate_of_kind id (NodeKind.actor name call_span args constraint call_id) =
      elim (lookup thir name) [
        | none ↦ none
        | some info ↦ actor_rate (λ m. m.in_shape) id args constraint info
      ]
  in_rate_of_kind id (NodeKind.gather_read family_name element_count) = some element_count
  in_rate_of_kind id (NodeKind.scatter_write family_name element_count) = some element_count
  in_rate_of_kind id _ = some 1

  unfoldable pub consumption_rate : Node X → Option ℕ
  consumption_rate n = in_rate_of_kind n.id n.kind

  unfoldable pub cache_nodes : List (Node X) → Map NodeId NodePortRates → Map NodeId NodePortRates
  cache_nodes [] rates = rates
  cache_nodes (n ∷ ns) rates =
      cache_nodes ns
        (insert rates n.id (record { in_rate = consumption_rate n; out_rate = production_rate n }))

  -- The loop over all subgraphs.
  unfoldable pub precompute_node_port_rates :
      List (Subgraph X) → Map NodeId NodePortRates → Map NodeId NodePortRates
  precompute_node_port_rates [] rates = rates
  precompute_node_port_rates (sub ∷ subs) rates =
      precompute_node_port_rates subs (cache_nodes sub.nodes rates)

  abbrev or_else : Option ℕ → Option ℕ → Option ℕ
  or_else o other = elim o [ none ↦ other | some x ↦ some x ]

  unfoldable pub cached_production_rate : Map NodeId NodePortRates → Node X → Option ℕ
  unfolding or_else
  cached_production_rate rates n =
      or_else (elim (get rates n.id) [ none ↦ none | some r ↦ r.out_rate ]) (production_rate n)

  unfoldable pub cached_consumption_rate : Map NodeId NodePortRates → Node X → Option ℕ
  unfolding or_else
  cached_consumption_rate rates n =
      or_else (elim (get rates n.id) [ none ↦ none | some r ↦ r.in_rate ]) (consumption_rate n)
