-- ===== src/Schedule/Buffers.antt =====
-- Buffer sizes of compiler/src/schedule.rs.
use mathlib.Core.List.{Memᴰ}
use pipeit.Base.{
  ℕ, ◌⊎◌, none, ◌*◌, ◌%◌, u32_mod, Option, ◌≡◌, true, false, some, List, [], ◌∷◌, Map, get, get_or,
  contains, mul32, if◌then◌else◌, nat_eq, pair_eq,
}
use pipeit.Extern.{Extern}
use pipeit.Ast.{Arg, Value, Scalar, ShapeConstraint}
use pipeit.Graph.{NodeId, Node, NodeKind, Subgraph}
use pipeit.Schedule.{NodePortRates, RepetitionVector, Input, out_rate_at, delay_initial_tokens}
use pipeit.Schedule.Runs.{back}

module _ {X : Extern} (sub : Subgraph X) (rates : Map NodeId NodePortRates) (rv : RepetitionVector)
    (marked : List (NodeId × NodeId)) where
  -- The initial tokens of the delay actor on a back edge, and what the source produces in one cycle
  -- on any other edge.
  abbrev buffer_size : NodeId → NodeId → ℕ
  buffer_size u v =
      if contains marked (u, v)
      then delay_initial_tokens sub u
      else mul32 (out_rate_at rates u) (get_or rv u 1)

  abbrev IsSized : NodeId → NodeId → Map (NodeId × NodeId) ℕ → Type 0
  IsSized u v m = get m (u, v) ≡ some (buffer_size u v)

module _ {X : Extern} where
  -- The first argument of a call, if it is a number.
  abbrev given_number : List (Arg X) → Option X.F64
  given_number [] = none
  given_number (arg ∷ args) = elim arg [
    | Arg.value (Value.scalar (Scalar.number x span is_int)) ↦ some x
    | _ ↦ none
  ]

  -- An actor `delay` with the arguments.
  abbrev IsDelay : NodeKind X → List (Arg X) → Type 0
  IsDelay kind args =
      (call_span : X.Span) × (constraint : Option (ShapeConstraint X)) × (call_id : ℕ) × (kind
        ≡ NodeKind.actor "delay" call_span args constraint call_id)

module _ {X : Extern} (i : Input X) (sub : Subgraph X) (rv : RepetitionVector) where
  -- The tokens that the delay actor `u` starts with: its first argument, or 1 where this is not a
  -- number.
  abbrev InitialTokens : NodeId → ℕ → Type 0
  InitialTokens u size =
      (n : Node X) × (args : List (Arg X)) × Memᴰ n sub.nodes
      × (n.id ≡ u)
      × IsDelay n.kind args
      × (size ≡ (elim (given_number args) [ none ↦ 1 | some x ↦ X.as_u32 x ]))

  -- What the source of an edge produces: its rate times its firings, each 1 where it is not known.
  abbrev produced : NodeId → ℕ
  produced u =
      (elim (get i.node_port_rates u) [
        | none ↦ 1
        | some r ↦ elim r.out_rate [ none ↦ 1 | some p ↦ p ]
      ])
      * (elim (get rv u) [ none ↦ 1 | some q ↦ q ])
      % u32_mod

  abbrev pub HasSize : NodeId → NodeId → ℕ → Type 0
  HasSize u v size =
      ((contains (back i sub) (u, v) ≡ true) × InitialTokens u size)
      ⊎ ((contains (back i sub) (u, v) ≡ false) × (size ≡ produced u))
