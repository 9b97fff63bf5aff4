-- ===== src/Rates/Tests.antt =====
-- Runs of the port rates (compiler/src/thir.rs, compiler/src/analyze.rs) on an actor with a
-- symbolic dimension.
use pipeit.Base.{
  ◌≡◌, refl, none, some, List, [], ◌∷◌, if◌then◌else◌, ltb, u32_mod, count, string_eq, nat_eq,
  arith, Map, true,
}
use pipeit.Extern.Sample.{whole}
use pipeit.Ast.{Ident, Scalar, Value, Arg, ShapeDim, ShapeConstraint}
use pipeit.Graph.{NodeId, NodeKind, Node, Subgraph}
use pipeit.Registry.{ActorMeta, PipitType, TypeExpr, TokenCount, ParamKind, ParamType}
use pipeit.SubgraphIndex.Agree.{IsDistinct}
use pipeit.Feedback.Nodes.{all_nodes, ids}
use pipeit.Rates.Dims.{
  Thir, resolve_const_array_len, resolve_shape_dim, resolve_arg_to_u32, arg_at, span_len, names_dim,
  first_unresolved_dim, infer_dim_param_from_span_args, resolve_symbolic, resolve_dim, checked_mul,
  rate_from, shape_from, resolve_port_rate, resolve_port_shape, value_len,
}
use pipeit.Rates.Shapes.{product, resolve_port_rate-product}
use pipeit.Rates.{
  production_rate, consumption_rate, cached_production_rate, cached_consumption_rate,
  precompute_node_port_rates,
}
use pipeit.Rates.Cache.{cached_rates-eq}

-- `fir(taps)`: a row of N tokens by 4, where N is a parameter and `taps` a span.
abbrev fir : ActorMeta
fir = record {
  name = "fir";
  type_params = [];
  in_type = TypeExpr.concrete PipitType.float;
  in_count = TokenCount.literal 1;
  in_shape = record { dims = TokenCount.symbolic "N" ∷ TokenCount.literal 4 ∷ [] };
  out_type = TypeExpr.concrete PipitType.float;
  out_count = TokenCount.literal 1;
  out_shape = record { dims = TokenCount.literal 1 ∷ [] };
  params =
      (record { kind = ParamKind.param; param_type = ParamType.span_float; name = "taps" })
      ∷ (record { kind = ParamKind.param; param_type = ParamType.int; name = "N" })
      ∷ [];
}

abbrev thir : Thir whole
thir = record {
  const_values = ("rows", Value.scalar (Scalar.number 6 tt true)) ∷ [];
  actors = ("fir", fir) ∷ [];
}

abbrev ident : Ident whole
ident = record { name = "rows"; span = tt }

abbrev taps : Arg whole
taps = Arg.value (
    Value.array (Scalar.number 1 tt true ∷ Scalar.number 2 tt true ∷ Scalar.number 3 tt true ∷ [])
      tt)

-- The number of taps gives N where the call gives no value.
from_span : resolve_port_shape thir fir.in_shape fir (taps ∷ []) none ≡ some (3 ∷ 4 ∷ [])
unfolding resolve_port_shape shape_from resolve_dim resolve_symbolic arg_at
    infer_dim_param_from_span_args span_len first_unresolved_dim names_dim resolve_arg_to_u32
    value_len
from_span = refl

-- An argument comes first, then the shape at the call.
from_arg : resolve_port_rate thir fir.in_shape fir (taps ∷ Arg.const_ref ident ∷ []) none ≡ some 24
unfolding resolve_port_rate rate_from checked_mul resolve_dim resolve_symbolic arg_at
    resolve_arg_to_u32 resolve_const_array_len value_len
from_arg = refl

from_constraint :
    resolve_port_rate thir fir.in_shape fir (taps ∷ []) (some (ShapeDim.literal 8 tt ∷ []))
    ≡ some 32
unfolding resolve_port_rate rate_from checked_mul resolve_dim resolve_symbolic arg_at
    resolve_arg_to_u32 resolve_shape_dim value_len
from_constraint = refl

resolve_port_rate-product_example :
    resolve_port_rate thir fir.in_shape fir (taps ∷ []) none
    ≡ (if ltb (product (3 ∷ 4 ∷ [])) u32_mod then some (product (3 ∷ 4 ∷ [])) else none)
resolve_port_rate-product_example =
    resolve_port_rate-product thir fir.in_shape fir (taps ∷ []) none (3 ∷ 4 ∷ []) from_span
      (omega arith)

abbrev fir_node : Node whole
fir_node = record { id = 4; kind = NodeKind.actor "fir" tt (taps ∷ []) none 0; span = tt }

abbrev fork_node : Node whole
fork_node = record { id = 5; kind = NodeKind.fork "t"; span = tt }

abbrev subs : List (Subgraph whole)
subs = (record { nodes = fork_node ∷ fir_node ∷ []; edges = [] }) ∷ []

subs-IsDistinct : IsDistinct (ids (all_nodes subs))
unfolding count
subs-IsDistinct a = ground arith

abbrev no_shapes : Map NodeId (ShapeConstraint whole)
no_shapes = []

cached_rates-eq_example :
    (cached_production_rate thir no_shapes
        (precompute_node_port_rates thir no_shapes subs [])
        fir_node
      ≡ production_rate thir no_shapes fir_node)
    × (cached_consumption_rate thir no_shapes
          (precompute_node_port_rates thir no_shapes subs [])
          fir_node
        ≡ consumption_rate thir no_shapes fir_node)
cached_rates-eq_example = cached_rates-eq thir no_shapes subs 1 fir_node subs-IsDistinct refl
