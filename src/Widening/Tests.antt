-- ===== src/Widening/Tests.antt =====
-- Runs of the widening check and of monomorphization (compiler/src/type_infer.rs).
use pipeit.Base.{◌≡◌, refl, none, some, List, [], ◌∷◌, ◌++◌, String, string_eq}
use pipeit.Registry.{
  PipitType, int16, int32, cfloat, TypeExpr, ActorMeta, ParamKind, ParamType, TokenCount, PortShape,
  as_concrete,
}
use pipeit.Widening.{
  Call, WideningPoint, can_widen, common_widening_type, check_pipe_widening, out_of, in_of,
  monomorphize_actor,
}
use pipeit.Widening.Order.{LeastAbove, common_widening_type-LeastAbove}
use pipeit.Widening.Points.{PointsOf, check_pipe_widening-PointsOf}
use pipeit.Widening.Mono.{AllRealize, env, monomorphize_actor-Realizes}

common_widening_type-LeastAbove_example :
    LeastAbove int16 PipitType.double (common_widening_type int16 PipitType.double)
common_widening_type-LeastAbove_example = common_widening_type-LeastAbove int16 PipitType.double

abbrev port : PortShape
port = record { dims = [] }

-- An actor with the given port types.
abbrev meta : List String → TypeExpr → TypeExpr → ActorMeta
meta params from to = record {
  name = "f";
  type_params = params;
  in_type = from;
  in_count = TokenCount.literal 1;
  in_shape = port;
  out_type = to;
  out_count = TokenCount.literal 1;
  out_shape = port;
  params =
      (record { kind = ParamKind.param; param_type = ParamType.type_param "T"; name = "gain" })
      ∷ [];
}

abbrev calls : List Call
calls =
    (record {
      call_id = 0;
      effective_meta = some (meta [] (TypeExpr.concrete int16) (TypeExpr.concrete int16));
    })
    ∷ (record {
      call_id = 1;
      effective_meta =
          some (meta [] (TypeExpr.concrete PipitType.float) (TypeExpr.concrete PipitType.float));
    })
    ∷ (record { call_id = 2; effective_meta = none })
    ∷ []

check_pipe_widening-PointsOf_example :
    (new : List WideningPoint) × PointsOf calls new × (check_pipe_widening calls [] ≡ [] ++ new)
check_pipe_widening-PointsOf_example = check_pipe_widening-PointsOf calls []

one_point :
    check_pipe_widening calls []
    ≡ (record { target_call_id = 1; from_type = int16; to_type = PipitType.float }) ∷ []
unfolding check_pipe_widening can_widen out_of as_concrete in_of
one_point = refl

abbrev generic : ActorMeta
generic = meta ("T" ∷ []) (TypeExpr.type_param "T") (TypeExpr.concrete cfloat)

monomorphize_actor-Realizes_example :
    AllRealize
      (env generic (int32 ∷ []))
      generic.params
      (monomorphize_actor generic (int32 ∷ [])).params
    × (monomorphize_actor generic (int32 ∷ []) ≡ record generic {
      type_params = [];
      in_type = TypeExpr.concrete int32;
      out_type = TypeExpr.concrete cfloat;
      params = (monomorphize_actor generic (int32 ∷ [])).params;
    })
monomorphize_actor-Realizes_example = monomorphize_actor-Realizes generic (int32 ∷ [])
