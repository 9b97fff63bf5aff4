-- ===== src/Widening.antt =====
-- Implicit widening of wire types, compiler/src/type_infer.rs: the two chains, the check of
-- adjacent calls in a pipe, and monomorphization. The metadata that `get_effective_meta` finds for
-- a call is an argument; the span of a point, which only messages read, is left out.
pub mod Order
pub mod Points
pub mod Mono
pub mod Tests
use pipeit.Base.{
  ℕ, zero, suc, Bool, true, false, ◌&&◌, ◌||◌, Option, none, some, List, [], ◌∷◌, ◌++◌, map,
  position, get_elem?, eqb, ltb, if◌then◌else◌, String, ◌==◌, string_eq, PartialEq,
}
use pipeit.Registry.{
  PipitType, int8, int16, int32, cfloat, cdouble, void, TypeExpr, as_concrete, ParamType,
  ActorParam, ActorMeta, type_eq,
}

-- The family (0 is real, 1 is complex) and the rank in its chain.
unfoldable pub widening_rank : PipitType → Option (ℕ × ℕ)
widening_rank int8 = some (0, 0)
widening_rank int16 = some (0, 1)
widening_rank int32 = some (0, 2)
widening_rank PipitType.float = some (0, 3)
widening_rank PipitType.double = some (0, 4)
widening_rank cfloat = some (1, 0)
widening_rank cdouble = some (1, 1)
widening_rank void = none

compare_ranks : Option (ℕ × ℕ) → Option (ℕ × ℕ) → Bool
compare_ranks (some (fam_from, rank_from)) (some (fam_to, rank_to)) =
    eqb fam_from fam_to && ltb rank_from rank_to
compare_ranks _ _ = false

unfoldable pub can_widen : PipitType → PipitType → Bool
unfolding widening_rank compare_ranks
can_widen from to =
    if from == to then true else compare_ranks (widening_rank from) (widening_rank to)

unfoldable pub common_widening_type : PipitType → PipitType → Option PipitType
common_widening_type a b =
    if a == b
    then some a
    else if can_widen a b
    then some b
    else if can_widen b a
    then some a
    else none

-- The fields of an `HirActorCall` that the check reads, with the metadata of the call.
pub record Call : Type 0 where
  pub call_id : ℕ
  pub effective_meta : Option ActorMeta

pub record WideningPoint : Type 0 where
  pub target_call_id : ℕ
  pub from_type : PipitType
  pub to_type : PipitType

unfoldable pub out_of : Call → Option PipitType
out_of c = elim c.effective_meta [ none ↦ none | some m ↦ as_concrete m.out_type ]

unfoldable pub in_of : Call → Option PipitType
in_of c = elim c.effective_meta [ none ↦ none | some m ↦ as_concrete m.in_type ]

-- One round of the loop, for a source and the call behind it.
unfoldable pub widen_typed : Call → PipitType → PipitType → List WideningPoint → List WideningPoint
widen_typed tgt src_type tgt_type points =
    if src_type == tgt_type || (src_type == void || tgt_type == void)
    then points
    else if can_widen src_type tgt_type
    then points
      ++ (record { target_call_id = tgt.call_id; from_type = src_type; to_type = tgt_type }) ∷ []
    else points

unfoldable pub widen_between :
    Call → Option PipitType → Option PipitType → List WideningPoint → List WideningPoint
unfolding widen_typed
widen_between tgt (some src_type) (some tgt_type) points = widen_typed tgt src_type tgt_type points
widen_between tgt _ _ points = points

unfoldable pub widen_pair : Call → Call → List WideningPoint → List WideningPoint
unfolding widen_between
widen_pair src tgt points = widen_between tgt (out_of src) (in_of tgt) points

unfoldable pub check_pipe_widening : List Call → List WideningPoint → List WideningPoint
unfolding widen_pair
check_pipe_widening [] points = points
check_pipe_widening (src ∷ []) points = points
check_pipe_widening (src ∷ tgt ∷ calls) points =
    check_pipe_widening (tgt ∷ calls) (widen_pair src tgt points)

module _ (meta : ActorMeta) (concrete_types : List PipitType) where
  unfoldable pub subst_param : String → Option PipitType
  subst_param name = elim (position (λ p. p == name) meta.type_params) [
    | none ↦ none
    | some i ↦ get_elem? concrete_types i
  ]

  unfoldable pub substitute_type_expr : TypeExpr → TypeExpr
  unfolding subst_param
  substitute_type_expr (TypeExpr.concrete t) = TypeExpr.concrete t
  substitute_type_expr (TypeExpr.type_param name) = elim (subst_param name) [
    | none ↦ TypeExpr.concrete void
    | some t ↦ TypeExpr.concrete t
  ]

  unfoldable pub substitute_param_type : ParamType → ParamType
  unfolding subst_param
  substitute_param_type (ParamType.type_param name) = elim (subst_param name) [
    | some int32 ↦ ParamType.int
    | some PipitType.float ↦ ParamType.float
    | some PipitType.double ↦ ParamType.double
    | _ ↦ ParamType.type_param name
  ]
  substitute_param_type (ParamType.span_type_param name) = elim (subst_param name) [
    | some PipitType.float ↦ ParamType.span_float
    | _ ↦ ParamType.span_type_param name
  ]
  substitute_param_type ParamType.int = ParamType.int
  substitute_param_type ParamType.float = ParamType.float
  substitute_param_type ParamType.double = ParamType.double
  substitute_param_type ParamType.span_float = ParamType.span_float
  substitute_param_type ParamType.span_char = ParamType.span_char

  unfoldable pub substitute_param : ActorParam → ActorParam
  unfolding substitute_param_type
  substitute_param p = record {
    kind = p.kind;
    param_type = substitute_param_type p.param_type;
    name = p.name;
  }

  unfoldable pub monomorphize_actor : ActorMeta
  unfolding substitute_type_expr substitute_param
  monomorphize_actor = record {
    name = meta.name;
    type_params = [];
    in_type = substitute_type_expr meta.in_type;
    in_count = meta.in_count;
    in_shape = meta.in_shape;
    out_type = substitute_type_expr meta.out_type;
    out_count = meta.out_count;
    out_shape = meta.out_shape;
    params = map substitute_param meta.params;
  }
