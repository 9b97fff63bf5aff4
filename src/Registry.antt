-- ===== src/Registry.antt =====
-- Actor metadata, compiler/src/registry.rs: wire types, port types and parameters.
use pipeit.Base.{ℕ, Bool, Option, none, some, List, String, eqb, ◌≡◌, ◌↔◌, true, arith, PartialEq}

pub data PipitType : Type 0 where
  int8 int16 int32 float double cfloat cdouble void : PipitType

abbrev pub type_ordinal : PipitType → ℕ
type_ordinal int8 = 0
type_ordinal int16 = 1
type_ordinal int32 = 2
type_ordinal float = 3
type_ordinal double = 4
type_ordinal cfloat = 5
type_ordinal cdouble = 6
type_ordinal void = 7

abbrev pub type_beq : PipitType → PipitType → Bool
type_beq a b = eqb (type_ordinal a) (type_ordinal b)

pub type_beq_iff : (a b : PipitType) → (type_beq a b ≡ true) ↔ (a ≡ b)
type_beq_iff a b = ground arith

instance abbrev pub type_eq : PartialEq PipitType
type_eq = record { equal = type_beq; equal_iff = type_beq_iff }

pub data TypeExpr : Type 0 where
  concrete : PipitType → TypeExpr
  type_param : String → TypeExpr

unfoldable pub as_concrete : TypeExpr → Option PipitType
as_concrete (concrete t) = some t
as_concrete (TypeExpr.type_param name) = none

pub data TokenCount : Type 0 where
  literal : ℕ → TokenCount
  symbolic : String → TokenCount

pub record PortShape : Type 0 where
  pub dims : List TokenCount

pub data ParamKind : Type 0 where
  param runtime_param : ParamKind

pub data ParamType : Type 0 where
  int float double span_float span_char : ParamType
  type_param : String → ParamType
  span_type_param : String → ParamType

pub record ActorParam : Type 0 where
  pub kind : ParamKind
  pub param_type : ParamType
  pub name : String

pub record ActorMeta : Type 0 where
  pub name : String
  pub type_params : List String
  pub in_type : TypeExpr
  pub in_count : TokenCount
  pub in_shape : PortShape
  pub out_type : TypeExpr
  pub out_count : TokenCount
  pub out_shape : PortShape
  pub params : List ActorParam
