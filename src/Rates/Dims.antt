-- ===== src/Rates/Dims.antt =====
-- The dimensions of a port (compiler/src/thir.rs, `resolve_port_rate`, `resolve_port_shape` and what
-- they call). `const_info` and the registry's `lookup` are look-ups in maps.
use pipeit.Base.{
  ℕ, suc, ◌*◌, ◌%◌, Bool, true, false, ◌&&◌, ◌||◌, not, Option, none, some, List, [], ◌∷◌, ◌++◌,
  Map, get, String, string_eq, ◌==◌, find, position, get_elem?, length, ltb, if◌then◌else◌, u32_mod,
}
use pipeit.Extern.{Extern}
use pipeit.Ast.{Scalar, Value, Arg, ShapeDim}
use pipeit.Registry.{
  ActorMeta, ActorParam, PortShape, TokenCount, literal, symbolic, param, runtime_param, ParamType,
}

-- The parts of `ThirContext` that are read: the values of the constants and the actors by name.
pub record Thir (X : Extern) : Type 0 where
  pub const_values : Map String (Value X)
  pub actors : Map String ActorMeta

unfoldable pub checked_mul : ℕ → ℕ → Option ℕ
checked_mul a b = if ltb (a * b) u32_mod then some (a * b) else none

module _ {X : Extern} where
  abbrev pub lookup : Thir X → String → Option ActorMeta
  lookup thir name = get thir.actors name

  unfoldable pub scalar_to_u32 : Scalar X → Option ℕ
  scalar_to_u32 (Scalar.number n span is_int_literal) = some (X.as_u32 n)
  scalar_to_u32 _ = none

  unfoldable pub value_to_u32 : Value X → Option ℕ
  unfolding scalar_to_u32
  value_to_u32 (Value.scalar s) = scalar_to_u32 s
  value_to_u32 (Value.array elems span) = none

  unfoldable pub value_len : Value X → Option ℕ
  unfolding scalar_to_u32
  value_len (Value.scalar s) = scalar_to_u32 s
  value_len (Value.array elems span) = some (length elems % u32_mod)

  module _ (thir : Thir X) where
    unfoldable pub resolve_const_to_u32 : String → Option ℕ
    resolve_const_to_u32 name = elim (get thir.const_values name) [
      | none ↦ none
      | some v ↦ value_to_u32 v
    ]

    unfoldable pub resolve_const_array_len : String → Option ℕ
    resolve_const_array_len name = elim (get thir.const_values name) [
      | none ↦ none
      | some v ↦ value_len v
    ]

    unfoldable pub resolve_shape_dim : ShapeDim X → Option ℕ
    resolve_shape_dim (ShapeDim.literal n span) = some n
    resolve_shape_dim (ShapeDim.const_ref ident) = resolve_const_to_u32 ident.name

    unfoldable pub resolve_arg_to_u32 : Arg X → Option ℕ
    resolve_arg_to_u32 (Arg.value v) = value_len v
    resolve_arg_to_u32 (Arg.const_ref ident) = resolve_const_array_len ident.name
    resolve_arg_to_u32 (Arg.param_ref ident) = none
    resolve_arg_to_u32 (Arg.tap_ref ident) = none

    -- `actor_args.get(idx).and_then(|arg| self.resolve_arg_to_u32(arg))`
    unfoldable pub arg_at : List (Arg X) → ℕ → Option ℕ
    arg_at args i = elim (get_elem? args i) [ none ↦ none | some arg ↦ resolve_arg_to_u32 arg ]

    abbrev is_param : ActorParam → Bool
    is_param p = elim p.kind [ param ↦ true | runtime_param ↦ false ]

    abbrev is_int : ActorParam → Bool
    is_int p = elim p.param_type [ ParamType.int ↦ true | _ ↦ false ]

    abbrev is_span : ActorParam → Bool
    is_span p = elim p.param_type [
      | ParamType.span_float ↦ true
      | ParamType.span_char ↦ true
      | ParamType.span_type_param _ ↦ true
      | _ ↦ false
    ]

    -- The first span parameter whose argument has a length, from position `i`.
    unfoldable pub span_len : ℕ → List ActorParam → List (Arg X) → Option ℕ
    unfolding is_param is_span
    span_len i [] args = none
    span_len i (p ∷ ps) args =
        let later = span_len (suc i) ps args in
        if is_param p && is_span p
        then elim (arg_at args i) [ none ↦ later | some n ↦ some n ]
        else later

    unfoldable pub names_dim : List TokenCount → String → Bool
    names_dim [] name = false
    names_dim (literal n ∷ dims) name = names_dim dims name
    names_dim (symbolic sym ∷ dims) name = sym == name || names_dim dims name

    -- The first integer parameter that names a dimension and has no argument, from position `i`.
    unfoldable pub first_unresolved_dim :
        List TokenCount → ℕ → List ActorParam → List (Arg X) → Option String
    unfolding is_param is_int
    first_unresolved_dim dims i [] args = none
    first_unresolved_dim dims i (p ∷ ps) args =
        let later = first_unresolved_dim dims (suc i) ps args in
        if is_param p && is_int p && names_dim dims p.name
        then elim (arg_at args i) [ none ↦ some p.name | some _ ↦ later ]
        else later

    unfoldable pub infer_dim_param_from_span_args : String → ActorMeta → List (Arg X) → Option ℕ
    unfolding is_param is_int
    infer_dim_param_from_span_args dim_name info args =
        elim (find (λ p. p.name == dim_name) info.params) [
          | none ↦ none
          | some dim_param ↦
              if not (is_param dim_param && is_int dim_param)
              then none
              else elim (span_len 0 info.params args) [
                | none ↦ none
                | some len ↦
                    elim (first_unresolved_dim (info.in_shape.dims ++ info.out_shape.dims) 0
                      info.params args) [
                        | none ↦ none
                        | some first ↦ if first == dim_name then some len else none
                      ]
              ]
        ]

    -- A symbolic dimension: its argument, or else the shape at the call, or else a span.
    unfoldable pub resolve_symbolic :
        String → ℕ → ActorMeta → List (Arg X) → Option (List (ShapeDim X)) → Option ℕ
    resolve_symbolic name idx info args constraint =
        let from_arg : Option ℕ = elim (position (λ p. p.name == name) info.params) [
          | none ↦ none
          | some i ↦ arg_at args i
        ] in
        let from_constraint : Option ℕ = elim constraint [
          | none ↦ none
          | some dims ↦ elim (get_elem? dims idx) [ none ↦ none | some d ↦ resolve_shape_dim d ]
        ] in
        elim from_arg [
          | some v ↦ some v
          | none ↦ elim from_constraint [
            | some v ↦ some v
            | none ↦ infer_dim_param_from_span_args name info args
          ]
        ]

    unfoldable pub resolve_dim :
        TokenCount → ℕ → ActorMeta → List (Arg X) → Option (List (ShapeDim X)) → Option ℕ
    resolve_dim (literal n) idx info args constraint = some n
    resolve_dim (symbolic name) idx info args constraint =
        resolve_symbolic name idx info args constraint

    -- The loops over the dimensions, from position `idx`.
    unfoldable pub rate_from :
        ℕ → List TokenCount → ActorMeta → List (Arg X) → Option (List (ShapeDim X)) → ℕ → Option ℕ
    rate_from idx [] info args constraint rate = some rate
    rate_from idx (dim ∷ dims) info args constraint rate =
        let onward = rate_from (suc idx) dims info args constraint in
        elim (resolve_dim dim idx info args constraint) [
          | none ↦ none
          | some v ↦ elim (checked_mul rate v) [ none ↦ none | some r ↦ onward r ]
        ]

    unfoldable pub shape_from :
        ℕ
        → List TokenCount
        → ActorMeta
        → List (Arg X)
        → Option (List (ShapeDim X))
        → List ℕ
        → Option (List ℕ)
    shape_from idx [] info args constraint out = some out
    shape_from idx (dim ∷ dims) info args constraint out =
        let onward = shape_from (suc idx) dims info args constraint in
        elim (resolve_dim dim idx info args constraint) [
          | none ↦ none
          | some v ↦ onward (out ++ v ∷ [])
        ]

    unfoldable pub resolve_port_rate :
        PortShape → ActorMeta → List (Arg X) → Option (List (ShapeDim X)) → Option ℕ
    resolve_port_rate shape info args constraint = rate_from 0 shape.dims info args constraint 1

    unfoldable pub resolve_port_shape :
        PortShape → ActorMeta → List (Arg X) → Option (List (ShapeDim X)) → Option (List ℕ)
    resolve_port_shape shape info args constraint = shape_from 0 shape.dims info args constraint []
