-- ===== src/Widening/Mono.antt =====
-- What monomorphization (compiler/src/type_infer.rs) makes of the ports and parameters of an actor.
use pipeit.Base.{
  ℕ, suc, true, false, ◌∙◌, ◌≡◌, ◌≢◌, refl, inl, inr, Bool, Bool-cases, Option, none, some, List,
  [], ◌∷◌, map, position, get_elem?, String, string_eq, Option-cases, ◌==◌, if◌then◌else◌,
}
use pipeit.Registry.{
  PipitType, int8, int16, int32, cfloat, cdouble, void, TypeExpr, ParamType, ActorParam, ActorMeta,
}
use pipeit.Widening.{
  subst_param, substitute_type_expr, substitute_param_type, substitute_param, monomorphize_actor,
}

-- The type that is assigned to a type parameter: that at the place of its first occurrence.
abbrev pub assigned : List String → List PipitType → String → Option PipitType
assigned (p ∷ ps) (t ∷ ts) name = if p == name then some t else assigned ps ts name
assigned _ _ name = none

-- The type of a value that a parameter takes, and that of the elements of a span.
abbrev pub value_type : ParamType → Option PipitType
value_type ParamType.int = some int32
value_type ParamType.float = some PipitType.float
value_type ParamType.double = some PipitType.double
value_type _ = none

abbrev pub span_type : ParamType → Option PipitType
span_type ParamType.span_float = some PipitType.float
span_type _ = none

-- No parameter type has the type that is assigned.
abbrev HasNone : (ParamType → Option PipitType) → Option PipitType → Type 0
HasNone type_of o = (q : ParamType) (t : PipitType) → o ≡ some t → type_of q ≢ some t

abbrev IsStuck : (String → Option PipitType) → ParamType → Type 0
IsStuck env (ParamType.type_param name) = HasNone value_type (env name)
IsStuck env (ParamType.span_type_param name) = HasNone span_type (env name)
IsStuck env _ = Unit

-- A type parameter becomes the parameter type of the type that is assigned to it, for a value or a
-- span, where there is one; any other parameter type is kept.
pub data Realizes (env : String → Option PipitType) : ParamType → ParamType → Type 0 where
  value :
      (name : String) (t : PipitType) (q : ParamType)
      → env name ≡ some t
      → value_type q ≡ some t
      → Realizes env (ParamType.type_param name) q
  span :
      (name : String) (t : PipitType) (q : ParamType)
      → env name ≡ some t
      → span_type q ≡ some t
      → Realizes env (ParamType.span_type_param name) q
  kept : (p : ParamType) → IsStuck env p → Realizes env p p

abbrev pub AllRealize : (String → Option PipitType) → List ActorParam → List ActorParam → Type 0
AllRealize env [] [] = Unit
AllRealize env (p ∷ ps) (q ∷ qs) =
    (q.name ≡ p.name)
    × (q.kind ≡ p.kind)
    × Realizes env p.param_type q.param_type
    × AllRealize env ps qs
AllRealize env _ _ = ⊥

-- The type of a port under an assignment; a port without a type is void.
abbrev pub port_type : (String → Option PipitType) → TypeExpr → PipitType
port_type env (TypeExpr.concrete t) = t
port_type env (TypeExpr.type_param name) = elim (env name) [ none ↦ void | some t ↦ t ]

at_shifted :
    (o : Option ℕ) (t : PipitType) (ts : List PipitType)
    → (elim (elim o as (λ x. Option ℕ) [ none ↦ none | some i ↦ some (suc i) ])
        as (λ x. Option PipitType) [ none ↦ none | some i ↦ get_elem? (t ∷ ts) i ])
      ≡ (elim o as (λ x. Option PipitType) [ none ↦ none | some i ↦ get_elem? ts i ])
at_shifted none t ts = refl
at_shifted (some i) t ts = refl

at_position :
    (ps : List String) (ts : List PipitType) (name : String)
    → (elim (position (λ p. p == name) ps) [ none ↦ none | some i ↦ get_elem? ts i ])
      ≡ assigned ps ts name
at_position [] [] name = refl
at_position [] (t ∷ ts) name = refl
at_position (p ∷ ps) [] name = elim (Option-cases (position (λ p. p == name) (p ∷ ps))) [
  | inl (i, e) ↦ rw e refl
  | inr e ↦ rw e refl
]
at_position (p ∷ ps) (t ∷ ts) name = elim (Bool-cases (p == name)) [
  | inl hit ↦ rw hit refl
  | inr miss ↦ rw miss (at_shifted (position (λ q. q == name) ps) t ts ∙ at_position ps ts name)
]

concrete_or_void :
    (o : Option PipitType)
    → (elim o [ none ↦ TypeExpr.concrete void | some t ↦ TypeExpr.concrete t ])
      ≡ TypeExpr.concrete (elim o [ none ↦ void | some t ↦ t ])
concrete_or_void none = refl
concrete_or_void (some t) = refl

abbrev has_value : PipitType → Bool
has_value int32 = true
has_value PipitType.float = true
has_value PipitType.double = true
has_value _ = false

no_value : (q : ParamType) (t : PipitType) → has_value t ≡ false → value_type q ≢ some t
no_value ParamType.int t h e = let same : int32 ≡ t = cc in cc (rw (← same) at h)
no_value ParamType.float t h e = let same : PipitType.float ≡ t = cc in cc (rw (← same) at h)
no_value ParamType.double t h e = let same : PipitType.double ≡ t = cc in cc (rw (← same) at h)
no_value ParamType.span_float t h e = cc
no_value ParamType.span_char t h e = cc
no_value (ParamType.type_param name) t h e = cc
no_value (ParamType.span_type_param name) t h e = cc

abbrev has_span : PipitType → Bool
has_span PipitType.float = true
has_span _ = false

no_span_of : (q : ParamType) (t : PipitType) → has_span t ≡ false → span_type q ≢ some t
no_span_of ParamType.span_float t h e = let same : PipitType.float ≡ t = cc in cc (rw (← same) at h)
no_span_of ParamType.int t h e = cc
no_span_of ParamType.float t h e = cc
no_span_of ParamType.double t h e = cc
no_span_of ParamType.span_char t h e = cc
no_span_of (ParamType.type_param name) t h e = cc
no_span_of (ParamType.span_type_param name) t h e = cc

HasNone-none :
    (type_of : ParamType → Option PipitType) (o : Option PipitType) → o ≡ none → HasNone type_of o
HasNone-none type_of o e q t found = cc

HasNone-value :
    (o : Option PipitType) (t : PipitType) → o ≡ some t → has_value t ≡ false → HasNone value_type o
HasNone-value o t e h q t' found typed =
    let same : t ≡ t' = cc in no_value q t' (rw (same) at h) typed

HasNone-span :
    (o : Option PipitType) (t : PipitType) → o ≡ some t → has_span t ≡ false → HasNone span_type o
HasNone-span o t e h q t' found typed =
    let same : t ≡ t' = cc in no_span_of q t' (rw (same) at h) typed

module _ (meta : ActorMeta) (types : List PipitType) where
  abbrev pub env : String → Option PipitType
  env name = assigned meta.type_params types name

  subst_param-assigned : (name : String) → subst_param meta types name ≡ env name
  unfolding subst_param
  subst_param-assigned name = at_position meta.type_params types name

  substitute_type_expr-port_type :
      (e : TypeExpr) → substitute_type_expr meta types e ≡ TypeExpr.concrete (port_type env e)
  unfolding substitute_type_expr
  substitute_type_expr-port_type (TypeExpr.concrete t) = refl
  substitute_type_expr-port_type (TypeExpr.type_param name) =
      rw (substitute_type_expr, subst_param-assigned name) (concrete_or_void (env name))

  substitute_param_type-Realizes :
      (p : ParamType) → Realizes env p (substitute_param_type meta types p)
  unfolding substitute_param_type
  substitute_param_type-Realizes (ParamType.type_param name) =
      rw (substitute_param_type, subst_param-assigned name) (value_case name (env name) refl)
    where
      value_case :
          (name : String) (o : Option PipitType)
          → env name ≡ o
          → Realizes env (ParamType.type_param name) (elim o [
            | some int32 ↦ ParamType.int
            | some PipitType.float ↦ ParamType.float
            | some PipitType.double ↦ ParamType.double
            | _ ↦ ParamType.type_param name
          ])
      value_case name none e = Realizes.kept _ (HasNone-none value_type (env name) e)
      value_case name (some int32) e = Realizes.value name int32 _ e refl
      value_case name (some PipitType.float) e = Realizes.value name PipitType.float _ e refl
      value_case name (some PipitType.double) e = Realizes.value name PipitType.double _ e refl
      value_case name (some int8) e = Realizes.kept _ (HasNone-value (env name) int8 e refl)
      value_case name (some int16) e = Realizes.kept _ (HasNone-value (env name) int16 e refl)
      value_case name (some cfloat) e = Realizes.kept _ (HasNone-value (env name) cfloat e refl)
      value_case name (some cdouble) e = Realizes.kept _ (HasNone-value (env name) cdouble e refl)
      value_case name (some void) e = Realizes.kept _ (HasNone-value (env name) void e refl)
  substitute_param_type-Realizes (ParamType.span_type_param name) =
      rw (substitute_param_type, subst_param-assigned name) (span_case name (env name) refl)
    where
      span_case :
          (name : String) (o : Option PipitType)
          → env name ≡ o
          → Realizes env (ParamType.span_type_param name) (elim o [
            | some PipitType.float ↦ ParamType.span_float
            | _ ↦ ParamType.span_type_param name
          ])
      span_case name none e = Realizes.kept _ (HasNone-none span_type (env name) e)
      span_case name (some PipitType.float) e = Realizes.span name PipitType.float _ e refl
      span_case name (some int8) e = Realizes.kept _ (HasNone-span (env name) int8 e refl)
      span_case name (some int16) e = Realizes.kept _ (HasNone-span (env name) int16 e refl)
      span_case name (some int32) e = Realizes.kept _ (HasNone-span (env name) int32 e refl)
      span_case name (some PipitType.double) e =
          Realizes.kept _ (HasNone-span (env name) PipitType.double e refl)
      span_case name (some cfloat) e = Realizes.kept _ (HasNone-span (env name) cfloat e refl)
      span_case name (some cdouble) e = Realizes.kept _ (HasNone-span (env name) cdouble e refl)
      span_case name (some void) e = Realizes.kept _ (HasNone-span (env name) void e refl)
  substitute_param_type-Realizes ParamType.int = Realizes.kept _ tt
  substitute_param_type-Realizes ParamType.float = Realizes.kept _ tt
  substitute_param_type-Realizes ParamType.double = Realizes.kept _ tt
  substitute_param_type-Realizes ParamType.span_float = Realizes.kept _ tt
  substitute_param_type-Realizes ParamType.span_char = Realizes.kept _ tt

  params-AllRealize :
      (ps : List ActorParam) → AllRealize env ps (map (substitute_param meta types) ps)
  unfolding substitute_param
  params-AllRealize [] = tt
  params-AllRealize (p ∷ ps) =
      (refl, refl, substitute_param_type-Realizes p.param_type, params-AllRealize ps)

  -- To monomorphize an actor replaces each type parameter by the type that stands at its place, void
  -- for a port where there is none, and, for the type of a parameter, by the parameter type that has
  -- this type, where there is one; the other types, the names, the counts and the shapes are kept.
  pub monomorphize_actor-Realizes :
      AllRealize env meta.params (monomorphize_actor meta types).params
      × (monomorphize_actor meta types ≡ record meta {
        type_params = [];
        in_type = TypeExpr.concrete (port_type env meta.in_type);
        out_type = TypeExpr.concrete (port_type env meta.out_type);
        params = (monomorphize_actor meta types).params;
      })
  unfolding monomorphize_actor
  monomorphize_actor-Realizes = (
    params-AllRealize meta.params,
    rw (substitute_type_expr-port_type meta.in_type, substitute_type_expr-port_type meta.out_type)
        refl,
  )
