-- ===== src/Widening/Order.antt =====
-- The widening chains of compiler/src/type_infer.rs are an order.
use pipeit.Base.{◌≡◌, sym, subst, true, ◌⊎◌, inl, inr, Option, none, some, arith, Bool-cases}
use pipeit.Registry.{PipitType, type_beq, type_beq_iff}
use pipeit.Widening.{can_widen, common_widening_type}

-- Widening is reflexive, antisymmetric and transitive.
pub can_widen-order :
    (a b c : PipitType)
    → (can_widen a a ≡ true)
      × (can_widen a b ≡ true → can_widen b a ≡ true → a ≡ b)
      × (can_widen a b ≡ true → can_widen b c ≡ true → can_widen a c ≡ true)
unfolding can_widen
can_widen-order a b c = (ground arith, ground arith, ground arith)

abbrev pub LeastAbove : PipitType → PipitType → Option PipitType → Type 0
LeastAbove a b (some c) =
    (can_widen a c ≡ true)
    × (can_widen b c ≡ true)
    × ((d : PipitType) → can_widen a d ≡ true → can_widen b d ≡ true → can_widen c d ≡ true)
LeastAbove a b none = (d : PipitType) → can_widen a d ≡ true → can_widen b d ≡ true → ⊥

-- Two types below a third stand in one chain.
comparable :
    (a b d : PipitType)
    → can_widen a d ≡ true
    → can_widen b d ≡ true
    → (can_widen a b ≡ true) ⊎ (can_widen b a ≡ true)
unfolding can_widen
comparable a b d h k = ground arith

-- The common type of two types is the least one that both widen to, and where there is none, no
-- type is one that both widen to.
pub common_widening_type-LeastAbove : (a b : PipitType) → LeastAbove a b (common_widening_type a b)
unfolding common_widening_type
common_widening_type-LeastAbove a b = elim (Bool-cases (type_beq a b)) [
  | inl same ↦
      let e = (type_beq_iff a b).0 same in
      rw same
        (refl_a, subst (λ x. can_widen b x ≡ true) (sym e) ((can_widen-order b b b).0), λ d h k. h)
  | inr differ ↦ elim (Bool-cases (can_widen a b)) [
    | inl up ↦ rw (differ, up) (up, (can_widen-order b b b).0, λ d h k. k)
    | inr not_up ↦ elim (Bool-cases (can_widen b a)) [
      | inl down ↦ rw (differ, not_up, down) (refl_a, down, λ d h k. h)
      | inr not_down ↦
          rw (differ, not_up, not_down)
            (λ d h k. elim (comparable a b d h k) [ inl up ↦ cc | inr down ↦ cc ])
    ]
  ]
]
  where
    refl_a : can_widen a a ≡ true
    refl_a = (can_widen-order a a a).0
