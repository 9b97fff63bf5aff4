-- ===== src/Rates/Shapes.antt =====
-- The rate of a port is the product of its dimensions (compiler/src/thir.rs, `resolve_port_rate` and
-- `resolve_port_shape`).
use mathlib.Core.List
use native.Mathlib.Nat
use pipeit.Base.{
  ℕ, suc, ◌*◌, ◌≤◌, ◌<◌, ◌≡◌, refl, sym, ap, ◌∙◌, Option, none, some, List, [], ◌∷◌, ◌++◌, inl, inr,
  All, ltb, if◌then◌else◌, u32_mod, Bool-cases, Option-cases, arith,
}
use pipeit.Extern.{Extern}
use pipeit.Ast.{Arg, ShapeDim}
use pipeit.Registry.{ActorMeta, PortShape, TokenCount}
use pipeit.Rates.Dims.{
  Thir, resolve_dim, checked_mul, rate_from, shape_from, resolve_port_rate, resolve_port_shape,
}

abbrev pub product : List ℕ → ℕ
product [] = 1
product (d ∷ ds) = d * product ds

abbrev pub IsPos : List ℕ → Type 0
IsPos ds = All (λ d. 0 < d) ds

-- The product in u32, where each step must fit.
checked_product : ℕ → List ℕ → Option ℕ
checked_product r [] = some r
checked_product r (d ∷ ds) = elim (checked_mul r d) [ none ↦ none | some x ↦ checked_product x ds ]

product_pos : (ds : List ℕ) → IsPos ds → 0 < product ds
product_pos [] h = omega arith
product_pos (d ∷ ds) h = Nat.mul-pos h.0 (product_pos ds h.1)

checked_product-eq :
    (ds : List ℕ) (r : ℕ)
    → IsPos ds
    → r < u32_mod
    → checked_product r ds ≡ (if ltb (r * product ds) u32_mod then some (r * product ds) else none)
unfolding checked_product checked_mul
checked_product-eq [] r h fits = let e : r * 1 ≡ r = Nat.mul-one r in rw e (ground arith)
checked_product-eq (d ∷ ds) r h fits =
    let e : r * (d * product ds) ≡ r * d * product ds = sym (Nat.mul_assoc r d (product ds)) in
    let grows : r * d * 1 ≤ r * d * product ds = Nat.mul-le-mul_left (r * d) (product_pos ds h.1) in
    let one : r * d * 1 ≡ r * d = Nat.mul-one (r * d) in
    elim (Bool-cases (ltb (r * d) u32_mod)) [
      | inl small ↦
          let rest = checked_product-eq ds (r * d) h.1 (ground arith) in
          rw (e, small, checked_product, checked_mul) rest
      | inr large ↦ rw (e, large, checked_product, checked_mul) (ground arith)
    ]

module _ {X : Extern} (thir : Thir X) where
  -- Both loops resolve the same dimensions.
  rate_from-shape :
      (dims : List TokenCount) (idx : ℕ) (info : ActorMeta) (args : List (Arg X))
      (constraint : Option (List (ShapeDim X))) (out ds : List ℕ) (r : ℕ)
      → shape_from thir idx dims info args constraint out ≡ some ds
      → (rest : List ℕ) × (ds ≡ out ++ rest)
        × (rate_from thir idx dims info args constraint r ≡ checked_product r rest)
  unfolding shape_from rate_from checked_product
  rate_from-shape [] idx info args constraint out ds r h = ([], cc (h, List.append-nil out), refl)
  rate_from-shape (dim ∷ dims) idx info args constraint out ds r h =
      elim (Option-cases (resolve_dim thir dim idx info args constraint)) [
        | inr unknown ↦ absurd (ground arith)
        | inl (v, known) ↦
            let h' : shape_from thir (suc idx) dims info args constraint (out ++ v ∷ []) ≡ some ds =
              ground arith in
            elim (Option-cases (checked_mul r v)) [
              | inl (x, fits) ↦
                  let (rest, split, e) =
                    rate_from-shape dims (suc idx) info args constraint (out ++ v ∷ []) ds x h' in
                  (v ∷ rest, split ∙ List.append_assoc out (v ∷ []) rest, ground arith)
              | inr overflow ↦
                  let (rest, split, e) =
                    rate_from-shape dims (suc idx) info args constraint (out ++ v ∷ []) ds r h' in
                  (v ∷ rest, split ∙ List.append_assoc out (v ∷ []) rest, ground arith)
            ]
      ]

  -- Where every dimension of a port has a value and all are positive, the rate is their product, if
  -- that fits a u32, and else there is none.
  pub resolve_port_rate-product :
      (shape : PortShape) (info : ActorMeta) (args : List (Arg X))
      (constraint : Option (List (ShapeDim X))) (ds : List ℕ)
      → resolve_port_shape thir shape info args constraint ≡ some ds
      → IsPos ds
      → resolve_port_rate thir shape info args constraint
        ≡ (if ltb (product ds) u32_mod then some (product ds) else none)
  unfolding resolve_port_shape resolve_port_rate
  resolve_port_rate-product shape info args constraint ds h pos =
      let (rest, split, e) = rate_from-shape shape.dims 0 info args constraint [] ds 1 h in
      e
      ∙ ap (λ (l : List ℕ). checked_product 1 l) (sym split)
      ∙ checked_product-eq ds 1 pos (omega arith)
      ∙ rw (Nat.one-mul (product ds)) refl
