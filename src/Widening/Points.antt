-- ===== src/Widening/Points.antt =====
-- Where `check_pipe_widening` (compiler/src/type_infer.rs) inserts a widening.
use mathlib.Core.List.{append_assoc, append-nil}
use pipeit.Base.{
  ◌≡◌, refl, ◌∙◌, sym, ap, Bool, true, false, ◌≢◌, ◌↔◌, ◌⊎◌, inl, inr, some, List, [], ◌∷◌, ◌++◌,
  ◌==◌, ◌||◌, arith, Bool-cases, Option-cases,
}
use pipeit.Registry.{PipitType, void, type_eq, type_beq_iff}
use pipeit.Widening.{
  Call, WideningPoint, out_of, in_of, can_widen, widen_pair, widen_between, widen_typed,
  check_pipe_widening,
}

-- A call's output has a concrete type that is not its successor's input type, but widens to it.
abbrev pub Widens : Call → Call → PipitType → PipitType → Type 0
Widens src tgt from to =
    (out_of src ≡ some from)
    × (in_of tgt ≡ some to)
    × (from ≢ to)
    × (from ≢ void)
    × (to ≢ void)
    × (can_widen from to ≡ true)

-- The points of a pipe, one for each pair of adjacent calls that needs one, in order.
pub data PointsOf : List Call → List WideningPoint → Type 0 where
  done : PointsOf [] []
  last : (c : Call) → PointsOf (c ∷ []) []
  point :
      {src tgt : Call} {calls : List Call} {points : List WideningPoint} (from to : PipitType)
      → Widens src tgt from to
      → PointsOf (tgt ∷ calls) points
      → PointsOf
          (src ∷ tgt ∷ calls)
          ((record { target_call_id = tgt.call_id; from_type = from; to_type = to }) ∷ points)
  skip :
      {src tgt : Call} {calls : List Call} {points : List WideningPoint}
      → ((from to : PipitType) → ¬ Widens src tgt from to)
      → PointsOf (tgt ∷ calls) points
      → PointsOf (src ∷ tgt ∷ calls) points

-- The guard of the loop body, read as three inequalities.
guard_cases :
    (from to : PipitType)
    → ((from == to || (from == void || to == void)) ≡ false)
      ↔ ((from ≢ to) × (from ≢ void) × (to ≢ void))
guard_cases from to =
    ground (arith, type_beq_iff from to, type_beq_iff from void, type_beq_iff to void)

clash : {b : Bool} → b ≡ true → b ≡ false → ⊥
clash h k = cc

-- What one pair adds.
pair_cases :
    (src tgt : Call) (points : List WideningPoint)
    → ((from : PipitType) × (to : PipitType) × Widens src tgt from to
        × (widen_pair src tgt points
            ≡ points
              ++ (record { target_call_id = tgt.call_id; from_type = from; to_type = to }) ∷ []))
      ⊎ (((from to : PipitType) → ¬ Widens src tgt from to) × (widen_pair src tgt points ≡ points))
unfolding widen_pair widen_between widen_typed
pair_cases src tgt points = elim (Option-cases (out_of src)) [
  | inr no_out ↦ inr (λ f t (o, i, x, y, z, w). cc, rw no_out refl)
  | inl (from, out) ↦ elim (Option-cases (in_of tgt)) [
    | inr no_in ↦ inr (λ f t (o, i, x, y, z, w). cc, rw (out, no_in) refl)
    | inl (to, inp) ↦ elim (Bool-cases (from == to || (from == void || to == void))) [
      | inl bad ↦ inr (
        λ f t (o, i, x, y, z, w).
            clash bad ((guard_cases from to).1 (λ p. x cc, λ p. y cc, λ p. z cc)),
        rw (out, inp, bad) refl,
      )
      | inr good ↦ elim (Bool-cases (can_widen from to)) [
        | inl up ↦ inl (
          from,
          to,
          (
            out,
            inp,
            ((guard_cases from to).0 good).0,
            ((guard_cases from to).0 good).1,
            ((guard_cases from to).0 good).2,
            up,
          ),
          rw (out, inp, good, up) refl,
        )
        | inr not_up ↦ inr (λ f t (o, i, x, y, z, w). cc, rw (out, inp, good, not_up) refl)
      ]
    ]
  ]
]

-- The pipe check ends with the points it was given, then one point for each pair of adjacent calls
-- whose types differ, are not void and widen, in the order of the pipe, and none for any other pair.
pub check_pipe_widening-PointsOf :
    (calls : List Call) (points : List WideningPoint)
    → (new : List WideningPoint) × PointsOf calls new
      × (check_pipe_widening calls points ≡ points ++ new)
unfolding check_pipe_widening
check_pipe_widening-PointsOf [] points = ([], done, sym (append-nil points))
check_pipe_widening-PointsOf (src ∷ []) points = ([], last src, sym (append-nil points))
check_pipe_widening-PointsOf (src ∷ tgt ∷ calls) points = elim (pair_cases src tgt points) [
  | inl (from, to, widens, e) ↦
      let (new, rest, f) = check_pipe_widening-PointsOf (tgt ∷ calls) (widen_pair src tgt points) in
      (_ ∷ new, point from to widens rest, f ∙ ap (λ p. p ++ new) e ∙ append_assoc points _ new)
  | inr (none_fits, e) ↦
      let (new, rest, f) = check_pipe_widening-PointsOf (tgt ∷ calls) (widen_pair src tgt points) in
      (new, skip none_fits rest, f ∙ ap (λ p. p ++ new) e)
]
