-- ===== src/Balance/Equations/Verify.antt =====
-- The check of a repetition vector against the equations (compiler/src/analyze.rs,
-- `verify_balance_equations`).
use pipeit.Base.{
  ℕ, ◌*◌, ◌≡◌, refl, Bool, true, false, Option, none, some, List, [], ◌∷◌, ◌++◌, arith, Map, get,
  get_or, keep, all, map, not, eqb, if◌then◌else◌, nat_eq, pair_eq,
}
use mathlib.Core.List
use pipeit.Extern.{Extern}
use pipeit.Diag.{Diagnostic, error, e0304}
use pipeit.Graph.{NodeId, Node, Edge, Subgraph}
use pipeit.Balance.Equations.{verify_balance_equations}

module _ {X : Extern} where
  -- What an edge produces in a period is what it consumes, if it has rates.
  abbrev pub is_balanced : Map (NodeId × NodeId) (ℕ × ℕ) → Map NodeId ℕ → Edge X → Bool
  is_balanced rates rv e = elim (get rates (e.source, e.target)) [
    | none ↦ true
    | some (p, c) ↦ eqb (get_or rv e.source 1 * p) (get_or rv e.target 1 * c)
  ]

  abbrev pub mismatch : Edge X → Diagnostic X
  mismatch e = record { level = error; code = e0304; span = e.span }

  module _ (sub : Subgraph X) (production consumption : Node X → Option ℕ) where
    pub verify_balance_equations_lem :
        (rates : Map (NodeId × NodeId) (ℕ × ℕ)) (rv : Map NodeId ℕ) (es : List (Edge X))
        (consistent : Bool) (diags : List (Diagnostic X))
        → verify_balance_equations sub production consumption rates rv es consistent diags ≡ (
          if all (is_balanced rates rv) es then consistent else false,
          diags ++ map mismatch (keep (λ e. not (is_balanced rates rv e)) es),
        )
    unfolding verify_balance_equations
    verify_balance_equations_lem rates rv [] consistent diags = rw (List.append-nil diags) refl
    verify_balance_equations_lem rates rv (e ∷ es) consistent diags =
        let wrong = keep (λ x. not (is_balanced rates rv x)) es in
        ground (
          arith,
          verify_balance_equations_lem rates rv es consistent diags,
          verify_balance_equations_lem rates rv es false (diags ++ mismatch e ∷ []),
          List.append_assoc diags (mismatch e ∷ []) (map mismatch wrong),
        )
