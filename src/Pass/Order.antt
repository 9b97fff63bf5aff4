-- ===== src/Pass/Order.antt =====
-- What `required_passes` (compiler/src/pass.rs) returns.
use pipeit.Base.{
  ◌≡◌, refl, Bool, true, false, not, some, List, [], ◌∷◌, all, any, contains, ◌&&◌, ◌==◌,
}
use pipeit.Pass.{PassId, resolve, descriptor, required_passes, pass_eq}

-- Each pass stands once, behind all of its inputs; `before` holds the passes that stand earlier.
abbrev pub are_ready : List PassId → List PassId → Bool
are_ready before [] = true
are_ready before (p ∷ ps) =
    all (contains before) (descriptor p).inputs
    && not (contains before p)
    && are_ready (p ∷ before) ps

-- The last pass is the wanted one, and each other pass is an input of a later one.
abbrev pub are_wanted : PassId → List PassId → Bool
are_wanted terminal [] = false
are_wanted terminal (p ∷ []) = p == terminal
are_wanted terminal (p ∷ q ∷ ps) =
    any (λ r. contains (descriptor r).inputs p) (q ∷ ps) && are_wanted terminal (q ∷ ps)

-- For every pass `required_passes` ends with a list in which each pass stands once and behind all
-- of its inputs, whose last pass is the wanted one, and in which every other pass is an input of a
-- later one.
pub required_passes-order :
    (terminal : PassId)
    → (order : List PassId) × (required_passes terminal ≡ some order)
      × (are_ready [] order ≡ true)
      × (are_wanted terminal order ≡ true)
unfolding required_passes descriptor
required_passes-order resolve = (_, refl, refl, refl)
required_passes-order _ = (_, refl, refl, refl)
