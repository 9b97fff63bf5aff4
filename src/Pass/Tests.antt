-- ===== src/Pass/Tests.antt =====
-- Runs of compiler/src/pass.rs.
use pipeit.Base.{◌≡◌, refl, true, List, [], ◌∷◌, some}
use pipeit.Pass.{PassId, resolve, build_hir, build_graph, analyze, required_passes}
use pipeit.Pass.Order.{are_ready, are_wanted, required_passes-order}

graph_passes : required_passes build_graph ≡ some (resolve ∷ build_hir ∷ build_graph ∷ [])
unfolding required_passes
graph_passes = refl

required_passes-order_example :
    (order : List PassId) × (required_passes analyze ≡ some order)
    × (are_ready [] order ≡ true)
    × (are_wanted analyze order ≡ true)
required_passes-order_example = required_passes-order analyze
