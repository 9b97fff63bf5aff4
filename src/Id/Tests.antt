-- ===== src/Id/Tests.antt =====
-- Runs of compiler/src/id.rs.
use pipeit.Base.{◌≡◌, refl, List, [], ◌∷◌, arith}
use pipeit.Id.{new, Request, call, def, task, serve_all}
use pipeit.Id.Fresh.{IsIncreasing, HasRoom, serve_all-IsIncreasing}

abbrev requests : List Request
requests = call ∷ task ∷ call ∷ def ∷ call ∷ []

ids : serve_all requests new ≡ (call, 0) ∷ (task, 0) ∷ (call, 1) ∷ (def, 0) ∷ (call, 2) ∷ []
unfolding serve_all new
ids = refl

room : HasRoom requests new
unfolding new
room call = omega arith
room def = omega arith
room task = omega arith

serve_all-IsIncreasing_example : IsIncreasing (serve_all requests new)
serve_all-IsIncreasing_example = serve_all-IsIncreasing requests new room
