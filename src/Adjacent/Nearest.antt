-- ===== src/Adjacent/Nearest.antt =====
-- What the search for the adjacent actor returns (compiler/src/graph.rs, `adjacent_actor_call_id`).
use pipeit.Base.{
  ℕ, ◌≡◌, Bool, true, Option, none, some, List, ◌⊎◌, All, any, has, get_elem?, nat_eq, ◌==◌,
}
use pipeit.Extern.{Extern}
use pipeit.Graph.{NodeId, Edge, Subgraph}
use pipeit.Adjacent.{Front, call_id_at}
use pipeit.Adjacent.Push.{leads}

-- A path along the edges in the direction of the search.
pub data Reaches {X : Extern} (back : Bool) (es : List (Edge X)) (u : NodeId)
    : NodeId → Type 0 where
  here : Reaches back es u u
  hop : {v w : NodeId} → Reaches back es u v → leads back es v w ≡ true → Reaches back es u w

module _ {X : Extern} (back : Bool) (start : NodeId) where
  -- The answer for one subgraph: an actor that is reached, or none if none is.
  abbrev pub Answers : Subgraph X → Option ℕ → Type 0
  Answers sub (some c) =
      (v : NodeId) × Reaches back sub.edges start v × (call_id_at back sub v ≡ some c)
  Answers sub none = (v : NodeId) → Reaches back sub.edges start v → call_id_at back sub v ≡ none

  module _ (sub : Subgraph X) where
    record Inv (f : Front) : Type 0 where
      begun : has f.visited start ≡ true
      reached : (v : NodeId) → has f.visited v ≡ true → Reaches back sub.edges start v
      known : (v : NodeId) → has f.queue v ≡ true → has f.visited v ≡ true
      closed :
          (v : NodeId)
          → has f.visited v ≡ true
          → (has f.queue v ≡ true)
            ⊎ (call_id_at back sub v ≡ none)
              × ((w : NodeId) → leads back sub.edges v w ≡ true → has f.visited w ≡ true)

  abbrev pub holds : Subgraph X → Bool
  holds sub = any (λ n. n.id == start) sub.nodes

  -- The answer for a list of subgraphs: an actor that is reached in one that holds the node, or none
  -- if none is reached in any.
  abbrev pub AnswersAll : List (Subgraph X) → Option ℕ → Type 0
  AnswersAll subs (some c) =
      (key : ℕ) × (sub : Subgraph X) × (get_elem? subs key ≡ some sub)
      × (holds sub ≡ true)
      × Answers sub (some c)
  AnswersAll subs none = All (λ sub. holds sub ≡ true → Answers sub none) subs
