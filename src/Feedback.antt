-- ===== src/Feedback.antt =====
-- The delay check of feedback loops, `check_feedback_delays` of compiler/src/analyze.rs, with the
-- index of all nodes, `build_global_node_index` of compiler/src/subgraph_index.rs. The address of a
-- subgraph, which is the key of the maps, is its position in the list of subgraphs.
pub mod Nodes
pub mod Breaks
pub mod Tests
use pipeit.Base.{
  ℕ, zero, suc, Bool, true, false, Option, none, some, List, [], ◌∷◌, ◌++◌, Map, get, insert, any,
  all, not, get_elem?, if◌then◌else◌, nat_eq,
}
use pipeit.Extern.{Extern}
use pipeit.Diag.{Diagnostic, error, e0305}
use pipeit.Graph.{NodeId, Node, Subgraph}
use pipeit.SubgraphIndex.{should_index, find_node, is_delay}

module _ {X : Extern} where
  -- The loop over the nodes of the subgraph with the key `key`, from position `i`.
  unfoldable pub index_positions : ℕ → ℕ → List (Node X) → Map NodeId (ℕ × ℕ) → Map NodeId (ℕ × ℕ)
  index_positions key i [] nodes = nodes
  index_positions key i (n ∷ ns) nodes = index_positions key (suc i) ns (insert nodes n.id (key, i))

  unfoldable pub index_subgraphs : ℕ → List (Subgraph X) → Map NodeId (ℕ × ℕ) → Map NodeId (ℕ × ℕ)
  index_subgraphs key [] nodes = nodes
  index_subgraphs key (sub ∷ subs) nodes =
      index_subgraphs (suc key) subs
        (if should_index sub then index_positions key 0 sub.nodes nodes else nodes)

  unfoldable pub build_global_node_index : List (Subgraph X) → Map NodeId (ℕ × ℕ)
  build_global_node_index subs = index_subgraphs 0 subs []

  -- The loop over all subgraphs.
  unfoldable pub scan_subgraphs : List (Subgraph X) → NodeId → Option (Node X)
  scan_subgraphs [] id = none
  scan_subgraphs (sub ∷ subs) id = elim (find_node sub id) [
    | some n ↦ some n
    | none ↦ scan_subgraphs subs id
  ]

  module _ (subs : List (Subgraph X)) where
    unfoldable pub find_node_in_any_subgraph : NodeId → Option (Node X)
    find_node_in_any_subgraph id = elim (get (build_global_node_index subs) id) [
      | some (key, pos) ↦ elim (get_elem? subs key) [
        | none ↦ none
        | some sub ↦ get_elem? sub.nodes pos
      ]
      | none ↦ scan_subgraphs subs id
    ]

    unfoldable pub has_delay : List NodeId → Bool
    has_delay cycle =
        any (λ id. elim (find_node_in_any_subgraph id) [ none ↦ false | some n ↦ is_delay n.kind ])
          cycle

    unfoldable pub span_of : NodeId → X.Span
    span_of id = elim (find_node_in_any_subgraph id) [ none ↦ X.no_span | some n ↦ n.span ]

    -- The body of the loop over the cycles.
    unfoldable pub check_cycle : List NodeId → List (Diagnostic X) → List (Diagnostic X)
    check_cycle [] diags = diags
    check_cycle (id ∷ ids) diags =
        if has_delay (id ∷ ids)
        then diags
        else diags ++ (record { level = error; code = e0305; span = span_of id }) ∷ []

    unfoldable pub check_feedback_delays :
        List (List NodeId) → List (Diagnostic X) → List (Diagnostic X)
    check_feedback_delays [] diags = diags
    check_feedback_delays (cycle ∷ cycles) diags =
        check_feedback_delays cycles (check_cycle cycle diags)
