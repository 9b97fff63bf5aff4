-- ===== src/Feedback/Breaks.antt =====
-- What the delay check reports, and what follows for the sort where it reports nothing
-- (compiler/src/analyze.rs, `check_feedback_delays`).
use mathlib.Core.List
use mathlib.Core.List.{Memᴰ}
use pipeit.Base.{
  ℕ, suc, ◌||◌, if◌then◌else◌, ◌<◌, ◌≡◌, refl, sym, ap, subst, ◌∙◌, Bool, true, false, not, ◌&&◌,
  Option, none, some, List, [], ◌∷◌, ◌++◌, inl, inr, find, keep, any, all, has, map, length,
  length-append, contains, get_elem?, eqb_iff, ltb, Bool-cases, nat_eq, pair_eq, arith, ◌==◌,
}
use pipeit.Extern.{Extern}
use pipeit.Diag.{Diagnostic, error, e0305}
use pipeit.Outcome.{done}
use pipeit.Graph.{NodeId, Node, Subgraph, node_ids}
use pipeit.SubgraphIndex.{find_node, is_delay, identify_back_edges}
use pipeit.SubgraphIndex.Agree.{IsDistinct}
use pipeit.SubgraphIndex.BackEdges.{IsStep, delay_at}
use pipeit.Schedule.Runs.{IsSound}
use pipeit.Cycles.{detect_cycles_in_subgraph}
use pipeit.Cycles.Sorts.{found_cycle-IsCycleOf, cycle_in_nodes, found_cycle_breaks}
use pipeit.Feedback.{
  find_node_in_any_subgraph, has_delay, span_of, check_cycle, check_feedback_delays,
}
use pipeit.Feedback.Nodes.{
  all_nodes, ids, find_unique, position_in_all, find_node_in_any_subgraph-find,
}

any_congr :
    (f g p : ℕ → Bool) (xs : List ℕ)
    → ((x : ℕ) → p x ≡ true → f x ≡ g x)
    → all p xs ≡ true
    → any f xs ≡ any g xs
any_congr f g p [] h a = refl
any_congr f g p (x ∷ xs) h a = ground (arith, h x, any_congr f g p xs h)

nil_of_append {ℓ} : {A : Type ℓ} (xs ys : List A) → xs ++ ys ≡ xs → length ys ≡ 0
nil_of_append {A} xs ys h = omega (arith, length-append xs ys, ap (λ (l : List A). length l) h)

module _ {X : Extern} where
  find_at :
      (ns : List (Node X)) (v : NodeId) (n : Node X)
      → find (λ x. x.id == v) ns ≡ some n
      → (i : ℕ) × (get_elem? ns i ≡ some n) × (n.id ≡ v)
  find_at [] v n h = cc
  find_at (x ∷ ns) v n h = elim (Bool-cases (x.id == v)) [
    | inl same ↦
        let first : x ≡ n = cc (rw same at h) in
        (
          0,
          ap (λ y. some y) first,
          subst (λ (y : Node X). y.id ≡ v) first ((eqb_iff x.id v).0 same),
        )
    | inr other ↦ let (i, at_i, id) = find_at ns v n (rw other at h) in (suc i, at_i, id)
  ]

  find_of_has :
      (ns : List (Node X)) (v : NodeId)
      → has (ids ns) v ≡ true
      → (n : Node X) × (find (λ x. x.id == v) ns ≡ some n)
  unfolding has
  find_of_has [] v h = cc
  find_of_has (x ∷ ns) v h = elim (Bool-cases (x.id == v)) [
    | inl same ↦ (x, rw same refl)
    | inr other ↦
        let (n, found) = find_of_has ns v (ground (arith, eqb_iff x.id v)) in (n, rw other found)
  ]

  module _ (subs : List (Subgraph X)) where
    -- A node of one subgraph is found in that subgraph.
    find_in_subgraph :
        (key : ℕ) (sub : Subgraph X) (v : NodeId)
        → IsDistinct (ids (all_nodes subs))
        → get_elem? subs key ≡ some sub
        → has (node_ids sub) v ≡ true
        → find_node_in_any_subgraph subs v ≡ find_node sub v
    unfolding find_node
    find_in_subgraph key sub v distinct at_key v_in =
        let (n, found) = find_of_has sub.nodes v v_in in
        let (pos, at_pos, id) = find_at sub.nodes v n found in
        let (i, at_i) = position_in_all subs key pos sub n at_key at_pos in
        let everywhere : find (λ x. x.id == v) (all_nodes subs) ≡ some n =
          subst (λ (w : NodeId). find (λ x. x.id == w) (all_nodes subs) ≡ some n) id
            (find_unique (all_nodes subs) i n distinct at_i) in
        find_node_in_any_subgraph-find subs v distinct ∙ everywhere ∙ sym found

    has_delay-any :
        (key : ℕ) (sub : Subgraph X) (c : List NodeId)
        → IsDistinct (ids (all_nodes subs))
        → get_elem? subs key ≡ some sub
        → all (has (node_ids sub)) c ≡ true
        → has_delay subs c ≡ any (delay_at sub) c
    unfolding has_delay
    has_delay-any key sub c distinct at_key inside =
        any_congr
          (λ id. elim (find_node_in_any_subgraph subs id) [
            | none ↦ false
            | some n ↦ is_delay n.kind
          ])
          (delay_at sub) (has (node_ids sub)) c
          (λ v v_in.
            ap (λ (o : Option (Node X)). elim o [ none ↦ false | some n ↦ is_delay n.kind ])
              (find_in_subgraph key sub v distinct at_key v_in))
          inside

    -- A loop through at least one node, without a delay.
    abbrev is_undelayed : List NodeId → Bool
    is_undelayed c = ltb 0 (length c) && not (has_delay subs c)

    abbrev report : List NodeId → Diagnostic X
    report c = record {
      level = error;
      code = e0305;
      span = elim c [ [] ↦ X.no_span | id ∷ _ ↦ span_of subs id ];
    }

    check_feedback_delays-report :
        (cycles : List (List NodeId)) (diags : List (Diagnostic X))
        → check_feedback_delays subs cycles diags ≡ diags ++ map report (keep is_undelayed cycles)
    unfolding check_feedback_delays check_cycle
    check_feedback_delays-report [] diags = rw (List.append-nil diags) refl
    check_feedback_delays-report ([] ∷ cycles) diags =
        ground (arith, check_feedback_delays-report cycles diags)
    check_feedback_delays-report ((id ∷ c) ∷ cycles) diags = ground (
      arith,
      check_feedback_delays-report cycles diags,
      check_feedback_delays-report cycles (diags ++ report (id ∷ c) ∷ []),
      List.append_assoc diags (report (id ∷ c) ∷ []) (map report (keep is_undelayed cycles)),
    )

    -- The first node of the program with the id.
    abbrev node_of : NodeId → Option (Node X)
    node_of v = find (λ n. n.id == v) (all_nodes subs)

    -- A node of the loop is a delay actor.
    abbrev is_delayed : List NodeId → Bool
    is_delayed [] = false
    is_delayed (v ∷ c) = elim (node_of v) [
      | none ↦ is_delayed c
      | some n ↦ is_delay n.kind || is_delayed c
    ]

    abbrev span_at : NodeId → X.Span
    span_at v = elim (node_of v) [ none ↦ X.no_span | some n ↦ n.span ]

    -- The errors that are due for a list of loops.
    abbrev pub due : List (List NodeId) → List (Diagnostic X)
    due [] = []
    due ([] ∷ cycles) = due cycles
    due ((v ∷ c) ∷ cycles) =
        if is_delayed (v ∷ c)
        then due cycles
        else (record { level = error; code = e0305; span = span_at v }) ∷ due cycles

    has_delay-is_delayed :
        (c : List NodeId) → IsDistinct (ids (all_nodes subs)) → has_delay subs c ≡ is_delayed c
    unfolding has_delay
    has_delay-is_delayed [] distinct = refl
    has_delay-is_delayed (v ∷ c) distinct =
        let rest : has_delay subs c ≡ is_delayed c = has_delay-is_delayed c distinct in
        rw (find_node_in_any_subgraph-find subs v distinct) (ground arith)

    span_of-span_at : (v : NodeId) → IsDistinct (ids (all_nodes subs)) → span_of subs v ≡ span_at v
    unfolding span_of
    span_of-span_at v distinct = rw (span_of, find_node_in_any_subgraph-find subs v distinct) refl

    check_cycle-due :
        (v : NodeId) (c : List NodeId) (cycles : List (List NodeId)) (diags : List (Diagnostic X))
        → IsDistinct (ids (all_nodes subs))
        → check_cycle subs (v ∷ c) diags ++ due cycles ≡ diags ++ due ((v ∷ c) ∷ cycles)
    unfolding check_cycle
    check_cycle-due v c cycles diags distinct =
        let error_at : Diagnostic X = record { level = error; code = e0305; span = span_at v } in
        rw (has_delay-is_delayed (v ∷ c) distinct, span_of-span_at v distinct)
          (ground (arith, List.append_assoc diags (error_at ∷ []) (due cycles)))

    -- Where no node id stands twice in the program, the delay check adds one error E0305 for each
    -- cycle that has a node and passes no delay actor, with the span of its first node, in order, and
    -- none for other cycles.
    pub check_feedback_delays_lem :
        (cycles : List (List NodeId)) (diags : List (Diagnostic X))
        → IsDistinct (ids (all_nodes subs))
        → check_feedback_delays subs cycles diags ≡ diags ++ due cycles
    unfolding check_feedback_delays check_cycle
    check_feedback_delays_lem [] diags distinct = sym (List.append-nil diags)
    check_feedback_delays_lem ([] ∷ cycles) diags distinct =
        check_feedback_delays_lem cycles diags distinct
    check_feedback_delays_lem ((v ∷ c) ∷ cycles) diags distinct =
        check_feedback_delays_lem cycles (check_cycle subs (v ∷ c) diags) distinct
        ∙ check_cycle-due v c cycles diags distinct

    keep-nil :
        (cycles : List (List NodeId)) (c : List NodeId)
        → length (map report (keep is_undelayed cycles)) ≡ 0
        → Memᴰ c cycles
        → is_undelayed c ≡ false
    keep-nil [] c h m = elim m [ ]
    keep-nil (d ∷ cycles) c h (Memᴰ.head e) =
        subst (λ (x : List NodeId). is_undelayed x ≡ false) (sym e) (ground arith)
    keep-nil (d ∷ cycles) c h (Memᴰ.tail m) = keep-nil cycles c (ground arith) m

    -- Let no node id stand twice in the program, and let one of its subgraphs be sound. If the delay
    -- check reports nothing for a list of cycles, then each cycle of the list that the search finds in
    -- this subgraph has a step that is a back edge.
    pub accepted_cycle_breaks :
        (key : ℕ) (sub : Subgraph X) (found cycles : List (List NodeId)) (c : List NodeId)
        (diags : List (Diagnostic X))
        → IsDistinct (ids (all_nodes subs))
        → get_elem? subs key ≡ some sub
        → IsSound sub
        → detect_cycles_in_subgraph sub ≡ done found
        → Memᴰ c found
        → Memᴰ c cycles
        → check_feedback_delays subs cycles diags ≡ diags
        → (u : NodeId) × (v : NodeId) × IsStep c u v
          × (contains (identify_back_edges sub cycles) (u, v) ≡ true)
    accepted_cycle_breaks key sub found cycles c diags distinct at_key sound detected in_found
          in_cycles accepted =
        let round = found_cycle-IsCycleOf sub found c detected in_found in
        let inside = cycle_in_nodes sub c sound round in
        let none_left =
          nil_of_append diags (map report (keep is_undelayed cycles))
            (sym (check_feedback_delays-report cycles diags) ∙ accepted) in
        let kept_out : is_undelayed c ≡ false = keep-nil cycles c none_left in_cycles in
        let long : 0 < length c = round.0 in
        let delayed : has_delay subs c ≡ true = ground arith in
        found_cycle_breaks sub found cycles c sound detected in_found in_cycles
          (sym (has_delay-any key sub c distinct at_key inside) ∙ delayed)
