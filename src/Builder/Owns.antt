-- ===== src/Builder/Owns.antt =====
-- The subgraphs of one task of compiler/src/graph.rs share no node id.
use mathlib.Core.List.{map-append}
use pipeit.Base.{
  ℕ, ◌+◌, ◌≤◌, ◌<◌, ◌≡◌, ◌∙◌, ap, List, [], ◌∷◌, ◌++◌, String, length, All, count, count-append,
  has_iff-count, if◌then◌else◌, u32_mod, arith, string_eq, map,
}
use pipeit.Extern.{Extern}
use pipeit.Graph.{NodeId, Node, Subgraph, node_ids}
use pipeit.Hir.{HirPipeline, HirTaskBody}
use pipeit.SubgraphIndex.{subgraphs_of}
use pipeit.Feedback.Nodes.{all_nodes, ids}
use pipeit.Schedule.Runs.{IsSound}
use pipeit.Builder.{GraphBuilder, build_subgraph, build_modes, build_body}
use pipeit.Builder.Invariant.{was_given}
use pipeit.Builder.Sound.{build_subgraph-IsSound}

module _ {X : Extern} where
  -- The node counter has room for the nodes of the next subgraph, which has fewer than 2^32 edges.
  abbrev pub Fits : HirPipeline X → GraphBuilder X → Type 0
  Fits p b =
      (b.next_global_node_id + length (build_subgraph p b).0.nodes < u32_mod)
      × (length (build_subgraph p b).0.edges < u32_mod)

  abbrev pub ModesFit : List (String × HirPipeline X) → GraphBuilder X → Type 0
  ModesFit [] b = Unit
  ModesFit ((name, p) ∷ modes) b = Fits p b × ModesFit modes (build_subgraph p b).1

  abbrev pub BodyFits : HirTaskBody X → GraphBuilder X → Type 0
  BodyFits (HirTaskBody.pipeline p) b = Fits p b
  BodyFits (HirTaskBody.modal m) b =
      Fits m.control b × ModesFit m.modes (build_subgraph m.control b).1

  abbrev pub uses : NodeId → List (Subgraph X) → ℕ
  uses v subs = count v (ids (all_nodes subs))

  -- The subgraphs are sound, and their ids are different and were given from `lo` up to `hi`.
  pub record Owns (lo hi : ℕ) (subs : List (Subgraph X)) : Type 0 where
    pub grows : lo ≤ hi
    pub sound : All (λ (s : Subgraph X). IsSound s) subs
    pub given : (v : NodeId) → uses v subs ≤ (if was_given lo hi v then 1 else 0)

  uses_cons :
      (v : NodeId) (s : Subgraph X) (subs : List (Subgraph X))
      → uses v (s ∷ subs) ≡ count v (node_ids s) + uses v subs
  uses_cons v s subs =
      ap (λ l. count v l) (map-append (λ (n : Node X). n.id) s.nodes (all_nodes subs))
      ∙ count-append v (node_ids s) (ids (all_nodes subs))

  pub uses_append :
      (v : NodeId) (xs ys : List (Subgraph X)) → uses v (xs ++ ys) ≡ uses v xs + uses v ys
  unfolding count
  uses_append v [] ys = omega arith
  uses_append v (s ∷ xs) ys =
      omega (arith, uses_cons v s (xs ++ ys), uses_cons v s xs, uses_append v xs ys)

  pub All-join :
      (P : Subgraph X → Type 0) (xs ys : List (Subgraph X)) → All P xs → All P ys → All P (xs ++ ys)
  All-join P [] ys h k = k
  All-join P (x ∷ xs) ys h k = (h.0, All-join P xs ys h.1 k)

  Owns-cons :
      (lo mid hi : ℕ) (s : Subgraph X) (subs : List (Subgraph X))
      → Owns lo mid (s ∷ [])
      → Owns mid hi subs
      → Owns lo hi (s ∷ subs)
  Owns-cons lo mid hi s subs one rest = record {
    grows = omega (arith, one.grows, rest.grows);
    sound = (one.sound.0, rest.sound);
    given = λ v. ground (
      arith,
      uses_cons v s subs,
      uses_cons v s [],
      one.given v,
      rest.given v,
      one.grows,
      rest.grows,
    );
  }

  build_subgraph-Owns :
      (p : HirPipeline X) (b : GraphBuilder X)
      → Fits p b
      → Owns b.next_global_node_id
          (build_subgraph p b).1.next_global_node_id
          ((build_subgraph p b).0 ∷ [])
  unfolding count
  build_subgraph-Owns p b fit =
      let (sound, between, grown) = build_subgraph-IsSound p b fit.0 fit.1 in
      let sub = (build_subgraph p b).0 in
      record {
        grows = omega (arith, grown);
        sound = (sound, tt);
        given = λ v. ground (
          arith,
          uses_cons v sub [],
          sound.distinct v,
          between v,
          has_iff-count v (node_ids sub),
        );
      }

  build_modes-Owns :
      (modes : List (String × HirPipeline X)) (b : GraphBuilder X)
      → ModesFit modes b
      → Owns b.next_global_node_id
          (build_modes modes b).1.next_global_node_id
          (map (λ m. m.1) (build_modes modes b).0)
  unfolding build_modes count
  build_modes-Owns [] b fit = record { grows = omega arith; sound = tt; given = λ v. omega arith }
  build_modes-Owns ((name, p) ∷ modes) b fit =
      Owns-cons _ _ _ _ _ (build_subgraph-Owns p b fit.0)
        (build_modes-Owns modes (build_subgraph p b).1 fit.1)

  pub build_body-Owns :
      (body : HirTaskBody X) (b : GraphBuilder X)
      → BodyFits body b
      → Owns b.next_global_node_id
          (build_body body b).1.next_global_node_id
          (subgraphs_of (build_body body b).0)
  unfolding build_body subgraphs_of
  build_body-Owns (HirTaskBody.pipeline p) b fit = build_subgraph-Owns p b fit
  build_body-Owns (HirTaskBody.modal m) b fit =
      Owns-cons _ _ _ _ _ (build_subgraph-Owns m.control b fit.0)
        (build_modes-Owns m.modes (build_subgraph m.control b).1 fit.1)
