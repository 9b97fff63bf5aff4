-- ===== src/Builder/Invariant.antt =====
-- What every step of the graph builder (compiler/src/graph.rs) keeps: the ids of the nodes are new,
-- and the edges, the taps and the pending inputs name nodes of the subgraph.
use mathlib.Core.List.{map-append}
use pipeit.Base.{
  ℕ, ◌+◌, ◌≤◌, ◌<◌, ◌≡◌, refl, Bool, true, ◌&&◌, ◌||◌, Option, none, some, List, [], ◌∷◌, ◌++◌, map,
  String, Map, get, insert, length, length-append, All, count, count-append, has, leb, ltb,
  if◌then◌else◌, inc32, inc32-eq, u32_mod, arith, string_eq, Bool-cases, inl, inr, ◌==◌,
}
use pipeit.Extern.{Extern}
use pipeit.Graph.{NodeId, NodeKind, Node, Edge}
use pipeit.Builder.{SubgraphCtx, add_node, add_edge}

has-append : (xs ys : List ℕ) (v : ℕ) → has (xs ++ ys) v ≡ (has xs v || has ys v)
unfolding has
has-append [] ys v = refl
has-append (x ∷ xs) ys v = ground (arith, has-append xs ys v)

has_grows : (xs ys : List ℕ) (v : ℕ) → has xs v ≡ true → has (xs ++ ys) v ≡ true
has_grows xs ys v h = ground (arith, has-append xs ys v)

has_last : (xs : List ℕ) (v : ℕ) → has (xs ++ v ∷ []) v ≡ true
unfolding has
has_last xs v = ground (arith, has-append xs (v ∷ []) v)

-- A number that has been given to a node since `start`.
abbrev pub was_given : ℕ → ℕ → NodeId → Bool
was_given start next v = leb start v && ltb v next

count_given :
    (start next v : ℕ) (ids : List ℕ)
    → start ≤ next
    → count v ids ≤ (if was_given start next v then 1 else 0)
    → count v (ids ++ next ∷ []) ≤ (if was_given start (next + 1) v then 1 else 0)
unfolding count
count_given start next v ids h c = ground (arith, count-append v ids (next ∷ []))

pub All-imp :
    {A : Type 0} {P Q : A → Type 0} → ((a : A) → P a → Q a) → (xs : List A) → All P xs → All Q xs
All-imp f [] h = tt
All-imp f (x ∷ xs) h = (f x h.0, All-imp f xs h.1)

pub All-append :
    {A : Type 0} (P : A → Type 0) (xs : List A) (a : A) → All P xs → P a → All P (xs ++ a ∷ [])
All-append P [] a h p = (p, tt)
All-append P (x ∷ xs) a h p = (h.0, All-append P xs a h.1 p)

pub All-get :
    (P : ℕ → Type 0) (m : Map String ℕ) (k : String) (v : ℕ)
    → All (λ t. P t.1) m
    → get m k ≡ some v
    → P v
All-get P [] k v h e = absurd cc
All-get P ((j, w) ∷ m) k v h e = elim (Bool-cases (j == k)) [
  | inl hit ↦ let same : w ≡ v = cc (rw hit at e) in rw same at h.0
  | inr miss ↦ All-get P m k v h.1 (rw miss at e)
]

pub All-insert :
    (P : ℕ → Type 0) (m : Map String ℕ) (k : String) (v : ℕ)
    → All (λ t. P t.1) m
    → P v
    → All (λ t. P t.1) (insert m k v)
All-insert P [] k v h p = (p, tt)
All-insert P ((j, w) ∷ m) k v h p = elim (Bool-cases (j == k)) [
  | inl hit ↦ rw hit (p, h.1)
  | inr miss ↦ rw miss (h.0, All-insert P m k v h.1 p)
]

module _ {X : Extern} where
  abbrev pub ids : SubgraphCtx X → List NodeId
  ids c = map (λ n. n.id) c.nodes

  abbrev pub Knows : SubgraphCtx X → NodeId → Type 0
  Knows c v = has (ids c) v ≡ true

  abbrev pub KnowsPrev : SubgraphCtx X → Option NodeId → Type 0
  KnowsPrev c none = Unit
  KnowsPrev c (some v) = Knows c v

  abbrev pub Grows : SubgraphCtx X → SubgraphCtx X → Type 0
  Grows c c' = (v : NodeId) → Knows c v → Knows c' v

  module _ (start : ℕ) where
    abbrev pub Fresh : SubgraphCtx X → Type 0
    Fresh c =
        start + length c.nodes < u32_mod
        → (c.next_node_id ≡ start + length c.nodes)
          × ((v : NodeId) → count v (ids c) ≤ (if was_given start c.next_node_id v then 1 else 0))

    pub record Inv (c : SubgraphCtx X) : Type 0 where
      pub closed : All (λ (e : Edge X). Knows c e.source × Knows c e.target) c.edges
      pub tapped : All (λ (t : String × NodeId). Knows c t.1) c.taps
      pub waiting : All (λ (p : NodeId × String × X.Span). Knows c p.0) c.pending_tap_inputs
      pub fresh : Fresh c

    pub add_node_lem :
        (kind : NodeKind X) (span : X.Span) (c : SubgraphCtx X)
        → Inv c
        → Inv (add_node kind span c).1
          × Grows c (add_node kind span c).1
          × Knows (add_node kind span c).1 (add_node kind span c).0
    unfolding add_node
    add_node_lem kind span c inv =
        let n = c.next_node_id in
        let c' = (add_node kind span c).1 in
        let same : ids c' ≡ ids c ++ n ∷ [] = map-append (λ (x : Node X). x.id) c.nodes _ in
        let grows : Grows c c' = λ v h. rw same (has_grows (ids c) (n ∷ []) v h) in
        (
          record {
            closed = All-imp (λ e (s, t). (grows e.source s, grows e.target t)) c.edges inv.closed;
            tapped = All-imp (λ t h. grows t.1 h) c.taps inv.tapped;
            waiting = All-imp (λ p h. grows p.0 h) c.pending_tap_inputs inv.waiting;
            fresh = λ lt.
                let longer =
                  length-append {A = Node X} c.nodes
                    ((record { id = n; kind = kind; span = span }) ∷ []) in
                let (e, given) = inv.fresh (omega (arith, longer)) in
                let next : inc32 n ≡ n + 1 = inc32-eq n (omega (arith, longer, e)) in
                (
                  omega (arith, longer, e, next),
                  λ v. rw (next, same) (count_given start n v (ids c) (omega (arith, e)) (given v)),
                );
          },
          grows,
          rw same (has_last (ids c) n),
        )

    pub Inv-add_edge :
        (u v : NodeId) (span : X.Span) (c : SubgraphCtx X)
        → Inv c
        → Knows c u
        → Knows c v
        → Inv (add_edge u v span c)
    unfolding add_edge
    Inv-add_edge u v span c inv from to = record {
      closed =
          All-append (λ (e : Edge X). Knows c e.source × Knows c e.target) c.edges _ inv.closed
            (from, to);
      tapped = inv.tapped;
      waiting = inv.waiting;
      fresh = inv.fresh;
    }
