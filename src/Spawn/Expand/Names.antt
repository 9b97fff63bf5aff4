-- ===== src/Spawn/Expand/Names.antt =====
-- The names of the tasks that a spawn clause becomes (compiler/src/spawn.rs).
use text.Mathlib.TextLemmas.{append_cancel_left}
use pipeit.Base.{
  ℕ, map, ap, sym, ◌∙◌, Bool-cases, ltb, if◌then◌else◌, none, inl, inr, zero, suc, ◌+◌, ◌-◌, ◌≡◌,
  refl, Option, some, List, [], ◌∷◌, ◌++◌, Map, get_elem?, arith, String, string_eq,
}
use pipeit.Extern.{Extern, IsExtern}
use pipeit.Ast.{SpawnClause, TaskStmt, Statement, StatementKind}
use pipeit.Spawn.Expand.{Output, spawned, spawn_range, spawn_name, expand_one_task}
use pipeit.Spawn.Expand.Copies.{bound_value, add-zero, add_suc}
use pipeit.Spawn.Expand.Reports.{in_range, expand_one_task-eq}

spawn_name-injective :
    (X : Extern) (laws : IsExtern X) (name : String) (i j : ℕ)
    → spawn_name X name i ≡ spawn_name X name j
    → i ≡ j
unfolding spawn_name
spawn_name-injective X laws name i j h =
    laws.show-injective i j (append_cancel_left "__spawn_" _ _ (append_cancel_left name _ _ h))

abbrev pub name_of : {X : Extern} → Statement X → Option String
name_of s = elim s.kind [ StatementKind.task t ↦ some t.name.name | _ ↦ none ]

-- The names for `count` indices from `i` on.
abbrev names_from : Extern → String → ℕ → ℕ → List String
names_from X name i zero = []
names_from X name i (suc count) = spawn_name X name i ∷ names_from X name (suc i) count

abbrev names_in : Extern → String → Option ℕ → Option ℕ → List String
names_in X name (some begin) (some end) =
    if ltb begin end then names_from X name begin (end - begin) else []
names_in X name _ _ = []

get_elem?-names_from :
    (X : Extern) (name : String) (i count k : ℕ) (n : String)
    → get_elem? (names_from X name i count) k ≡ some n
    → n ≡ spawn_name X name (i + k)
get_elem?-names_from X name i zero k n h = absurd cc
get_elem?-names_from X name i (suc count) zero n h = rw (add-zero i) cc
get_elem?-names_from X name i (suc count) (suc k) n h =
    rw (add_suc i k) (get_elem?-names_from X name (suc i) count k n h)

get_elem?-names_in :
    (X : Extern) (name : String) (b e : Option ℕ) (k : ℕ) (n : String)
    → get_elem? (names_in X name b e) k ≡ some n
    → (i : ℕ) × ((j : ℕ) (m : String)
        → get_elem? (names_in X name b e) j ≡ some m
        → m ≡ spawn_name X name (i + j))
get_elem?-names_in X name (some begin) (some end) k n h = (
  begin,
  λ j m. elim (Bool-cases (ltb begin end)) [
    | inl less ↦ rw less (get_elem?-names_from X name begin (end - begin) j m)
    | inr not_less ↦ rw not_less (λ g. absurd cc)
  ],
)
get_elem?-names_in X name (some begin) none k n h = absurd cc
get_elem?-names_in X name none (some end) k n h = absurd cc
get_elem?-names_in X name none none k n h = absurd cc

spawn_range-names :
    (X : Extern) (task : TaskStmt X) (spawn : SpawnClause X) (span : X.Span) (i count : ℕ)
    → map (λ s. name_of s) (spawn_range task spawn span i count)
      ≡ map (λ n. some n) (names_from X task.name.name i count)
unfolding spawn_range spawned
spawn_range-names X task spawn span i zero = refl
spawn_range-names X task spawn span i (suc count) =
    ap (λ l. some (spawn_name X task.name.name i) ∷ l)
      (spawn_range-names X task spawn span (suc i) count)

in_range-names :
    (X : Extern) (task : TaskStmt X) (spawn : SpawnClause X) (span : X.Span) (b e : Option ℕ)
    → map (λ s. name_of s) (in_range task spawn span b e)
      ≡ map (λ n. some n) (names_in X task.name.name b e)
in_range-names X task spawn span (some begin) (some end) = elim (Bool-cases (ltb begin end)) [
  | inl less ↦ rw less (spawn_range-names X task spawn span begin (end - begin))
  | inr not_less ↦ rw not_less refl
]
in_range-names X task spawn span (some begin) none = refl
in_range-names X task spawn span none (some end) = refl
in_range-names X task spawn span none none = refl

-- Where different numbers are printed differently, the statements that the expansion of a task adds
-- are tasks with names, and no two of them have the same name.
pub expand_one_task-names :
    (X : Extern) (laws : IsExtern X) (task : TaskStmt X) (spawn : SpawnClause X)
    (consts : Map String ℕ) (span : X.Span) (o : Output X)
    → (copies : List (Statement X)) × (names : List String) × ((expand_one_task task spawn consts
          span o).out_stmts
        ≡ o.out_stmts ++ copies)
      × (map (λ s. name_of s) copies ≡ map (λ n. some n) names)
      × ((j k : ℕ) (n : String) → get_elem? names j ≡ some n → get_elem? names k ≡ some n → j ≡ k)
expand_one_task-names X laws task spawn consts span o =
    let b = bound_value spawn.begin consts in
    let e = bound_value spawn.end consts in
    let name = task.name.name in
    (
      in_range task spawn span b e,
      names_in X name b e,
      ap (λ (r : Output X). r.out_stmts) (expand_one_task-eq task spawn consts span o),
      in_range-names X task spawn span b e,
      λ j k n at_j at_k.
          let (i, named) = get_elem?-names_in X name b e j n at_j in
          let same : i + j ≡ i + k =
            spawn_name-injective X laws name (i + j) (i + k)
              (sym (named j n at_j) ∙ named k n at_k) in
          omega arith,
    )
