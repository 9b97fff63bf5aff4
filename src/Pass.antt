-- ===== src/Pass.antt =====
-- The compiler's passes and their dependencies, compiler/src/pass.rs. The `HashSet` of visited
-- passes is a list; the recursion of `visit` has fuel, and `none` means that it ran out.
pub mod Order
pub mod Tests
use pipeit.Base.{
  ℕ, zero, suc, ◌≡◌, ◌↔◌, Bool, true, Option, none, some, List, [], ◌∷◌, ◌++◌, contains, include,
  eqb, if◌then◌else◌, length, String, arith, PartialEq,
}

pub data PassId : Type 0 where
  resolve build_hir type_infer lower build_graph analyze schedule build_lir codegen : PassId

pub data ArtifactId : Type 0 where
  resolved id_alloc hir typed lowered cert graph analysis schedule lir generated : ArtifactId

pub record PassDescriptor : Type 0 where
  pub name : String
  pub inputs : List PassId
  pub outputs : List ArtifactId
  pub invalidation_key : String
  pub invariants : String

abbrev pub ordinal : PassId → ℕ
ordinal resolve = 0
ordinal build_hir = 1
ordinal type_infer = 2
ordinal lower = 3
ordinal build_graph = 4
ordinal analyze = 5
ordinal PassId.schedule = 6
ordinal build_lir = 7
ordinal codegen = 8

abbrev pub pass_beq : PassId → PassId → Bool
pass_beq a b = eqb (ordinal a) (ordinal b)

pub pass_beq_iff : (a b : PassId) → (pass_beq a b ≡ true) ↔ (a ≡ b)
pass_beq_iff a b = ground arith

instance abbrev pub pass_eq : PartialEq PassId
pass_eq = record { equal = pass_beq; equal_iff = pass_beq_iff }

unfoldable pub descriptor : PassId → PassDescriptor
descriptor resolve = record {
  name = "resolve";
  inputs = [];
  outputs = ArtifactId.resolved ∷ id_alloc ∷ [];
  invalidation_key = "source + registry actors";
  invariants = "all names resolved, call_ids assigned";
}
descriptor build_hir = record {
  name = "build_hir";
  inputs = resolve ∷ [];
  outputs = hir ∷ [];
  invalidation_key = "program + resolved + id_alloc";
  invariants = "defines expanded, all calls have fresh CallIds";
}
descriptor type_infer = record {
  name = "type_infer";
  inputs = build_hir ∷ [];
  outputs = typed ∷ [];
  invalidation_key = "hir + resolved + registry";
  invariants = "all calls monomorphized, widenings identified";
}
descriptor lower = record {
  name = "lower";
  inputs = type_infer ∷ [];
  outputs = lowered ∷ cert ∷ [];
  invalidation_key = "hir + resolved + typed + registry";
  invariants = "L1-L5 obligations verified, concrete_actors populated";
}
descriptor build_graph = record {
  name = "build_graph";
  inputs = build_hir ∷ [];
  outputs = graph ∷ [];
  invalidation_key = "hir + resolved + registry";
  invariants = "SDF graph is acyclic per subgraph";
}
descriptor analyze = record {
  name = "analyze";
  inputs = lower ∷ build_graph ∷ [];
  outputs = analysis ∷ [];
  invalidation_key = "thir_context + graph";
  invariants = "repetition vectors computed, shapes inferred";
}
descriptor PassId.schedule = record {
  name = "schedule";
  inputs = analyze ∷ [];
  outputs = ArtifactId.schedule ∷ [];
  invalidation_key = "thir_context + graph + analysis";
  invariants = "all tasks scheduled, edge buffers sized";
}
descriptor build_lir = record {
  name = "build_lir";
  inputs = PassId.schedule ∷ [];
  outputs = lir ∷ [];
  invalidation_key = "thir_context + graph + analysis + schedule";
  invariants = "all codegen data pre-resolved into LIR";
}
descriptor codegen = record {
  name = "codegen";
  inputs = build_lir ∷ [];
  outputs = generated ∷ [];
  invalidation_key = "graph + schedule + lir + codegen_options";
  invariants = "valid C++ emitted";
}

unfoldable pub all_passes : List PassId
all_passes =
    resolve ∷ build_hir ∷ type_infer ∷ lower ∷ build_graph ∷ analyze ∷ PassId.schedule ∷ build_lir
    ∷ codegen ∷ []

-- The two collections that `visit` changes.
pub record Walk : Type 0 where
  pub visited : List PassId
  pub order : List PassId

-- `for &dep in inputs`
each : (PassId → Walk → Option Walk) → List PassId → Walk → Option Walk
each step [] w = some w
each step (dep ∷ deps) w = elim (step dep w) [ none ↦ none | some w' ↦ each step deps w' ]

unfoldable pub visit : ℕ → PassId → Walk → Option Walk
unfolding descriptor each
visit zero id w = none
visit (suc fuel) id w =
    let deps = each (visit fuel) (descriptor id).inputs (record w { visited = id ∷ w.visited }) in
    if contains w.visited id
    then some w
    else elim deps [ none ↦ none | some w' ↦ some (record w' { order = w'.order ++ id ∷ [] }) ]

-- Nested calls are for different passes, so their number bounds the depth.
unfoldable pub required_passes : PassId → Option (List PassId)
unfolding visit all_passes
required_passes terminal =
    elim (visit (suc (length all_passes)) terminal (record { visited = []; order = [] })) [
      | none ↦ none
      | some w ↦ some w.order
    ]
