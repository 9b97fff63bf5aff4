-- ===== src/Spawn/Tests.antt =====
-- Runs of compiler/src/spawn.rs on a task that is spawned three times.
use pipeit.Base.{
  map, String, ℕ, ◌+◌, ◌-◌, ◌<◌, ◌≡◌, refl, true, false, none, some, List, [], ◌∷◌, ◌++◌, Map,
  length, get_elem?, arith, String, string_eq,
}
use pipeit.Extern.Sample.{whole, whole-IsExtern}
use pipeit.Ast.{
  Ident, Scalar, Value, Arg, BufferIndex, PipeSource, TaskBody, SpawnBound, SpawnClause, TaskStmt,
  Statement, StatementKind, Program,
}
use pipeit.Spawn.Subst.{substitute_task_body}
use pipeit.Spawn.Free.{in_body, substitute-gone}
use pipeit.Spawn.Same.{substitute-same}
use pipeit.Spawn.Expand.{Output, spawned, expand_kind, expand_one_task, expand_spawns}
use pipeit.Spawn.Expand.Plain.{ArePlain, expand_spawns-ArePlain}
use pipeit.Spawn.Expand.Copies.{expand_one_task-range}
use pipeit.Spawn.Expand.Names.{name_of, expand_one_task-names}

abbrev ident : String → Ident whole
ident name = record { name = name; span = tt }

-- `gain($ch) -> out[ch]`
abbrev body : TaskBody whole
body = TaskBody.pipeline (record {
  lines =
      (record {
        source = PipeSource.actor_call (record {
          name = ident "gain";
          type_args = [];
          args = Arg.param_ref (ident "ch") ∷ Arg.const_ref (ident "ch") ∷ [];
          shape_constraint = none;
          span = tt;
        });
        elements = [];
        sink = some (record {
          buffer = record { name = ident "out"; index = BufferIndex.ident (ident "ch") };
          span = tt;
        });
        span = tt;
      })
      ∷ [];
  span = tt;
})

abbrev clause : SpawnBound whole → SpawnBound whole → SpawnClause whole
clause from to = record { index_var = ident "ch"; begin = from; end = to; span = tt }

abbrev three : SpawnClause whole
three = clause (SpawnBound.literal 1 tt) (SpawnBound.const_ref (ident "n"))

abbrev backwards : SpawnClause whole
backwards = clause (SpawnBound.const_ref (ident "n")) (SpawnBound.literal 1 tt)

abbrev task : SpawnClause whole → TaskStmt whole
task spawn = record { freq = 10; freq_span = tt; name = ident "w"; spawn = some spawn; body = body }

abbrev consts : Map String ℕ
consts = ("n", 4) ∷ []

abbrev out : Output whole
out = record { out_stmts = []; diags = [] }

abbrev program : Program whole
program = record {
  statements =
      (record {
        kind =
            StatementKind.const
              (record { name = ident "n"; value = Value.scalar (Scalar.number 4 tt true) });
        span = tt;
      })
      ∷ (record { kind = StatementKind.task (task three); span = tt })
      ∷ [];
  span = tt;
}

program_length : length (expand_spawns program).program.statements ≡ 4
unfolding expand_spawns expand_kind expand_one_task
program_length = refl

expand_spawns-ArePlain_example : ArePlain (expand_spawns program).program.statements
expand_spawns-ArePlain_example = expand_spawns-ArePlain program

expand_one_task-range_example :
    (copies : List (Statement whole)) × (expand_one_task (task three) three consts tt out
      ≡ record out { out_stmts = out.out_stmts ++ copies })
    × (length copies ≡ 4 - 1)
    × ((k : ℕ) → k < 4 - 1 → get_elem? copies k ≡ some (spawned (task three) three tt (1 + k)))
expand_one_task-range_example =
    expand_one_task-range (task three) three consts tt out 1 4 refl refl (omega arith)

expand_one_task-names_example :
    (copies : List (Statement whole)) × (names : List String) × ((expand_one_task
        (task three)
        three
        consts
        tt
        out).out_stmts
      ≡ out.out_stmts ++ copies)
    × (map (λ s. name_of s) copies ≡ map (λ n. some n) names)
    × ((j k : ℕ) (n : String) → get_elem? names j ≡ some n → get_elem? names k ≡ some n → j ≡ k)
expand_one_task-names_example =
    expand_one_task-names whole whole-IsExtern (task three) three consts tt out

substitute-gone_example : in_body "ch" (substitute_task_body "ch" 2 body) ≡ false
substitute-gone_example = substitute-gone "ch" 2 body

other_free : in_body "other" body ≡ false
other_free = refl

substitute-same_example : substitute_task_body "other" 2 body ≡ body
substitute-same_example = substitute-same "other" 2 body other_free
