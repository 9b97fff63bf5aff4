-- ===== src/Lib.antt =====
-- The Pipit compiler (compiler/src, written in Rust) turns a dataflow program into C++. This library
-- models the parts that carry its core logic: the expansion of spawn clauses, the widening of wire
-- types, the dataflow graph with its index, and the schedule of each task.
--
-- How the parts interact: the parser makes a `Program` (Ast); `expand_spawns` (Spawn) rewrites it;
-- type inference (Widening) inserts conversions between actors (Registry); the graph builder (Builder)
-- makes a `ProgramGraph` (Graph) from the HIR (Hir), whose cycles and edges are read through
-- SubgraphIndex, with the cycles found by Cycles; the analysis gives port rates (Rates) and repetition vectors (Balance); `schedule` (Schedule) sorts each subgraph with Kahn's algorithm
-- (Kahn), sizes its buffers, and `verify_schedule` (Schedule.Cert) checks the result. Pass says in
-- which order the passes run, and Id gives the stable ids.
--
-- Files and sources:
--   Ast            compiler/src/ast.rs, one record or data type for each struct or enum
--   Diag           compiler/src/diag.rs, level, code and span of a diagnostic
--   Graph          compiler/src/graph.rs, the types of the graph
--   Hir            compiler/src/hir.rs, the types that the graph builder reads
--   Builder        compiler/src/graph.rs, `SubgraphCtx` and `GraphBuilder`; `build_body` is
--                  `build_task`, `resolve_pending` is `resolve_pending_tap_inputs`
--   Linking        compiler/src/graph.rs, `link_inter_task_edges` and the search for buffer nodes;
--                  `find_buffer_node` is `find_buffer_write_node` and `find_buffer_read_node`
--   SubgraphIndex  compiler/src/subgraph_index.rs, `SubgraphIndex::build`, the queries of
--                  `GraphQueryCtx` (`query_incoming` is its `first_incoming_edge`), and
--                  `identify_back_edges`
--   Rates          Rates/Dims: compiler/src/thir.rs, `resolve_port_rate`, `resolve_port_shape` and what
--                  they call (`Thir` holds the constants and actors that are read); Rates:
--                  compiler/src/analyze.rs, the rates of a node and their cache; `rate_of_kind` and
--                  `in_rate_of_kind` are the matches of `production_rate` and `consumption_rate`
--   Balance        compiler/src/analyze.rs, `solve_balance_equations` and what it calls: Gcd and
--                  Normalize for the functions on numbers, Search for `solve_balance_ratios`,
--                  Equations for the rates of the edges, the check and the record of the vector;
--                  the rates of a node are parameters there, and Program solves
--                  all subgraphs with the cached ones
--   Cycles         compiler/src/graph.rs, `detect_all_cycles`, `detect_cycles_in_subgraph` and
--                  `dfs_cycle`; `meet` is the match on the state of a neighbor
--   Adjacent       compiler/src/graph.rs, `adjacent_actor_call_id`; `leads` in its proofs is an edge in
--                  the direction of the search
--   Feedback       compiler/src/analyze.rs, `check_feedback_delays`, with `build_global_node_index` of
--                  compiler/src/subgraph_index.rs
--   Outcome        a computation that returns, panics, or runs out of fuel
--   Kahn           compiler/src/schedule.rs, the loops of `ScheduleCtx::sort_subgraph`
--   Schedule       compiler/src/schedule.rs, the rest of `ScheduleCtx`; `edge_buffers` is the loop
--                  of `compute_edge_buffers`, `record_task` the end of `schedule_task`
--   Schedule/Cert  compiler/src/schedule.rs, `verify_schedule`
--   Spawn          compiler/src/spawn.rs, `Spawn/Subst` the substitutions, `Spawn/Expand` the rest
--   Registry       compiler/src/registry.rs, the metadata of an actor
--   Widening       compiler/src/type_infer.rs, `can_widen`, `common_widening_type`,
--                  `check_pipe_widening`, `monomorphize_actor`
--   Id, Pass       compiler/src/id.rs, compiler/src/pass.rs
--   Base           shared names, Boolean tests, lists, counting, maps and machine words
--   Extern         doubles, spans and number printing, with the documented facts that are used
--
-- State and numbers: a `&mut self` is passed along as a record (`State`, `Kahn`, `Output`, `Walk`); a
-- HashMap is an association list with at most one entry for a key, since the code reads it in no
-- order that shows; a u32 wraps at 2^32, as in a release build, and a usize that counts the items of
-- a Vec is a plain number. A NodeId, EdgeId or CallId is its number.
--
-- Fuel: the loop of the sort is given one round for each key of the in-degree map (`rounds`), which
-- is enough as every node is queued at most once; `visit` is given one level more than there are
-- passes, as nested calls are for different passes; the search for ratios is given one round for each
-- node of the subgraph, as a node is queued once at most; Euclid's algorithm is given one round more
-- than its second argument, which falls in each round; calls of `dfs_cycle` nest no deeper than there are nodes and edges, as
-- each is for a node that was unvisited; the search for the adjacent actor is given one round more
-- than there are edges, as a node is queued once, for an edge that leads to it.
--
-- Not modelled: the lexer and the parser (combinators of logos and chumsky), the scan of C++ headers,
-- name resolution, the construction of HIR and THIR, the inference engine of type_infer.rs, the rest
-- of the analysis, lowering, LIR, code generation and printing; the texts and spans of messages beyond the code and
-- one span; the C++ runtime and the tools.
pub mod Base
pub mod Extern
pub mod Ast
pub mod Diag
pub mod Graph
pub mod Hir
pub mod Builder
pub mod Linking
pub mod SubgraphIndex
pub mod Outcome
pub mod Rates
pub mod Balance
pub mod Cycles
pub mod Feedback
pub mod Adjacent
pub mod Kahn
pub mod Schedule
pub mod Id
pub mod Pass
pub mod Spawn
pub mod Registry
pub mod Widening
