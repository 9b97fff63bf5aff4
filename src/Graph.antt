-- ===== src/Graph.antt =====
-- The dataflow graph, compiler/src/graph.rs: nodes, edges, subgraphs and task graphs.
-- A NodeId, EdgeId or CallId is its number.
use pipeit.Base.{ℕ, List, map, Option, String, Map}
use pipeit.Extern.{Extern}
use pipeit.Ast.{Arg, ShapeConstraint}

abbrev pub NodeId : Type 0
NodeId = ℕ

abbrev pub EdgeId : Type 0
EdgeId = ℕ

module _ (X : Extern) where
  open X use {Span}

  pub data NodeKind : Type 0 where
    actor :
        (name : String) (call_span : Span) (args : List (Arg X))
        (shape_constraint : Option (ShapeConstraint X)) (call_id : ℕ)
        → NodeKind
    fork : (tap_name : String) → NodeKind
    probe : (probe_name : String) → NodeKind
    buffer_read : (buffer_name : String) → NodeKind
    buffer_write : (buffer_name : String) → NodeKind
    gather_read : (family_name : String) (element_count : ℕ) → NodeKind
    scatter_write : (family_name : String) (element_count : ℕ) → NodeKind

  pub record Node : Type 0 where
    pub id : NodeId
    pub kind : NodeKind
    pub span : Span

  pub record Edge : Type 0 where
    pub id : EdgeId
    pub source : NodeId
    pub target : NodeId
    pub span : Span

  pub record Subgraph : Type 0 where
    pub nodes : List Node
    pub edges : List Edge

  pub data TaskGraph : Type 0 where
    pipeline : Subgraph → TaskGraph
    modal : (control : Subgraph) (modes : List (String × Subgraph)) → TaskGraph

  pub record InterTaskEdge : Type 0 where
    pub buffer_name : String
    pub writer_task : String
    pub writer_node : NodeId
    pub reader_task : String
    pub reader_node : NodeId

  pub record ProgramGraph : Type 0 where
    pub tasks : Map String TaskGraph
    pub inter_task_edges : List InterTaskEdge
    pub cycles : List (List NodeId)

module _ {X : Extern} where
  abbrev pub node_ids : Subgraph X → List NodeId
  node_ids sub = map (λ n. n.id) sub.nodes
