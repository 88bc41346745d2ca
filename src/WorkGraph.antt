-- ===== src/WorkGraph.antt =====
-- packages/orchestrator/src/work-graph.ts: the dependency graph of a complex task. A message pushed
-- onto `errors` is a constructor that carries what the message interpolates.
pub mod Validity
pub mod Progress
pub mod Rounds
use janus_core.Base.{
  String, Bool, not, ◌&&◌, Option, none, some, List, [], ◌∷◌, ◌++◌, map, if◌then◌else◌, ◌==◌,
  string_eq, number_eq, all, keep, has, is_blank, when, each,
}
use janus_core.Graph.{has_cycle as search_cycle}

pub data WorkNodeKind : Type 0 where
  research analysis coding agentic_workflow tool synthesis verification : WorkNodeKind

pub record WorkNode : Type 0 where
  pub id : String
  pub label : String
  pub kind : WorkNodeKind
  pub depends_on : List String
  pub objective : String
  pub expected_output : String

pub record WorkGraph : Type 0 where
  pub goal : String
  pub nodes : List WorkNode

pub data WorkGraphError : Type 0 where
  id_required : WorkGraphError
  duplicate_id missing_objective missing_output : String → WorkGraphError
  unknown_dependency : String → String → WorkGraphError
  self_dependency : String → WorkGraphError
  dependency_cycle : WorkGraphError

abbrev pub node_ids : List WorkNode → List String
node_ids nodes = map (λ n. n.id) nodes

-- The body of the first loop, with the ids of the nodes before.
unfoldable pub node_errors : List String → WorkNode → List WorkGraphError
node_errors ids node =
    when (is_blank node.id) id_required
    ++ (when (has node.id ids) (duplicate_id node.id)
        ++ (when (is_blank node.objective) (missing_objective node.id)
            ++ when (is_blank node.expected_output) (missing_output node.id)))

unfoldable pub check_nodes : List String → List WorkNode → List WorkGraphError
check_nodes ids [] = []
check_nodes ids (node ∷ nodes) = node_errors ids node ++ check_nodes (node.id ∷ ids) nodes

-- The body of the second loop.
unfoldable pub dependency_errors : List String → WorkNode → List WorkGraphError
dependency_errors ids node =
    each
      (λ d.
        when (not (has d ids)) (unknown_dependency node.id d)
        ++ when (d == node.id) (self_dependency node.id))
      node.depends_on

-- `new Map(nodes.map(…)).get(id)`: of two nodes with one id the later stays.
unfoldable pub find_node : String → List WorkNode → Option WorkNode
find_node id [] = none
find_node id (node ∷ nodes) = elim (find_node id nodes) [
  | some later ↦ some later
  | none ↦ if id == node.id then some node else none
]

abbrev pub dependencies : Option WorkNode → List String
dependencies none = []
dependencies (some node) = node.depends_on

-- The dependencies that `visit` follows.
unfoldable pub successors : List WorkNode → String → List String
successors nodes id = keep (λ d. has d (node_ids nodes)) (dependencies (find_node id nodes))

unfoldable pub has_cycle : List WorkNode → Bool
has_cycle nodes = search_cycle (successors nodes) (node_ids nodes)

unfoldable pub validate_work_graph : WorkGraph → List WorkGraphError
unfolding node_errors check_nodes dependency_errors has_cycle successors find_node
validate_work_graph graph =
    check_nodes [] graph.nodes
    ++ (each (dependency_errors (node_ids graph.nodes)) graph.nodes
        ++ when (has_cycle graph.nodes) dependency_cycle)

-- `throw` with the errors, or the nodes that may run.
pub data Readiness : Type 0 where
  invalid : List WorkGraphError → Readiness
  ready : List WorkNode → Readiness

abbrev pub is_ready : List String → WorkNode → Bool
is_ready completed node = not (has node.id completed) && all (λ d. has d completed) node.depends_on

unfoldable pub ready_work_nodes : WorkGraph → List String → Readiness
ready_work_nodes graph completed = elim (validate_work_graph graph) [
  | [] ↦ ready (keep (is_ready completed) graph.nodes)
  | e ∷ es ↦ invalid (e ∷ es)
]
