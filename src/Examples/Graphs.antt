-- ===== src/Examples/Graphs.antt =====
-- Work graphs: a diamond of four tasks, and a graph with a cycle.
use janus_core.Base.{
  String, ◌≡◌, refl, ◌↔◌, inl, inr, true, List, [], ◌∷◌, if◌then◌else◌, Bool-cases, ◌==◌, string_eq,
  number_eq, length, All, has, is_blank,
}
use janus_core.Graph.{has_cycle as search_cycle}
use janus_core.Graph.Cycles.{Cycle, has_cycle_iff}
use janus_core.WorkGraph.{
  WorkNode, analysis, WorkGraph, validate_work_graph, ready_work_nodes, ready, dependency_cycle,
}
use janus_core.WorkGraph.Validity.{IsWellFormed, validate_work_graph_iff}
use janus_core.WorkGraph.Progress.{ready_work_nodes_progress}
use janus_core.WorkGraph.Rounds.{rounds, rounds_complete}

abbrev node : String → List String → WorkNode
node id deps = record {
  id = id;
  label = id;
  kind = analysis;
  depends_on = deps;
  objective = "do";
  expected_output = "done";
}

abbrev diamond : WorkGraph
diamond = record {
  goal = "ship";
  nodes = node "d" ("b" ∷ "c" ∷ []) ∷ node "b" ("a" ∷ []) ∷ node "c" ("a" ∷ []) ∷ node "a" [] ∷ [];
}

abbrev loop : WorkGraph
loop = record { goal = "never"; nodes = node "a" ("b" ∷ []) ∷ node "b" ("a" ∷ []) ∷ [] }

diamond_valid : validate_work_graph diamond ≡ []
unfolding validate_work_graph search_cycle is_blank
diamond_valid = refl

loop_errors : validate_work_graph loop ≡ dependency_cycle ∷ []
unfolding validate_work_graph search_cycle is_blank
loop_errors = refl

abbrev follow : String → List String
follow id = if id == "a" then "b" ∷ [] else "a" ∷ []

follow_known : (u : String) → All (λ d. has d ("a" ∷ "b" ∷ []) ≡ true) (follow u)
follow_known u = elim (Bool-cases (u == "a")) [
  | inl same ↦ rw same (refl, tt)
  | inr other ↦ rw other (refl, tt)
]

has_cycle_iff_example :
    (search_cycle follow ("a" ∷ "b" ∷ []) ≡ true) ↔ Cycle follow ("a" ∷ "b" ∷ [])
has_cycle_iff_example = has_cycle_iff follow ("a" ∷ "b" ∷ []) follow_known

validate_work_graph_iff_example : (validate_work_graph diamond ≡ []) ↔ IsWellFormed diamond
validate_work_graph_iff_example = validate_work_graph_iff diamond

ready_work_nodes_progress_example :
    (n : WorkNode) × (rest : List WorkNode) × (ready_work_nodes diamond ("a" ∷ "b" ∷ [])
      ≡ ready (n ∷ rest))
ready_work_nodes_progress_example =
    ready_work_nodes_progress diamond ("a" ∷ "b" ∷ []) diamond_valid refl

rounds_complete_example :
    All (λ n. has n.id (rounds (length diamond.nodes) diamond []) ≡ true) diamond.nodes
rounds_complete_example = rounds_complete diamond [] diamond_valid
