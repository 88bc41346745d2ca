-- ===== src/Examples/Flows.antt =====
-- Runs of a flow: a trigger, and a node that waits for an approval.
use janus_core.Base.{
  String, List, ℕ, ◌+◌, ◌≡◌, refl, ◌⊎◌, inl, inr, Bool, true, false, Option, none, some, [], ◌∷◌,
  map, number_eq, string_eq, ◌==◌, length, is_blank,
}
use mathlib.Core.Option.{Option-elim}
use janus_core.Workflow.Types.{WorkflowNode, AutomationWorkflow}
use janus_core.Workflow.Execution.{WorkflowExecutionState, create_workflow_execution_state}
use janus_core.Flow.{
  FlowEvent, FlowRun, NodeOutcome, output, throws, ApprovalDecision, approved, skip_passes,
}
use janus_core.Flow.Nodes.{attempts, enough_attempts, execute}
use janus_core.Flow.Approved.{Approved}
use janus_core.Flow.Rounds.{FlowStatus, flow_completed, flow_paused, run_rounds, conclude_run}
use janus_core.Flow.Rounds.Ends.{loops_end}
use janus_core.Flow.Start.{
  final_run, FlowResult, deduplicated, concluded, FlowError, FlowStart, anew, resumed, new_run,
  run_workflow,
}
use janus_core.Flow.Start.Safe.{run_workflow-Approved}
use janus_core.Examples.Workflows.{flow, think}

abbrev handle : FlowRun → WorkflowNode → NodeOutcome
handle f node = output (some node.id) none

abbrev guarded : WorkflowNode → WorkflowNode
guarded node = record node { requires_approval = node.id == "think" }

abbrev gated_flow : AutomationWorkflow
gated_flow = record flow { nodes = map guarded flow.nodes }

abbrev silent : List FlowEvent → FlowEvent → Option String
silent log e = none

abbrev never : ℕ → Bool
never n = false

abbrev blank_run : FlowRun
blank_run = new_run silent (record {
  workflow_id = "";
  workflow_revision = flow.revision;
  run_id = "";
  node_status = [];
  attempts = [];
  completed_outputs = [];
  errors = [];
})

abbrev result_of : FlowError ⊎ FlowResult → FlowResult
result_of (inl e) = deduplicated blank_run
result_of (inr r) = r

abbrev status_of : FlowResult → Option FlowStatus
status_of (deduplicated f) = none
status_of (concluded s f) = some s

abbrev first_result : FlowResult
first_result = result_of (run_workflow gated_flow handle never silent (anew "r1" none true))

abbrev second_start : FlowStart
second_start = resumed (final_run first_result) (("think", approved) ∷ []) (λ s. true)

abbrev second_result : FlowResult
second_result = result_of (run_workflow gated_flow handle never silent second_start)

paused_first : status_of first_result ≡ some flow_paused
unfolding run_workflow janus_core.Workflow.validate_automation_workflow is_blank Option-elim
    janus_core.Workflow.node_errors janus_core.Graph.has_cycle janus_core.Workflow.adjacency
    create_workflow_execution_state conclude_run run_rounds skip_passes
    janus_core.Flow.Rounds.choose_trigger janus_core.Flow.is_ready execute
paused_first = refl

run_workflow-Approved_example :
    Approved (final_run second_result).approvals (final_run second_result)
unfolding run_workflow janus_core.Workflow.validate_automation_workflow is_blank Option-elim
    janus_core.Workflow.node_errors janus_core.Graph.has_cycle janus_core.Workflow.adjacency
    janus_core.Workflow.Execution.matches create_workflow_execution_state conclude_run run_rounds
    skip_passes janus_core.Flow.Rounds.choose_trigger janus_core.Flow.is_ready execute
    janus_core.Flow.Rounds.wake janus_core.Flow.Rounds.merge_approvals
run_workflow-Approved_example =
    run_workflow-Approved gated_flow handle never silent second_start second_result refl

loops_end_example :
    ((skip_passes gated_flow (length gated_flow.nodes + 1) (final_run first_result)).0 ≡ true)
    × ((attempts gated_flow handle
          (enough_attempts gated_flow handle think)
          think
          (final_run first_result)).0
        ≡ true)
    × ((run_rounds gated_flow handle never (length gated_flow.nodes + 1) (final_run first_result)).0
        ≡ true)
loops_end_example = loops_end gated_flow handle never think (final_run first_result)

-- A node with an inherited key for its id runs without a decision.
abbrev inherited_node : WorkflowNode
inherited_node = record think { id = "constructor"; requires_approval = true }

inherited_runs :
    map (λ n. n.id) (execute gated_flow handle inherited_node blank_run).handled
    ≡ "constructor" ∷ []
unfolding execute Option-elim
inherited_runs = refl
