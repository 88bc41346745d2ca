-- ===== src/Workflow/Execution.antt =====
-- packages/automation/src/execution.ts: which nodes of a workflow may run, and when one is retried.
-- Outputs and errors that are only carried stand as texts.
pub mod Batch
use janus_core.Base.{
  ℕ, suc, ◌+◌, ◌-◌, ◌*◌, ◌^◌, max, String, Bool, true, false, not, ◌&&◌, Option, none, some, List,
  [], map, if◌then◌else◌, ◌==◌, string_eq, number_eq, length, take, all, keep, is_blank, get,
  from_entries,
}
use janus_core.Base.Number.{Number, whole, less, floor, times}
use mathlib.Core.Option.{Option-elim}
use janus_core.Workflow.Types.{
  WorkflowRetryPolicy, WorkflowNode, WorkflowConnection, AutomationWorkflow,
}
use janus_core.Workflow.{workflow_upstream_node_ids}

pub data WorkflowNodeExecutionStatus : Type 0 where
  pending ready running waiting waiting_approval completed failed skipped cancelled :
      WorkflowNodeExecutionStatus

pub record WorkflowExecutionState : Type 0 where
  pub workflow_id : String
  pub workflow_revision : Number
  pub run_id : String
  pub node_status : List (String × WorkflowNodeExecutionStatus)
  pub attempts : List (String × ℕ)
  pub completed_outputs : List (String × String)
  pub errors : List (String × String)

abbrev pub first_status : WorkflowNode → WorkflowNodeExecutionStatus
first_status node = if node.disabled then skipped else pending

unfoldable pub create_workflow_execution_state :
    AutomationWorkflow → String → Option WorkflowExecutionState
create_workflow_execution_state w run_id =
    if is_blank run_id
    then none
    else some (record {
      workflow_id = w.id;
      workflow_revision = w.revision;
      run_id = run_id;
      node_status = from_entries (map (λ n. (n.id, first_status n)) w.nodes) [];
      attempts = from_entries (map (λ n. (n.id, 0)) w.nodes) [];
      completed_outputs = [];
      errors = [];
    })

-- `assertMatchesWorkflow`
unfoldable pub matches : AutomationWorkflow → WorkflowExecutionState → Bool
matches w s =
    w.id == s.workflow_id
    && (not (less w.revision s.workflow_revision) && not (less s.workflow_revision w.revision))

abbrev pub is_completed : Option WorkflowNodeExecutionStatus → Bool
is_completed (some completed) = true
is_completed _ = false

abbrev pub is_skipped : Option WorkflowNodeExecutionStatus → Bool
is_skipped (some skipped) = true
is_skipped _ = false

abbrev pub is_running : WorkflowNodeExecutionStatus → Bool
is_running running = true
is_running _ = false

-- The statuses that the two lines of `continue` let pass.
abbrev pub is_startable : Option WorkflowNodeExecutionStatus → Bool
is_startable none = true
is_startable (some pending) = true
is_startable (some ready) = true
is_startable _ = false

unfoldable pub is_ready : AutomationWorkflow → WorkflowExecutionState → WorkflowNode → Bool
is_ready w s node =
    not node.disabled
    && (is_startable (get node.id s.node_status)
        && all (λ id. is_completed (get id s.node_status))
            (keep (λ id. not (is_skipped (get id s.node_status)))
              (workflow_upstream_node_ids w node.id)))

-- `none` is the error of `assertMatchesWorkflow`.
unfoldable pub ready_workflow_nodes :
    AutomationWorkflow → WorkflowExecutionState → Option (List WorkflowNode)
unfolding is_ready matches
ready_workflow_nodes w s = if matches w s then some (keep (is_ready w s) w.nodes) else none

abbrev pub running_count : WorkflowExecutionState → ℕ
running_count s = length (keep (λ e. is_running e.1) s.node_status)

-- `Math.max(0, workflow.maxConcurrency - running)`, cut to an integer as `slice` does.
abbrev pub capacity : Number → ℕ → ℕ
capacity limit busy = floor (record limit { below = limit.below + busy * suc limit.parts })

unfoldable pub next_workflow_batch :
    AutomationWorkflow → WorkflowExecutionState → Option (List WorkflowNode)
unfolding ready_workflow_nodes
next_workflow_batch w s = elim (ready_workflow_nodes w s) [
  | none ↦ none
  | some nodes ↦ some (take (capacity w.max_concurrency (running_count s)) nodes)
]

unfoldable pub can_retry_workflow_node : WorkflowNode → WorkflowExecutionState → Bool
can_retry_workflow_node node s =
    less (whole (Option-elim (get node.id s.attempts) 0 (λ n. n)))
      (Option-elim node.retry (whole 1) (λ r. r.max_attempts))

-- `Math.min`
abbrev pub smaller : Number → Number → Number
smaller a b = if less b a then b else a

abbrev pub retry_delay : WorkflowRetryPolicy → ℕ → Number
retry_delay retry attempts =
    let delay = times retry.backoff_ms (2 ^ (max 1 attempts - 1)) in
    smaller delay (Option-elim retry.max_backoff_ms delay (λ m. m))

unfoldable pub next_retry_delay_ms : WorkflowNode → WorkflowExecutionState → Number
next_retry_delay_ms node s =
    Option-elim node.retry (whole 0)
      (λ retry. retry_delay retry (Option-elim (get node.id s.attempts) 1 (λ n. n)))
