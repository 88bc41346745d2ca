-- ===== src/Examples/Workflows.antt =====
-- Plans and workflows.
use janus_core.Base.{
  ◌-◌, ◌≤◌, ◌<◌, ◌≡◌, refl, ◌↔◌, true, false, none, some, [], ◌∷◌, length, All, is_blank,
  names_word,
}
use janus_core.Base.Number.{whole}
use janus_core.Plan.{
  PlannedToolStep, JanusPlan, PlanValidationOptions, PlannedRisk, PlanSource, validate_plan,
}
use janus_core.Plan.Guard.{enforce_sensitive_action_policy}
use janus_core.Plan.Policy.{IsSensitive, IsGuarded, enforce-IsGuarded}
use janus_core.Plan.Validity.{enforce-validates}
use janus_core.Graph.{has_cycle as search_cycle}
use janus_core.WorkGraph.{validate_work_graph}
use janus_core.Workflow.Types.{
  WorkflowStatus, trigger, ai, deterministic, agentic, low, WorkflowNode, AutomationWorkflow,
  WorkflowRetryPolicy,
}
use janus_core.Workflow.{
  validate_automation_workflow, looks_like_secret, has_cycle, adjacency, workflow_upstream_node_ids,
}
use janus_core.Workflow.Validity.{IsSound, validate_automation_workflow-IsSound}
use janus_core.Workflow.Compiler.{CompiledAutomationWorkflow, compiled, compile_automation_workflow}
use janus_core.Workflow.Compiler.Sound.{compile-validates}
use janus_core.Workflow.Execution.{
  WorkflowExecutionState, pending, completed, matches, running_count, next_workflow_batch,
  can_retry_workflow_node, next_retry_delay_ms,
}
use janus_core.Workflow.Execution.Batch.{
  CanStart, next_workflow_batch-CanStart, next_retry-bounds, capped, doubled, WithinCap,
}

abbrev publish : PlannedToolStep
publish = record {
  id = "s1";
  label = "Publish";
  tool = "github";
  action = "file.publish";
  input = [];
  risk = PlannedRisk.low;
  reversible = true;
  requires_approval = false;
  idempotency_key = some "k1";
  result_mode = none;
}

abbrev plan : JanusPlan
plan = record {
  version = 1;
  goal = "ship";
  steps = publish ∷ [];
  source = PlanSource.model;
  created_at = "now";
}

abbrev any_tool : PlanValidationOptions
any_tool = record { max_steps = none; allowed_tools = none; allowed_actions = none }

enforce-IsGuarded_example :
    All (λ s. IsSensitive s → IsGuarded s) (enforce_sensitive_action_policy plan).0.steps
enforce-IsGuarded_example = enforce-IsGuarded plan

enforce-validates_example : validate_plan (enforce_sensitive_action_policy plan).0 any_tool ≡ []
unfolding validate_plan is_blank mathlib.Core.Option.Option-elim names_word
enforce-validates_example = enforce-validates plan any_tool refl

abbrev hook : WorkflowNode
hook = record {
  id = "hook";
  type = "webhook";
  version = whole 1;
  label = "Hook";
  kind = trigger;
  execution_mode = deterministic;
  parameters = [];
  tool_operation = some (record { tool = "http"; action = "request.read" });
  agent_operation = none;
  credential_refs = [];
  risk = low;
  reversible = true;
  requires_approval = false;
  timeout_ms = none;
  retry = none;
  on_error = none;
  disabled = false;
}

abbrev policy : WorkflowRetryPolicy
policy = record {
  max_attempts = whole 3;
  backoff_ms = whole 100;
  max_backoff_ms = some (whole 150);
}

abbrev pub think : WorkflowNode
think = record hook {
  id = "think";
  label = "Think";
  kind = ai;
  execution_mode = agentic;
  tool_operation = none;
  agent_operation = some (record {
    objective = "sum up";
    required_capabilities = [];
    preferred_capabilities = [];
    require_local = none;
    prefer_local = none;
  });
  retry = some policy;
}

abbrev pub flow : AutomationWorkflow
flow = record {
  schema_version = 1;
  id = "w1";
  name = "Sum up";
  revision = whole 1;
  status = WorkflowStatus.draft;
  nodes = hook ∷ think ∷ [];
  connections =
      record { from = "hook"; to = "think"; output = none; input = none; branch = none } ∷ [];
  max_concurrency = whole 2;
  execution_timeout_ms = none;
  tags = [];
  created_at = "now";
  supersedes_revision = none;
}

flow_valid : validate_automation_workflow flow ≡ []
unfolding validate_automation_workflow is_blank mathlib.Core.Option.Option-elim
    janus_core.Workflow.node_errors search_cycle adjacency
flow_valid = refl

validate_automation_workflow-IsSound_example : IsSound flow
validate_automation_workflow-IsSound_example = validate_automation_workflow-IsSound flow flow_valid

compile-validates_example :
    (c : CompiledAutomationWorkflow) × (compile_automation_workflow (λ n. "1") flow ≡ compiled c)
    × (validate_work_graph c.work_graph ≡ [])
compile-validates_example = compile-validates (λ n. "1") flow flow_valid

abbrev state : WorkflowExecutionState
state = record {
  workflow_id = "w1";
  workflow_revision = whole 1;
  run_id = "r1";
  node_status = ("hook", completed) ∷ ("think", pending) ∷ [];
  attempts = ("hook", 1) ∷ ("think", 2) ∷ [];
  completed_outputs = [];
  errors = [];
}

next_workflow_batch-CanStart_example :
    (matches flow state ≡ true)
    × (length (think ∷ []) ≤ 2 - running_count state)
    × All (CanStart flow state) (think ∷ [])
unfolding next_workflow_batch workflow_upstream_node_ids mathlib.Core.Option.Option-elim
next_workflow_batch-CanStart_example =
    next_workflow_batch-CanStart flow state 2 (think ∷ []) refl refl

next_retry-bounds_example :
    ((can_retry_workflow_node think state ≡ true) ↔ (2 < 3))
    × (next_retry_delay_ms think state ≡ capped policy.max_backoff_ms (doubled policy.backoff_ms 1))
    × WithinCap policy.max_backoff_ms (next_retry_delay_ms think state)
next_retry-bounds_example = next_retry-bounds think state policy 2 3 refl refl refl
