-- ===== src/Workflow/Compiler.antt =====
-- packages/automation/src/compiler.ts: a workflow as a work graph with model and tool steps. The
-- compiler's `modelRequirements` are those of packages/orchestrator/src/model-router.ts.
mod Edges
pub mod Sound
use janus_core.Base.{
  String, Bool, not, ◌&&◌, Option, none, some, List, [], ◌∷◌, ◌++◌, map, if◌then◌else◌, ◌==◌,
  string_eq, number_eq, keep, has,
}
use Prim.Native.String
use janus_core.Base.Number.{Number}
use mathlib.Core.Option
use mathlib.Core.Option.{Option-elim}
use janus_core.WorkGraph.{WorkNode, WorkNodeKind, WorkGraph}
use janus_core.Plan.{PlannedToolStep, PlannedRisk, ResultMode, full, is_write_like}
use janus_core.Workflow.Types.{
  WorkflowNodeKind, logic, transform, ai, verification, WorkflowRisk, no_risk, low, medium, high,
  WorkflowAgentOperation, WorkflowToolOperation, WorkflowNode, WorkflowConnection,
  AutomationWorkflow,
}
use janus_core.Workflow.{
  WorkflowError, validate_automation_workflow, is_error_branch, is_agentic, enabled, enabled_ids,
}

pub record ModelTaskRequirements : Type 0 where
  pub required_capabilities : List String
  pub preferred_capabilities : List String
  pub require_local : Option Bool
  pub prefer_local : Option Bool

pub record CompiledWorkflowNode : Type 0 where
  pub id : String
  pub workflow_node : WorkflowNode
  pub work_node : WorkNode
  pub model_requirements : Option ModelTaskRequirements
  pub tool_step : Option PlannedToolStep

pub record CompiledAutomationWorkflow : Type 0 where
  pub workflow_id : String
  pub revision : Number
  pub work_graph : WorkGraph
  pub nodes : List CompiledWorkflowNode

-- What `compileAutomationWorkflow` throws, or returns.
pub data Compilation : Type 0 where
  rejected : List WorkflowError → Compilation
  crashed : Compilation
  compiled : CompiledAutomationWorkflow → Compilation

abbrev pub map_work_node_kind : WorkflowNodeKind → WorkNodeKind
map_work_node_kind verification = WorkNodeKind.verification
map_work_node_kind ai = WorkNodeKind.analysis
map_work_node_kind logic = WorkNodeKind.analysis
map_work_node_kind transform = WorkNodeKind.analysis
map_work_node_kind _ = WorkNodeKind.tool

abbrev pub planned_risk : WorkflowRisk → PlannedRisk
planned_risk no_risk = PlannedRisk.no_risk
planned_risk low = PlannedRisk.low
planned_risk medium = PlannedRisk.medium
planned_risk high = PlannedRisk.high

unfoldable pub depends_on : AutomationWorkflow → String → List String
depends_on w id =
    keep (λ d. has d (enabled_ids w.nodes))
      (map (λ c. c.from) (keep (λ c. c.to == id && not (is_error_branch c)) w.connections))

-- What the text of a number is: `String(n)`.
module _ (shown : Number → String) where
  abbrev pub execution_text : WorkflowNode → String
  execution_text node = String.◌++◌ "Execute " (
      String.◌++◌ node.type
        (String.◌++◌ "@" (String.◌++◌ (shown node.version) (String.◌++◌ ": " node.label))))

  -- `none`: `node.agentOperation!` is missing, a TypeError.
  unfoldable pub objective : WorkflowNode → Option String
  objective node =
      if is_agentic node.execution_mode
      then Option.map (λ a. a.objective) node.agent_operation
      else some (execution_text node)

  unfoldable pub work_node : AutomationWorkflow → WorkflowNode → String → WorkNode
  unfolding depends_on
  work_node w node objective = record {
    id = node.id;
    label = node.label;
    kind = map_work_node_kind node.kind;
    depends_on = depends_on w node.id;
    objective = objective;
    expected_output =
        String.◌++◌ "Workflow node " (String.◌++◌ node.id " completed with observable output");
  }

  abbrev pub model_requirements : WorkflowNode → Option ModelTaskRequirements
  model_requirements node =
      if is_agentic node.execution_mode
      then some (record {
        required_capabilities = Option-elim node.agent_operation [] (λ a. a.required_capabilities);
        preferred_capabilities =
            Option-elim node.agent_operation [] (λ a. a.preferred_capabilities);
        require_local = Option-elim node.agent_operation none (λ a. a.require_local);
        prefer_local = Option-elim node.agent_operation none (λ a. a.prefer_local);
      })
      else none

  abbrev pub idempotency_key : AutomationWorkflow → WorkflowNode → String
  idempotency_key w node = String.◌++◌ "workflow:" (
      String.◌++◌ w.id
        (String.◌++◌ ":" (String.◌++◌ (shown w.revision) (String.◌++◌ ":node:" node.id))))

  unfoldable pub tool_step :
      AutomationWorkflow → WorkflowNode → WorkflowToolOperation → PlannedToolStep
  tool_step w node operation = record {
    id = node.id;
    label = node.label;
    tool = operation.tool;
    action = operation.action;
    input = node.parameters;
    risk = planned_risk node.risk;
    reversible = node.reversible;
    requires_approval = node.requires_approval;
    idempotency_key =
        if is_write_like operation.action then some (idempotency_key w node) else none;
    result_mode = some full;
  }

  abbrev pub compiled_node : AutomationWorkflow → WorkflowNode → String → CompiledWorkflowNode
  compiled_node w node objective = record {
    id = node.id;
    workflow_node = node;
    work_node = work_node w node objective;
    model_requirements = model_requirements node;
    tool_step = Option.map (tool_step w node) node.tool_operation;
  }

  unfoldable pub compile_node : AutomationWorkflow → WorkflowNode → Option CompiledWorkflowNode
  unfolding work_node tool_step objective
  compile_node w node = Option.map (compiled_node w node) (objective node)

  unfoldable pub compile_nodes :
      AutomationWorkflow → List WorkflowNode → Option (List CompiledWorkflowNode)
  unfolding compile_node
  compile_nodes w [] = some []
  compile_nodes w (node ∷ nodes) = elim (compile_node w node) [
    | none ↦ none
    | some c ↦ Option.map (λ cs. c ∷ cs) (compile_nodes w nodes)
  ]

  abbrev pub assembled : AutomationWorkflow → List CompiledWorkflowNode → CompiledAutomationWorkflow
  assembled w nodes = record {
    workflow_id = w.id;
    revision = w.revision;
    work_graph = record { goal = w.name; nodes = map (λ c. c.work_node) nodes };
    nodes = nodes;
  }

  unfoldable pub compile_automation_workflow : AutomationWorkflow → Compilation
  unfolding compile_nodes
  compile_automation_workflow w = elim (validate_automation_workflow w) [
    | e ∷ es ↦ rejected (e ∷ es)
    | [] ↦
        Option-elim (compile_nodes w (keep enabled w.nodes)) crashed
          (λ nodes. compiled (assembled w nodes))
  ]
