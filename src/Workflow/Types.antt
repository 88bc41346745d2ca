-- ===== src/Workflow/Types.antt =====
-- The types of packages/automation/src/workflow.ts. Values that are only carried stand as their JSON
-- texts; an optional flag or list that is read as `false` or empty when missing is one that is there.
use janus_core.Base.{ℕ, String, Bool, Option, List}
use janus_core.Base.Number.{Number}

pub data WorkflowStatus : Type 0 where
  draft published historical : WorkflowStatus

pub data WorkflowNodeKind : Type 0 where
  trigger action logic transform code ai subflow wait approval verification : WorkflowNodeKind

pub data WorkflowExecutionMode : Type 0 where
  deterministic agentic : WorkflowExecutionMode

pub data WorkflowRisk : Type 0 where
  no_risk low medium high : WorkflowRisk

pub data WorkflowErrorPolicy : Type 0 where
  fail continue error_branch : WorkflowErrorPolicy

pub record WorkflowRetryPolicy : Type 0 where
  pub max_attempts : Number
  pub backoff_ms : Number
  pub max_backoff_ms : Option Number

pub record WorkflowToolOperation : Type 0 where
  pub tool : String
  pub action : String

pub record WorkflowAgentOperation : Type 0 where
  pub objective : String
  pub required_capabilities : List String
  pub preferred_capabilities : List String
  pub require_local : Option Bool
  pub prefer_local : Option Bool

pub record WorkflowNode : Type 0 where
  pub id : String
  pub type : String
  pub version : Number
  pub label : String
  pub kind : WorkflowNodeKind
  pub execution_mode : WorkflowExecutionMode
  pub parameters : List (String × String)
  pub tool_operation : Option WorkflowToolOperation
  pub agent_operation : Option WorkflowAgentOperation
  pub credential_refs : List String
  pub risk : WorkflowRisk
  pub reversible : Bool
  pub requires_approval : Bool
  pub timeout_ms : Option Number
  pub retry : Option WorkflowRetryPolicy
  pub on_error : Option WorkflowErrorPolicy
  pub disabled : Bool

pub record WorkflowConnection : Type 0 where
  pub from : String
  pub to : String
  pub output : Option String
  pub input : Option String
  pub branch : Option String

pub record AutomationWorkflow : Type 0 where
  pub schema_version : ℕ
  pub id : String
  pub name : String
  pub revision : Number
  pub status : WorkflowStatus
  pub nodes : List WorkflowNode
  pub connections : List WorkflowConnection
  pub max_concurrency : Number
  pub execution_timeout_ms : Option Number
  pub tags : List String
  pub created_at : String
  pub supersedes_revision : Option Number
