-- ===== src/Workflow.antt =====
-- packages/automation/src/workflow.ts: automation workflows and their validator. A message pushed
-- onto `errors` is a constructor that carries what the message interpolates. Numbers that the
-- validator tests are fractions, so that it can meet one that is not an integer.
pub mod Types
pub mod Compiler
pub mod Execution
pub mod Validity
use janus_core.Base.{
  ℕ, String, ◌⊎◌, inl, inr, Bool, true, false, not, ◌&&◌, ◌||◌, Option, none, some, List, [], ◌∷◌,
  ◌++◌, map, starts_with, leb, nat_eq, if◌then◌else◌, ◌==◌, string_eq, number_eq, drop, is_empty,
  any, keep, has, is_blank, codes, when, each,
}
use janus_core.Base.Number.{Number, whole, less, is_integer}
use mathlib.Core.Option.{Option-elim}
use janus_core.Graph.{has_cycle as search_cycle}
use janus_core.Workflow.Types.{
  WorkflowStatus, WorkflowNodeKind, trigger, action, subflow, WorkflowExecutionMode, deterministic,
  agentic, WorkflowRisk, high, WorkflowRetryPolicy, WorkflowNode, WorkflowConnection,
  AutomationWorkflow,
}

pub data WorkflowError : Type 0 where
  unsupported_schema : ℕ → WorkflowError
  id_required name_required bad_revision bad_concurrency no_nodes bad_supersession : WorkflowError
  node_id_required no_trigger graph_cycle : WorkflowError
  duplicate_node missing_type missing_label bad_version bad_timeout bad_attempts :
      String → WorkflowError
  negative_backoff small_max_backoff approval_required operation_required : String → WorkflowError
  unexpected_agent_operation objective_required unexpected_tool_operation : String → WorkflowError
  empty_credential secret_credential unknown_source unknown_target self_connection :
      String → WorkflowError

-- `!Number.isInteger(n) || n < 1`
abbrev pub not_positive_integer : Number → Bool
not_positive_integer n = not (is_integer n) || less n (whole 1)

is_token : ℕ → Bool
is_token c =
    (leb b'A' c && leb c b'Z')
    || (leb b'a' c && leb c b'z')
    || (leb b'0' c && leb c b'9')
    || nat_eq c b'_'
    || nat_eq c b'-'

-- `[A-Za-z0-9_-]*\.` at the start
dotted : List ℕ → Bool
dotted [] = false
dotted (c ∷ cs) = nat_eq c b'.' || (is_token c && dotted cs)

-- `looksLikeSecret`
unfoldable pub looks_like_secret : String → Bool
unfolding is_token dotted
looks_like_secret s =
    any (λ p. starts_with s p)
      ("sk-" ∷ "ghp_" ∷ "xoxb-" ∷ "xoxa-" ∷ "xoxp-" ∷ "xoxr-" ∷ "xoxs-" ∷ "AKIA" ∷ "AIza" ∷ [])
    || (starts_with s "eyJ" && dotted (drop 3 (codes s)))

abbrev pub is_agentic : WorkflowExecutionMode → Bool
is_agentic agentic = true
is_agentic deterministic = false

abbrev pub is_trigger : WorkflowNodeKind → Bool
is_trigger trigger = true
is_trigger _ = false

abbrev pub is_action : WorkflowNodeKind → Bool
is_action action = true
is_action _ = false

abbrev pub needs_operation : WorkflowNodeKind → Bool
needs_operation action = true
needs_operation trigger = true
needs_operation subflow = true
needs_operation _ = false

abbrev pub is_high : WorkflowRisk → Bool
is_high high = true
is_high _ = false

abbrev pub is_none {ℓ} : {A : Type ℓ} → Option A → Bool
is_none none = true
is_none (some a) = false

unfoldable pub retry_errors : String → Option WorkflowRetryPolicy → List WorkflowError
retry_errors id none = []
retry_errors id (some retry) =
    when (not_positive_integer retry.max_attempts) (bad_attempts id)
    ++ (when (less retry.backoff_ms (whole 0)) (negative_backoff id)
        ++ when (Option-elim retry.max_backoff_ms false (λ m. less m retry.backoff_ms))
            (small_max_backoff id))

unfoldable pub mode_errors : WorkflowNode → List WorkflowError
mode_errors node =
    if is_agentic node.execution_mode
    then when (Option-elim node.agent_operation true (λ a. is_blank a.objective))
        (objective_required node.id)
      ++ when (not (is_none node.tool_operation) && not (is_action node.kind))
          (unexpected_tool_operation node.id)
    else when (needs_operation node.kind && is_none node.tool_operation)
        (operation_required node.id)
      ++ when (not (is_none node.agent_operation)) (unexpected_agent_operation node.id)

unfoldable pub credential_errors : String → List String → List WorkflowError
credential_errors id refs =
    each
      (λ ref.
        when (is_blank ref) (empty_credential id)
        ++ when (looks_like_secret ref) (secret_credential id))
      refs

-- The body of the first loop, with the ids of the nodes before.
unfoldable pub node_errors : List String → WorkflowNode → List WorkflowError
unfolding retry_errors mode_errors credential_errors
node_errors ids node =
    when (is_blank node.id) node_id_required
    ++ (when (has node.id ids) (duplicate_node node.id)
        ++ (when (is_blank node.type) (missing_type node.id)
            ++ (when (is_blank node.label) (missing_label node.id)
                ++ (when (not_positive_integer node.version) (bad_version node.id)
                    ++ (when (not (less (whole 0) (Option-elim node.timeout_ms (whole 1) (λ t. t))))
                          (bad_timeout node.id)
                        ++ (retry_errors node.id node.retry
                            ++ (when
                                  ((is_high node.risk || not node.reversible)
                                    && not node.requires_approval)
                                  (approval_required node.id)
                                ++ (mode_errors node
                                    ++ credential_errors node.id node.credential_refs))))))))

unfoldable pub check_nodes : List String → List WorkflowNode → List WorkflowError
check_nodes ids [] = []
check_nodes ids (node ∷ nodes) = node_errors ids node ++ check_nodes (node.id ∷ ids) nodes

unfoldable pub connection_errors : List String → WorkflowConnection → List WorkflowError
connection_errors ids c =
    when (not (has c.from ids)) (unknown_source c.from)
    ++ (when (not (has c.to ids)) (unknown_target c.to)
        ++ when (c.from == c.to) (self_connection c.from))

abbrev pub node_ids : List WorkflowNode → List String
node_ids nodes = map (λ n. n.id) nodes

abbrev pub enabled : WorkflowNode → Bool
enabled node = not node.disabled

-- `connection.branch === 'error'`
abbrev pub is_error_branch : WorkflowConnection → Bool
is_error_branch c = Option-elim c.branch false (λ b. b == "error")

-- The set `enabled`. An id that stands twice has been visited when it is met again.
abbrev pub enabled_ids : List WorkflowNode → List String
enabled_ids nodes = node_ids (keep enabled nodes)

-- The entry of `adjacency`.
unfoldable pub adjacency : AutomationWorkflow → String → List String
adjacency w id =
    map (λ c. c.to)
      (keep
        (λ c.
          not (is_error_branch c)
          && (has c.from (enabled_ids w.nodes) && has c.to (enabled_ids w.nodes) && c.from == id))
        w.connections)

unfoldable pub has_cycle : AutomationWorkflow → Bool
has_cycle w = search_cycle (adjacency w) (enabled_ids w.nodes)

unfoldable pub validate_automation_workflow : AutomationWorkflow → List WorkflowError
unfolding check_nodes connection_errors has_cycle
validate_automation_workflow w =
    when (not (nat_eq w.schema_version 1)) (unsupported_schema w.schema_version)
    ++ (when (is_blank w.id) id_required
        ++ (when (is_blank w.name) name_required
            ++ (when (not_positive_integer w.revision) bad_revision
                ++ (when (not_positive_integer w.max_concurrency) bad_concurrency
                    ++ (when (is_empty w.nodes) no_nodes
                        ++ (when
                              (Option-elim w.supersedes_revision false
                                (λ s. not (less s w.revision)))
                              bad_supersession
                            ++ (check_nodes [] w.nodes
                                ++ (when
                                      (is_empty
                                        (keep (λ n. is_trigger n.kind && enabled n) w.nodes))
                                      no_trigger
                                    ++ (each (connection_errors (node_ids w.nodes)) w.connections
                                        ++ when (has_cycle w) graph_cycle)))))))))

-- `createAutomationWorkflow`: the errors that it throws, or the workflow.
unfoldable pub create_automation_workflow :
    String → Option String → AutomationWorkflow → List WorkflowError ⊎ AutomationWorkflow
unfolding validate_automation_workflow
create_automation_workflow now created_at input =
    let w : AutomationWorkflow = record input {
      schema_version = 1;
      created_at = Option-elim created_at now (λ t. t);
    } in
    elim (validate_automation_workflow w) [ [] ↦ inr w | e ∷ es ↦ inl (e ∷ es) ]

unfoldable pub workflow_start_nodes : AutomationWorkflow → List WorkflowNode
workflow_start_nodes w =
    keep (λ n. enabled n && not (has n.id (map (λ c. c.to) w.connections))) w.nodes

unfoldable pub workflow_upstream_node_ids : AutomationWorkflow → String → List String
workflow_upstream_node_ids w id =
    map (λ c. c.from) (keep (λ c. c.to == id && not (is_error_branch c)) w.connections)

unfoldable pub workflow_error_targets : AutomationWorkflow → String → List String
workflow_error_targets w id =
    map (λ c. c.to) (keep (λ c. c.from == id && is_error_branch c) w.connections)
