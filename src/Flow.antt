-- ===== src/Flow.antt =====
-- packages/automation/src/flow-runner.ts: the scheduling of `runWorkflow`. What `handleNode` does with
-- a node, its timeout included, is a function of the run; the nodes of a batch run one after another.
-- Left out: the details and the instants of events, and a deadline in the middle of a batch.
pub mod Nodes
pub mod Rounds
pub mod Approved
pub mod Start
use janus_core.Base.{
  ℕ, zero, suc, max, String, Bool, true, false, not, ◌&&◌, ◌||◌, Option, none, some, List, [], ◌∷◌,
  ◌++◌, map, if◌then◌else◌, number_eq, string_eq, ◌==◌, take, is_empty, any, keep, has, is_nil, get,
  set, from_entries,
}
use mathlib.Core.Option.{Option-elim}
use janus_core.Base.Number.{floor}
use janus_core.Workflow.Types.{
  WorkflowNode, WorkflowNodeKind, approval, WorkflowErrorPolicy, error_branch, continue,
  WorkflowConnection, AutomationWorkflow,
}
use janus_core.Workflow.Execution.{
  WorkflowExecutionState, WorkflowNodeExecutionStatus, pending, running, waiting, waiting_approval,
  completed, failed, skipped, cancelled, is_completed, is_skipped,
}

pub data FlowEventType : Type 0 where
  run_started node_started node_completed node_failed node_retry node_skipped : FlowEventType
  approval_requested run_paused run_completed run_failed run_deduplicated : FlowEventType

pub record FlowEvent : Type 0 where
  pub type : FlowEventType
  pub node_id : Option String
  pub attempt : Option ℕ

pub data ApprovalDecision : Type 0 where
  approved rejected : ApprovalDecision

-- The snapshot, the log and the variables of `runWorkflow`. `handled` lists the nodes handed to
-- `handleNode`, the latest first. `on_event log e` is the message that `deps.onEvent` throws at `e` after `log`, if
-- it does; `observer_error` is the first such message that no handler of the code catches.
pub record FlowRun : Type 0 where
  pub state : WorkflowExecutionState
  pub selected_branches : List (String × List String)
  pub approvals : List (String × ApprovalDecision)
  pub resume_at : List (String × String)
  pub log : List FlowEvent
  pub fatal : Option String
  pub handled : List WorkflowNode
  pub on_event : List FlowEvent → FlowEvent → Option String
  pub observer_error : Option String

-- What `handleNode` becomes: an output with the branches it selects, a wait, or an error.
pub data NodeOutcome : Type 0 where
  output : Option String → Option (List String) → NodeOutcome
  waits : String → NodeOutcome
  throws : String → NodeOutcome

pub data EdgeState : Type 0 where
  edge_active edge_inactive edge_pending : EdgeState

abbrev pub status_of : String → FlowRun → Option WorkflowNodeExecutionStatus
status_of id f = get id f.state.node_status

abbrev pub set_status : String → WorkflowNodeExecutionStatus → FlowRun → FlowRun
set_status id s f = record f {
  state = record f.state { node_status = set id s f.state.node_status };
}

abbrev pub event : FlowEventType → Option String → Option ℕ → FlowEvent
event type node_id attempt = record { type = type; node_id = node_id; attempt = attempt }

abbrev pub first_error : Option String → Option String → Option String
first_error (some m) later = some m
first_error none later = later

-- `emit` up to its await.
abbrev pub note : FlowEvent → FlowRun → FlowRun
note e f = record f { log = f.log ++ e ∷ [] }

-- `emit` outside the `try` of a node: what it throws ends `runWorkflow` without a result.
abbrev pub emit : FlowEventType → Option String → Option ℕ → FlowRun → FlowRun
emit type node_id attempt f =
    let e = event type node_id attempt in
    record (note e f) { observer_error = first_error f.observer_error (f.on_event f.log e) }

abbrev pub is_pending : Option WorkflowNodeExecutionStatus → Bool
is_pending (some pending) = true
is_pending _ = false

abbrev pub is_failed : Option WorkflowNodeExecutionStatus → Bool
is_failed (some failed) = true
is_failed _ = false

abbrev pub is_cancelled : Option WorkflowNodeExecutionStatus → Bool
is_cancelled (some cancelled) = true
is_cancelled _ = false

abbrev pub is_error_policy : Option WorkflowErrorPolicy → Bool
is_error_policy (some error_branch) = true
is_error_policy _ = false

abbrev pub is_continue : Option WorkflowErrorPolicy → Bool
is_continue (some continue) = true
is_continue _ = false

abbrev pub skip : WorkflowNode → FlowRun → FlowRun
skip node f = emit node_skipped (some node.id) none (set_status node.id skipped f)

module _ (w : AutomationWorkflow) where
  abbrev pub policy_of : String → Option WorkflowErrorPolicy
  policy_of id =
      Option-elim (get id (from_entries (map (λ n. (n.id, n)) w.nodes) [])) none (λ n. n.on_error)

  -- `!c.branch || c.branch === 'success' || !selected`, and else `selected.includes(c.branch)`
  abbrev pub is_selected : Option String → Option (List String) → Bool
  is_selected none selected = true
  is_selected (some branch) none = true
  is_selected (some branch) (some selected) =
      is_nil branch || branch == "success" || has branch selected

  unfoldable pub edge_state : FlowRun → WorkflowConnection → EdgeState
  edge_state f c =
      let source = status_of c.from f in
      let over = is_skipped source || is_failed source || is_cancelled source in
      if Option-elim c.branch false (λ b. b == "error")
      then if is_failed source && is_error_policy (policy_of c.from)
        then edge_active
        else if is_completed source || over
        then edge_inactive
        else edge_pending
      else if is_completed source
      then if is_selected c.branch (get c.from f.selected_branches)
        then edge_active
        else edge_inactive
      else if over
      then edge_inactive
      else edge_pending

  abbrev pub incoming : String → List WorkflowConnection
  incoming id = keep (λ c. c.to == id) w.connections

  abbrev pub is_edge_pending : EdgeState → Bool
  is_edge_pending edge_pending = true
  is_edge_pending _ = false

  abbrev pub is_edge_active : EdgeState → Bool
  is_edge_active edge_active = true
  is_edge_active _ = false

  abbrev pub some_edge : (EdgeState → Bool) → FlowRun → WorkflowNode → Bool
  some_edge p f node = any (λ c. p (edge_state f c)) (incoming node.id)

  -- A pending node all of whose connections are decided, none of them active.
  unfoldable pub is_skippable : FlowRun → WorkflowNode → Bool
  unfolding edge_state
  is_skippable f node =
      is_pending (status_of node.id f)
      && not (is_empty (incoming node.id))
      && not (some_edge is_edge_pending f node)
      && not (some_edge is_edge_active f node)

  unfoldable pub is_ready : FlowRun → WorkflowNode → Bool
  unfolding edge_state
  is_ready f node =
      is_pending (status_of node.id f)
      && (is_empty (incoming node.id)
          || (not (some_edge is_edge_pending f node) && some_edge is_edge_active f node))

  -- The `for` of the loop that passes omissions on, with `changed`.
  unfoldable pub skip_pass : List WorkflowNode → Bool × FlowRun → Bool × FlowRun
  unfolding is_skippable
  skip_pass [] (changed, f) = (changed, f)
  skip_pass (node ∷ nodes) (changed, f) =
      skip_pass nodes (if is_skippable f node then (true, skip node f) else (changed, f))

  -- `while (changed)`, for at most so many passes; the flag says whether the loop ended.
  unfoldable pub skip_passes : ℕ → FlowRun → Bool × FlowRun
  unfolding skip_pass
  skip_passes zero f = (false, f)
  skip_passes (suc n) f =
      let (changed, g) = skip_pass w.nodes (false, f) in
      let later = skip_passes n g in if changed then later else (true, g)

  abbrev pub ready_nodes : FlowRun → List WorkflowNode
  ready_nodes f = keep (is_ready f) w.nodes

  abbrev pub batch_of : List WorkflowNode → List WorkflowNode
  batch_of ready = take (max 1 (floor w.max_concurrency)) ready
