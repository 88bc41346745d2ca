-- ===== src/Flow/Rounds.antt =====
-- packages/automation/src/flow-runner.ts: the main loop of `runWorkflow`, its beginning and its end.
-- `expired` answers the deadline's test at the start of a round, by the rounds that are left.
pub mod Ends
use janus_core.Base.{
  ℕ, zero, suc, ◌+◌, String, Bool, true, false, not, ◌&&◌, ◌||◌, Option, none, some, List, [], ◌∷◌,
  if◌then◌else◌, number_eq, string_eq, ◌==◌, length, is_empty, any, get, set,
}
use mathlib.Core.Option.{Option-elim}
use janus_core.Workflow.Types.{WorkflowNode, WorkflowNodeKind, trigger, AutomationWorkflow}
use janus_core.Workflow.Execution.{
  WorkflowNodeExecutionStatus, pending, running, waiting, waiting_approval, skipped,
}
use janus_core.Flow.{
  FlowEventType, run_paused, run_completed, run_failed, ApprovalDecision, FlowRun, NodeOutcome,
  status_of, set_status, emit, is_pending, skip, skip_passes, ready_nodes, batch_of,
}
use janus_core.Flow.Nodes.{decision_at, execute}

pub data FlowStatus : Type 0 where
  flow_completed flow_failed flow_paused : FlowStatus

abbrev pub is_set : Option String → Bool
is_set none = false
is_set (some s) = true

abbrev pub is_held : Option WorkflowNodeExecutionStatus → Bool
is_held (some waiting_approval) = true
is_held (some waiting) = true
is_held _ = false

abbrev pub is_awaiting : Option WorkflowNodeExecutionStatus → Bool
is_awaiting (some waiting_approval) = true
is_awaiting _ = false

abbrev pub is_waiting : Option WorkflowNodeExecutionStatus → Bool
is_waiting (some waiting) = true
is_waiting _ = false

abbrev pub is_trigger : WorkflowNodeKind → Bool
is_trigger trigger = true
is_trigger _ = false

-- `for (const node of batch) state.nodeStatus[node.id] = 'running'`
unfoldable pub start_all : List WorkflowNode → FlowRun → FlowRun
start_all [] f = f
start_all (node ∷ nodes) f = start_all nodes (set_status node.id running f)

-- The other triggers are skipped when one of them started the run.
unfoldable pub choose_trigger : Option String → List WorkflowNode → FlowRun → FlowRun
choose_trigger none nodes f = f
choose_trigger (some chosen) [] f = f
choose_trigger (some chosen) (node ∷ nodes) f = choose_trigger (some chosen) nodes (
    if is_trigger node.kind && not (node.id == chosen) && is_pending (status_of node.id f)
    then skip node f
    else f)

-- `approvals[id] = decision`: to `__proto__` nothing is assigned.
abbrev pub assign :
    String → ApprovalDecision → List (String × ApprovalDecision) → List (String × ApprovalDecision)
assign id decision approvals = if id == "__proto__" then approvals else set id decision approvals

-- The decisions that a resumption brings.
unfoldable pub merge_approvals : List (String × ApprovalDecision) → FlowRun → FlowRun
merge_approvals [] f = f
merge_approvals ((id, decision) ∷ rest) f =
    merge_approvals rest (record f { approvals = assign id decision f.approvals })

-- A held node of a resumed run becomes pending when its approval is decided or its wait is over.
unfoldable pub wake : (String → Bool) → List WorkflowNode → FlowRun → FlowRun
unfolding decision_at
wake due [] f = f
wake due (node ∷ nodes) f = wake due nodes (
    if (is_awaiting (status_of node.id f)
        && Option-elim (decision_at node.id f.approvals) false (λ d. true))
      || (is_waiting (status_of node.id f) && Option-elim (get node.id f.resume_at) true due)
    then set_status node.id pending f
    else f)

module _ (w : AutomationWorkflow) (handle : FlowRun → WorkflowNode → NodeOutcome) where
  unfoldable pub run_nodes : List WorkflowNode → FlowRun → FlowRun
  run_nodes [] f = f
  run_nodes (node ∷ nodes) f = run_nodes nodes (execute w handle node f)

  -- As many passes as there are nodes, and one more.
  abbrev pub settled : FlowRun → FlowRun
  settled f = (skip_passes w (length w.nodes + 1) f).1

  abbrev pub run_batch : List WorkflowNode → FlowRun → FlowRun
  run_batch batch f = run_nodes batch (start_all batch f)

  -- `for (;;)`, for at most so many rounds; the flag says whether the loop ended.
  unfoldable pub run_rounds : (ℕ → Bool) → ℕ → FlowRun → Bool × FlowRun
  unfolding start_all run_nodes
  run_rounds expired zero f = (false, f)
  run_rounds expired (suc n) f =
      let g = settled f in
      let ready = ready_nodes w g in
      let later = run_rounds expired n (run_batch (batch_of w ready) g) in
      if expired n
      then (true, record f { fatal = some "Tiempo máximo del flujo superado" })
      else if is_set g.fatal || is_empty ready
      then (true, g)
      else later

  abbrev pub holds_nodes : FlowRun → Bool
  holds_nodes f = any (λ n. is_held (status_of n.id f)) w.nodes

  -- What follows the main loop.
  unfoldable pub conclude_run : FlowRun → FlowStatus × FlowRun
  conclude_run f =
      if is_set f.fatal
      then (flow_failed, emit run_failed none none f)
      else if holds_nodes f
      then (flow_paused, emit run_paused none none f)
      else (flow_completed, emit run_completed none none f)
