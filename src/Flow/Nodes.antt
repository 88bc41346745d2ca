-- ===== src/Flow/Nodes.antt =====
-- packages/automation/src/flow-runner.ts: `execute` and `fail`, for one node.
pub mod Settles
use janus_core.Base.{
  ℕ, zero, suc, ◌+◌, String, Bool, true, false, not, ◌&&◌, ◌||◌, Option, none, some, List, [], ◌∷◌,
  has, ◌++◌, if◌then◌else◌, number_eq, string_eq, ◌==◌, is_empty, keep, get, set,
}
use Prim.Native.String
use mathlib.Core.Option.{Option-elim}
use janus_core.Base.Number.{Number, whole, less}
use janus_core.Workflow.{workflow_error_targets}
use janus_core.Workflow.Types.{WorkflowNode, WorkflowNodeKind, approval, AutomationWorkflow}
use janus_core.Workflow.Execution.{
  waiting, waiting_approval, completed, failed, can_retry_workflow_node,
}
use janus_core.Flow.{
  node_started, node_completed, node_failed, node_retry, approval_requested, ApprovalDecision,
  approved, rejected, FlowRun, NodeOutcome, output, waits, throws, set_status, FlowEvent, event,
  note, emit, is_error_policy, is_continue,
}

abbrev pub is_approval : WorkflowNodeKind → Bool
is_approval approval = true
is_approval _ = false

abbrev pub needs_approval : WorkflowNode → Bool
needs_approval node = node.requires_approval || is_approval node.kind

-- `delete map[key]`
abbrev pub without {ℓ} : {A : Type ℓ} → String → List (String × A) → List (String × A)
without key m = keep (λ e. not (e.0 == key)) m

-- `map[key] = value`, where `none` is undefined and has no entry.
abbrev pub put {ℓ} : {A : Type ℓ} → String → Option A → List (String × A) → List (String × A)
put key none m = without key m
put key (some value) m = set key value m

-- The keys that every plain object inherits. Their values are neither undefined nor 'rejected'.
abbrev pub inherited_keys : List String
inherited_keys =
    "constructor" ∷ "__defineGetter__" ∷ "__defineSetter__" ∷ "hasOwnProperty" ∷ "__lookupGetter__"
    ∷ "__lookupSetter__" ∷ "isPrototypeOf" ∷ "propertyIsEnumerable" ∷ "toString" ∷ "valueOf"
    ∷ "__proto__" ∷ "toLocaleString" ∷ []

abbrev pub own_or_inherited : Option ApprovalDecision → Bool → Option ApprovalDecision
own_or_inherited (some decision) inherited = some decision
own_or_inherited none true = some approved
own_or_inherited none false = none

-- `approvals[id]`: an inherited value goes the way of an approval.
unfoldable pub decision_at : String → List (String × ApprovalDecision) → Option ApprovalDecision
decision_at id approvals = own_or_inherited (get id approvals) (has id inherited_keys)

abbrev pub attempts_of : WorkflowNode → FlowRun → ℕ
attempts_of node f = Option-elim (get node.id f.state.attempts) 0 (λ n. n)

abbrev pub set_output : String → Option String → FlowRun → FlowRun
set_output id value f = record f {
  state = record f.state { completed_outputs = put id value f.state.completed_outputs };
}

abbrev pub set_error : String → String → FlowRun → FlowRun
set_error id message f = record f {
  state = record f.state { errors = set id message f.state.errors };
}

abbrev pub count_attempt : WorkflowNode → FlowRun → FlowRun
count_attempt node f = record f {
  state = record f.state { attempts = set node.id (attempts_of node f + 1) f.state.attempts };
  handled = node ∷ f.handled;
}

module _ (w : AutomationWorkflow) where
  abbrev pub record_fatal : WorkflowNode → String → FlowRun → FlowRun
  record_fatal node message f = record f {
    fatal =
        some
          (Option-elim f.fatal (String.◌++◌ node.id (String.◌++◌ ": " message)) (λ first. first));
  }

  unfoldable pub fail : WorkflowNode → String → FlowRun → FlowRun
  fail node message f =
      let noted =
        emit node_failed (some node.id) (get node.id f.state.attempts)
          (set_error node.id message f) in
      let broken = set_status node.id failed noted in
      if is_continue node.on_error
      then set_output node.id none (set_status node.id completed noted)
      else if is_error_policy node.on_error && not (is_empty (workflow_error_targets w node.id))
      then broken
      else record_fatal node message broken

  abbrev pub select : String → Option (List String) → FlowRun → FlowRun
  select id branches f =
      Option-elim branches f (λ bs. record f { selected_branches = set id bs f.selected_branches })

  abbrev pub finished_event : WorkflowNode → FlowRun → FlowEvent
  finished_event node f = event node_completed (some node.id) (get node.id f.state.attempts)

  -- A finished node: `completed`, with its output and branches.
  abbrev pub finish : WorkflowNode → Option String → Option (List String) → FlowRun → FlowRun
  finish node value branches f =
      let g = set_status node.id completed (select node.id branches (set_output node.id value f)) in
      note (finished_event node f) (record g { resume_at = without node.id g.resume_at })

  abbrev pub held_event : WorkflowNode → FlowEvent
  held_event node = event node_started (some node.id) none

  abbrev pub hold : WorkflowNode → String → FlowRun → FlowRun
  hold node at f =
      let g = set_status node.id waiting f in
      note (held_event node) (record g { resume_at = set node.id at g.resume_at })

  abbrev pub max_attempts : WorkflowNode → Number
  max_attempts node = Option-elim node.retry (whole 1) (λ r. r.max_attempts)

  abbrev pub may_retry : WorkflowNode → FlowRun → Bool
  may_retry node f =
      can_retry_workflow_node node f.state && less (whole (attempts_of node f)) (max_attempts node)

  module _ (handle : FlowRun → WorkflowNode → NodeOutcome) where
    -- The `catch` block; `again` is the next turn of the loop.
    abbrev pub caught :
        WorkflowNode → String → FlowRun → (FlowRun → Bool × FlowRun) → Bool × FlowRun
    caught node message f again =
        if may_retry node f
        then again (emit node_retry (some node.id) (get node.id f.state.attempts) f)
        else (true, fail node message f)

    -- The last `emit` of the `try` block: what it throws is caught there, after the node was settled.
    abbrev pub told :
        WorkflowNode → Option String → FlowRun → (FlowRun → Bool × FlowRun) → Bool × FlowRun
    told node none f again = (true, f)
    told node (some message) f again = caught node message f again

    -- What an attempt does with its outcome.
    abbrev pub conclude :
        WorkflowNode → NodeOutcome → FlowRun → (FlowRun → Bool × FlowRun) → Bool × FlowRun
    conclude node (output value branches) f again =
        told node (f.on_event f.log (finished_event node f)) (finish node value branches f) again
    conclude node (waits at) f again =
        told node (f.on_event f.log (held_event node)) (hold node at f) again
    conclude node (throws message) f again = caught node message f again

    -- `for (;;)`, for at most so many attempts; the flag says whether the loop ended.
    unfoldable pub attempts : ℕ → WorkflowNode → FlowRun → Bool × FlowRun
    unfolding fail
    attempts zero node f = (false, f)
    attempts (suc n) node f =
        let g = count_attempt node f in conclude node (handle g node) g (attempts n node)

    -- A node has fewer attempts than the numerator of its limit says.
    abbrev pub enough_attempts : WorkflowNode → ℕ
    enough_attempts node = (max_attempts node).above + 1

    abbrev pub decided : WorkflowNode → Option ApprovalDecision → FlowRun → FlowRun
    decided node none f =
        emit approval_requested (some node.id) none (set_status node.id waiting_approval f)
    decided node (some rejected) f = fail node "Aprobación rechazada por el responsable" f
    decided node (some approved) f = (attempts (enough_attempts node) node f).1

    unfoldable pub execute : WorkflowNode → FlowRun → FlowRun
    unfolding attempts decision_at
    execute node f =
        let g = emit node_started (some node.id) none f in
        if needs_approval node
        then decided node (decision_at node.id g.approvals) g
        else (attempts (enough_attempts node) node g).1
