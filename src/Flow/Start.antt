-- ===== src/Flow/Start.antt =====
-- packages/automation/src/flow-runner.ts: `runWorkflow` from its validation to its result. A run
-- starts anew, or is resumed from a snapshot; `claimed` says whether the run store accepted its key.
pub mod Safe
use janus_core.Base.{
  ℕ, ◌+◌, String, ◌⊎◌, inl, inr, Bool, false, not, ◌&&◌, ◌||◌, Option, none, some, List, [], ◌∷◌,
  map, leb, nat_eq, if◌then◌else◌, length, is_empty, all, is_nil, codes, get, from_entries,
}
use Prim.Native.Char.{code}
use Prim.Native.String
use mathlib.Core.Option.{Option-elim}
use janus_core.Workflow.Types.{WorkflowNode, AutomationWorkflow}
use janus_core.Workflow.{WorkflowError, validate_automation_workflow}
use janus_core.Workflow.Execution.{WorkflowExecutionState, create_workflow_execution_state, matches}
use janus_core.Flow.{
  run_started, run_deduplicated, ApprovalDecision, FlowEvent, FlowRun, NodeOutcome, emit,
}
use janus_core.Flow.Rounds.{
  FlowStatus, is_trigger, choose_trigger, merge_approvals, wake, run_rounds, conclude_run,
}

pub data FlowError : Type 0 where
  invalid_workflow : List WorkflowError → FlowError
  unsafe_node_id bad_trigger : String → FlowError
  run_id_blank snapshot_mismatch : FlowError
  observer_threw : String → FlowError

pub data FlowResult : Type 0 where
  deduplicated : FlowRun → FlowResult
  concluded : FlowStatus → FlowRun → FlowResult

-- `options.resume` with the tests of a wait's end, or the fields of a new run.
pub data FlowStart : Type 0 where
  anew : String → Option String → Bool → FlowStart
  resumed : FlowRun → List (String × ApprovalDecision) → (String → Bool) → FlowStart

is_safe_code : ℕ → Bool
is_safe_code c =
    (leb b'0' c && leb c b'9')
    || (leb b'A' c && leb c b'Z')
    || (leb b'a' c && leb c b'z')
    || nat_eq c b'_'
    || nat_eq c b'-'

-- `SAFE_ID.test(id)`
unfoldable pub is_safe_id : String → Bool
unfolding is_safe_code
is_safe_id id = not (is_nil id) && all is_safe_code (codes id)

unfoldable pub first_unsafe : List WorkflowNode → Option String
unfolding is_safe_id
first_unsafe [] = none
first_unsafe (node ∷ nodes) =
    let later = first_unsafe nodes in if is_safe_id node.id then later else some node.id

-- The chosen trigger is an enabled trigger of the workflow.
unfoldable pub is_good_trigger : AutomationWorkflow → String → Bool
is_good_trigger w chosen =
    Option-elim (get chosen (from_entries (map (λ n. (n.id, n)) w.nodes) [])) false
      (λ n. is_trigger n.kind && not n.disabled)

abbrev pub new_run : (List FlowEvent → FlowEvent → Option String) → WorkflowExecutionState → FlowRun
new_run on_event state = record {
  state = state;
  selected_branches = [];
  approvals = [];
  resume_at = [];
  log = [];
  fatal = none;
  handled = [];
  on_event = on_event;
  observer_error = none;
}

-- The run of a snapshot: it has no log, no error and nothing handled yet.
abbrev pub resumed_run : (List FlowEvent → FlowEvent → Option String) → FlowRun → FlowRun
resumed_run on_event snapshot = record snapshot {
  log = [];
  fatal = none;
  handled = [];
  on_event = on_event;
  observer_error = none;
}

abbrev pub final_run : FlowResult → FlowRun
final_run (deduplicated f) = f
final_run (concluded status f) = f

-- A throw of `onEvent` that nothing caught is what `runWorkflow` ends with.
abbrev pub watched : FlowResult → FlowError ⊎ FlowResult
watched result =
    Option-elim (final_run result).observer_error (inr result) (λ m. inl (observer_threw m))

abbrev pub is_bad_choice : AutomationWorkflow → Option String → Bool
is_bad_choice w chosen = Option-elim chosen false (λ id. not (is_good_trigger w id))

module _ (w : AutomationWorkflow) (handle : FlowRun → WorkflowNode → NodeOutcome)
    (expired : ℕ → Bool) (on_event : List FlowEvent → FlowEvent → Option String) where
  -- The main loop and what follows it; one round more than there are nodes.
  abbrev pub run_from : FlowRun → FlowResult
  run_from f =
      let (status, g) =
        conclude_run w handle (run_rounds w handle expired (length w.nodes + 1) f).1 in
      concluded status g

  abbrev pub start_new : Option String → Bool → FlowRun → FlowResult
  start_new chosen claimed f =
      if not claimed
      then deduplicated (emit run_deduplicated none none f)
      else run_from (choose_trigger chosen w.nodes (emit run_started none none f))

  abbrev pub start_anew :
      Option String → Bool → Option WorkflowExecutionState → FlowError ⊎ FlowResult
  start_anew chosen claimed none = inl run_id_blank
  start_anew chosen claimed (some state) =
      if is_bad_choice w chosen
      then inl (bad_trigger (Option-elim chosen "" (λ id. id)))
      else watched (start_new chosen claimed (new_run on_event state))

  unfoldable pub start_run : FlowStart → FlowError ⊎ FlowResult
  unfolding is_good_trigger
  start_run (anew run_id chosen claimed) =
      start_anew chosen claimed (create_workflow_execution_state w run_id)
  start_run (resumed snapshot decisions due) =
      if not (matches w snapshot.state)
      then inl snapshot_mismatch
      else watched
          (run_from (wake due w.nodes (merge_approvals decisions (resumed_run on_event snapshot))))

  unfoldable pub run_workflow : FlowStart → FlowError ⊎ FlowResult
  unfolding first_unsafe start_run
  run_workflow start =
      if not (is_empty (validate_automation_workflow w))
      then inl (invalid_workflow (validate_automation_workflow w))
      else Option-elim (first_unsafe w.nodes) (start_run start) (λ id. inl (unsafe_node_id id))
