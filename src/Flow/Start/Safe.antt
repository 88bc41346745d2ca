-- ===== src/Flow/Start/Safe.antt =====
-- packages/automation/src/flow-runner.ts: the approvals behind the nodes that a run handled.
use janus_core.Base.{
  ℕ, ◌+◌, String, ◌≡◌, refl, sym, ◌∙◌, inl, inr, Bool, true, false, not, ◌&&◌, Option, none, some,
  List, [], ◌∷◌, if◌then◌else◌, Bool-cases, Option-cases, number_eq, string_eq, ◌==◌, length,
  is_empty, All,
}
use mathlib.Core.Option.{Option-elim}
use mathlib.Core.Path.{subst}
use janus_core.Workflow.Types.{WorkflowNode, AutomationWorkflow}
use janus_core.Workflow.{validate_automation_workflow}
use janus_core.Workflow.Execution.{
  WorkflowExecutionState, create_workflow_execution_state, matches, pending,
}
use janus_core.Flow.{
  ApprovalDecision, FlowRun, NodeOutcome, FlowEvent, run_started, emit, set_status, status_of, skip,
  is_pending,
}
use janus_core.Flow.Approved.{Approved, run_rounds-Approved}
use janus_core.Flow.Rounds.{
  is_set, is_trigger, holds_nodes, choose_trigger, assign, merge_approvals, wake, run_rounds,
  conclude_run,
}
use janus_core.Flow.Start.{
  FlowResult, FlowStart, anew, resumed, first_unsafe, final_run, watched, is_bad_choice, new_run,
  resumed_run, run_from, start_new, start_anew, start_run, run_workflow,
}

watched-eq-inr : (r result : FlowResult) → watched r ≡ inr result → r ≡ result
unfolding Option-elim
watched-eq-inr r result h = elim (Option-cases (final_run r).observer_error) [
  | inl quiet ↦ cc (rw quiet at h)
  | inr (m, threw) ↦ absurd (cc (rw threw at h))
]

if-handled :
    (b : Bool) (g f : FlowRun) → g.handled ≡ f.handled → (if b then g else f).handled ≡ f.handled
if-handled true g f h = h
if-handled false g f h = refl

choose-handled :
    (chosen : Option String) (nodes : List WorkflowNode) (f : FlowRun)
    → (choose_trigger chosen nodes f).handled ≡ f.handled
unfolding choose_trigger
choose-handled none nodes f = refl
choose-handled (some chosen) [] f = refl
choose-handled (some chosen) (node ∷ nodes) f =
    choose-handled (some chosen) nodes _
    ∙ if-handled
        (is_trigger node.kind && not (node.id == chosen) && is_pending (status_of node.id f))
        (skip node f) f refl

wake-handled :
    (due : String → Bool) (nodes : List WorkflowNode) (f : FlowRun)
    → (wake due nodes f).handled ≡ f.handled
unfolding wake
wake-handled due [] f = refl
wake-handled due (node ∷ nodes) f =
    wake-handled due nodes _ ∙ if-handled _ (set_status node.id pending f) f refl

merge-handled :
    (rest : List (String × ApprovalDecision)) (f : FlowRun)
    → (merge_approvals rest f).handled ≡ f.handled
unfolding merge_approvals
merge-handled [] f = refl
merge-handled ((id, decision) ∷ rest) f =
    merge-handled rest (record f { approvals = assign id decision f.approvals })

module _ (w : AutomationWorkflow) (handle : FlowRun → WorkflowNode → NodeOutcome) where
  -- The decisions behind a run are the ones it has.
  IsCleared : FlowRun → Type 0
  IsCleared f = Approved f.approvals f

  conclude_run-IsCleared : (f : FlowRun) → IsCleared f → IsCleared (conclude_run w handle f).1
  unfolding conclude_run IsCleared Approved
  conclude_run-IsCleared f h = elim (Bool-cases (is_set f.fatal)) [
    | inl yes_ ↦ rw yes_ h
    | inr no_ ↦ elim (Bool-cases (holds_nodes w handle f)) [
      | inl held ↦ rw (no_, held) h
      | inr free ↦ rw (no_, free) h
    ]
  ]

  own : (d : List (String × ApprovalDecision)) (f : FlowRun) → Approved d f → IsCleared f
  unfolding IsCleared Approved
  own d f (e, h) = (refl, subst (λ x. All (janus_core.Flow.Approved.MayRun x) f.handled) (sym e) h)

  module _ (expired : ℕ → Bool) (on_event : List FlowEvent → FlowEvent → Option String) where
    run_from-IsCleared :
        (f : FlowRun)
        → f.handled ≡ []
        → IsCleared (final_run (run_from w handle expired on_event f))
    run_from-IsCleared f h =
        conclude_run-IsCleared (run_rounds w handle expired (length w.nodes + 1) f).1 (
          own f.approvals (run_rounds w handle expired (length w.nodes + 1) f).1
            (run_rounds-Approved w handle expired (length w.nodes + 1) f h))

    start_new-IsCleared :
        (chosen : Option String) (claimed : Bool) (state : WorkflowExecutionState)
        → IsCleared (
            final_run (start_new w handle expired on_event chosen claimed (new_run on_event state)))
    unfolding IsCleared Approved
    start_new-IsCleared chosen false state = (refl, tt)
    start_new-IsCleared chosen true state =
        run_from-IsCleared
          (choose_trigger chosen w.nodes (emit run_started none none (new_run on_event state)))
          (choose-handled chosen w.nodes (emit run_started none none (new_run on_event state)))

    start_anew-IsCleared :
        (chosen : Option String) (claimed : Bool) (state : Option WorkflowExecutionState)
        (result : FlowResult)
        → start_anew w handle expired on_event chosen claimed state ≡ inr result
        → IsCleared (final_run result)
    start_anew-IsCleared chosen claimed none result h = absurd (cc)
    start_anew-IsCleared chosen claimed (some state) result h =
        elim (Bool-cases (is_bad_choice w chosen)) [
          | inl bad ↦ absurd (cc (rw bad at h))
          | inr good ↦
              let same : start_new w handle expired on_event chosen claimed (new_run on_event state)
                  ≡ result =
                watched-eq-inr _ result (rw good at h) in
              subst (λ r. IsCleared (final_run r)) same (start_new-IsCleared chosen claimed state)
        ]

    start_run-IsCleared :
        (start : FlowStart) (result : FlowResult)
        → start_run w handle expired on_event start ≡ inr result
        → IsCleared (final_run result)
    unfolding start_run
    start_run-IsCleared (anew run_id chosen claimed) result h =
        start_anew-IsCleared chosen claimed (create_workflow_execution_state w run_id) result h
    start_run-IsCleared (resumed snapshot decisions due) result h =
        elim (Bool-cases (matches w snapshot.state)) [
          | inr other ↦ absurd (cc (rw other at h))
          | inl mine ↦
              let merged = merge_approvals decisions (resumed_run on_event snapshot) in
              let first = wake due w.nodes merged in
              let same : run_from w handle expired on_event first ≡ result =
                watched-eq-inr _ result (rw mine at h) in
              subst (λ r. IsCleared (final_run r)) same
                (run_from-IsCleared first (
                  wake-handled due w.nodes merged
                  ∙ merge-handled decisions (resumed_run on_event snapshot)))
        ]

    -- Whatever the nodes do, a run that starts anew or is resumed hands only those nodes to their
    -- handlers that need no approval, that the run's decisions approve, or that have no decision and one
    -- of the keys that every object inherits, such as `constructor`, for an id.
    pub run_workflow-Approved :
        (start : FlowStart) (result : FlowResult)
        → run_workflow w handle expired on_event start ≡ inr result
        → Approved (final_run result).approvals (final_run result)
    unfolding run_workflow IsCleared Option-elim
    run_workflow-Approved start result h =
        elim (Bool-cases (is_empty (validate_automation_workflow w))) [
          | inr bad ↦ absurd (cc (rw bad at h))
          | inl valid ↦ elim (Option-cases (first_unsafe w.nodes)) [
            | inl safe ↦ start_run-IsCleared start result (rw (valid, safe) at h)
            | inr (id, unsafe_) ↦ absurd (cc (rw (valid, unsafe_) at h))
          ]
        ]
