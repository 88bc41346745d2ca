-- ===== src/Flow/Nodes/Settles.antt =====
-- packages/automation/src/flow-runner.ts: the loop over a node's attempts ends, and its node is settled.
use janus_core.Base.{
  ℕ, zero, suc, ◌+◌, ◌<◌, String, ◌≡◌, refl, sym, ap, ◌∙◌, inl, inr, true, false, not, ◌&&◌, Option,
  none, some, List, arith, Bool-cases, number_eq, string_eq, ◌==◌, eq_of_==, is_empty, get,
  get-set_same, get-set_other,
}
use mathlib.Core.Path.{subst}
use mathlib.Core.Option.{Option-elim}
use janus_core.Base.Number.{less-whole_above}
use janus_core.Workflow.{workflow_error_targets}
use janus_core.Workflow.Types.{WorkflowNode, AutomationWorkflow}
use janus_core.Workflow.Execution.{
  WorkflowNodeExecutionStatus, completed, failed, waiting, waiting_approval,
}
use janus_core.Flow.{
  FlowRun, NodeOutcome, output, waits, throws, ApprovalDecision, approved, rejected, status_of,
  set_status, emit, node_retry, node_started, is_pending, is_error_policy, is_continue,
}
use janus_core.Flow.Nodes.{
  decision_at, fail, finish, hold, caught, told, attempts, attempts_of, conclude, count_attempt,
  decided, execute, enough_attempts, may_retry, needs_approval, max_attempts,
}

suc_above : (n : ℕ) → suc n ≡ n + 1
suc_above n = omega arith

-- No node became pending.
unfoldable pub NoNew : FlowRun → FlowRun → Type 0
NoNew f g = (id : String) → is_pending (status_of id g) ≡ true → is_pending (status_of id f) ≡ true

pub set_status-NoNew :
    (id : String) (s : WorkflowNodeExecutionStatus) (f : FlowRun)
    → is_pending (some s) ≡ false
    → NoNew f (set_status id s f)
unfolding NoNew
set_status-NoNew id s f h key e = elim (Bool-cases (key == id)) [
  | inl same ↦
      let here : key ≡ id = eq_of_== key id same in
      absurd (cc (h, ap is_pending (get-set_same id s f.state.node_status), rw here at e))
  | inr other ↦ sym (ap is_pending (get-set_other key id s f.state.node_status other)) ∙ e
]

module _ (w : AutomationWorkflow) where
  fail-NoNew :
      (node : WorkflowNode) (message : String) (f : FlowRun) → NoNew f (fail w node message f)
  unfolding fail NoNew
  fail-NoNew node message f id e = elim (Bool-cases (is_continue node.on_error)) [
    | inl yes_ ↦ set_status-NoNew node.id completed f refl id (rw yes_ at e)
    | inr no_ ↦
        elim (Bool-cases
          (is_error_policy node.on_error && not (is_empty (workflow_error_targets w node.id)))) [
            | inl branch ↦ set_status-NoNew node.id failed f refl id (rw (no_, branch) at e)
            | inr fatal_ ↦ set_status-NoNew node.id failed f refl id (rw (no_, fatal_) at e)
          ]
  ]

  finish-NoNew :
      (node : WorkflowNode) (value : Option String) (branches : Option (List String)) (f : FlowRun)
      → NoNew f (finish w node value branches f)
  unfolding NoNew Option-elim
  finish-NoNew node value none f id e = set_status-NoNew node.id completed f refl id e
  finish-NoNew node value (some bs) f id e = set_status-NoNew node.id completed f refl id e

  module _ (handle : FlowRun → WorkflowNode → NodeOutcome) where
    caught-NoNew :
        (n : ℕ) (node : WorkflowNode) (message : String) (f : FlowRun)
        → ((g : FlowRun) → NoNew g (attempts w handle n node g).1)
        → NoNew f (caught w handle node message f (attempts w handle n node)).1
    unfolding NoNew
    caught-NoNew n node message f again id e = elim (Bool-cases (may_retry w node f)) [
      | inl yes_ ↦
          again (emit node_retry (some node.id) (get node.id f.state.attempts) f) id (rw yes_ at e)
      | inr no_ ↦ fail-NoNew node message f id (rw no_ at e)
    ]

    told-NoNew :
        (n : ℕ) (node : WorkflowNode) (o : Option String) (f : FlowRun)
        → ((g : FlowRun) → NoNew g (attempts w handle n node g).1)
        → NoNew f (told w handle node o f (attempts w handle n node)).1
    unfolding NoNew
    told-NoNew n node none f again id e = e
    told-NoNew n node (some message) f again id e = caught-NoNew n node message f again id e

    conclude-NoNew :
        (n : ℕ) (node : WorkflowNode) (o : NodeOutcome) (f : FlowRun)
        → ((g : FlowRun) → NoNew g (attempts w handle n node g).1)
        → NoNew f (conclude w handle node o f (attempts w handle n node)).1
    unfolding NoNew
    conclude-NoNew n node (output value branches) f again id e =
        finish-NoNew node value branches f id
          (told-NoNew n node _ (finish w node value branches f) again id e)
    conclude-NoNew n node (waits at) f again id e =
        set_status-NoNew node.id waiting f refl id
          (told-NoNew n node _ (hold w node at f) again id e)
    conclude-NoNew n node (throws message) f again id e = caught-NoNew n node message f again id e

    attempts-NoNew :
        (n : ℕ) (node : WorkflowNode) (f : FlowRun) → NoNew f (attempts w handle n node f).1
    unfolding attempts NoNew
    attempts-NoNew zero node f id e = e
    attempts-NoNew (suc n) node f id e =
        conclude-NoNew n node (handle (count_attempt node f) node) (count_attempt node f)
          (λ g. attempts-NoNew n node g) id e

    decided-NoNew :
        (node : WorkflowNode) (d : Option ApprovalDecision) (f : FlowRun)
        → NoNew f (decided w handle node d f)
    unfolding NoNew
    decided-NoNew node none f = set_status-NoNew node.id waiting_approval f refl
    decided-NoNew node (some rejected) f =
        fail-NoNew node "Aprobación rechazada por el responsable" f
    decided-NoNew node (some approved) f = attempts-NoNew (enough_attempts w handle node) node f

    pub execute-NoNew : (node : WorkflowNode) (f : FlowRun) → NoNew f (execute w handle node f)
    unfolding execute NoNew
    execute-NoNew node f id e =
        let g : FlowRun = emit node_started (some node.id) none f in
        elim (Bool-cases (needs_approval node)) [
          | inl yes_ ↦ decided-NoNew node (decision_at node.id g.approvals) g id (rw yes_ at e)
          | inr no_ ↦ attempts-NoNew (enough_attempts w handle node) node g id (rw no_ at e)
        ]

    -- A further attempt at the node from a state with as many attempts as `f` ends.
    abbrev Again : ℕ → WorkflowNode → FlowRun → Type 0
    Again n node f =
        (g : FlowRun)
        → attempts_of node g ≡ attempts_of node f
        → may_retry w node g ≡ true
        → (attempts w handle n node
            (emit node_retry (some node.id) (get node.id g.state.attempts) g)).0
          ≡ true

    caught_end :
        (n : ℕ) (node : WorkflowNode) (message : String) (f g : FlowRun)
        → attempts_of node g ≡ attempts_of node f
        → Again n node f
        → (caught w handle node message g (attempts w handle n node)).0 ≡ true
    caught_end n node message f g same again = elim (Bool-cases (may_retry w node g)) [
      | inl yes_ ↦ rw yes_ (again g same yes_)
      | inr no_ ↦ rw no_ refl
    ]

    told_end :
        (n : ℕ) (node : WorkflowNode) (o : Option String) (f g : FlowRun)
        → attempts_of node g ≡ attempts_of node f
        → Again n node f
        → (told w handle node o g (attempts w handle n node)).0 ≡ true
    told_end n node none f g same again = refl
    told_end n node (some message) f g same again = caught_end n node message f g same again

    finish-attempts :
        (node : WorkflowNode) (value : Option String) (branches : Option (List String))
        (f : FlowRun)
        → attempts_of node (finish w node value branches f) ≡ attempts_of node f
    unfolding Option-elim
    finish-attempts node value none f = refl
    finish-attempts node value (some bs) f = refl

    conclude_end :
        (n : ℕ) (node : WorkflowNode) (o : NodeOutcome) (f : FlowRun)
        → Again n node f
        → (conclude w handle node o f (attempts w handle n node)).0 ≡ true
    conclude_end n node (output value branches) f again =
        told_end n node _ f (finish w node value branches f) (finish-attempts node value branches f)
          again
    conclude_end n node (waits at) f again = told_end n node _ f (hold w node at f) refl again
    conclude_end n node (throws message) f again = caught_end n node message f f refl again

    may_retry-lt :
        (node : WorkflowNode) (f : FlowRun)
        → may_retry w node f ≡ true
        → attempts_of node f < (max_attempts w node).above
    may_retry-lt node f h =
        less-whole_above (attempts_of node f) (max_attempts w node) (ground (arith, h))

    counted :
        (node : WorkflowNode) (f : FlowRun)
        → attempts_of node (count_attempt node f) ≡ attempts_of node f + 1
    unfolding Option-elim
    counted node f =
        ap (λ o. Option-elim o 0 (λ n. n))
          (get-set_same node.id (attempts_of node f + 1) f.state.attempts)

    -- The loop over the attempts of a node always ends by itself.
    pub attempts_end :
        (n : ℕ) (node : WorkflowNode) (f : FlowRun)
        → (max_attempts w node).above < attempts_of node f + n + 1
        → (attempts w handle (suc n) node f).0 ≡ true
    unfolding attempts
    attempts_end zero node f h =
        conclude_end zero node (handle (count_attempt node f) node) (count_attempt node f)
          (λ g same again.
            absurd (omega (arith, h, counted node f, same, may_retry-lt node g again)))
    attempts_end (suc n) node f h =
        conclude_end (suc n) node (handle (count_attempt node f) node) (count_attempt node f)
          (λ g same again. attempts_end n node _ (omega (arith, h, counted node f, same)))

    pub enough :
        (node : WorkflowNode) (f : FlowRun)
        → (attempts w handle (enough_attempts w handle node) node f).0 ≡ true
    enough node f =
        subst (λ k. (attempts w handle k node f).0 ≡ true) (suc_above (max_attempts w node).above)
          (attempts_end (max_attempts w node).above node f (omega arith))
