-- ===== src/Flow/Approved.antt =====
-- packages/automation/src/flow-runner.ts: approvals, and the nodes that reach `handleNode`.
use janus_core.Base.{
  ℕ, zero, suc, ◌+◌, String, ◌≡◌, refl, sym, ap, inl, inr, Bool, true, false, not, ◌&&◌, ◌||◌,
  Option, none, some, List, [], ◌∷◌, Bool-cases, length, is_empty, All, get, has, string_eq, ◌⊎◌,
}
use mathlib.Core.Path.{subst}
use janus_core.Flow.Rounds.Ends.{skip_pass_yes, skip_pass_no}
use mathlib.Core.Option.{Option-elim}
use janus_core.Workflow.{workflow_error_targets}
use janus_core.Workflow.Types.{WorkflowNode, AutomationWorkflow}
use janus_core.Flow.{
  FlowRun, NodeOutcome, output, waits, throws, ApprovalDecision, approved, rejected, set_status,
  emit, node_retry, node_started, is_error_policy, is_continue, is_skippable, skip, skip_pass,
  skip_passes, ready_nodes, batch_of,
}
use janus_core.Flow.Nodes.{
  fail, finish, hold, attempts, caught, told, conclude, count_attempt, decided, execute,
  enough_attempts, may_retry, needs_approval, inherited_keys, own_or_inherited, decision_at,
}
use janus_core.Flow.Rounds.{start_all, run_nodes, settled, run_batch, run_rounds, is_set}
use janus_core.Workflow.Execution.{running}

unfoldable pub MayRun : List (String × ApprovalDecision) → WorkflowNode → Type 0
MayRun approvals node =
    needs_approval node ≡ true
    → (get node.id approvals ≡ some approved)
      ⊎ ((get node.id approvals ≡ none) × (has node.id inherited_keys ≡ true))

own-approved :
    (o : Option ApprovalDecision) (inherited : Bool)
    → own_or_inherited o inherited ≡ some approved
    → (o ≡ some approved) ⊎ ((o ≡ none) × (inherited ≡ true))
own-approved (some decision) inherited h = inl h
own-approved none true h = inr (refl, refl)
own-approved none false h = absurd (cc)

decision_at-approved :
    (id : String) (d : List (String × ApprovalDecision))
    → decision_at id d ≡ some approved
    → (get id d ≡ some approved) ⊎ ((get id d ≡ none) × (has id inherited_keys ≡ true))
unfolding decision_at
decision_at-approved id d = own-approved (get id d) (has id inherited_keys)

-- The decisions are these, and every node handed over that needs an approval has it among them, or
-- an inherited key for its id.
unfoldable pub Approved : List (String × ApprovalDecision) → FlowRun → Type 0
Approved approvals f = (f.approvals ≡ approvals) × All (MayRun approvals) f.handled

module _ (w : AutomationWorkflow) (d : List (String × ApprovalDecision)) where
  fail-Approved :
      (node : WorkflowNode) (message : String) (f : FlowRun)
      → Approved d f
      → Approved d (fail w node message f)
  unfolding fail Approved
  fail-Approved node message f h = elim (Bool-cases (is_continue node.on_error)) [
    | inl yes_ ↦ rw yes_ h
    | inr no_ ↦
        elim (Bool-cases
          (is_error_policy node.on_error && not (is_empty (workflow_error_targets w node.id)))) [
            | inl branch ↦ rw (no_, branch) h
            | inr fatal_ ↦ rw (no_, fatal_) h
          ]
  ]

  finish-Approved :
      (node : WorkflowNode) (value : Option String) (branches : Option (List String)) (f : FlowRun)
      → Approved d f
      → Approved d (finish w node value branches f)
  unfolding Approved Option-elim
  finish-Approved node value none f h = h
  finish-Approved node value (some bs) f h = h

  skip_pass-Approved :
      (nodes : List WorkflowNode) (c : Bool) (f : FlowRun)
      → Approved d f
      → Approved d (skip_pass w nodes (c, f)).1
  unfolding skip_pass Approved
  skip_pass-Approved [] c f h = h
  skip_pass-Approved (node ∷ nodes) c f h = elim (Bool-cases (is_skippable w f node)) [
    | inl yes_ ↦
        subst (λ x. Approved d x.1) (sym (skip_pass_yes w node nodes c f yes_))
          (skip_pass-Approved nodes true (skip node f) h)
    | inr no_ ↦
        subst (λ x. Approved d x.1) (sym (skip_pass_no w node nodes c f no_))
          (skip_pass-Approved nodes c f h)
  ]

  skip_passes-Approved : (n : ℕ) (f : FlowRun) → Approved d f → Approved d (skip_passes w n f).1
  unfolding skip_passes
  skip_passes-Approved zero f h = h
  skip_passes-Approved (suc n) f h =
      let one = skip_pass-Approved w.nodes false f h in
      elim (Bool-cases ((skip_pass w w.nodes (false, f)).0)) [
        | inl yes_ ↦ rw yes_ (skip_passes-Approved n (skip_pass w w.nodes (false, f)).1 one)
        | inr no_ ↦ rw no_ one
      ]

  start_all-Approved :
      (nodes : List WorkflowNode) (f : FlowRun) → Approved d f → Approved d (start_all nodes f)
  unfolding start_all Approved
  start_all-Approved [] f h = h
  start_all-Approved (node ∷ nodes) f h = start_all-Approved nodes (set_status node.id running f) h

  module _ (handle : FlowRun → WorkflowNode → NodeOutcome) where
    caught-Approved :
        (n : ℕ) (node : WorkflowNode) (message : String) (f : FlowRun)
        → ((g : FlowRun) → Approved d g → Approved d (attempts w handle n node g).1)
        → Approved d f
        → Approved d (caught w handle node message f (attempts w handle n node)).1
    unfolding Approved
    caught-Approved n node message f again h = elim (Bool-cases (may_retry w node f)) [
      | inl yes_ ↦
          rw yes_ (again (emit node_retry (some node.id) (get node.id f.state.attempts) f) h)
      | inr no_ ↦ rw no_ (fail-Approved node message f h)
    ]

    told-Approved :
        (n : ℕ) (node : WorkflowNode) (o : Option String) (f : FlowRun)
        → ((g : FlowRun) → Approved d g → Approved d (attempts w handle n node g).1)
        → Approved d f
        → Approved d (told w handle node o f (attempts w handle n node)).1
    told-Approved n node none f again h = h
    told-Approved n node (some message) f again h = caught-Approved n node message f again h

    conclude-Approved :
        (n : ℕ) (node : WorkflowNode) (o : NodeOutcome) (f : FlowRun)
        → ((g : FlowRun) → Approved d g → Approved d (attempts w handle n node g).1)
        → Approved d f
        → Approved d (conclude w handle node o f (attempts w handle n node)).1
    unfolding Approved
    conclude-Approved n node (output value branches) f again h =
        told-Approved n node _ (finish w node value branches f) again
          (finish-Approved node value branches f h)
    conclude-Approved n node (waits at) f again h =
        told-Approved n node _ (hold w node at f) again h
    conclude-Approved n node (throws message) f again h = caught-Approved n node message f again h

    attempts-Approved :
        (n : ℕ) (node : WorkflowNode) (f : FlowRun)
        → MayRun d node
        → Approved d f
        → Approved d (attempts w handle n node f).1
    unfolding attempts Approved
    attempts-Approved zero node f may h = h
    attempts-Approved (suc n) node f may h =
        conclude-Approved n node (handle (count_attempt node f) node) (count_attempt node f)
          (λ g. attempts-Approved n node g may) (h.0, (may, h.1))

    decided-Approved :
        (o : Option ApprovalDecision) (node : WorkflowNode) (f : FlowRun)
        → o ≡ decision_at node.id d
        → Approved d f
        → Approved d (decided w handle node o f)
    unfolding Approved MayRun
    decided-Approved none node f e h = h
    decided-Approved (some rejected) node f e h =
        fail-Approved node "Aprobación rechazada por el responsable" f h
    decided-Approved (some approved) node f e h =
        attempts-Approved (enough_attempts w handle node) node f
          (λ n. decision_at-approved node.id d (sym e)) h

    execute-Approved :
        (node : WorkflowNode) (f : FlowRun) → Approved d f → Approved d (execute w handle node f)
    unfolding execute Approved MayRun
    execute-Approved node f h = elim (Bool-cases (needs_approval node)) [
      | inl yes_ ↦ rw yes_ (
          decided-Approved (decision_at node.id f.approvals) node
            (emit node_started (some node.id) none f) (ap (decision_at node.id) h.0) h)
      | inr no_ ↦ rw no_ (
          attempts-Approved (enough_attempts w handle node) node
            (emit node_started (some node.id) none f) (λ e. absurd (cc (e, no_))) h)
    ]

    run_nodes-Approved :
        (nodes : List WorkflowNode) (f : FlowRun)
        → Approved d f
        → Approved d (run_nodes w handle nodes f)
    unfolding run_nodes
    run_nodes-Approved [] f h = h
    run_nodes-Approved (node ∷ nodes) f h =
        run_nodes-Approved nodes (execute w handle node f) (execute-Approved node f h)

    rounds-Approved :
        (expired : ℕ → Bool) (n : ℕ) (f : FlowRun)
        → Approved d f
        → Approved d (run_rounds w handle expired n f).1
    unfolding run_rounds Approved
    rounds-Approved expired zero f h = h
    rounds-Approved expired (suc n) f h = elim (Bool-cases (expired n)) [
      | inl late ↦ rw late h
      | inr early ↦
          let g = settled w handle f in
          let before = skip_passes-Approved (length w.nodes + 1) f h in
          elim (Bool-cases (is_set g.fatal || is_empty (ready_nodes w g))) [
            | inl over ↦ rw (early, over) before
            | inr more ↦
                let batch = batch_of w (ready_nodes w g) in
                let next = rounds-Approved expired n (run_batch w handle batch g) (
                  run_nodes-Approved batch (start_all batch g)
                    (start_all-Approved batch g before)) in
                rw (early, more) next
          ]
    ]

pub run_rounds-Approved :
    (w : AutomationWorkflow) (handle : FlowRun → WorkflowNode → NodeOutcome) (expired : ℕ → Bool)
    (n : ℕ) (f : FlowRun)
    → f.handled ≡ []
    → Approved f.approvals (run_rounds w handle expired n f).1
unfolding Approved
run_rounds-Approved w handle expired n f h =
    rounds-Approved w f.approvals handle expired n f (refl, rw h tt)
