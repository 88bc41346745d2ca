-- ===== src/Flow/Rounds/Ends.antt =====
-- packages/automation/src/flow-runner.ts: the loops of `runWorkflow` end.
use janus_core.Base.{
  ℕ, zero, suc, ◌+◌, ◌-◌, ◌≤◌, ◌<◌, max, ◌≡◌, refl, sym, ap, ◌∙◌, inl, inr, Bool, true, false, ◌||◌,
  List, [], ◌∷◌, arith, if◌then◌else◌, Bool-cases, length, take, is_empty, keep, All, All-map,
  get-set_same,
}
use mathlib.Core.Path.{subst}
use janus_core.Base.Members.{IsIn, keep-IsIn, keep-le, keep-lt}
use janus_core.Base.Number.{floor}
use janus_core.Workflow.Types.{WorkflowNode, AutomationWorkflow}
use janus_core.Workflow.Execution.{running, skipped}
use janus_core.Flow.{
  FlowRun, NodeOutcome, status_of, set_status, is_pending, skip, is_skippable, is_ready, skip_pass,
  skip_passes, ready_nodes, batch_of,
}
use janus_core.Flow.Nodes.{execute, attempts, enough_attempts}
use janus_core.Flow.Nodes.Settles.{NoNew, set_status-NoNew, execute-NoNew, enough}
use janus_core.Flow.Rounds.{start_all, run_nodes, settled, run_batch, run_rounds, is_set}

module _ (w : AutomationWorkflow) where
  skip_pass-NoNew :
      (nodes : List WorkflowNode) (c : Bool) (f : FlowRun) → NoNew f (skip_pass w nodes (c, f)).1
  unfolding skip_pass NoNew
  skip_pass-NoNew [] c f id e = e
  skip_pass-NoNew (node ∷ nodes) c f id e = elim (Bool-cases (is_skippable w f node)) [
    | inl yes_ ↦
        set_status-NoNew node.id skipped f refl id
          (skip_pass-NoNew nodes true (skip node f) id (rw (yes_, is_pending) at e))
    | inr no_ ↦ skip_pass-NoNew nodes c f id (rw (no_, is_pending) at e)
  ]

  skip_passes-NoNew : (n : ℕ) (f : FlowRun) → NoNew f (skip_passes w n f).1
  unfolding skip_passes NoNew
  skip_passes-NoNew zero f id e = e
  skip_passes-NoNew (suc n) f id e = elim (Bool-cases ((skip_pass w w.nodes (false, f)).0)) [
    | inl yes_ ↦
        skip_pass-NoNew w.nodes false f id
          (skip_passes-NoNew n (skip_pass w w.nodes (false, f)).1 id (rw yes_ at e))
    | inr no_ ↦ skip_pass-NoNew w.nodes false f id (rw no_ at e)
  ]

  abbrev pending_count : FlowRun → ℕ
  pending_count f = length (keep (λ n. is_pending (status_of n.id f)) w.nodes)

  NoNew-pending_count : (f g : FlowRun) → NoNew f g → pending_count g ≤ pending_count f
  unfolding NoNew
  NoNew-pending_count f g a =
      keep-le (λ n. is_pending (status_of n.id f)) (λ n. is_pending (status_of n.id g))
        (λ n. a n.id) w.nodes

module _ (w : AutomationWorkflow) where
  skip-lt :
      (f : FlowRun) (node : WorkflowNode)
      → IsIn node w.nodes
      → is_skippable w f node ≡ true
      → pending_count w (skip node f) < pending_count w f
  unfolding is_skippable NoNew
  skip-lt f node i h =
      keep-lt (λ n. is_pending (status_of n.id f)) (λ n. is_pending (status_of n.id (skip node f)))
        (λ n. set_status-NoNew node.id skipped f refl n.id) node w.nodes i (ground (arith, h))
        (ap is_pending (get-set_same node.id skipped f.state.node_status))

  pub skip_pass_yes :
      (node : WorkflowNode) (nodes : List WorkflowNode) (c : Bool) (f : FlowRun)
      → is_skippable w f node ≡ true
      → skip_pass w (node ∷ nodes) (c, f) ≡ skip_pass w nodes (true, skip node f)
  unfolding skip_pass
  skip_pass_yes node nodes c f e =
      ap (λ b. skip_pass w nodes (if b then (true, skip node f) else (c, f))) e

  pub skip_pass_no :
      (node : WorkflowNode) (nodes : List WorkflowNode) (c : Bool) (f : FlowRun)
      → is_skippable w f node ≡ false
      → skip_pass w (node ∷ nodes) (c, f) ≡ skip_pass w nodes (c, f)
  unfolding skip_pass
  skip_pass_no node nodes c f e =
      ap (λ b. skip_pass w nodes (if b then (true, skip node f) else (c, f))) e

  skip_pass-lt :
      (nodes : List WorkflowNode) (f : FlowRun)
      → All (λ n. IsIn n w.nodes) nodes
      → (skip_pass w nodes (false, f)).0 ≡ true
      → pending_count w (skip_pass w nodes (false, f)).1 < pending_count w f
  unfolding skip_pass
  skip_pass-lt [] f i h = absurd (cc)
  skip_pass-lt (node ∷ nodes) f (i, is) h = elim (Bool-cases (is_skippable w f node)) [
    | inl yes_ ↦
        let one = skip-lt f node i yes_ in
        let rest =
          NoNew-pending_count w (skip node f) (skip_pass w nodes (true, skip node f)).1
            (skip_pass-NoNew w nodes true (skip node f)) in
        subst (λ x. pending_count w x.1 < pending_count w f)
          (sym (skip_pass_yes node nodes false f yes_)) (omega (arith, one, rest))
    | inr no_ ↦
        let same = skip_pass_no node nodes false f no_ in
        subst (λ x. pending_count w x.1 < pending_count w f) (sym same)
          (skip_pass-lt nodes f is (ap (λ x. x.0) (sym same) ∙ h))
  ]

  nodes_all : (nodes : List WorkflowNode) → All (λ n. IsIn n nodes) nodes
  nodes_all [] = tt
  nodes_all (n ∷ ns) =
      (inl refl, All-map (λ m. IsIn m ns) (λ m. IsIn m (n ∷ ns)) (λ m i. inr i) ns (nodes_all ns))

  passes_end : (n : ℕ) (f : FlowRun) → pending_count w f < n → (skip_passes w n f).0 ≡ true
  unfolding skip_passes
  passes_end zero f h = absurd (omega (arith, h))
  passes_end (suc n) f h = elim (Bool-cases ((skip_pass w w.nodes (false, f)).0)) [
    | inl changed ↦ rw changed (
        passes_end n (skip_pass w w.nodes (false, f)).1
          (omega (arith, h, skip_pass-lt w.nodes f (nodes_all w.nodes) changed)))
    | inr still ↦ rw still refl
  ]

length-keep : {A : Type 0} (p : A → Bool) (xs : List A) → length (keep p xs) ≤ length xs
length-keep p [] = omega arith
length-keep p (x ∷ xs) = elim (Bool-cases (p x)) [
  | inl yes_ ↦ rw yes_ (omega (arith, length-keep p xs))
  | inr no_ ↦ rw no_ (omega (arith, length-keep p xs))
]

nonempty :
    {A : Type 0} (xs : List A) → is_empty xs ≡ false → (a : A) × (as' : List A) × (xs ≡ a ∷ as')
nonempty [] h = absurd (cc)
nonempty (x ∷ xs) h = (x, xs, refl)

start_all-NoNew : (nodes : List WorkflowNode) (f : FlowRun) → NoNew f (start_all nodes f)
unfolding start_all NoNew
start_all-NoNew [] f id e = e
start_all-NoNew (node ∷ nodes) f id e =
    set_status-NoNew node.id running f refl id
      (start_all-NoNew nodes (set_status node.id running f) id e)

module _ (w : AutomationWorkflow) (handle : FlowRun → WorkflowNode → NodeOutcome) where
  run_nodes-NoNew : (nodes : List WorkflowNode) (f : FlowRun) → NoNew f (run_nodes w handle nodes f)
  unfolding run_nodes NoNew
  run_nodes-NoNew [] f id e = e
  run_nodes-NoNew (node ∷ nodes) f id e =
      execute-NoNew w handle node f id (run_nodes-NoNew nodes (execute w handle node f) id e)

  batch-NoNew : (nodes : List WorkflowNode) (f : FlowRun) → NoNew f (run_batch w handle nodes f)
  unfolding NoNew
  batch-NoNew nodes f id e =
      start_all-NoNew nodes f id (run_nodes-NoNew nodes (start_all nodes f) id e)

  -- A batch takes its first node out of the pending ones.
  batch_first :
      (node : WorkflowNode) (nodes : List WorkflowNode) (f : FlowRun)
      → is_pending (status_of node.id (run_batch w handle (node ∷ nodes) f)) ≡ false
  unfolding NoNew start_all
  batch_first node nodes f =
      elim (Bool-cases (is_pending (status_of node.id (run_batch w handle (node ∷ nodes) f)))) [
        | inr no_ ↦ no_
        | inl yes_ ↦
            let before =
              start_all-NoNew nodes (set_status node.id running f) node.id
                (run_nodes-NoNew (node ∷ nodes) (start_all (node ∷ nodes) f) node.id yes_) in
            absurd (cc (before, ap is_pending (get-set_same node.id running f.state.node_status)))
      ]

  ready-IsIn :
      (f : FlowRun) (node : WorkflowNode) (nodes : List WorkflowNode)
      → ready_nodes w f ≡ node ∷ nodes
      → IsIn node w.nodes × (is_pending (status_of node.id f) ≡ true)
  unfolding is_ready
  ready-IsIn f node nodes e =
      let (i, h) = keep-IsIn (is_ready w f) node w.nodes (rw e (inl refl)) in (i, ground (arith, h))

  round-lt :
      (f : FlowRun) (node : WorkflowNode) (nodes : List WorkflowNode)
      → ready_nodes w f ≡ node ∷ nodes
      → pending_count w (run_batch w handle (batch_of w (node ∷ nodes)) f) < pending_count w f
  unfolding NoNew
  round-lt f node nodes e =
      let (i, h) = ready-IsIn f node nodes e in
      let room : max 1 (floor w.max_concurrency) ≡ suc (max 1 (floor w.max_concurrency) - 1) =
        omega arith in
      let batch : batch_of w (node ∷ nodes)
          ≡ node ∷ take (max 1 (floor w.max_concurrency) - 1) nodes =
        ap (λ k. take k (node ∷ nodes)) room in
      keep-lt (λ n. is_pending (status_of n.id f))
        (λ n. is_pending (status_of n.id (run_batch w handle (batch_of w (node ∷ nodes)) f)))
        (λ n. batch-NoNew (batch_of w (node ∷ nodes)) f n.id) node w.nodes i h
        (rw batch (batch_first node (take (max 1 (floor w.max_concurrency) - 1) nodes) f))

  rounds_end :
      (expired : ℕ → Bool) (n : ℕ) (f : FlowRun)
      → pending_count w f < n
      → (run_rounds w handle expired n f).0 ≡ true
  unfolding run_rounds NoNew
  rounds_end expired zero f h = absurd (omega (arith, h))
  rounds_end expired (suc n) f h = elim (Bool-cases (expired n)) [
    | inl late ↦ rw late refl
    | inr early ↦
        elim (Bool-cases
          (is_set (settled w handle f).fatal || is_empty (ready_nodes w (settled w handle f)))) [
            | inl over ↦ rw (early, over) refl
            | inr more ↦
                let g = settled w handle f in
                let (node, nodes, e) = nonempty (ready_nodes w g) (ground (arith, more)) in
                let less_ =
                  NoNew-pending_count w f g (skip_passes-NoNew w (length w.nodes + 1) f) in
                let next =
                  rounds_end expired n (run_batch w handle (batch_of w (ready_nodes w g)) g)
                    (rw e (omega (arith, h, less_, round-lt g node nodes e))) in
                rw (early, more) next
          ]
  ]

-- The loops of a run end by themselves: the passes that hand omissions on within one more than there
-- are nodes, the attempts at a node within those that its limit allows, and the main loop within one
-- round more than there are nodes, whatever the nodes do and however they fail.
pub loops_end :
    (w : AutomationWorkflow) (handle : FlowRun → WorkflowNode → NodeOutcome) (expired : ℕ → Bool)
    (node : WorkflowNode) (f : FlowRun)
    → ((skip_passes w (length w.nodes + 1) f).0 ≡ true)
      × ((attempts w handle (enough_attempts w handle node) node f).0 ≡ true)
      × ((run_rounds w handle expired (length w.nodes + 1) f).0 ≡ true)
loops_end w handle expired node f =
    let few = length-keep (λ n. is_pending (status_of n.id f)) w.nodes in
    (
      passes_end w (length w.nodes + 1) f (omega (arith, few)),
      enough w handle node f,
      rounds_end w handle expired (length w.nodes + 1) f (omega (arith, few)),
    )
