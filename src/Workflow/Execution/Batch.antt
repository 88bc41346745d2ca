-- ===== src/Workflow/Execution/Batch.antt =====
-- Batches and retries of packages/automation/src/execution.ts.
use janus_core.Base.{
  ℕ, zero, suc, max, ◌*◌, ◌^◌, refl, sym, ap, ◌∙◌, ◌-◌, ◌≤◌, ◌<◌, String, ◌≡◌, ◌↔◌, inl, inr, true,
  false, not, ◌||◌, Option, none, some, List, [], ◌∷◌, arith, Bool-cases, length, take, all, keep,
  All, All-map, keep-All, All-take, length-take, get,
}
use janus_core.Base.Number.{Number, whole, less, times}
use mathlib.Core.Option.{Option-elim}
use native.Mathlib.Nat.{pow-suc, mul_assoc}
use janus_core.Workflow.Types.{WorkflowRetryPolicy, WorkflowNode, AutomationWorkflow}
use janus_core.Workflow.{workflow_upstream_node_ids}
use janus_core.Workflow.Execution.{
  WorkflowExecutionState, is_completed, is_skipped, is_startable, is_ready, matches,
  ready_workflow_nodes, running_count, capacity, next_workflow_batch, smaller,
  can_retry_workflow_node, next_retry_delay_ms,
}

-- A node that may start: it is enabled, it has not started, and every node in front of it, over a
-- connection that is no error branch, is completed or skipped.
pub record CanStart (w : AutomationWorkflow) (s : WorkflowExecutionState) (n : WorkflowNode)
    : Type 0 where
  pub enabled : n.disabled ≡ false
  pub startable : is_startable (get n.id s.node_status) ≡ true
  pub upstream :
      All
        (λ id. (is_completed (get id s.node_status) || is_skipped (get id s.node_status)) ≡ true)
        (workflow_upstream_node_ids w n.id)

module _ (w : AutomationWorkflow) (s : WorkflowExecutionState) where
  upstream_done :
      (ids : List String)
      → all
          (λ id. is_completed (get id s.node_status))
          (keep (λ id. not (is_skipped (get id s.node_status))) ids)
        ≡ true
      → All
          (λ id. (is_completed (get id s.node_status) || is_skipped (get id s.node_status)) ≡ true)
          ids
  upstream_done [] h = tt
  upstream_done (id ∷ ids) h = elim (Bool-cases (is_skipped (get id s.node_status))) [
    | inl yes_ ↦ (ground (arith, yes_), upstream_done ids (rw yes_ at h))
    | inr no_ ↦ let k = rw no_ at h in (ground (arith, k), upstream_done ids (ground (arith, k)))
  ]

  ready-CanStart : (n : WorkflowNode) → is_ready w s n ≡ true → CanStart w s n
  unfolding is_ready
  ready-CanStart n h = record {
    enabled = ground (arith, h);
    startable = ground (arith, h);
    upstream = upstream_done (workflow_upstream_node_ids w n.id) (ground (arith, h));
  }

  -- A batch is given only for the workflow and revision that the state belongs to. With an integer
  -- `maxConcurrency` it has no more nodes than the limit leaves beside the running ones, and each
  -- node of it may start.
  pub next_workflow_batch-CanStart :
      (limit : ℕ) (batch : List WorkflowNode)
      → w.max_concurrency ≡ whole limit
      → next_workflow_batch w s ≡ some batch
      → (matches w s ≡ true) × (length batch ≤ limit - running_count s) × All (CanStart w s) batch
  unfolding next_workflow_batch ready_workflow_nodes
  next_workflow_batch-CanStart limit batch e h = elim (Bool-cases (matches w s)) [
    | inr no_ ↦ absurd (cc (rw (no_, next_workflow_batch, ready_workflow_nodes) at h))
    | inl yes_ ↦
        let same = rw (yes_, next_workflow_batch, ready_workflow_nodes) at h in
        let room : capacity w.max_concurrency (running_count s) ≡ limit - running_count s =
          rw e (omega arith) in
        let eq : take (capacity w.max_concurrency (running_count s)) (keep (is_ready w s) w.nodes)
            ≡ batch =
          cc in
        rw (← eq) (
          yes_,
          omega (
            arith,
            room,
            length-take (capacity w.max_concurrency (running_count s))
                (keep (is_ready w s) w.nodes),
          ),
          All-take (CanStart w s) _ (keep (is_ready w s) w.nodes) (
              All-map (λ n. is_ready w s n ≡ true) (CanStart w s) ready-CanStart _
                (keep-All (is_ready w s) w.nodes)),
        )
  ]

less_irrefl : (a : Number) → less a a ≡ false
less_irrefl a = ground arith

less-smaller : (a b : Number) → less b (smaller a b) ≡ false
less-smaller a b = elim (Bool-cases (less b a)) [
  | inl yes_ ↦ rw yes_ (less_irrefl b)
  | inr no_ ↦ rw no_ no_
]

less-whole : (k limit : ℕ) (n : Number) → n ≡ whole limit → (less (whole k) n ≡ true) ↔ (k < limit)
less-whole k limit n e = rw e (λ h. ground (arith, h), λ h. ground (arith, h))

-- A delay within a limit, where there is one.
abbrev pub WithinCap : Option Number → Number → Type 0
WithinCap none delay = Unit
WithinCap (some longest) delay = less longest delay ≡ false

abbrev pub capped : Option Number → Number → Number
capped none delay = delay
capped (some longest) delay = smaller delay longest

-- The first delay, doubled so many times.
abbrev pub doubled : Number → ℕ → Number
doubled first zero = first
doubled first (suc k) = times (doubled first k) 2

times-one : (a : Number) → times a 1 ≡ a
times-one a = rw (one a.above, one a.below) refl
  where
    one : (x : ℕ) → x * 1 ≡ x
    one x = omega arith

times-double : (a : Number) (k : ℕ) → times a (2 ^ suc k) ≡ times (times a (2 ^ k)) 2
times-double a k = rw (double a.above, double a.below) refl
  where
    double : (x : ℕ) → x * 2 ^ suc k ≡ (x * 2 ^ k) * 2
    double x = ap (λ y. x * y) (pow-suc 2 k) ∙ sym (mul_assoc x (2 ^ k) 2)

times-doubled : (a : Number) (k : ℕ) → times a (2 ^ k) ≡ doubled a k
times-doubled a zero = times-one a
times-doubled a (suc k) = times-double a k ∙ ap (λ x. times x 2) (times-doubled a k)

smaller-capped :
    (delay : Number) (m : Option Number)
    → smaller delay (Option-elim m delay (λ m. m)) ≡ capped m delay
unfolding Option-elim
smaller-capped delay none = rw (less_irrefl delay) refl
smaller-capped delay (some longest) = refl

WithinCap-capped : (m : Option Number) (delay : Number) → WithinCap m (capped m delay)
WithinCap-capped none delay = tt
WithinCap-capped (some longest) delay = less-smaller delay longest

-- A node with a retry policy is retried exactly while it has made fewer attempts than
-- `maxAttempts`, an integer. The delay after the first attempt is `backoffMs`, each further attempt
-- doubles it, and `maxBackoffMs`, where the policy has one, cuts it: it is never longer.
pub next_retry-bounds :
    (node : WorkflowNode) (s : WorkflowExecutionState) (retry : WorkflowRetryPolicy)
    (attempts limit : ℕ)
    → node.retry ≡ some retry
    → get node.id s.attempts ≡ some attempts
    → retry.max_attempts ≡ whole limit
    → ((can_retry_workflow_node node s ≡ true) ↔ (attempts < limit))
      × (next_retry_delay_ms node s
          ≡ capped retry.max_backoff_ms (doubled retry.backoff_ms (attempts - 1)))
      × WithinCap retry.max_backoff_ms (next_retry_delay_ms node s)
unfolding can_retry_workflow_node next_retry_delay_ms Option-elim
next_retry-bounds node s retry attempts limit e a m =
    let power : max 1 attempts - 1 ≡ attempts - 1 = omega arith in
    let delay : next_retry_delay_ms node s
        ≡ capped retry.max_backoff_ms (doubled retry.backoff_ms (attempts - 1)) =
      rw (e, a)
        (smaller-capped _ retry.max_backoff_ms
          ∙ ap (capped retry.max_backoff_ms)
              (rw power (times-doubled retry.backoff_ms (attempts - 1)))) in
    (
      rw (e, a) (less-whole attempts limit retry.max_attempts m),
      delay,
      rw delay (WithinCap-capped retry.max_backoff_ms _),
    )
