-- ===== src/Run/Kept.antt =====
-- `execute` and all that it calls, against a predicate on the log.
use janus_core.Base.{
  ℕ, String, ◌⊎◌, inl, inr, Bool, true, false, not, ◌&&◌, ◌||◌, Option, none, some, List, [], ◌∷◌,
  if◌then◌else◌, Bool-cases, string_eq, number_eq, has,
}
use janus_core.Authority.{AuthorityDecision}
use janus_core.Run.Types.{
  running, waiting_approval, blocked, completed, failed, run_started, run_step_started,
  run_step_completed, run_completed, run_failed, authority_evaluated, approval_required,
  run_blocked, core, system, ObservableAction, text, Payload, JanusEvent, Control, Options, Runner,
  Failure, run_cancelled_error, Approval, decided, handler_threw, ActionExecutionPermit,
  RunSnapshot, snapshot, Result, done, thrown, waiting, Exec, pure, is_cancelled,
}
use janus_core.Run.Emit.{apply_all, interrupted, turn, emit}
use janus_core.Run.Authorize.{
  wait_while_paused, checkpoint, block_run, deny, demand_confirmation, authorize, seek_approval,
  answer, consult, request_approval, is_stopped, unprivileged, permit_of, confirmed_actions,
  clearance, assert_can_execute, operation_of, is_privileged_action, decision_for,
}
use janus_core.Run.Execute.{
  Body, return, raise, await_then, read_signal, checkpoint_then, emit_then, assert_then, JanusStep,
  hand_on, hand_permit, run_body, run_step, run_steps, attempt, settle, execute, is_cancel, is_held,
}
use janus_core.Run.Invariant.{
  After, Keeps, chain-After, >>=-Keeps, IsKept, Holds, apply_all-Holds, interrupted-Holds,
}
use janus_core.Run.Gated.{emit-Keeps}

module _ (o : Options) (P : ℕ → List JanusEvent → Bool → Type 0) (kept : IsKept o P) where
  abbrev State : Runner → Type 0
  State = Holds o P kept

  wait-Keeps : (slots : List (List Control)) → Keeps State (wait_while_paused slots o)
  unfolding wait_while_paused
  wait-Keeps [] r h = elim (Bool-cases r.is_paused) [
    | inl held ↦ rw (held, wait_while_paused) h
    | inr on ↦ rw (on, wait_while_paused) h
  ]
  wait-Keeps (calls ∷ later) r h = elim (Bool-cases r.is_paused) [
    | inr on ↦ rw (on, wait_while_paused) h
    | inl held ↦
        let r' = apply_all o calls (record r { schedule = later }) in
        let h' : State r' = apply_all-Holds o P kept calls (record r { schedule = later }) h in
        elim (Bool-cases (is_stopped r')) [
          | inl stop ↦ rw (held, stop, wait_while_paused) h'
          | inr on ↦ rw (held, on, wait_while_paused) (wait-Keeps later r' h')
        ]
  ]

  turn-After : {A : Type 0} (m : Result A) → After State m → After State (turn o m)
  turn-After (done a r) h = interrupted-Holds o P kept r h
  turn-After (thrown f r) h = interrupted-Holds o P kept r h
  turn-After (waiting r) h = h

  tested-Keeps :
      Keeps State (λ r.
        if is_stopped r then thrown run_cancelled_error r else wait_while_paused r.schedule o r)
  tested-Keeps r h = elim (Bool-cases (is_stopped r)) [
    | inl stop ↦ rw stop h
    | inr on ↦ rw on (wait-Keeps r.schedule r h)
  ]

  checkpoint-Keeps : Keeps State (checkpoint o)
  unfolding checkpoint
  checkpoint-Keeps r h = turn-After _ (tested-Keeps r h)

  if-Keeps :
      {A : Type 0} (b : Bool) (m n : Exec A)
      → Keeps State m
      → Keeps State n
      → Keeps State (if b then m else n)
  if-Keeps true m n hm hn = hm
  if-Keeps false m n hm hn = hn

  block-Keeps : (why : String) (details : Payload) → Keeps State (block_run o why details)
  unfolding block_run
  block-Keeps why details r h =
      emit-Keeps o P kept run_blocked why details core (record r { status = blocked }) h

  deny-Keeps : (a : ObservableAction) (d : AuthorityDecision) → Keeps State (deny o a d)
  unfolding deny
  deny-Keeps a d = >>=-Keeps State (block_run o _ _) _ (block-Keeps _ _) (λ _ r h. h)

  demand-Keeps :
      (a : ObservableAction) (d : AuthorityDecision) → Keeps State (demand_confirmation o a d)
  unfolding demand_confirmation
  demand-Keeps a d r h =
      >>=-Keeps State (emit o approval_required _ _ core) _
        (emit-Keeps o P kept approval_required _ _ core)
        (λ _. >>=-Keeps State (block_run o _ _) _ (block-Keeps _ _) (λ _ r h. h))
        (record r { status = waiting_approval }) h

  authorize-Keeps : (a : ObservableAction) (d : AuthorityDecision) → Keeps State (authorize o a d)
  unfolding authorize
  authorize-Keeps a d =
      >>=-Keeps State (emit o authority_evaluated _ _ system) _
        (emit-Keeps o P kept authority_evaluated _ _ system)
        λ _. if-Keeps (not d.allowed) (deny o a d) _ (deny-Keeps a d) (
          if-Keeps (d.requires_confirmation && not (has (operation_of a) (confirmed_actions o)))
            (demand_confirmation o a d) (pure (permit_of o d)) (demand-Keeps a d) (λ r h. h))

  clearance-Keeps : (a : ObservableAction) → Keeps State (clearance o a)
  unfolding clearance
  clearance-Keeps a =
      if-Keeps (is_privileged_action a o.authority_policy)
        (authorize o a (decision_for o (operation_of a))) (pure (unprivileged o))
        (authorize-Keeps a _) (λ r h. h)

  answer-Keeps : (a : ObservableAction) (x : Approval) → Keeps State (answer o a x)
  answer-Keeps a (handler_threw m) = λ r h. h
  answer-Keeps a (decided true why) = λ r h. h
  answer-Keeps a (decided false why) =
      >>=-Keeps State (block_run o _ _) _ (block-Keeps _ _) (λ _ r h. h)

  consult-Keeps :
      (a : ObservableAction) (handler : Option (ObservableAction → RunSnapshot → Approval))
      → Keeps State (consult o a handler)
  consult-Keeps a none = >>=-Keeps State (block_run o _ _) _ (block-Keeps _ _) (λ _ r h. h)
  consult-Keeps a (some handler) = λ r h.
      answer-Keeps a (handler a (snapshot o r)) (interrupted o r) (interrupted-Holds o P kept r h)

  seek-Keeps :
      (a : ObservableAction) (p : ActionExecutionPermit) → Keeps State (seek_approval o a p)
  unfolding seek_approval
  seek-Keeps a p =
      if-Keeps a.requires_approval (request_approval o a p) (pure tt)
        (λ r h.
          >>=-Keeps State (emit o approval_required _ _ core) _
            (emit-Keeps o P kept approval_required _ _ core)
            (λ _. consult-Keeps a o.approval_handler) (record r { status = waiting_approval }) h)
        (λ r h. h)

  assert-Keeps : (a : ObservableAction) → Keeps State (assert_can_execute o a)
  unfolding assert_can_execute
  assert-Keeps a = >>=-Keeps State (checkpoint o) _ checkpoint-Keeps λ _.
      >>=-Keeps State (clearance o a) _ (clearance-Keeps a) λ permit.
        >>=-Keeps State (seek_approval o a permit) _ (seek-Keeps a permit) λ _ r h.
          >>=-Keeps State (checkpoint o) _ checkpoint-Keeps (λ _ r h. h)
            (record r { status = running }) h

  hand_on-After :
      (m : Result (Unit {0})) (k : Option Failure → Exec (Unit {0}))
      → After State m
      → ((f : Option Failure) → Keeps State (k f))
      → After State (hand_on o m k)
  hand_on-After (done u r) k h f = f none r h
  hand_on-After (thrown e r) k h f = f (some e) r h
  hand_on-After (waiting r) k h f = h

  hand_permit-After :
      (m : Result ActionExecutionPermit) (k : Failure ⊎ ActionExecutionPermit → Exec (Unit {0}))
      → After State m
      → ((f : Failure ⊎ ActionExecutionPermit) → Keeps State (k f))
      → After State (hand_permit o m k)
  hand_permit-After (done p r) k h f = f (inr p) r h
  hand_permit-After (thrown e r) k h f = f (inl e) r h
  hand_permit-After (waiting r) k h f = h

  body-Keeps : (b : Body) → Keeps State (run_body o b)
  unfolding run_body
  body-Keeps return r h = h
  body-Keeps (raise f) r h = h
  body-Keeps (await_then b) r h = body-Keeps b (interrupted o r) (interrupted-Holds o P kept r h)
  body-Keeps (read_signal k) r h = body-Keeps (k r.aborted) r h
  body-Keeps (checkpoint_then k) r h =
      hand_on-After (checkpoint o r) _ (checkpoint-Keeps r h) (λ f. body-Keeps (k f))
  body-Keeps (emit_then type summary payload source k) r h =
      hand_on-After (emit o type summary payload source r) _
        (emit-Keeps o P kept type summary payload source r h) (λ f. body-Keeps (k f))
  body-Keeps (assert_then a k) r h =
      hand_permit-After (assert_can_execute o a r) _ (assert-Keeps a r h) (λ p. body-Keeps (k p))

  step-Keeps : (step : JanusStep) → Keeps State (run_step o step)
  unfolding run_step
  step-Keeps step = >>=-Keeps State (checkpoint o) _ checkpoint-Keeps λ _ r h.
      >>=-Keeps State (emit o run_step_started _ _ core) _
        (emit-Keeps o P kept run_step_started _ _ core)
        (λ _.
          >>=-Keeps State (λ r. turn o (run_body o step.run r)) _
            (λ r h. turn-After _ (body-Keeps step.run r h))
            λ _.
              >>=-Keeps State (checkpoint o) _ checkpoint-Keeps
                λ _. emit-Keeps o P kept run_step_completed _ _ core)
        (record r { current_step = some step.id }) h

  steps-Keeps : (steps : List JanusStep) → Keeps State (run_steps o steps)
  unfolding run_steps
  steps-Keeps [] r h = h
  steps-Keeps (step ∷ steps) r h =
      >>=-Keeps State (run_step o step) _ (step-Keeps step) (λ _. steps-Keeps steps) r h

  attempt-Keeps : (steps : List JanusStep) → Keeps State (attempt o steps)
  unfolding attempt
  attempt-Keeps steps = >>=-Keeps State (run_steps o steps) _ (steps-Keeps steps) λ _ r h.
      >>=-Keeps State (emit o run_completed _ _ core) _ (emit-Keeps o P kept run_completed _ _ core)
        (λ _ r h. h) (record r { current_step = none; status = completed }) h

  settle-After :
      (describe : Failure → String) (m : Result RunSnapshot)
      → After State m
      → After State (settle o describe m)
  unfolding settle
  settle-After describe (done s r) h = h
  settle-After describe (waiting r) h = h
  settle-After describe (thrown f r) h =
      elim (Bool-cases (is_cancel o f || is_cancelled r.status || is_held o r.status)) [
        | inl held ↦ rw (held, settle) h
        | inr bad ↦
            rw (bad, settle)
              (chain-After State
                (emit o run_failed "La ejecución encontró un error"
                  (("error", text (describe f)) ∷ []) core (record r { status = failed }))
                _ (emit-Keeps o P kept run_failed _ _ core (record r { status = failed }) h)
                (λ _ r' h'. h'))
      ]

  pub execute-Keeps :
      (describe : Failure → String) (steps : List JanusStep)
      → Keeps State (execute o describe steps)
  unfolding execute
  execute-Keeps describe steps r h =
      >>=-Keeps State (emit o run_started _ _ core) _ (emit-Keeps o P kept run_started _ _ core)
        (λ _ r h. settle-After describe (attempt o steps r) (attempt-Keeps steps r h))
        (record r { status = running }) h
