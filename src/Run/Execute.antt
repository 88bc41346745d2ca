-- ===== src/Run/Execute.antt =====
-- `execute`: the steps of a run, and what a step's code can do.
use janus_core.Base.{
  String, ◌⊎◌, inl, inr, Bool, true, false, ◌||◌, Option, none, some, List, [], ◌∷◌, if◌then◌else◌,
  length,
}
use Prim.Native.String
use janus_core.Run.Types.{
  RunStatus, running, blocked, paused, completed, failed, EventType, run_started, run_step_started,
  run_step_completed, run_completed, run_failed, EventSource, core, ObservableAction, text, number,
  Payload, Options, Failure, run_cancelled_error, ActionExecutionPermit, RunSnapshot, snapshot,
  Result, done, thrown, waiting, Exec, chain, ◌>>◌, pure, throw, update, set_status, is_cancelled,
}
use janus_core.Run.Emit.{interrupted, turn, emit}
use janus_core.Run.Authorize.{checkpoint, assert_can_execute}

-- The code of a step, by what it does with its context: each call hands its outcome on, so that a
-- step may catch what a call throws. `await` is any other wait.
pub data Body : Type 0 where
  return : Body
  raise : Failure → Body
  await_then : Body → Body
  read_signal : (Bool → Body) → Body
  checkpoint_then : (Option Failure → Body) → Body
  emit_then : EventType → String → Payload → EventSource → (Option Failure → Body) → Body
  assert_then : ObservableAction → (Failure ⊎ ActionExecutionPermit → Body) → Body

pub record JanusStep : Type 0 where
  pub id : String
  pub label : String
  pub run : Body

module _ (o : Options) where
  abbrev pub hand_on : Result (Unit {0}) → (Option Failure → Exec (Unit {0})) → Result (Unit {0})
  hand_on (done _ r) k = k none r
  hand_on (thrown f r) k = k (some f) r
  hand_on (waiting r) k = waiting r

  abbrev pub hand_permit :
      Result ActionExecutionPermit
      → (Failure ⊎ ActionExecutionPermit → Exec (Unit {0}))
      → Result (Unit {0})
  hand_permit (done p r) k = k (inr p) r
  hand_permit (thrown f r) k = k (inl f) r
  hand_permit (waiting r) k = waiting r

  unfoldable pub run_body : Body → Exec (Unit {0})
  run_body return r = done tt r
  run_body (raise f) r = thrown f r
  run_body (await_then b) r = run_body b (interrupted o r)
  run_body (read_signal k) r = run_body (k r.aborted) r
  run_body (checkpoint_then k) r = hand_on (checkpoint o r) (λ f. run_body (k f))
  run_body (emit_then type summary payload source k) r =
      hand_on (emit o type summary payload source r) (λ f. run_body (k f))
  run_body (assert_then a k) r = hand_permit (assert_can_execute o a r) (λ p. run_body (k p))

  -- The body of the loop of `execute`.
  unfoldable pub run_step : JanusStep → Exec (Unit {0})
  unfolding run_body interrupted
  run_step step = do
    checkpoint o
    update (λ r. record r { current_step = some step.id })
    emit o run_step_started step.label (("stepId", text step.id) ∷ []) core
    λ r. turn o (run_body step.run r)
    checkpoint o
    emit o run_step_completed (String.◌++◌ step.label " — terminado")
        (("stepId", text step.id) ∷ []) core

  unfoldable pub run_steps : List JanusStep → Exec (Unit {0})
  run_steps [] = pure tt
  run_steps (step ∷ steps) = do run_step step; run_steps steps

  -- The `try` block.
  unfoldable pub attempt : List JanusStep → Exec RunSnapshot
  unfolding run_steps run_step
  attempt steps = do
    run_steps steps
    update (λ r. record r { current_step = none; status = completed })
    emit o run_completed "Objetivo completado" (("goal", text o.goal) ∷ []) core
    λ r. done (snapshot o r) r

  abbrev pub is_cancel : Failure → Bool
  is_cancel run_cancelled_error = true
  is_cancel _ = false

  abbrev pub is_held : RunStatus → Bool
  is_held blocked = true
  is_held paused = true
  is_held _ = false

  -- The `catch` block. `describe` is the message of an error.
  unfoldable pub settle : (Failure → String) → Result RunSnapshot → Result RunSnapshot
  settle describe (thrown f r) =
      if is_cancel f || is_cancelled r.status || is_held r.status
      then done (snapshot o r) r
      else chain
          (emit o run_failed "La ejecución encontró un error" (("error", text (describe f)) ∷ [])
            core (record r { status = failed }))
          (λ _. throw f)
  settle describe other_ = other_

  unfoldable pub execute : (Failure → String) → List JanusStep → Exec RunSnapshot
  unfolding attempt settle
  execute describe steps = do
    set_status running
    emit o run_started "Janus comenzó a ejecutar"
        (("goal", text o.goal) ∷ ("stepCount", number (length steps)) ∷ []) core
    λ r. settle describe (attempt steps r)
