-- ===== src/Run/Cancellation.antt =====
-- What a cancelled run still does.
use janus_core.Base.{String, ◌≡◌, refl, ap, Bool, true, false, none, List, [], ◌∷◌, if◌then◌else◌}
use janus_core.Run.Types.{
  completed, run_completed, core, text, Payload, JanusEvent, Control, Options, Runner, Failure,
  run_cancelled_error, RunSnapshot, snapshot, done, thrown, chain,
}
use janus_core.Run.Emit.{push, sent, next_event, apply_all, interrupted, turn, emit}
use janus_core.Run.Authorize.{wait_while_paused, checkpoint, is_stopped}
use janus_core.Run.Execute.{JanusStep, attempt, settle}

module _ (o : Options) where
  stopped_checkpoint :
      (r : Runner)
      → is_stopped r ≡ true
      → checkpoint o r ≡ thrown run_cancelled_error (interrupted o r)
  unfolding checkpoint
  stopped_checkpoint r e = ap (turn o) (go (is_stopped r) e)
    where
      go :
          (b : Bool)
          → b ≡ true
          → (if b then thrown run_cancelled_error r else wait_while_paused r.schedule o r)
            ≡ thrown run_cancelled_error r
      go true k = refl
      go false k = absurd (cc)

  -- A run that is aborted, or whose status is cancelled, with a step to go starts no step and emits
  -- nothing more: `execute` returns the snapshot of the state as it is, but for the outside calls of
  -- the turn in which the test is reported.
  pub settle-stopped :
      (describe : Failure → String) (step : JanusStep) (steps : List JanusStep) (r : Runner)
      → is_stopped r ≡ true
      → settle o describe (attempt o (step ∷ steps) r)
        ≡ done (snapshot o (interrupted o r)) (interrupted o r)
  unfolding settle attempt
  settle-stopped describe step steps r e = rw (stopped_checkpoint r e)

  interrupted_quiet : (r : Runner) → r.schedule ≡ [] → interrupted o r ≡ r
  unfolding interrupted
  interrupted_quiet r e = go r.schedule e
    where
      go :
          (slots : List (List Control))
          → slots ≡ []
          → elim slots [
            | [] ↦ r
            | calls ∷ later ↦ apply_all o calls (record r { schedule = later })
          ]
            ≡ r
      go [] k = refl
      go (calls ∷ later) k = absurd (cc)

  -- A finding: with no step to go the status is overwritten. A run that was cancelled while the sink
  -- had its last `run.step.completed` event completes, if nothing is called during the last await
  -- and the sink does not throw; the abort signal stays raised.
  pub late_cancel_completes :
      (r : Runner)
      → r.schedule ≡ []
      → ((e : JanusEvent) → o.sink e ≡ none)
      → (s : RunSnapshot) × (r' : Runner) × (attempt o [] r ≡ done s r')
        × (s.status ≡ completed)
        × (r'.aborted ≡ r.aborted)
  unfolding attempt emit push
  late_cancel_completes r quiet sound =
      let r0 : Runner = record r { current_step = none; status = completed } in
      let goal : Payload = ("goal", text o.goal) ∷ [] in
      let r1 : Runner = push o run_completed "Objetivo completado" goal core r0 in
      let e = next_event o run_completed "Objetivo completado" goal core r0 in
      (
        snapshot o r1,
        r1,
        λ i.
            chain (sent o (sound e i) (interrupted_quiet r1 quiet i))
              (λ _ r'. done (snapshot o r') r'),
        refl,
        refl,
      )
