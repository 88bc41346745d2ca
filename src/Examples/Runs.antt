-- ===== src/Examples/Runs.antt =====
-- Runs of the runner: a gated artifact, an approved action, and calls that cancel.
use janus_core.Base.{
  ℕ, String, ◌≡◌, refl, true, false, Option, none, some, [], ◌∷◌, is_blank, trim, unstar, decimal,
}
use janus_core.Authority.{default_authority_policy}
use janus_core.Run.Types.{
  RunStatus, running, cancelled, completed, artifact_updated, tool, low, text, ObservableAction,
  cancel, Options, Runner, Failure, decided, RunSnapshot, snapshot, Result, done, create,
}
use janus_core.Run.Emit.{push, apply, apply_all, interrupted, emit_plain, emit, deliver, submit}
use janus_core.Run.Authorize.{
  wait_while_paused, checkpoint, is_privileged_action, clearance, seek_approval, assert_can_execute,
  unprivileged,
}
use janus_core.Run.Execute.{
  return, emit_then, assert_then, JanusStep, run_body, run_step, run_steps, attempt, settle,
  execute,
}
use janus_core.Run.Invariant.{After}
use janus_core.Run.History.{IsHistory, AllApproved, execute-IsHistory, execute-AllApproved}
use janus_core.Run.Permits.{IsGranted, assert_can_execute-IsGranted}
use janus_core.Run.Cancellation.{settle-stopped, late_cancel_completes}
use janus_core.Examples.Decisions.{platform, gate}

abbrev pub options : Options
options = record {
  run_id = "run-1";
  goal = "write";
  started_at = "t0";
  now = λ k. "t";
  event_id = λ k. "event";
  sink = λ e. none;
  approval_handler = some (λ a s. decided true none);
  delivery_gate = some gate;
  authority_context = none;
  authority_policy = default_authority_policy;
  biometric_verifier = none;
  platform = platform;
}

abbrev pub describe : Failure → String
describe f = "failure"

abbrev read_action : ObservableAction
read_action = record {
  id = "read";
  label = "Read";
  tool = none;
  operation = none;
  target = none;
  risk = low;
  reversible = true;
  requires_approval = false;
}

abbrev draft : JanusStep
draft = record {
  id = "draft";
  label = "Draft";
  run =
      assert_then read_action (λ p.
        emit_then artifact_updated "Draft" (("preview", text "hello") ∷ []) tool (λ f. return));
}

abbrev pub status_of : Result RunSnapshot → Option (RunStatus × ℕ)
status_of (done s r) = some (s.status, s.last_event_seq)
status_of _ = none

draft_completes :
    status_of (execute options describe (draft ∷ []) (create options [])) ≡ some (completed, 7)
unfolding execute attempt settle run_steps run_step run_body assert_can_execute checkpoint
    wait_while_paused clearance seek_approval is_privileged_action emit emit_plain submit deliver
    interrupted push janus_core.Authority.action_requires_founder_biometric
    janus_core.Authority.matches_action_pattern trim mathlib.Core.Option.Option-elim unstar
    janus_core.Delivery.evaluate is_blank decimal
draft_completes = refl

execute-IsHistory_example :
    After
      (λ r. IsHistory options r.seq r.log)
      (execute options describe (draft ∷ []) (create options ((cancel "stop" ∷ []) ∷ [])))
execute-IsHistory_example =
    execute-IsHistory options describe (draft ∷ []) ((cancel "stop" ∷ []) ∷ [])

execute-AllApproved_example :
    After
      (λ r. AllApproved options r.log)
      (execute options describe (draft ∷ []) (create options []))
execute-AllApproved_example = execute-AllApproved options describe (draft ∷ []) []

abbrev pub started : Runner
started = record (create options []) { status = running }

assert_can_execute-IsGranted_example : IsGranted options read_action (unprivileged options) started
unfolding assert_can_execute checkpoint interrupted clearance seek_approval wait_while_paused
    is_privileged_action janus_core.Authority.action_requires_founder_biometric
    janus_core.Authority.matches_action_pattern trim mathlib.Core.Option.Option-elim unstar
assert_can_execute-IsGranted_example =
    assert_can_execute-IsGranted options read_action started (unprivileged options) started refl

abbrev stopped : Runner
stopped = record started { aborted = true; status = cancelled }

settle-stopped_example :
    settle options describe (attempt options (draft ∷ []) stopped)
    ≡ done (snapshot options stopped) stopped
unfolding interrupted
settle-stopped_example = settle-stopped options describe draft [] stopped refl

late_cancel_completes_example :
    (s : RunSnapshot) × (r : Runner) × (attempt options [] stopped ≡ done s r)
    × (s.status ≡ completed)
    × (r.aborted ≡ true)
late_cancel_completes_example = late_cancel_completes options stopped refl (λ e. refl)

-- The whole run, with a cancel while the sink has `run.step.completed`.
late_cancel_run :
    status_of (
      execute options describe
        (record { id = "s"; label = "S"; run = return } ∷ [])
        (create options ([] ∷ [] ∷ [] ∷ [] ∷ [] ∷ (cancel "stop" ∷ []) ∷ [])))
    ≡ some (completed, 5)
unfolding execute attempt settle run_steps run_step run_body checkpoint wait_while_paused emit
    emit_plain interrupted apply_all apply push
late_cancel_run = refl
