-- ===== src/Plan/Compile.antt =====
-- packages/orchestrator/src/compile-plan.ts: a planned tool call as the code of a step. The readable
-- summary of a result, `summarize`, and the JSON texts of values are parameters.
pub mod Performed
use janus_core.Base.{
  ℕ, String, true, false, Option, none, some, List, [], ◌∷◌, ◌++◌, leb, if◌then◌else◌, is_blank,
  units, slice_to, decimal, get,
}
use Prim.Native.String
use mathlib.Core.Option.{Option-elim}
use janus_core.Base.Number.{Number}
use janus_core.Plan.{PlannedToolStep, PlannedRisk}
use janus_core.Gateways.{
  ToolRequest, ToolExecutionAuthorization, ToolProgress, ToolPhase, started, progress, completed,
  ToolResult,
}
use janus_core.Gateways.Tools.{Adapters, execute}
use janus_core.Run.Types.{
  EventType, tool_started, tool_progress, tool_completed, artifact_updated, EventSource, tool, Risk,
  ObservableAction, Value, text, json, fields, Payload, Options, Failure, step_threw,
  ActionExecutionPermit, Exec, ◌>>=◌, ◌>>◌, pure, throw,
}
use janus_core.Run.Emit.{emit, put}
use janus_core.Run.Authorize.{checkpoint, assert_can_execute}
use janus_core.Plan
use janus_core.Run.Types

-- JSON texts: of a number, of a string, of an object whose fields stand as JSON texts; and the string that a JSON text stands for, if it does.
pub record Json : Type 0 where
  pub of_number : Number → String
  pub of_text : String → String
  pub of_fields : List (String × String) → String
  pub as_text : String → Option String

unfoldable pub event_type : ToolPhase → EventType
event_type started = tool_started
event_type completed = tool_completed
event_type progress = tool_progress

abbrev pub target_keys : List String
target_keys =
    "url" ∷ "path" ∷ "repo" ∷ "fileId" ∷ "documentId" ∷ "recipient" ∷ "query" ∷ "calendarId" ∷ []

abbrev pub risk_of : PlannedRisk → Risk
risk_of Plan.no_risk = Types.no_risk
risk_of Plan.low = Types.low
risk_of Plan.medium = Types.medium
risk_of Plan.high = Types.high

abbrev pub authorization_of : ActionExecutionPermit → ToolExecutionAuthorization
authorization_of permit = record {
  privileged = permit.privileged;
  authority_decision_hash = permit.authority_decision_hash;
  principal_id = permit.principal_id;
}

abbrev pub request_of : PlannedToolStep → ActionExecutionPermit → ToolRequest
request_of step permit = record {
  tool = step.tool;
  action = step.action;
  input = step.input;
  idempotency_key = step.idempotency_key;
  authorization = some (authorization_of permit);
}

module _ (j : Json) where
  abbrev pub nonblank_text : Option String → Option String
  nonblank_text none = none
  nonblank_text (some value) =
      Option-elim (j.as_text value) none (λ s. if is_blank s then none else some s)

  unfoldable pub describe_target : List (String × String) → List String → Option String
  describe_target input [] = none
  describe_target input (key ∷ keys) =
      let later = describe_target input keys in
      Option-elim (nonblank_text (get key input)) later some

  abbrev pub action_of : PlannedToolStep → ObservableAction
  action_of step = record {
    id = step.id;
    label = step.label;
    tool = some step.tool;
    operation = some step.action;
    target = describe_target step.input target_keys;
    risk = risk_of step.risk;
    reversible = step.reversible;
    requires_approval = step.requires_approval;
  }

  abbrev bare_result : ToolResult → List (String × String)
  bare_result result =
      ("ok", if result.ok then "true" else "false")
      ∷ Option-elim result.external_reference [] (λ s. ("externalReference", j.of_text s) ∷ [])

  abbrev pub fitted : ToolResult → List (String × String) → String → ℕ → List (String × String)
  fitted result output serialized max_chars =
      if leb (units serialized) max_chars
      then bare_result result ++ ("output", serialized) ∷ []
      else bare_result result
        ++ ("outputPreview", j.of_text (slice_to max_chars serialized))
          ∷ ("truncated", "true")
          ∷ ("originalChars", decimal (units serialized))
          ∷ []

  unfoldable pub compact_result : ToolResult → ℕ → List (String × String)
  compact_result result max_chars =
      Option-elim result.output (bare_result result)
        (λ output. fitted result output (j.of_fields output) max_chars)

  abbrev pub spread : List (String × String) → Payload → Payload
  spread [] payload = payload
  spread ((key, value) ∷ rest) payload = spread rest (put key (json value) payload)

  module _ (o : Options) where
    -- The callback that the step hands to the gateway.
    unfoldable pub on_progress : PlannedToolStep → ToolProgress → Exec (Unit {0})
    unfolding event_type
    on_progress step p = do
      checkpoint o
      emit o (event_type p.phase) p.message
          (spread p.data_ (
            ("tool", text step.tool)
            ∷ ("action", text step.action)
            ∷ Option-elim p.percent [] (λ n. ("percent", json (j.of_number n)) ∷ [])))
          tool

    module _ (adapters : Adapters) (describe : Failure → String)
        (summarize : PlannedToolStep → ToolResult → String) (max_chars : Option ℕ) where
      -- The end of `run`: what is done with the gateway's result.
      unfoldable pub publish : PlannedToolStep → ToolResult → Exec (Unit {0})
      unfolding compact_result
      publish step result =
          if result.ok
          then emit o artifact_updated (String.◌++◌ step.label " — resultado disponible")
              (("tool", text step.tool)
                ∷ ("action", text step.action)
                ∷ ("preview", text (summarize step result))
                ∷ ("result", fields (compact_result result (Option-elim max_chars 12000 (λ n. n))))
                ∷ [])
              tool
          else throw (
              step_threw (
                Option-elim result.error
                  (String.◌++◌ step.tool (String.◌++◌ "." (String.◌++◌ step.action " failed")))
                  (λ message. message)))

      -- `run` of `compileToolStep`.
      unfoldable pub run_tool : PlannedToolStep → Exec (Unit {0})
      unfolding describe_target on_progress publish
      run_tool step = do
        checkpoint o
        permit ← assert_can_execute o (action_of step)
        result ← execute describe (on_progress step) adapters (request_of step permit)
        publish step result
