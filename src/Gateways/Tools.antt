-- ===== src/Gateways/Tools.antt =====
-- packages/gateways/src/tool-gateway.ts: the class DefaultToolGateway, over the task runner's monad.
-- An adapter is a program: it reports progress, and hears of an error that the callback threw.
pub mod Permits
use janus_core.Base.{
  String, Bool, true, false, not, ◌&&◌, Option, none, some, List, [], ◌∷◌, ◌++◌, if◌then◌else◌,
  number_eq, string_eq, has, delete, is_blank, names_word, is_digest, get, set,
}
use Prim.Native.String
use mathlib.Core.Option.{Option-elim}
use janus_core.Gateways.{
  ToolExecutionAuthorization, ToolRequest, ToolPhase, started, completed, ToolProgress, ToolResult,
}
use janus_core.Run.Types.{
  Failure, step_threw, Runner, Result, done, thrown, waiting, Exec, ◌>>=◌, ◌>>◌, pure, throw,
}

pub data Program : Type 0 where
  returns : ToolResult → Program
  throws : String → Program
  reports : ToolProgress → (Option Failure → Program) → Program

pub record ToolAdapter : Type 0 where
  pub name : String
  pub capabilities : List String
  pub execute : ToolRequest → Program

-- `adapters`
abbrev pub Adapters : Type 0
Adapters = List (String × ToolAdapter)

-- `register`: `none` is the error of a name that is taken.
unfoldable pub register : ToolAdapter → Adapters → Option Adapters
register adapter adapters = elim (get adapter.name adapters) [
  | some _ ↦ none
  | none ↦ some (set adapter.name adapter adapters)
]

abbrev pub privileged_tool_verbs : List String
privileged_tool_verbs =
    "create" ∷ "update" ∷ "delete" ∷ "send" ∷ "publish" ∷ "deploy" ∷ "pay" ∷ "purchase" ∷ "rotate"
    ∷ "disable" ∷ "transfer" ∷ "grant" ∷ "revoke" ∷ "apply" ∷ "execute" ∷ "redeploy" ∷ "place" ∷ []

unfoldable pub is_privileged_tool_action : String → Bool
is_privileged_tool_action action = names_word privileged_tool_verbs action

unfoldable pub valid_authority_permit : Option ToolExecutionAuthorization → Bool
valid_authority_permit none = false
valid_authority_permit (some a) =
    a.privileged && Option-elim a.authority_decision_hash false is_digest

-- `!request.idempotencyKey?.trim()`
abbrev pub lacks_key : ToolRequest → Bool
lacks_key request = Option-elim request.idempotency_key true is_blank

abbrev pub failed_result : String → ToolResult
failed_result message = record {
  ok = false;
  output = none;
  error = some message;
  external_reference = none;
}

abbrev pub operation_of : ToolRequest → String
operation_of request = String.◌++◌ request.tool (String.◌++◌ "." request.action)

-- The messages of the early returns.
abbrev pub no_key_message : ToolRequest → String
no_key_message request =
    String.◌++◌ "Privileged tool action requires an idempotency key: " (operation_of request)

abbrev pub no_permit_message : ToolRequest → String
no_permit_message request =
    String.◌++◌ "Privileged tool action requires an audited authority permit: "
      (operation_of request)

abbrev pub unregistered_message : ToolRequest → String
unregistered_message request = String.◌++◌ "Tool adapter not registered: " request.tool

abbrev pub not_exposed_message : ToolRequest → String
not_exposed_message request =
    String.◌++◌ "Action '"
      (String.◌++◌ request.action (String.◌++◌ "' is not exposed by " request.tool))

abbrev pub adapter_refusal : ToolRequest → Option ToolAdapter → Option String
adapter_refusal request none = some (unregistered_message request)
adapter_refusal request (some adapter) =
    if has request.action adapter.capabilities then none else some (not_exposed_message request)

-- The early returns of `execute`.
unfoldable pub refusal : Adapters → ToolRequest → Option String
unfolding is_privileged_tool_action valid_authority_permit
refusal adapters request =
    let privileged = is_privileged_tool_action request.action in
    if privileged && lacks_key request
    then some (no_key_message request)
    else if privileged && not (valid_authority_permit request.authorization)
    then some (no_permit_message request)
    else adapter_refusal request (get request.tool adapters)

module _ (describe : Failure → String) (on_progress : ToolProgress → Exec (Unit {0})) where
  abbrev pub after_report :
      Result (Unit {0}) → (Option Failure → Exec ToolResult) → Result ToolResult
  after_report (done _ r) k = k none r
  after_report (thrown f r) k = k (some f) r
  after_report (waiting r) k = waiting r

  unfoldable pub run_program : Program → Exec ToolResult
  run_program (returns result) r = done result r
  run_program (throws message) r = thrown (step_threw message) r
  run_program (reports p k) r = after_report (on_progress p r) (λ f. run_program (k f))

  -- The `catch` block.
  abbrev pub caught : Result ToolResult → Result ToolResult
  caught (thrown f r) = done (failed_result (describe f)) r
  caught other_ = other_

  abbrev pub completion : ToolResult → ToolProgress
  completion result = record {
    phase = completed;
    message = if result.ok then "Acción completada" else "Acción terminó con error";
    percent = none;
    data_ = Option-elim result.output [] (λ o. o);
  }

  -- The `try` block.
  unfoldable pub attempt_tool : Program → Exec ToolResult
  unfolding run_program
  attempt_tool program = do
    result ← run_program program
    on_progress (completion result)
    pure result

  unfoldable pub invoke : ToolRequest → ToolAdapter → Exec ToolResult
  unfolding attempt_tool
  invoke request adapter = do
    on_progress
        (record { phase = started; message = operation_of request; percent = none; data_ = [] })
    λ r. caught (attempt_tool (adapter.execute request) r)

  abbrev pub refused_or : ToolRequest → Adapters → Option String → Exec ToolResult
  refused_or request adapters (some message) = pure (failed_result message)
  refused_or request adapters none =
      Option-elim (get request.tool adapters) (pure (failed_result "")) (invoke request)

  unfoldable pub execute : Adapters → ToolRequest → Exec ToolResult
  unfolding refusal invoke
  execute adapters request = refused_or request adapters (refusal adapters request)
