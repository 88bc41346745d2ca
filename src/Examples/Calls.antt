-- ===== src/Examples/Calls.antt =====
-- Calls of tools and models: the tool gateway, a compiled step, the budget and the router.
use janus_core.Base.{
  String, ◌≡◌, refl, ◌⊎◌, true, false, none, some, List, [], ◌∷◌, number_eq, string_eq, is_blank,
  trim, unstar, names_word,
}
use janus_core.Run.Types.{
  Failure, Options, Runner, Exec, Result, done, thrown, pure, RunStatus, running,
  ActionExecutionPermit,
}
use janus_core.Gateways.{ToolRequest, ToolProgress, ToolResult, ModelRequest, ModelResponse}
use janus_core.Gateways.Tools.{returns, ToolAdapter, Adapters, failed_result, invoke, execute}
use janus_core.Gateways.Tools.Permits.{Exposed, execute-Exposed}
use janus_core.Gateways.Budget.{BudgetedModelGateway, create, enter, leave, unused}
use janus_core.Gateways.Budget
use janus_core.Gateways.Budget.Calls.{
  Reachable, start, admits, turns_away, settles, IsBudgeted, Reachable-IsBudgeted,
}
use janus_core.Gateways.Router
use janus_core.Gateways.Router.{RoutedProvider, RouteAttempt, complete, try_all, provider_ids}
use janus_core.Gateways.Router.Fallback.{Route, alone, complete-Route}
use janus_core.Base.Number.{whole, floor}
use janus_core.Plan.{PlannedToolStep, no_risk}
use janus_core.Plan.Compile.{Json, run_tool}
use janus_core.Plan.Compile.Performed.{Performed, run_tool-Performed}
use janus_core.Run.Emit.{emit}
use janus_core.Run.Authorize.{checkpoint, assert_can_execute}
use janus_core.Examples.Runs.{options, describe, started}

abbrev found : ToolResult
found = record { ok = true; output = none; error = none; external_reference = some "ref" }

abbrev adapters : Adapters
adapters =
    (
      "files",
      record {
        name = "files";
        capabilities = "read" ∷ "file.delete" ∷ [];
        execute = λ r. returns found;
      },
    )
    ∷ []

abbrev deletion : ToolRequest
deletion = record {
  tool = "files";
  action = "file.delete";
  input = [];
  idempotency_key = some "k";
  authorization = none;
}

abbrev silent : ToolProgress → Exec (Unit {0})
silent p = pure tt

unpermitted :
    execute describe silent adapters deletion started
    ≡ done
        (failed_result
          "Privileged tool action requires an audited authority permit: files.file.delete")
        started
unfolding execute names_word mathlib.Core.Option.Option-elim is_blank
unpermitted = refl

execute-Exposed_example :
    ((message : String) × (execute describe silent adapters deletion started
        ≡ done (failed_result message) started)
      × ((adapter : ToolAdapter) → ¬ Exposed adapters deletion adapter))
    ⊎ ((adapter : ToolAdapter) × (execute describe silent adapters deletion started
          ≡ invoke describe silent deletion adapter started)
        × Exposed adapters deletion adapter)
execute-Exposed_example = execute-Exposed describe silent adapters deletion started

abbrev reading : PlannedToolStep
reading = record {
  id = "s1";
  label = "Read";
  tool = "files";
  action = "read";
  input = [];
  risk = no_risk;
  reversible = true;
  requires_approval = false;
  idempotency_key = none;
  result_mode = none;
}

abbrev texts : Json
texts = record {
  of_number = λ n. "1";
  of_text = λ s. s;
  of_fields = λ fs. "{}";
  as_text = λ s. some s;
}

abbrev ungated : Options
ungated = record options { delivery_gate = none }

abbrev runner_of : Result (Unit {0}) → Runner
runner_of (done a r) = r
runner_of (thrown f r) = r
runner_of (janus_core.Run.Types.waiting r) = r

abbrev after_reading : Runner
after_reading =
    runner_of (run_tool texts ungated adapters describe (λ s r. "ok") none reading started)

run_tool-Performed_example : Performed texts ungated adapters describe (λ s r. "ok") none reading
unfolding run_tool checkpoint assert_can_execute
    janus_core.Authority.action_requires_founder_biometric
    janus_core.Authority.matches_action_pattern trim mathlib.Core.Option.Option-elim unstar
    names_word execute emit
run_tool-Performed_example =
    run_tool-Performed texts ungated adapters describe (λ s r. "ok") none reading started
      after_reading refl

abbrev once_used : BudgetedModelGateway
once_used = (enter (unused 1)).1

budget_start : Reachable (whole 1) (unused 1) 0 0 0 []
unfolding create
budget_start = start (unused 1) refl

one_call : Reachable (whole 1) once_used 1 1 0 []
unfolding enter
one_call = admits (unused 1) 0 0 0 [] budget_start refl

refused_call : Reachable (whole 1) (enter once_used).1 1 1 1 []
unfolding enter
refused_call = turns_away once_used 1 1 0 [] one_call refl

abbrev one_failed : BudgetedModelGateway
one_failed = leave (Budget.failed "down") (enter once_used).1

failed_call : Reachable (whole 1) one_failed 1 0 1 (Budget.failed "down" ∷ [])
failed_call = settles (Budget.failed "down") (enter once_used).1 1 0 1 [] refused_call

Reachable-IsBudgeted_example :
    IsBudgeted (floor (whole 1)) one_failed 1 0 1 (Budget.failed "down" ∷ [])
Reachable-IsBudgeted_example =
    Reachable-IsBudgeted (whole 1) one_failed 1 0 1 (Budget.failed "down" ∷ []) failed_call

abbrev reply : ModelResponse
reply = record { text = "hi"; model = "m"; provider = ""; usage = [] }

abbrev providers : List RoutedProvider
providers =
    record { id = "local"; gateway = λ r. Router.failed "down" }
    ∷ record { id = "remote"; gateway = λ r. Router.responded reply }
    ∷ []

abbrev question : ModelRequest
question = record { messages = []; temperature = none; response_format = none }

-- Another call that overlaps clears the field.
abbrev clearing : RoutedProvider → List RouteAttempt → List RouteAttempt
clearing p attempts = []

complete-Route_example :
    Route question providers (complete alone providers question)
    × ((complete clearing providers question).0 ≡ (complete alone providers question).0)
complete-Route_example = complete-Route clearing providers question
