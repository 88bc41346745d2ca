-- ===== src/Plan/Compile/Performed.antt =====
-- packages/orchestrator/src/compile-plan.ts: what stands behind a compiled step that completes.
use janus_core.Base.{ℕ, String, ◌≡◌, sym, ◌∙◌, inl, inr, true, Option, Bool-cases}
use janus_core.Plan.{PlannedToolStep}
use janus_core.Plan.Compile.{Json, action_of, request_of, on_progress, publish, run_tool}
use janus_core.Gateways.{ToolResult}
use janus_core.Gateways.Tools.{ToolAdapter, failed_result, Adapters, execute, invoke}
use janus_core.Gateways.Tools.Permits.{Exposed, execute-Exposed}
use janus_core.Run.Types.{Options, Failure, Runner, done, ActionExecutionPermit}
use janus_core.Run.Permits.{>>=-eq-done, IsGranted, assert_can_execute-IsGranted}
use janus_core.Run.Authorize.{checkpoint, assert_can_execute}

module _ (j : Json) (o : Options) (adapters : Adapters) (describe : Failure → String)
    (summarize : PlannedToolStep → ToolResult → String) (max_chars : Option ℕ) where
  -- The permit was granted, and the registered adapter that has the action answered with a success.
  pub record Performed (step : PlannedToolStep) : Type 0 where
    pub permit : ActionExecutionPermit
    pub adapter : ToolAdapter
    pub result : ToolResult
    pub asked : Runner
    pub answered : Runner
    pub granted : IsGranted o (action_of j step) permit asked
    pub exposed : Exposed adapters (request_of step permit) adapter
    pub ran :
        invoke describe (on_progress j o step) (request_of step permit) adapter asked
        ≡ done result answered
    pub succeeded : result.ok ≡ true

  publish-eq-done :
      (step : PlannedToolStep) (result : ToolResult) (r r' : Runner)
      → publish j o adapters describe summarize max_chars step result r ≡ done tt r'
      → result.ok ≡ true
  unfolding publish
  publish-eq-done step result r r' h = elim (Bool-cases result.ok) [
    | inl good ↦ good
    | inr bad ↦ cc (rw bad at h)
  ]

  -- If the code of a compiled step returns, then a permit was granted for its action, the request went
  -- with that permit to a registered adapter that has the action, with an idempotency key and a valid
  -- permit where the action is privileged, and the adapter's result is a success.
  pub run_tool-Performed :
      (step : PlannedToolStep) (r r' : Runner)
      → run_tool j o adapters describe summarize max_chars step r ≡ done tt r'
      → Performed step
  unfolding run_tool
  run_tool-Performed step r r' h =
      let (_, r1, _, k1) = >>=-eq-done (checkpoint o r) _ h in
      let (permit, r2, asked, k2) = >>=-eq-done (assert_can_execute o (action_of j step) r1) _ k1 in
      let (result, r3, ran, k3) =
        >>=-eq-done (execute describe (on_progress j o step) adapters (request_of step permit) r2) _
          k2 in
      let good = publish-eq-done step result r3 r' k3 in
      elim (execute-Exposed describe (on_progress j o step) adapters (request_of step permit) r2) [
        | inl (m, refused, _) ↦
            let same : done (failed_result m) r2 ≡ done result r3 = sym refused ∙ ran in
            absurd (cc (same, good))
        | inr (adapter, passed, exposed) ↦ record {
          permit = permit;
          adapter = adapter;
          result = result;
          asked = r2;
          answered = r3;
          granted = assert_can_execute-IsGranted o (action_of j step) r1 permit r2 asked;
          exposed = exposed;
          ran = sym passed ∙ ran;
          succeeded = good;
        }
      ]
