-- ===== src/Lib.antt =====
-- Janus Core: the part of the repository that decides what an assistant may do and in which order.
--
-- A plan or an automation workflow is validated and compiled to a graph of work; a task runner runs
-- its steps, asks the authority and the approval queue before an action, and lets the delivery gate
-- review what is delivered. The parts and their files:
--
--   Graph         `hasCycle`, the depth-first search with two sets, of
--                 packages/automation/src/workflow.ts and packages/orchestrator/src/work-graph.ts
--   WorkGraph     packages/orchestrator/src/work-graph.ts: validateWorkGraph, readyWorkNodes
--   Plan          packages/orchestrator/src/plan.ts: validatePlan, createPlan
--     Guard       packages/orchestrator/src/sensitive-action-policy.ts: enforceSensitiveActionPolicy
--     Compile     packages/orchestrator/src/compile-plan.ts: compileToolStep, over Run and Gateways
--   Workflow      packages/automation/src/workflow.ts: validateAutomationWorkflow and the queries
--     Compiler    packages/automation/src/compiler.ts: compileAutomationWorkflow, to a WorkGraph
--     Execution   packages/automation/src/execution.ts: readiness, batches, retries
--   Flow          packages/automation/src/flow-runner.ts: the scheduling of runWorkflow
--     Nodes       `execute` and `fail`, for one node
--     Rounds      the main loop, its beginning and its end
--     Start       runWorkflow, from the validation to the result
--   Authority     packages/core/src/authority.ts: evaluateAuthority
--   Delivery      packages/core/src/delivery-gate.ts: the class DeliveryGate
--   Approvals     packages/core/src/approval-queue.ts: the class ApprovalQueue
--   Capabilities  packages/core/src/capability-registry.ts: the class CapabilityRegistry
--   Citations     packages/core/src/citation-ledger.ts: validateCitationLedger, citationCoverage
--   Gateways      packages/gateways/src/contracts.ts
--     Tools       packages/gateways/src/tool-gateway.ts: the class DefaultToolGateway
--     Budget      packages/gateways/src/budgeted-model-gateway.ts: the class BudgetedModelGateway
--     Router      packages/gateways/src/model-router.ts: the class FallbackModelRouter
--   Coordination  packages/core/src/operator-coordination.ts: scopes, grants and the brief
--     Records     the same file: the validators and createCoordinationHandoff
--   Assistants    packages/core/src/assistant-control-plane.ts: profiles in revisions
--     Surface     the same file: surfaces, and resolveAssistantSurfaceConfig
--     Upgrade     the same file: succession and the upgrade of the landing profile
--     Defaults    the same file: what a new installation creates
--   Blockers      packages/core/src/progress-policy.ts: what to do about a blocker
--   Effort        packages/core/src/effort-policy.ts: the terms and the budgets
--     Decide      the same file: decideEffort and what it calls
--   Run           packages/core/src/task-runner.ts and packages/core/src/events.ts
--     Types       events, the runner's fields and options, the monad of its methods
--     Emit        `emit` with the gate, and heard, pause, resume, cancel, block
--     Authorize   checkpoint and assertCanExecute
--     Execute     execute, over the steps' programs
--   Base          helpers: lists, maps, texts, fractions, lists of errors
--   Examples      the theorems at concrete inputs, and runs of the definitions
--
-- The class of a component is a record of its fields, and a method is a function from the record to
-- the record and the result. A validator returns its list of errors, each a constructor with what
-- the message interpolates; `ok` is the empty list. In Run a method is a state-passing computation
-- that returns, throws, or still waits; the calls that others make while it waits are a schedule, a
-- list of calls, of any length, for each await: of the sink, the timer, a reviewer or the approval
-- handler, and also of a checkpoint or a step that ends at once. A method that ends after such an
-- await shares its slot, since nothing reads the runner between the two. A step is a program over the
-- context that it is given: it may emit, ask for permits, wait, and catch what these throw. The loop
-- of a paused run goes round once for each slot of the schedule, and a run that is still paused
-- when the schedule is over is left waiting.
--
-- A tool adapter is a program that reports progress and returns or throws; its reports run the
-- caller's callback in the same monad. A call of a budgeted model is two steps, so that calls
-- interleave. A provider's answer at a request is a function of the request; what overlapping calls
-- do to the router's shared attempts while a provider is awaited is any function of the field.
--
-- In Flow a decision is read as from a plain object, with the keys that it inherits; the other maps
-- by node id are association lists of their own keys. What `onEvent` throws is any function of
-- the event and the log before it: inside a node's `try` it is caught there, and elsewhere the run
-- ends without a result, which is tested at the end, since nothing returns it before.
--
-- The depth-first search recurses on fuel, one more than there are nodes: every active call but the
-- last stands on its own node, which the fuel allows for.
--
-- The loops of a flow run are bounded: the passes and the rounds by the number of nodes and one, since
-- each that goes on takes a node out of the pending ones, and the attempts at a node by the numerator
-- of its limit and one. A flag says whether the loop ended.
--
-- Parameters: the clock, fresh ids, the event sink, reviewers, the approval and biometric handlers,
-- the digests of decisions and records, `Date.parse`, `toLowerCase`, the normal form of a text and the
-- number of separators of steps in it (Effort), JSON texts, the readable summary of a tool's result,
-- and the text of a number. Numbers that a validator tests
-- are fractions; NaN, the infinities and the rounding of floats are not modelled. Texts are read by
-- characters, and their length by UTF-16 units where the code asks for it. Values that are only
-- carried stand as JSON texts.
--
-- Not modelled: storage in SQL, HTTP adapters, the voice engines, the web applications, the feature
-- modules and cryptography, which are input and output; the handlers of a flow's nodes, triggers, the
-- scoring of models and the business operations of packages/core, which are not part of this
-- development yet.
pub mod Base
pub mod Graph
pub mod WorkGraph
pub mod Authority
pub mod Delivery
pub mod Run
pub mod Plan
pub mod Workflow
pub mod Approvals
pub mod Capabilities
pub mod Citations
pub mod Gateways
pub mod Flow
pub mod Coordination
pub mod Assistants
pub mod Blockers
pub mod Effort
pub mod Examples
