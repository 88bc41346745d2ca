-- ===== src/Run/Types.antt =====
-- The events of a run (packages/core/src/events.ts), the runner's fields and options, and the monad of
-- its methods (packages/core/src/task-runner.ts).
use janus_core.Base.{ℕ, String, Bool, true, false, Option, none, List, []}
use janus_core.Authority.{
  AuthorityPrincipal, AuthorityInstruction, AuthorityPolicy, BiometricAttestation, Platform, Reason,
}
use janus_core.Delivery.{DeliveryGate, QualityFinding, QualityReview, GateError}

pub data RunStatus : Type 0 where
  heard running waiting_approval blocked paused cancelled completed failed : RunStatus

pub data EventType : Type 0 where
  run_heard run_started run_step_started run_step_completed : EventType
  tool_started tool_progress tool_completed artifact_updated : EventType
  quality_started quality_passed quality_failed authority_evaluated approval_required : EventType
  run_blocked run_paused run_resumed run_cancelled run_completed run_failed : EventType

pub data EventSource : Type 0 where
  core model voice tool ui system : EventSource

pub data Risk : Type 0 where
  no_risk low medium high : Risk

pub record ObservableAction : Type 0 where
  pub id : String
  pub label : String
  pub tool : Option String
  pub operation : Option String
  pub target : Option String
  pub risk : Risk
  pub reversible : Bool
  pub requires_approval : Bool

-- The values that payloads hold. `authority` is the object of a reason, a digest and the action to
-- confirm; `quality_gate` the one that a gated artifact carries; `json` a value, and `fields` an object's
-- values, as JSON texts.
pub data Value : Type 0 where
  null : Value
  text : String → Value
  number : ℕ → Value
  flag : Bool → Value
  texts : List String → Value
  action : ObservableAction → Value
  reason : Reason → Value
  authority : Reason → String → Option String → Value
  findings : List QualityFinding → Value
  reviews : List QualityReview → Value
  quality_gate : String → String → Value
  json : String → Value
  fields : List (String × String) → Value

abbrev pub Payload : Type 0
Payload = List (String × Value)

pub record JanusEvent : Type 0 where
  pub id : String
  pub run_id : String
  pub seq : ℕ
  pub type : EventType
  pub at : String
  pub source : EventSource
  pub summary : String
  pub payload : Payload

pub record RunSnapshot : Type 0 where
  pub run_id : String
  pub goal : String
  pub status : RunStatus
  pub current_step : Option String
  pub last_event_seq : ℕ
  pub started_at : String
  pub updated_at : String

pub record TaskAuthorityContext : Type 0 where
  pub principal : Option AuthorityPrincipal
  pub instruction : AuthorityInstruction
  pub confirmed_actions : List String
  pub biometric_proof_ids : List String

pub record ActionExecutionPermit : Type 0 where
  pub privileged : Bool
  pub authority_decision_hash : Option String
  pub principal_id : Option String

-- What the approval handler's promise becomes.
pub data Approval : Type 0 where
  decided : Bool → Option String → Approval
  handler_threw : String → Approval

-- A call of a public method from outside, made while the run waits.
pub data Control : Type 0 where
  hear : String → Control
  pause cancel : String → Control
  resume : Control
  block : String → Payload → Control

-- `TaskRunnerOptions`, with what the runtime supplies: the run's id, the readings of the clock, the
-- events' random ids. `sink e` is the message that the sink threw at `e`, if it did.
pub record Options : Type 0 where
  pub run_id : String
  pub goal : String
  pub started_at : String
  pub now : ℕ → String
  pub event_id : ℕ → String
  pub sink : JanusEvent → Option String
  pub approval_handler : Option (ObservableAction → RunSnapshot → Approval)
  pub delivery_gate : Option DeliveryGate
  pub authority_context : Option TaskAuthorityContext
  pub authority_policy : AuthorityPolicy
  pub biometric_verifier :
      Option (String → AuthorityPrincipal → String → String → Option BiometricAttestation)
  pub platform : Platform

-- The fields that methods write. `log` holds the events handed to the sink, the newest first;
-- `ticks` counts the readings of the clock. `schedule` is the environment: the calls made from
-- outside during the awaits to come, a list for each await.
pub record Runner : Type 0 where
  pub seq : ℕ
  pub is_paused : Bool
  pub status : RunStatus
  pub current_step : Option String
  pub updated_at : String
  pub aborted : Bool
  pub log : List JanusEvent
  pub ticks : ℕ
  pub schedule : List (List Control)

pub data Failure : Type 0 where
  run_cancelled_error : Failure
  authority_denied : Reason → Failure
  confirmation_missing : Failure
  approval_unavailable : Failure
  not_approved : Option String → Failure
  approval_threw : String → Failure
  gate_rejected : List String → Failure
  gate_threw : GateError → Failure
  sink_threw : String → Failure
  step_threw : String → Failure

-- How an async method ends: it returns, throws, or still waits in the loop of a paused run when the
-- schedule is over.
pub data Result {ℓ} (A : Type ℓ) : Type ℓ where
  done : A → Runner → Result A
  thrown : Failure → Runner → Result A
  waiting : Runner → Result A

abbrev pub Exec : Type 0 → Type 0
Exec A = Runner → Result A

abbrev pub chain : {A B : Type 0} → Result A → (A → Exec B) → Result B
chain (done a r) k = k a r
chain (thrown f r) k = thrown f r
chain (waiting r) k = waiting r

infixl 5 ◌>>=◌ ◌>>◌
abbrev pub ◌>>=◌ : {A B : Type 0} → Exec A → (A → Exec B) → Exec B
◌>>=◌ m k r = chain (m r) k

abbrev pub ◌>>◌ : {B : Type 0} → Exec (Unit {0}) → Exec B → Exec B
m >> k = m >>= λ _. k

abbrev pub pure : {A : Type 0} → A → Exec A
pure a r = done a r

abbrev pub throw : {A : Type 0} → Failure → Exec A
throw f r = thrown f r

abbrev pub update : (Runner → Runner) → Exec (Unit {0})
update f r = done tt (f r)

abbrev pub set_status : RunStatus → Exec (Unit {0})
set_status s = update (λ r. record r { status = s })

abbrev pub is_cancelled : RunStatus → Bool
is_cancelled cancelled = true
is_cancelled _ = false

-- `isTerminal`
abbrev pub is_terminal : RunStatus → Bool
is_terminal completed = true
is_terminal cancelled = true
is_terminal failed = true
is_terminal _ = false

abbrev pub snapshot : Options → Runner → RunSnapshot
snapshot o r = record {
  run_id = o.run_id;
  goal = o.goal;
  status = r.status;
  current_step = r.current_step;
  last_event_seq = r.seq;
  started_at = o.started_at;
  updated_at = r.updated_at;
}

-- The constructor: the clock has been read once.
abbrev pub create : Options → List (List Control) → Runner
create o schedule = record {
  seq = 0;
  is_paused = false;
  status = heard;
  current_step = none;
  updated_at = o.started_at;
  aborted = false;
  log = [];
  ticks = 1;
  schedule = schedule;
}
