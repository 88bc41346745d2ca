-- ===== src/Run/Authorize.antt =====
-- `checkpoint`, `block` and `assertCanExecute`: what a step must pass before it acts.
use janus_core.Base.{
  String, Bool, true, false, not, ◌&&◌, ◌||◌, Option, none, some, List, [], ◌∷◌, if◌then◌else◌,
  string_eq, number_eq, has, is_nil, names_word,
}
use Prim.Native.String
use mathlib.Core.Option
use mathlib.Core.Option.{Option-elim}
use janus_core.Authority.{
  AuthorityPrincipal, AuthorityInstruction, AuthorityPolicy, AuthorityDecision, AuthoritySource,
  BiometricAttestation, action_requires_founder_biometric, evaluate_authority,
}
use janus_core.Run.Types.{
  running, waiting_approval, blocked, authority_evaluated, approval_required, run_blocked, core,
  system, Risk, medium, high, ObservableAction, Value, null, text, flag, action, reason, authority,
  Payload, Control, Options, Runner, run_cancelled_error, authority_denied, confirmation_missing,
  approval_unavailable, not_approved, approval_threw, Approval, decided, handler_threw,
  TaskAuthorityContext, ActionExecutionPermit, RunSnapshot, snapshot, done, thrown, waiting, Exec,
  ◌>>=◌, ◌>>◌, pure, throw, set_status, is_cancelled,
}
use janus_core.Run.Emit.{apply_all, interrupted, turn, emit}

abbrev pub privileged_verbs : List String
privileged_verbs =
    "create" ∷ "update" ∷ "delete" ∷ "send" ∷ "publish" ∷ "deploy" ∷ "pay" ∷ "purchase" ∷ "rotate"
    ∷ "disable" ∷ "transfer" ∷ "grant" ∷ "revoke" ∷ []

-- `action.operation ?? action.id`
abbrev pub operation_of : ObservableAction → String
operation_of a = Option-elim a.operation a.id (λ s. s)

abbrev pub is_risky : Risk → Bool
is_risky medium = true
is_risky high = true
is_risky _ = false

unfoldable pub is_privileged_action : ObservableAction → AuthorityPolicy → Bool
is_privileged_action a policy =
    action_requires_founder_biometric (operation_of a) policy
    || is_risky a.risk
    || not a.reversible
    || a.requires_approval
    || Option-elim a.operation false (names_word privileged_verbs)

abbrev pub is_stopped : Runner → Bool
is_stopped r = r.aborted || is_cancelled r.status

-- The loop of a paused run: each round waits for the timer, one slot of the schedule.
unfoldable pub wait_while_paused : List (List Control) → Options → Exec (Unit {0})
wait_while_paused [] o r = elim r.is_paused [ true ↦ waiting r | false ↦ done tt r ]
wait_while_paused (calls ∷ later) o r = elim r.is_paused [
  | false ↦ done tt r
  | true ↦
      let r' = apply_all o calls (record r { schedule = later }) in
      elim (is_stopped r') [
        | true ↦ thrown run_cancelled_error r'
        | false ↦ wait_while_paused later o r'
      ]
]

module _ (o : Options) where
  -- With the turn in which its caller is resumed, which is there also where it does not wait.
  unfoldable pub checkpoint : Exec (Unit {0})
  unfolding wait_while_paused interrupted
  checkpoint r =
      turn o
        (if is_stopped r then thrown run_cancelled_error r else wait_while_paused r.schedule o r)

  unfoldable pub block_run : String → Payload → Exec (Unit {0})
  block_run why details = do set_status blocked; emit o run_blocked why details core

  abbrev pub anonymous : AuthorityInstruction
  anonymous = record {
    id = String.◌++◌ "authority:" o.run_id;
    principal_id = "anonymous";
    source = AuthoritySource.message;
    authenticated = false;
    instruction = o.goal;
    requested_at = o.started_at;
    biometric_attestation = none;
  }

  -- The first proof that the verifier accepts.
  unfoldable pub first_attestation :
      AuthorityPrincipal → String → String → List String → Option BiometricAttestation
  first_attestation p operation requested_at [] = none
  first_attestation p operation requested_at (proof ∷ proofs) =
      elim (Option-elim o.biometric_verifier none (λ v. v proof p operation requested_at)) [
        | some a ↦ some a
        | none ↦ first_attestation p operation requested_at proofs
      ]

  abbrev pub attested : Option BiometricAttestation → AuthorityInstruction → AuthorityInstruction
  attested none i = i
  attested (some a) i = record i { biometric_attestation = some a }

  abbrev pub principal_of : Option AuthorityPrincipal
  principal_of = Option-elim o.authority_context none (λ c. c.principal)

  abbrev pub confirmed_actions : List String
  confirmed_actions = Option-elim o.authority_context [] (λ c. c.confirmed_actions)

  abbrev attest : TaskAuthorityContext → Option AuthorityPrincipal → String → AuthorityInstruction
  attest c none operation = c.instruction
  attest c (some p) operation =
      if action_requires_founder_biometric operation o.authority_policy
      then attested (first_attestation p operation c.instruction.requested_at c.biometric_proof_ids)
          c.instruction
      else c.instruction

  -- The instruction that is evaluated.
  unfoldable pub instruction_for : String → AuthorityInstruction
  unfolding first_attestation
  instruction_for operation = elim o.authority_context [
    | none ↦ anonymous
    | some c ↦ attest c c.principal operation
  ]

  unfoldable pub decision_for : String → AuthorityDecision
  unfolding instruction_for
  decision_for operation =
      evaluate_authority o.platform principal_of (instruction_for operation) operation
        o.authority_policy

  abbrev pub optional_text : Option String → Value
  optional_text none = null
  optional_text (some s) = text s

  abbrev pub evaluated : ObservableAction → AuthorityDecision → Payload
  evaluated a d =
      ("actionId", text a.id)
      ∷ ("tool", optional_text a.tool)
      ∷ ("operation", text (operation_of a))
      ∷ ("principalId", optional_text (Option.map (λ p. p.id) principal_of))
      ∷ ("allowed", flag d.allowed)
      ∷ ("requiresConfirmation", flag d.requires_confirmation)
      ∷ ("requiresBiometric", flag d.requires_biometric)
      ∷ ("reason", reason d.reason)
      ∷ ("auditHash", text d.audit_hash)
      ∷ []

  abbrev pub permit_of : AuthorityDecision → ActionExecutionPermit
  permit_of d = record {
    privileged = true;
    authority_decision_hash = some d.audit_hash;
    principal_id = elim principal_of [
      | none ↦ none
      | some p ↦ if is_nil p.id then none else some p.id
    ];
  }

  unfoldable pub deny : ObservableAction → AuthorityDecision → Exec ActionExecutionPermit
  unfolding block_run
  deny a d = do
    block_run "Autoridad insuficiente para acción privilegiada"
        (("action", action a) ∷ ("authority", authority d.reason d.audit_hash none) ∷ [])
    throw (authority_denied d.reason)

  unfoldable pub demand_confirmation :
      ObservableAction → AuthorityDecision → Exec ActionExecutionPermit
  unfolding block_run
  demand_confirmation a d = do
    set_status waiting_approval
    emit o approval_required (String.◌++◌ "Confirmación explícita requerida: " a.label)
        (("action", action a)
          ∷ ("authority", authority d.reason d.audit_hash (some (operation_of a)))
          ∷ [])
        core
    block_run "La acción requiere confirmación explícita de autoridad"
        (("action", action a) ∷ ("authorityDecisionHash", text d.audit_hash) ∷ [])
    throw confirmation_missing

  -- The part of `assertCanExecute` for a privileged action.
  unfoldable pub authorize : ObservableAction → AuthorityDecision → Exec ActionExecutionPermit
  authorize a d = do
    emit o authority_evaluated (String.◌++◌ "Autoridad evaluada: " a.label) (evaluated a d) system
    if not d.allowed
        then deny a d
        else if d.requires_confirmation && not (has (operation_of a) confirmed_actions)
        then demand_confirmation a d
        else pure (permit_of d)

  abbrev pub with_hash : Option String → Payload
  with_hash none = []
  with_hash (some h) = if is_nil h then [] else ("authorityDecisionHash", text h) ∷ []

  abbrev pub answer : ObservableAction → Approval → Exec (Unit {0})
  answer a (handler_threw m) = throw (approval_threw m)
  answer a (decided true why) = pure tt
  answer a (decided false why) = do
    block_run (Option-elim why "Acción no aprobada" (λ s. s)) (("action", action a) ∷ [])
    throw (not_approved why)

  abbrev pub consult :
      ObservableAction → Option (ObservableAction → RunSnapshot → Approval) → Exec (Unit {0})
  consult a none = do
    block_run "No hay manejador de aprobación disponible" (("action", action a) ∷ [])
    throw approval_unavailable
  consult a (some handler) = λ r. answer a (handler a (snapshot o r)) (interrupted o r)

  abbrev pub request_approval : ObservableAction → ActionExecutionPermit → Exec (Unit {0})
  request_approval a permit = do
    set_status waiting_approval
    emit o approval_required (String.◌++◌ "Aprobación requerida: " a.label)
        (("action", action a) ∷ with_hash permit.authority_decision_hash) core
    consult a o.approval_handler

  -- The part for an action that requires approval.
  unfoldable pub seek_approval : ObservableAction → ActionExecutionPermit → Exec (Unit {0})
  unfolding block_run interrupted
  seek_approval a permit = if a.requires_approval then request_approval a permit else pure tt

  abbrev pub unprivileged : ActionExecutionPermit
  unprivileged = record { privileged = false; authority_decision_hash = none; principal_id = none }

  unfoldable pub clearance : ObservableAction → Exec ActionExecutionPermit
  unfolding authorize decision_for is_privileged_action
  clearance a =
      if is_privileged_action a o.authority_policy
      then authorize a (decision_for (operation_of a))
      else pure unprivileged

  unfoldable pub assert_can_execute : ObservableAction → Exec ActionExecutionPermit
  unfolding checkpoint clearance seek_approval
  assert_can_execute a = do
    checkpoint
    permit ← clearance a
    seek_approval a permit
    set_status running
    checkpoint
    pure permit
