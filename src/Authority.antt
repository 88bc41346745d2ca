-- ===== src/Authority.antt =====
-- packages/core/src/authority.ts: who may issue a privileged instruction. A reason is a constructor;
-- `Date.parse` and the SHA-256 digest of the decision are the platform's.
pub mod Attestation
pub mod Decision
use janus_core.Base.{
  ℕ, ◌+◌, ◌-◌, String, Bool, true, false, not, ◌&&◌, ◌||◌, Option, none, some, List, [], ◌∷◌,
  starts_with, ltb, leb, if◌then◌else◌, ◌==◌, string_eq, number_eq, any, has, is_nil, is_blank,
  trim, units, unstar, is_digest,
}
use janus_core.Base.Number.{Number, whole, less, floor}

pub data AuthorityRole : Type 0 where
  founder_director administrator operator agent external_data : AuthorityRole

pub data AuthoritySource : Type 0 where
  authenticated_human local_system tool model document web message : AuthoritySource

pub record AuthorityPrincipal : Type 0 where
  pub id : String
  pub role : AuthorityRole
  pub display_name : Option String
  pub active : Bool

pub record BiometricAttestation : Type 0 where
  pub principal_id : String
  pub action : String
  pub method : String
  pub verified_at : String
  pub expires_at : String
  pub key_id : String
  pub proof_hash : String

pub record AuthorityInstruction : Type 0 where
  pub id : String
  pub principal_id : String
  pub source : AuthoritySource
  pub authenticated : Bool
  pub instruction : String
  pub requested_at : String
  pub biometric_attestation : Option BiometricAttestation

pub data Reason : Type 0 where
  authorized unknown_or_inactive_principal authentication_required : Reason
  untrusted_source role_cannot_issue founder_required_for_action : Reason
  founder_biometric_required biometric_scope_mismatch biometric_attestation_invalid : Reason
  biometric_expired founder_required_for_root_action confirmation_required : Reason

pub record AuthorityDecision : Type 0 where
  pub allowed : Bool
  pub requires_confirmation : Bool
  pub requires_biometric : Bool
  pub reason : Reason
  pub audit_hash : String

pub record AuthorityPolicy : Type 0 where
  pub founder_principal_id : String
  pub require_authentication : Bool
  pub confirmation_actions : List String
  pub founder_only_actions : Option (List String)
  pub biometric_actions : Option (List String)
  pub biometric_freshness_ms : Option Number

-- What `hashDecision` digests.
pub record Audit : Type 0 where
  pub principal : Option AuthorityPrincipal
  pub request : AuthorityInstruction
  pub action : String
  pub allowed : Bool
  pub requires_confirmation : Bool
  pub requires_biometric : Bool
  pub reason : Reason

-- The runtime's own functions. A date that `Date.parse` reads as NaN is `none`; instants before
-- 1970 are left out.
pub record Platform : Type 0 where
  pub parse_date : String → Option ℕ
  pub hash_decision : Audit → String

abbrev root_actions : List String
root_actions = "delete_all" ∷ "rotate_root_keys" ∷ "disable_audit" ∷ "transfer_authority" ∷ []

abbrev private_actions : List String
private_actions =
    "founder.private.*" ∷ "security.biometric.*" ∷ "security.authority.*" ∷ "security.secrets.*"
    ∷ "finance.credentials.*" ∷ "finance.export_unredacted" ∷ root_actions

abbrev pub default_authority_policy : AuthorityPolicy
default_authority_policy = record {
  founder_principal_id = "founder";
  require_authentication = true;
  confirmation_actions = root_actions;
  founder_only_actions = some private_actions;
  biometric_actions = some private_actions;
  biometric_freshness_ms = some (whole 120000);
}

abbrev pub listed : Option (List String) → List String
listed none = []
listed (some xs) = xs

pub pattern_matches : String → String → Bool
pattern_matches normalized raw_pattern =
    let pattern_ = trim raw_pattern in
    if is_nil pattern_ then false else elim (unstar pattern_) [
      | none ↦ normalized == pattern_
      | some prefix_ ↦ starts_with normalized prefix_
    ]

unfoldable pub matches_action_pattern : String → List String → Bool
unfolding pattern_matches
matches_action_pattern action patterns =
    let normalized = trim action in
    if is_nil normalized then false else any (pattern_matches normalized) patterns

unfoldable pub action_requires_founder_biometric : String → AuthorityPolicy → Bool
action_requires_founder_biometric action policy =
    matches_action_pattern action (listed policy.biometric_actions)

unfoldable pub positive_freshness : Option Number → ℕ
positive_freshness none = 120000
positive_freshness (some n) = if less (whole 0) n then floor n else 120000

abbrev pub is_founder : AuthorityRole → Bool
is_founder founder_director = true
is_founder _ = false

abbrev pub is_privileged_role : AuthorityRole → Bool
is_privileged_role founder_director = true
is_privileged_role administrator = true
is_privileged_role _ = false

abbrev pub is_trusted_source : AuthoritySource → Bool
is_trusted_source authenticated_human = true
is_trusted_source local_system = true
is_trusted_source _ = false

-- The last test of `validateBiometricAttestation`, on the three instants.
abbrev pub is_stale : ℕ → ℕ → ℕ → ℕ → Bool
is_stale requested verified expires freshness =
    ltb (requested + 5000) verified
    || ltb expires requested
    || leb expires verified
    || ltb freshness (expires - verified)

abbrev pub check_instants : Option ℕ → Option ℕ → Option ℕ → ℕ → Option Reason
check_instants (some requested) (some verified) (some expires) freshness =
    if is_stale requested verified expires freshness then some biometric_expired else none
check_instants _ _ _ freshness = some biometric_attestation_invalid

-- `validateBiometricAttestation`: `none` is `{ ok: true }`.
check_attestation :
    Platform
    → BiometricAttestation
    → AuthorityInstruction
    → String
    → AuthorityPolicy
    → Option Reason
check_attestation platform attestation request action policy =
    if not (attestation.principal_id == request.principal_id)
      || not (attestation.action == action)
      || not (attestation.method == "platform-face")
    then some biometric_scope_mismatch
    else if not (is_digest attestation.proof_hash)
    then some biometric_attestation_invalid
    else if is_blank attestation.key_id || ltb 160 (units attestation.key_id)
    then some biometric_attestation_invalid
    else check_instants (platform.parse_date request.requested_at)
        (platform.parse_date attestation.verified_at) (platform.parse_date attestation.expires_at)
        (positive_freshness policy.biometric_freshness_ms)

unfoldable pub validate_biometric_attestation :
    Platform → AuthorityInstruction → String → AuthorityPolicy → Option Reason
unfolding check_attestation
validate_biometric_attestation platform request action policy = elim request.biometric_attestation [
  | none ↦ some founder_biometric_required
  | some attestation ↦ check_attestation platform attestation request action policy
]

-- The tests from `!principal.active` on, for a principal that is there: `none` is `allowed`.
refusal :
    Platform → AuthorityPrincipal → AuthorityInstruction → String → AuthorityPolicy → Option Reason
refusal platform p request action policy =
    let requires_biometric = action_requires_founder_biometric action policy in
    let founder_only =
      requires_biometric || matches_action_pattern action (listed policy.founder_only_actions) in
    if not p.active || not (p.id == request.principal_id)
    then some unknown_or_inactive_principal
    else if policy.require_authentication && not request.authenticated
    then some authentication_required
    else if not (is_trusted_source request.source)
    then some untrusted_source
    else if not (is_privileged_role p.role)
    then some role_cannot_issue
    else if founder_only && (not (p.id == policy.founder_principal_id) || not (is_founder p.role))
    then some founder_required_for_action
    else if requires_biometric
    then validate_biometric_attestation platform request action policy
    else none

-- `isPrivilegedHumanAuthority`
abbrev pub is_privileged_human_authority : Option AuthorityPrincipal → Bool
is_privileged_human_authority none = false
is_privileged_human_authority (some p) = p.active && is_privileged_role p.role

-- Whether a root action is the founder's own.
abbrev pub is_the_founder : Option AuthorityPrincipal → AuthorityPolicy → Bool
is_the_founder none policy = false
is_the_founder (some p) policy = p.id == policy.founder_principal_id && is_founder p.role

abbrev first_refusal :
    Platform
    → Option AuthorityPrincipal
    → AuthorityInstruction
    → String
    → AuthorityPolicy
    → Option Reason
first_refusal platform none request action policy = some unknown_or_inactive_principal
first_refusal platform (some p) request action policy = refusal platform p request action policy

-- `allowed`, `requiresConfirmation` and `reason`, once the second `if` is passed.
abbrev pub confirm : Option Reason → Bool → Bool → Bool × Bool × Reason
confirm (some r) root the_founder = (false, false, r)
confirm none false the_founder = (true, false, authorized)
confirm none true false = (false, false, founder_required_for_root_action)
confirm none true true = (true, true, confirmation_required)

unfoldable pub evaluate_authority :
    Platform
    → Option AuthorityPrincipal
    → AuthorityInstruction
    → String
    → AuthorityPolicy
    → AuthorityDecision
unfolding refusal
evaluate_authority platform principal request action policy =
    let verdict =
      confirm (first_refusal platform principal request action policy)
        (has action policy.confirmation_actions) (is_the_founder principal policy) in
    let requires_biometric = action_requires_founder_biometric action policy in
    record {
      allowed = verdict.0;
      requires_confirmation = verdict.1;
      requires_biometric = requires_biometric;
      reason = verdict.2;
      audit_hash = platform.hash_decision (record {
        principal = principal;
        request = request;
        action = action;
        allowed = verdict.0;
        requires_confirmation = verdict.1;
        requires_biometric = requires_biometric;
        reason = verdict.2;
      });
    }
