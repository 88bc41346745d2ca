-- ===== src/Authority/Decision.antt =====
-- When `evaluateAuthority` allows an action, and when it asks for a confirmation.
use janus_core.Base.{
  String, ◌≡◌, refl, ◌↔◌, ◌⊎◌, inl, inr, Bool, true, false, Option, none, some, arith, string_eq,
  number_eq, has,
}
use text.Mathlib.TextEquality.{eq_iff}
use janus_core.Authority.{
  AuthorityRole, founder_director, administrator, AuthoritySource, authenticated_human,
  local_system, AuthorityPrincipal, BiometricAttestation, AuthorityInstruction, AuthorityPolicy,
  Platform, Reason, listed, matches_action_pattern, action_requires_founder_biometric,
  validate_biometric_attestation, refusal, evaluate_authority, is_the_founder, confirm,
  first_refusal, is_founder, is_trusted_source, is_privileged_role,
}
use janus_core.Authority.Attestation.{Attests, validate-Attests, Attests-validate}

trusted_iff :
    (s : AuthoritySource)
    → (is_trusted_source s ≡ true) ↔ ((s ≡ authenticated_human) ⊎ (s ≡ local_system))
trusted_iff s = (λ h. ground arith, λ h. ground arith)

privileged_iff :
    (r : AuthorityRole)
    → (is_privileged_role r ≡ true) ↔ ((r ≡ founder_director) ⊎ (r ≡ administrator))
privileged_iff r = (λ h. ground arith, λ h. ground arith)

founder_iff : (r : AuthorityRole) → (is_founder r ≡ true) ↔ (r ≡ founder_director)
founder_iff r = (λ h. ground arith, λ h. ground arith)

confirm-allowed :
    (r : Option Reason) (root founder : Bool)
    → ((confirm r root founder).0 ≡ true) ↔ ((r ≡ none) × (root ≡ true → founder ≡ true))
confirm-allowed (some r) root founder = (λ h. cc, λ h. cc (h.0))
confirm-allowed none false founder = (λ h. (refl, λ k. cc), λ h. refl)
confirm-allowed none true false = (λ h. cc, λ h. h.1 refl)
confirm-allowed none true true = (λ h. (refl, λ k. refl), λ h. refl)

confirm-confirms :
    (r : Option Reason) (root founder : Bool)
    → ((confirm r root founder).1 ≡ true) ↔ (((confirm r root founder).0 ≡ true) × (root ≡ true))
confirm-confirms (some r) root founder = (λ h. cc, λ h. h.0)
confirm-confirms none false founder = (λ h. cc, λ h. h.1)
confirm-confirms none true false = (λ h. cc, λ h. h.0)
confirm-confirms none true true = (λ h. (refl, refl), λ h. refl)

module _ (platform : Platform) (request : AuthorityInstruction) (action : String)
    (policy : AuthorityPolicy) where
  -- Who may act: an active principal that issues its own request, authenticated where the policy
  -- wants it, from a trusted source, as founder or administrator; only the founder for a reserved
  -- or a root action, and with an attestation for a biometric one.
  pub record IsAuthorized (p : AuthorityPrincipal) : Type 0 where
    pub active : p.active ≡ true
    pub own : p.id ≡ request.principal_id
    pub authenticated : policy.require_authentication ≡ true → request.authenticated ≡ true
    pub trusted : (request.source ≡ authenticated_human) ⊎ (request.source ≡ local_system)
    pub privileged : (p.role ≡ founder_director) ⊎ (p.role ≡ administrator)
    pub reserved :
        (action_requires_founder_biometric action policy ≡ true)
          ⊎ ((matches_action_pattern action (listed policy.founder_only_actions) ≡ true)
              ⊎ (has action policy.confirmation_actions ≡ true))
        → (p.id ≡ policy.founder_principal_id) × (p.role ≡ founder_director)
    pub attested :
        action_requires_founder_biometric action policy ≡ true
        → (a : BiometricAttestation) × Attests platform request action policy a

  -- The tests as Booleans.
  record Passes (p : AuthorityPrincipal) : Type 0 where
    active : p.active ≡ true
    own : p.id ≡ request.principal_id
    authenticated : policy.require_authentication ≡ true → request.authenticated ≡ true
    trusted : is_trusted_source request.source ≡ true
    privileged : is_privileged_role p.role ≡ true
    reserved :
        (action_requires_founder_biometric action policy ≡ true)
          ⊎ (matches_action_pattern action (listed policy.founder_only_actions) ≡ true)
        → (p.id ≡ policy.founder_principal_id) × (is_founder p.role ≡ true)
    attested :
        action_requires_founder_biometric action policy ≡ true
        → validate_biometric_attestation platform request action policy ≡ none

  refusal-Passes :
      (p : AuthorityPrincipal) → refusal platform p request action policy ≡ none → Passes p
  unfolding refusal
  refusal-Passes p h = record {
    active = ground arith;
    own = ground (arith, eq_iff p.id request.principal_id);
    authenticated = λ k. ground arith;
    trusted = ground arith;
    privileged = ground arith;
    reserved = λ k. ground (arith, eq_iff p.id policy.founder_principal_id);
    attested = λ k. ground arith;
  }

  Passes-refusal :
      (p : AuthorityPrincipal) → Passes p → refusal platform p request action policy ≡ none
  unfolding refusal
  Passes-refusal p t =
      ground (arith, eq_iff p.id request.principal_id, eq_iff p.id policy.founder_principal_id)

  allowed-IsAuthorized :
      (p : AuthorityPrincipal)
      → (evaluate_authority platform (some p) request action policy).allowed ≡ true
      → IsAuthorized p
  unfolding evaluate_authority
  allowed-IsAuthorized p h =
      let (passed, root) =
        (confirm-allowed (refusal platform p request action policy)
            (has action policy.confirmation_actions) (is_the_founder (some p) policy)).0
          h in
      let t = refusal-Passes p passed in
      record {
        active = t.active;
        own = t.own;
        authenticated = t.authenticated;
        trusted = (trusted_iff _).0 t.trusted;
        privileged = (privileged_iff _).0 t.privileged;
        reserved = λ k. reserved t root k;
        attested = λ k. validate-Attests platform request action policy (t.attested k);
      }
    where
      reserved :
          Passes p
          → (has action policy.confirmation_actions ≡ true → is_the_founder (some p) policy ≡ true)
          → (action_requires_founder_biometric action policy ≡ true)
            ⊎ ((matches_action_pattern action (listed policy.founder_only_actions) ≡ true)
                ⊎ (has action policy.confirmation_actions ≡ true))
          → (p.id ≡ policy.founder_principal_id) × (p.role ≡ founder_director)
      reserved t root (inl b) = let (x, y) = t.reserved (inl b) in (x, (founder_iff _).0 y)
      reserved t root (inr (inl b)) = let (x, y) = t.reserved (inr b) in (x, (founder_iff _).0 y)
      reserved t root (inr (inr b)) =
          let k = root b in
          (
            ground (arith, eq_iff p.id policy.founder_principal_id),
            (founder_iff _).0 (ground arith),
          )

  IsAuthorized-allowed :
      (p : AuthorityPrincipal)
      → IsAuthorized p
      → (evaluate_authority platform (some p) request action policy).allowed ≡ true
  unfolding evaluate_authority
  IsAuthorized-allowed p t =
      (confirm-allowed (refusal platform p request action policy)
          (has action policy.confirmation_actions) (is_the_founder (some p) policy)).1
        (Passes-refusal p passes, λ k. the_founder (t.reserved (inr (inr k))))
    where
      the_founder :
          (p.id ≡ policy.founder_principal_id) × (p.role ≡ founder_director)
          → is_the_founder (some p) policy ≡ true
      the_founder (x, y) = ground (arith, eq_iff p.id policy.founder_principal_id)

      either :
          (action_requires_founder_biometric action policy ≡ true)
            ⊎ (matches_action_pattern action (listed policy.founder_only_actions) ≡ true)
          → (p.id ≡ policy.founder_principal_id) × (is_founder p.role ≡ true)
      either (inl b) = let (x, y) = t.reserved (inl b) in (x, (founder_iff _).1 y)
      either (inr b) = let (x, y) = t.reserved (inr (inl b)) in (x, (founder_iff _).1 y)

      passes : Passes p
      passes = record {
        active = t.active;
        own = t.own;
        authenticated = t.authenticated;
        trusted = (trusted_iff _).1 t.trusted;
        privileged = (privileged_iff _).1 t.privileged;
        reserved = either;
        attested =
            λ k. let (a, at) = t.attested k in Attests-validate platform request action policy a at;
      }

  abbrev pub AuthorizedPrincipal : Option AuthorityPrincipal → Type 0
  AuthorizedPrincipal none = ⊥
  AuthorizedPrincipal (some p) = IsAuthorized p

  -- An action is allowed exactly when there is a principal, active and issuing its own request,
  -- authenticated where the policy requires it, from a trusted source and in a privileged role,
  -- that is the founder if the action is biometric, founder-only or a root action, with a fresh
  -- attestation of this principal and action if it is biometric.
  pub allowed_iff :
      (principal : Option AuthorityPrincipal)
      → ((evaluate_authority platform principal request action policy).allowed ≡ true)
        ↔ AuthorizedPrincipal principal
  unfolding evaluate_authority
  allowed_iff none = (λ h. cc, λ h. absurd h)
  allowed_iff (some p) = (allowed-IsAuthorized p, IsAuthorized-allowed p)

  -- A confirmation is asked for exactly where the action is allowed and is itself listed among the
  -- policy's confirmation actions; and the decision's biometric flag says whether the action
  -- matches a biometric pattern.
  pub requires_confirmation_iff :
      (principal : Option AuthorityPrincipal)
      → let d = evaluate_authority platform principal request action policy in
        ((d.requires_confirmation ≡ true)
          ↔ ((d.allowed ≡ true) × (has action policy.confirmation_actions ≡ true)))
        × (d.requires_biometric ≡ action_requires_founder_biometric action policy)
  unfolding evaluate_authority
  requires_confirmation_iff principal = (
    confirm-confirms (first_refusal platform principal request action policy)
        (has action policy.confirmation_actions) (is_the_founder principal policy),
    refl,
  )
