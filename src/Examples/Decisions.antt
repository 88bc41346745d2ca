-- ===== src/Examples/Decisions.antt =====
-- Decisions of the authority, and of the delivery gate.
use janus_core.Base.{
  ◌≡◌, refl, ◌↔◌, true, false, none, some, [], ◌∷◌, string_eq, number_eq, is_empty, All, has,
  is_blank, trim, units, unstar, is_digest,
}
use janus_core.Authority.{
  AuthorityPrincipal, founder_director, AuthorityInstruction, authenticated_human,
  BiometricAttestation, Platform, default_authority_policy, evaluate_authority,
  confirmation_required, action_requires_founder_biometric, matches_action_pattern,
  validate_biometric_attestation, positive_freshness,
}
use janus_core.Authority.Decision.{allowed_iff, requires_confirmation_iff, AuthorizedPrincipal}
use janus_core.Delivery.{
  DeliveryGate, DeliveryArtifact, DeliveryGateResult, QualityReviewer, coherence, text, found,
  evaluate, gate_result, review_of, warning, assert_deliverable,
}
use janus_core.Delivery.Gate.{Approves, evaluate-passed, assert_deliverable-Approves}

-- Instants as the numbers of their texts' lengths: enough for the comparisons.
abbrev pub platform : Platform
platform = record { parse_date = λ s. some (units s); hash_decision = λ a. "digest" }

abbrev founder : AuthorityPrincipal
founder = record { id = "founder"; role = founder_director; display_name = none; active = true }

abbrev face : BiometricAttestation
face = record {
  principal_id = "founder";
  action = "delete_all";
  method = "platform-face";
  verified_at = "11";
  expires_at = "111";
  key_id = "k1";
  proof_hash = "0123456789abcdef0123456789abcdef0123456789abcdef0123456789ABCDEF";
}

abbrev order : AuthorityInstruction
order = record {
  id = "i1";
  principal_id = "founder";
  source = authenticated_human;
  authenticated = true;
  instruction = "wipe";
  requested_at = "11";
  biometric_attestation = some face;
}

root_confirmed :
    let d =
      evaluate_authority platform (some founder) order "delete_all" default_authority_policy in
    (d.allowed ≡ true) × (d.requires_confirmation ≡ true) × (d.reason ≡ confirmation_required)
unfolding evaluate_authority action_requires_founder_biometric matches_action_pattern trim unstar
    validate_biometric_attestation is_digest is_blank units positive_freshness
root_confirmed = (refl, refl, refl)

allowed_iff_example :
    ((evaluate_authority platform
        (some founder)
        order
        "delete_all"
        default_authority_policy).allowed
      ≡ true)
    ↔ AuthorizedPrincipal platform order "delete_all" default_authority_policy (some founder)
allowed_iff_example =
    allowed_iff platform order "delete_all" default_authority_policy (some founder)

requires_confirmation_iff_example :
    let d =
      evaluate_authority platform (some founder) order "delete_all" default_authority_policy in
    ((d.requires_confirmation ≡ true) ↔ (
      (d.allowed ≡ true) × (has "delete_all" default_authority_policy.confirmation_actions ≡ true)))
    × (d.requires_biometric
        ≡ action_requires_founder_biometric "delete_all" default_authority_policy)
requires_confirmation_iff_example =
    requires_confirmation_iff platform order "delete_all" default_authority_policy (some founder)

-- With a space behind its name the root action is allowed without a confirmation.
abbrev padded_order : AuthorityInstruction
padded_order = record order {
  biometric_attestation = some (record face { action = "delete_all " });
}

padded_unconfirmed :
    let d =
      evaluate_authority platform
        (some founder)
        padded_order
        "delete_all "
        default_authority_policy in
    (d.allowed ≡ true) × (d.requires_biometric ≡ true) × (d.requires_confirmation ≡ false)
unfolding evaluate_authority action_requires_founder_biometric matches_action_pattern trim unstar
    validate_biometric_attestation is_digest is_blank units positive_freshness
padded_unconfirmed = (refl, refl, refl)

abbrev reviewer : QualityReviewer
reviewer = record {
  dimension = coherence;
  name = "reader";
  review = λ a. found (record { code = "tone"; message = "dry"; severity = warning } ∷ []);
}

abbrev pub gate : DeliveryGate
gate = record { reviewers = reviewer ∷ []; required = coherence ∷ []; now = λ k. "now" }

abbrev letter : DeliveryArtifact
letter = record { id = "a1"; kind = text; content = "hello"; metadata = [] }

abbrev result : DeliveryGateResult
result = gate_result letter (
    review_of reviewer coherence
      (record { code = "tone"; message = "dry"; severity = warning } ∷ []) "now"
    ∷ [])

evaluate-passed_example :
    ((result.passed ≡ true) ↔ All (Approves gate letter) gate.required)
    × (is_empty result.blocking_findings ≡ result.passed)
unfolding evaluate is_blank
evaluate-passed_example = evaluate-passed gate letter result refl

assert_deliverable-Approves_example :
    All (Approves gate letter) gate.required × (is_empty result.blocking_findings ≡ true)
unfolding assert_deliverable is_blank
assert_deliverable-Approves_example = assert_deliverable-Approves gate letter result refl
