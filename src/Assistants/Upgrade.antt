-- ===== src/Assistants/Upgrade.antt =====
-- packages/core/src/assistant-control-plane.ts: revisions that follow each other, and the upgrade of
-- the landing assistants' profile.
pub mod Appended
use janus_core.Base.{
  String, ◌⊎◌, inl, inr, Bool, false, not, Option, none, some, List, [], ◌∷◌, ◌++◌, if◌then◌else◌,
  number_eq, string_eq, ◌==◌, has, when,
}
use mathlib.Core.Option.{Option-elim}
use janus_core.Base.Number.{Number, whole, plus}
use janus_core.Base.Once.{and_then, guards}
use janus_core.Assistants.{
  current, AssistantProfileRevision, ProfileInput, AssistantError, first_revision_not_one,
  profile_id_changed, revision_not_next, does_not_supersede, previous_not_current,
  upgrade_checksum_invalid, upgrade_not_current, Platform, create_assistant_profile_revision,
  verify_assistant_profile_revision,
}
use janus_core.Assistants.Surface.{number_equal, is_current}

unfoldable pub succession_checks :
    Option AssistantProfileRevision → AssistantProfileRevision → List (Bool × AssistantError)
succession_checks none next =
    (not (number_equal next.revision (whole 1)), first_revision_not_one) ∷ []
succession_checks (some previous) next =
    (not (previous.profile_id == next.profile_id), profile_id_changed)
    ∷ (not (number_equal next.revision (plus previous.revision (whole 1))), revision_not_next)
    ∷ (
      not (Option-elim next.supersedes_revision false (λ n. number_equal n previous.revision)),
      does_not_supersede,
    )
    ∷ (not (is_current previous.status), previous_not_current)
    ∷ []

unfoldable pub assert_assistant_profile_revision_append_only :
    Option AssistantProfileRevision → AssistantProfileRevision → AssistantError ⊎ Unit {0}
unfolding succession_checks
assert_assistant_profile_revision_append_only previous next =
    guards (succession_checks previous next) (inr tt)

abbrev pub customer_support_24x7_capability : String
customer_support_24x7_capability = "customer-support-24x7"

abbrev pub support_instructions : List String
support_instructions =
    "Provide continuous customer support when the product runtime is online, using only approved product knowledge and current service state."
    ∷ "Route product-specific questions to the correct knowledge scope and never leak internal cross-product context."
    ∷ "Capture unresolved questions and use the configured human handoff rather than inventing an answer."
    ∷ "Never expose internal accounting, credentials, private analytics or founder-only information to customer-facing surfaces."
    ∷ []

abbrev pub support_guardrails : List String
support_guardrails = "product-scope-grounding" ∷ "no-internal-financial-data-to-customers" ∷ []

abbrev pub support_capabilities : List String
support_capabilities =
    customer_support_24x7_capability ∷ "product-knowledge-routing" ∷ "support-escalation"
    ∷ "unresolved-question-capture" ∷ []

unfoldable pub upgraded_input : AssistantProfileRevision → String → String → ProfileInput
upgraded_input p created_at created_by = record {
  profile_id = p.profile_id;
  revision = plus p.revision (whole 1);
  status = current;
  name = p.name;
  objective = p.objective;
  shared_instructions = p.shared_instructions ++ support_instructions;
  guardrails = p.guardrails ++ support_guardrails;
  capabilities = p.capabilities ++ support_capabilities;
  module_refs = p.module_refs;
  created_at = created_at;
  created_by = created_by;
  supersedes_revision = some p.revision;
}

module _ (platform : Platform) where
  -- The function on a profile whose checksum was found right, or not.
  abbrev pub upgrade_verified :
      Bool → AssistantProfileRevision → String → String → AssistantError ⊎ AssistantProfileRevision
  upgrade_verified ok p created_at created_by =
      if not ok
      then inl upgrade_checksum_invalid
      else if not (is_current p.status)
      then inl upgrade_not_current
      else if has customer_support_24x7_capability p.capabilities
      then inr p
      else create_assistant_profile_revision platform (upgraded_input p created_at created_by)

  unfoldable pub upgrade_landing_assistant_profile_for_24x7_support :
      AssistantProfileRevision → String → String → AssistantError ⊎ AssistantProfileRevision
  unfolding upgraded_input
  upgrade_landing_assistant_profile_for_24x7_support p created_at created_by =
      and_then (verify_assistant_profile_revision platform p)
        (λ ok. upgrade_verified ok p created_at created_by)
