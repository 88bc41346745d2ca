-- ===== src/Examples/Records.antt =====
-- Records of operators and assistants.
use janus_core.Base.{
  ℕ, String, ◌≡◌, refl, ◌⊎◌, inl, inr, true, false, Option, none, some, List, [], ◌∷◌, map,
  number_eq, string_eq, keep, has, trim, clean_list,
}
use janus_core.Base.Number.{whole}
use janus_core.Base.Once.{once}
use janus_core.Authority.{AuthorityPrincipal, operator}
use janus_core.Coordination.{
  CoordinationScope, CoordinationGrant, CoordinationAssignment, project, queued, normal,
  read_context, build_coordination_brief, assert_assignment_access,
}
use janus_core.Coordination.Access.{build_coordination_brief-assert_assignment_access}
use janus_core.Coordination.Records.{HandoffContents, contents_of, create_coordination_handoff}
use janus_core.Base.Once.{and_then}
use janus_core.Coordination.Records.Settled.{create_coordination_handoff_again}
use janus_core.Assistants.{
  current, AssistantProfileRevision, ProfileInput, AssistantError, Platform,
  create_assistant_profile_revision, verify_assistant_profile_revision, safe_id,
}
use janus_core.Assistants.Verified.{create-verify_assistant_profile_revision}
use janus_core.Assistants.Surface.{
  AssistantSurface, SurfaceInput, custom, active, tracks_current, repository, seal_surface,
  config_of, resolve_assistant_surface_config,
}
use janus_core.Assistants.Surface.Resolved.{IsResolution, resolve-IsPicked}
use janus_core.Assistants.Upgrade.{
  assert_assistant_profile_revision_append_only, customer_support_24x7_capability,
  upgrade_landing_assistant_profile_for_24x7_support,
}
use janus_core.Assistants.Upgrade.Appended.{upgrade_appends}

abbrev dates : String → Option ℕ
dates s = some 5

abbrev ann : AuthorityPrincipal
ann = record { id = "ann"; role = operator; display_name = none; active = true }

abbrev scope : CoordinationScope
scope = record {
  id = "s1";
  label = " Site ";
  classification = project;
  owner_principal_id = "bob";
  created_at = "t";
  description = none;
}

abbrev grant : CoordinationGrant
grant = record {
  id = "g1";
  principal_id = "ann";
  scope_id = "s1";
  permissions = read_context ∷ read_context ∷ [];
  granted_by = "bob";
  created_at = "t";
  revoked_at = none;
}

abbrev assignment : CoordinationAssignment
assignment = record {
  id = "a1";
  title = "Write";
  goal = "Page";
  assignee_principal_id = "bob";
  scope_ids = "s1" ∷ " s1" ∷ [];
  status = queued;
  priority = normal;
  created_by = "bob";
  created_at = "t";
  updated_at = "t";
  next_actions = [];
  last_run_id = none;
  metadata = none;
}

build_coordination_brief-assert_assignment_access_example :
    map
      (λ b. b.assignment)
      (build_coordination_brief dates ann []
        (scope ∷ [])
        (grant ∷ [])
        (assignment ∷ [])
        []).assignments
    ≡ keep (λ a. assert_assignment_access ann a (scope ∷ []) (grant ∷ []) none) (assignment ∷ [])
build_coordination_brief-assert_assignment_access_example =
    build_coordination_brief-assert_assignment_access dates ann [] (scope ∷ []) (grant ∷ [])
      (assignment ∷ []) [] (refl, tt)

abbrev contents : HandoffContents
contents = record {
  assignment_id = "a1";
  from_principal_id = "ann";
  to_principal_id = none;
  run_id = none;
  created_at = "t";
  executive_summary = " Done. ";
  conclusions = "one" ∷ " one" ∷ [];
  completed = [];
  pending = [];
  blockers = [];
  next_actions = [];
  decisions = [];
  evidence_refs = [];
}

abbrev summary_of : HandoffContents → String
summary_of c = c.executive_summary

handoff_id_trimmed : trim "handoff_1" ≡ "handoff_1"
unfolding trim
handoff_id_trimmed = refl

create_coordination_handoff_again_example :
    and_then
      (create_coordination_handoff dates summary_of "handoff_1" none contents)
      (λ h. create_coordination_handoff dates summary_of "handoff_2" (some h.id) (contents_of h))
    ≡ create_coordination_handoff dates summary_of "handoff_1" none contents
create_coordination_handoff_again_example =
    create_coordination_handoff_again dates summary_of "handoff_1" "handoff_2" none contents
      handoff_id_trimmed refl

abbrev pub platform : Platform
platform = record { parse_date = dates; lower_case = λ s. s; profile_digest = λ p. p.name }

abbrev profile_input : ProfileInput
profile_input = record {
  profile_id = "p1";
  revision = whole 1;
  status = current;
  name = " Helper ";
  objective = "Help";
  shared_instructions = [];
  guardrails = "no-secrets" ∷ [];
  capabilities = "conversation" ∷ " conversation" ∷ "payments" ∷ [];
  module_refs = record { item_id = "m"; revision = none; optional = some false } ∷ [];
  created_at = "t";
  created_by = "ann";
  supersedes_revision = none;
}

abbrev profile : AssistantProfileRevision
profile = record {
  profile_id = "p1";
  revision = whole 1;
  status = current;
  name = "Helper";
  objective = "Help";
  shared_instructions = [];
  guardrails = "no-secrets" ∷ [];
  capabilities = "conversation" ∷ "payments" ∷ [];
  module_refs = record { item_id = "m"; revision = none; optional = none } ∷ [];
  created_at = "t";
  created_by = "ann";
  supersedes_revision = none;
  checksum = "Helper";
}

profile_created : create_assistant_profile_revision platform profile_input ≡ inr profile
unfolding create_assistant_profile_revision safe_id trim mathlib.Core.Option.Option-elim once
    clean_list
profile_created = refl

create-verify_assistant_profile_revision_example :
    verify_assistant_profile_revision platform profile ≡ inr true
create-verify_assistant_profile_revision_example =
    create-verify_assistant_profile_revision platform profile_input profile profile_created

abbrev surface_input : SurfaceInput
surface_input = record {
  id = "landing";
  name = "Landing";
  product = custom;
  profile_id = "p1";
  status = active;
  tracking = tracks_current;
  pinned_revision = none;
  presentation = record {
    brand_name = "Brand";
    default_language = none;
    greeting = none;
    disclosure = none;
    accent_token_ref = none;
  };
  disabled_capabilities = "payments" ∷ [];
  delivery_targets =
      record { kind = repository; target = "site"; product_key = none; notes = none } ∷ [];
  created_at = "t";
  updated_at = "t";
  created_by = "ann";
}

abbrev pub name_of : SurfaceInput → String
name_of s = s.name

abbrev config_text : AssistantSurface → AssistantProfileRevision → List String → String
config_text s p cs = "config"

abbrev surface : AssistantSurface
surface = seal_surface name_of surface_input

resolved :
    resolve_assistant_surface_config platform name_of config_text surface (profile ∷ [])
    ≡ inr (config_of config_text surface profile ("conversation" ∷ []))
unfolding resolve_assistant_surface_config safe_id trim mathlib.Core.Option.Option-elim once
    verify_assistant_profile_revision clean_list
resolved = refl

resolve-IsPicked_example :
    IsResolution platform name_of config_text surface
      (profile ∷ [])
      (config_of config_text surface profile ("conversation" ∷ []))
resolve-IsPicked_example =
    resolve-IsPicked platform name_of config_text surface (profile ∷ [])
      (config_of config_text surface profile ("conversation" ∷ [])) resolved

abbrev right_of : AssistantError ⊎ AssistantProfileRevision → AssistantProfileRevision
right_of (inl e) = profile
right_of (inr p) = p

abbrev next : AssistantProfileRevision
next = right_of (upgrade_landing_assistant_profile_for_24x7_support platform profile "t2" "ann")

upgraded : upgrade_landing_assistant_profile_for_24x7_support platform profile "t2" "ann" ≡ inr next
unfolding upgrade_landing_assistant_profile_for_24x7_support verify_assistant_profile_revision
    safe_id trim mathlib.Core.Option.Option-elim once clean_list
upgraded = refl

upgrade_appends_example :
    ((next ≡ profile) × (has customer_support_24x7_capability profile.capabilities ≡ true))
    ⊎ ((verify_assistant_profile_revision platform next ≡ inr true)
        × (assert_assistant_profile_revision_append_only (some profile) next ≡ inr tt))
upgrade_appends_example =
    upgrade_appends platform profile_input profile next "t2" "ann" profile_created upgraded
