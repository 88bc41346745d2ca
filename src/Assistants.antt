-- ===== src/Assistants.antt =====
-- packages/core/src/assistant-control-plane.ts: profiles of assistants in revisions, and the surfaces
-- that they appear on. The SHA-256 digests of contents, `Date.parse` and `toLowerCase` are the
-- platform's.
pub mod Defaults
pub mod Surface
pub mod Upgrade
pub mod Verified
use janus_core.Base.{
  ℕ, String, ◌⊎◌, inl, inr, Bool, true, false, not, ◌&&◌, ◌||◌, Option, none, some, List, [], ◌∷◌,
  ◌++◌, leb, nat_eq, if◌then◌else◌, number_eq, string_eq, ◌==◌, length, is_empty, all, is_nil, trim,
  codes, decimal, clean_list,
}
use Prim.Native.String
use Prim.Native.Char.{code}
use mathlib.Core.Option.{Option-elim}
use janus_core.Base.Number.{Number, whole, less, is_integer, floor, plus}
use janus_core.Base.Once.{and_then, guards, once}

pub data AssistantProfileStatus : Type 0 where
  draft current historical : AssistantProfileStatus

pub record AssistantModuleRef : Type 0 where
  pub item_id : String
  pub revision : Option Number
  pub optional : Option Bool

pub record AssistantProfileRevision : Type 0 where
  pub profile_id : String
  pub revision : Number
  pub status : AssistantProfileStatus
  pub name : String
  pub objective : String
  pub shared_instructions : List String
  pub guardrails : List String
  pub capabilities : List String
  pub module_refs : List AssistantModuleRef
  pub created_at : String
  pub created_by : String
  pub supersedes_revision : Option Number
  pub checksum : String

-- What a revision is made from: all its fields but the checksum.
pub record ProfileInput : Type 0 where
  pub profile_id : String
  pub revision : Number
  pub status : AssistantProfileStatus
  pub name : String
  pub objective : String
  pub shared_instructions : List String
  pub guardrails : List String
  pub capabilities : List String
  pub module_refs : List AssistantModuleRef
  pub created_at : String
  pub created_by : String
  pub supersedes_revision : Option Number

pub data AssistantError : Type 0 where
  profile_id_invalid revision_invalid profile_name_required : AssistantError
  objective_required profile_creator_required profile_date_invalid : AssistantError
  guardrail_required module_item_required module_revision_invalid : AssistantError
  first_revision_not_one profile_id_changed revision_not_next : AssistantError
  does_not_supersede previous_not_current : AssistantError
  surface_id_invalid surface_profile_invalid surface_name_required : AssistantError
  brand_required surface_creator_required surface_date_invalid : AssistantError
  pinned_revision_required pinned_revision_set delivery_target_required : AssistantError
  surface_checksum_mismatch profile_unavailable : String → AssistantError
  upgrade_checksum_invalid upgrade_not_current : AssistantError

is_alphanumeric : ℕ → Bool
is_alphanumeric c =
    (leb b'0' c && leb c b'9') || (leb b'A' c && leb c b'Z') || (leb b'a' c && leb c b'z')

is_id_code : ℕ → Bool
unfolding is_alphanumeric
is_id_code c = is_alphanumeric c || nat_eq c b'.' || nat_eq c b'_' || nat_eq c b':' || nat_eq c b'-'

safe_codes : List ℕ → Bool
unfolding is_alphanumeric is_id_code
safe_codes [] = false
safe_codes (c ∷ cs) = is_alphanumeric c && all is_id_code cs && leb (length cs) 159

-- `/^[A-Za-z0-9][A-Za-z0-9._:-]{0,159}$/.test(value.trim())`
unfoldable pub safe_id : String → Bool
unfolding safe_codes
safe_id value = safe_codes (codes (trim value))

-- `!Number.isInteger(n) || n < 1`
abbrev pub is_not_positive : Number → Bool
is_not_positive n = not (is_integer n) || less n (whole 1)

-- `!value.trim()`
abbrev pub lacks : String → Bool
lacks value = is_nil (trim value)

abbrev pub clean_strings : List String → List String
clean_strings = clean_list

-- The loop of `normalizeModuleRefs`: its errors, its marker and what it pushes. A revision that
-- passes the check is a natural number.
abbrev pub module_error : AssistantModuleRef → Option AssistantError
module_error value =
    if lacks value.item_id
    then some module_item_required
    else if Option-elim value.revision false is_not_positive
    then some module_revision_invalid
    else none

abbrev pub module_marker : AssistantModuleRef → String
module_marker value =
    String.◌++◌ (trim value.item_id)
      (String.◌++◌ "@" (Option-elim value.revision "current" (λ n. decimal (floor n))))

abbrev pub only_true : Option Bool → Option Bool
only_true (some true) = some true
only_true _ = none

abbrev pub module_entry : AssistantModuleRef → AssistantModuleRef
module_entry value = record {
  item_id = trim value.item_id;
  revision = value.revision;
  optional = only_true value.optional;
}

unfoldable pub normalize_module_refs :
    List AssistantModuleRef → AssistantError ⊎ List AssistantModuleRef
normalize_module_refs values = once module_error module_marker module_entry values []

pub record Platform : Type 0 where
  pub parse_date : String → Option ℕ
  pub lower_case : String → String
  pub profile_digest : ProfileInput → String

abbrev pub with_checksum : String → ProfileInput → AssistantProfileRevision
with_checksum checksum p = record {
  profile_id = p.profile_id;
  revision = p.revision;
  status = p.status;
  name = p.name;
  objective = p.objective;
  shared_instructions = p.shared_instructions;
  guardrails = p.guardrails;
  capabilities = p.capabilities;
  module_refs = p.module_refs;
  created_at = p.created_at;
  created_by = p.created_by;
  supersedes_revision = p.supersedes_revision;
  checksum = checksum;
}

abbrev pub without_checksum : AssistantProfileRevision → ProfileInput
without_checksum p = record {
  profile_id = p.profile_id;
  revision = p.revision;
  status = p.status;
  name = p.name;
  objective = p.objective;
  shared_instructions = p.shared_instructions;
  guardrails = p.guardrails;
  capabilities = p.capabilities;
  module_refs = p.module_refs;
  created_at = p.created_at;
  created_by = p.created_by;
  supersedes_revision = p.supersedes_revision;
}

unfoldable pub normalized_profile : ProfileInput → List AssistantModuleRef → ProfileInput
normalized_profile input module_refs = record input {
  profile_id = trim input.profile_id;
  name = trim input.name;
  objective = trim input.objective;
  created_by = trim input.created_by;
  shared_instructions = clean_strings input.shared_instructions;
  guardrails = clean_strings input.guardrails;
  capabilities = clean_strings input.capabilities;
  module_refs = module_refs;
}

module _ (platform : Platform) where
  -- `validateIso`, as a test for its error
  abbrev pub is_no_date : String → Bool
  is_no_date value = Option-elim (platform.parse_date value) true (λ t. false)

  unfoldable pub profile_checks : ProfileInput → List (Bool × AssistantError)
  profile_checks input =
      (not (safe_id input.profile_id), profile_id_invalid)
      ∷ (is_not_positive input.revision, revision_invalid)
      ∷ (lacks input.name, profile_name_required)
      ∷ (lacks input.objective, objective_required)
      ∷ (lacks input.created_by, profile_creator_required)
      ∷ (is_no_date input.created_at, profile_date_invalid)
      ∷ []

  -- The end of the function, on the normalised input. The digest does not read the status.
  abbrev pub seal_profile : ProfileInput → AssistantError ⊎ AssistantProfileRevision
  seal_profile p =
      if is_empty p.guardrails
      then inl guardrail_required
      else inr (with_checksum (platform.profile_digest (record p { status = current })) p)

  unfoldable pub create_assistant_profile_revision :
      ProfileInput → AssistantError ⊎ AssistantProfileRevision
  unfolding profile_checks normalized_profile normalize_module_refs
  create_assistant_profile_revision input = guards (profile_checks input) (
      and_then (normalize_module_refs input.module_refs)
        (λ module_refs. seal_profile (normalized_profile input module_refs)))

  unfoldable pub verify_assistant_profile_revision :
      AssistantProfileRevision → AssistantError ⊎ Bool
  unfolding create_assistant_profile_revision
  verify_assistant_profile_revision profile =
      and_then (create_assistant_profile_revision (without_checksum profile))
        (λ recreated. inr (recreated.checksum == profile.checksum))
