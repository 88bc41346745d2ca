-- ===== src/Assistants/Surface.antt =====
-- packages/core/src/assistant-control-plane.ts: surfaces, and the profile that a surface resolves to.
pub mod Resolved
use janus_core.Base.{
  String, ◌⊎◌, inl, inr, Bool, true, false, not, ◌&&◌, Option, none, some, List, [], ◌∷◌, ◌++◌,
  if◌then◌else◌, number_eq, string_eq, ◌==◌, keep, has, is_nil, trim,
}
use Prim.Native.String
use mathlib.Core.Option.{Option-elim}
use janus_core.Base.Number.{Number, less}
use janus_core.Base.Once.{and_then, guards, once}
use janus_core.Assistants.{
  AssistantProfileStatus, current, AssistantProfileRevision, AssistantModuleRef, AssistantError,
  surface_id_invalid, surface_profile_invalid, surface_name_required, brand_required,
  surface_creator_required, surface_date_invalid, pinned_revision_required, pinned_revision_set,
  delivery_target_required, surface_checksum_mismatch, profile_unavailable, safe_id, lacks,
  clean_strings, is_not_positive, is_no_date, Platform, verify_assistant_profile_revision,
}

pub data AssistantProduct : Type 0 where
  infinity_group infinity_chatbox infinity_business_assistant custom : AssistantProduct

pub data AssistantSurfaceStatus : Type 0 where
  active paused : AssistantSurfaceStatus

pub data AssistantProfileTracking : Type 0 where
  tracks_current tracks_pinned : AssistantProfileTracking

pub record AssistantSurfacePresentation : Type 0 where
  pub brand_name : String
  pub default_language : Option String
  pub greeting : Option String
  pub disclosure : Option String
  pub accent_token_ref : Option String

pub data TargetKind : Type 0 where
  repository api local : TargetKind

pub record AssistantSurfaceDeliveryTarget : Type 0 where
  pub kind : TargetKind
  pub target : String
  pub product_key : Option String
  pub notes : Option String

-- What a surface is made from: all its fields but the checksum.
pub record SurfaceInput : Type 0 where
  pub id : String
  pub name : String
  pub product : AssistantProduct
  pub profile_id : String
  pub status : AssistantSurfaceStatus
  pub tracking : AssistantProfileTracking
  pub pinned_revision : Option Number
  pub presentation : AssistantSurfacePresentation
  pub disabled_capabilities : List String
  pub delivery_targets : List AssistantSurfaceDeliveryTarget
  pub created_at : String
  pub updated_at : String
  pub created_by : String

pub record AssistantSurface : Type 0 where
  pub contents : SurfaceInput
  pub checksum : String

pub record ResolvedAssistantSurfaceConfig : Type 0 where
  pub surface : AssistantSurface
  pub profile : AssistantProfileRevision
  pub effective_capabilities : List String
  pub module_refs : List AssistantModuleRef
  pub inherited_revision : Number
  pub checksum : String

-- `value?.trim() || undefined`
abbrev pub clean_text : Option String → Option String
clean_text none = none
clean_text (some s) = if is_nil (trim s) then none else some (trim s)

abbrev pub kind_name : TargetKind → String
kind_name repository = "repository"
kind_name api = "api"
kind_name local = "local"

-- The loop of `normalizeDeliveryTargets`: its error, its marker and what it pushes.
abbrev pub target_error : AssistantSurfaceDeliveryTarget → Option AssistantError
target_error value = if lacks value.target then some delivery_target_required else none

abbrev pub target_marker : AssistantSurfaceDeliveryTarget → String
target_marker value = String.◌++◌ (kind_name value.kind) (
    String.◌++◌ ":" (
      String.◌++◌ (trim value.target)
        (String.◌++◌ ":" (Option-elim (clean_text value.product_key) "" (λ k. k)))))

abbrev pub target_entry : AssistantSurfaceDeliveryTarget → AssistantSurfaceDeliveryTarget
target_entry value = record {
  kind = value.kind;
  target = trim value.target;
  product_key = clean_text value.product_key;
  notes = clean_text value.notes;
}

unfoldable pub normalize_delivery_targets :
    List AssistantSurfaceDeliveryTarget → AssistantError ⊎ List AssistantSurfaceDeliveryTarget
normalize_delivery_targets values = once target_error target_marker target_entry values []

-- The tests on the pinned revision, with their errors.
abbrev pub pinning_checks : AssistantProfileTracking → Option Number → List (Bool × AssistantError)
pinning_checks tracks_pinned pinned =
    (Option-elim pinned true is_not_positive, pinned_revision_required) ∷ []
pinning_checks tracks_current none = []
pinning_checks tracks_current (some n) = (true, pinned_revision_set) ∷ []

-- `a === b`, of numbers
abbrev pub number_equal : Number → Number → Bool
number_equal a b = not (less a b) && not (less b a)

abbrev pub is_current : AssistantProfileStatus → Bool
is_current current = true
is_current _ = false

abbrev pub newer_of :
    AssistantProfileRevision → Option AssistantProfileRevision → AssistantProfileRevision
newer_of p none = p
newer_of p (some q) = if less p.revision q.revision then q else p

-- `[...profiles].sort((a, b) => b.revision - a.revision)[0]`
unfoldable pub newest : List AssistantProfileRevision → Option AssistantProfileRevision
newest [] = none
newest (p ∷ ps) = some (newer_of p (newest ps))

-- `profiles.find((candidate) => candidate.revision === pinned)`
unfoldable pub find_pinned :
    Option Number → List AssistantProfileRevision → Option AssistantProfileRevision
find_pinned pinned [] = none
find_pinned pinned (p ∷ ps) =
    let later = find_pinned pinned ps in
    if Option-elim pinned false (number_equal p.revision) then some p else later

unfoldable pub pick :
    AssistantProfileTracking
    → Option Number
    → List AssistantProfileRevision
    → Option AssistantProfileRevision
unfolding newest find_pinned
pick tracks_pinned pinned candidates = find_pinned pinned candidates
pick tracks_current pinned candidates = newest (keep (λ p. is_current p.status) candidates)

module _ (platform : Platform) where
  -- `value?.trim().toLowerCase() || undefined`
  abbrev pub clean_language : Option String → Option String
  clean_language none = none
  clean_language (some s) =
      let lowered = platform.lower_case (trim s) in if is_nil lowered then none else some lowered

  unfoldable pub normalized_presentation :
      AssistantSurfacePresentation → AssistantSurfacePresentation
  normalized_presentation p = record {
    brand_name = trim p.brand_name;
    default_language = clean_language p.default_language;
    greeting = clean_text p.greeting;
    disclosure = clean_text p.disclosure;
    accent_token_ref = clean_text p.accent_token_ref;
  }

  unfoldable pub surface_checks : SurfaceInput → List (Bool × AssistantError)
  surface_checks input =
      (not (safe_id input.id), surface_id_invalid)
      ∷ (not (safe_id input.profile_id), surface_profile_invalid)
      ∷ (lacks input.name, surface_name_required)
      ∷ (lacks input.presentation.brand_name, brand_required)
      ∷ (lacks input.created_by, surface_creator_required)
      ∷ (is_no_date platform input.created_at, surface_date_invalid)
      ∷ (is_no_date platform input.updated_at, surface_date_invalid)
      ∷ pinning_checks input.tracking input.pinned_revision

  unfoldable pub normalized_surface :
      SurfaceInput → List AssistantSurfaceDeliveryTarget → SurfaceInput
  unfolding normalized_presentation
  normalized_surface input targets = record input {
    id = trim input.id;
    name = trim input.name;
    profile_id = trim input.profile_id;
    created_by = trim input.created_by;
    presentation = normalized_presentation input.presentation;
    disabled_capabilities = clean_strings input.disabled_capabilities;
    delivery_targets = targets;
  }

  -- `.filter((profile) => verifyAssistantProfileRevision(profile))`, which may throw.
  unfoldable pub keep_verified :
      List AssistantProfileRevision → AssistantError ⊎ List AssistantProfileRevision
  keep_verified [] = inr []
  keep_verified (p ∷ ps) =
      and_then (verify_assistant_profile_revision platform p)
        (λ ok. and_then (keep_verified ps) (λ rest. inr (if ok then p ∷ rest else rest)))

module _ (config_digest : AssistantSurface → AssistantProfileRevision → List String → String) where
  abbrev pub config_of :
      AssistantSurface → AssistantProfileRevision → List String → ResolvedAssistantSurfaceConfig
  config_of surface profile effective = record {
    surface = surface;
    profile = profile;
    effective_capabilities = effective;
    module_refs = profile.module_refs;
    inherited_revision = profile.revision;
    checksum = config_digest surface profile effective;
  }

  -- The end of the function, for the profile that was found.
  unfoldable pub resolve_to :
      AssistantSurface
      → Option AssistantProfileRevision
      → AssistantError ⊎ ResolvedAssistantSurfaceConfig
  resolve_to surface none = inl (profile_unavailable surface.contents.id)
  resolve_to surface (some profile) = inr (
      config_of surface profile
        (keep (λ c. not (has c surface.contents.disabled_capabilities)) profile.capabilities))

abbrev pub seal_surface : (SurfaceInput → String) → SurfaceInput → AssistantSurface
seal_surface surface_digest s = record { contents = s; checksum = surface_digest s }

module _ (platform : Platform) (surface_digest : SurfaceInput → String) where
  unfoldable pub create_assistant_surface : SurfaceInput → AssistantError ⊎ AssistantSurface
  unfolding surface_checks normalized_surface normalize_delivery_targets
  create_assistant_surface input = guards (surface_checks platform input) (
      and_then (normalize_delivery_targets input.delivery_targets)
        (λ targets. inr (seal_surface surface_digest (normalized_surface platform input targets))))

  unfoldable pub verify_assistant_surface : AssistantSurface → AssistantError ⊎ Bool
  unfolding create_assistant_surface
  verify_assistant_surface surface =
      and_then (create_assistant_surface surface.contents)
        (λ recreated. inr (recreated.checksum == surface.checksum))

module _ (platform : Platform) (surface_digest : SurfaceInput → String)
    (config_digest : AssistantSurface → AssistantProfileRevision → List String → String) where
  unfoldable pub resolve_assistant_surface_config :
      AssistantSurface
      → List AssistantProfileRevision
      → AssistantError ⊎ ResolvedAssistantSurfaceConfig
  unfolding verify_assistant_surface keep_verified pick resolve_to
  resolve_assistant_surface_config surface profiles =
      and_then (verify_assistant_surface platform surface_digest surface) (λ ok.
        if ok
        then and_then
            (keep_verified platform
              (keep (λ p. p.profile_id == surface.contents.profile_id) profiles))
            (λ candidates.
              resolve_to config_digest surface
                (pick surface.contents.tracking surface.contents.pinned_revision candidates))
        else inl (surface_checksum_mismatch surface.contents.id))
