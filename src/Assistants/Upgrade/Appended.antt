-- ===== src/Assistants/Upgrade/Appended.antt =====
-- packages/core/src/assistant-control-plane.ts: an upgraded profile follows the one before it.
use janus_core.Base.{
  String, ◌≡◌, refl, sym, ap, ◌∙◌, ◌⊎◌, inl, inr, Bool, true, false, some, List, Bool-cases,
  number_eq, string_eq, ==_refl, has, trim, trim-trim,
}
use mathlib.Core.Option.{Option-elim}
use janus_core.Base.Number.{Number, whole, plus, less_irrefl}
use janus_core.Base.Once.{guards-eq-inr, and_then-eq-inr}
use janus_core.Assistants.{
  AssistantModuleRef, AssistantProfileRevision, ProfileInput, Platform, profile_checks,
  normalize_module_refs, normalized_profile, without_checksum, create_assistant_profile_revision,
  verify_assistant_profile_revision,
}
use janus_core.Assistants.Verified.{seal-fields, create-verify_assistant_profile_revision}
use janus_core.Assistants.Surface.{number_equal, is_current}
use janus_core.Assistants.Upgrade.{
  succession_checks, assert_assistant_profile_revision_append_only,
  customer_support_24x7_capability, upgraded_input, upgrade_verified,
  upgrade_landing_assistant_profile_for_24x7_support,
}

number_equal_refl : (n : Number) → number_equal n n ≡ true
number_equal_refl n = rw (less_irrefl n) refl

module _ (platform : Platform) where
  create-fields :
      (input : ProfileInput) (p : AssistantProfileRevision)
      → create_assistant_profile_revision platform input ≡ inr p
      → (refs : List AssistantModuleRef) × (without_checksum p ≡ normalized_profile input refs)
  unfolding create_assistant_profile_revision
  create-fields input p h =
      let (e, open_) = guards-eq-inr (profile_checks platform input) _ h in
      let (refs, normal, made) = and_then-eq-inr (normalize_module_refs input.module_refs) _ e in
      (refs, seal-fields platform (normalized_profile input refs) p made)

  create-profile_id :
      (input : ProfileInput) (p : AssistantProfileRevision)
      → create_assistant_profile_revision platform input ≡ inr p
      → p.profile_id ≡ trim input.profile_id
  unfolding normalized_profile
  create-profile_id input p h = ap (λ q. q.profile_id) ((create-fields input p h).1)

  upgraded-follows :
      (p next : AssistantProfileRevision) (created_at created_by : String)
      → trim p.profile_id ≡ p.profile_id
      → is_current p.status ≡ true
      → create_assistant_profile_revision platform (upgraded_input p created_at created_by)
        ≡ inr next
      → assert_assistant_profile_revision_append_only (some p) next ≡ inr tt
  unfolding assert_assistant_profile_revision_append_only succession_checks normalized_profile
      upgraded_input Option-elim
  upgraded-follows p next at by fixed status h =
      let (refs, same) = create-fields (upgraded_input p at by) next h in
      let id : next.profile_id ≡ p.profile_id = ap (λ q. q.profile_id) same ∙ fixed in
      let revision : next.revision ≡ plus p.revision (whole 1) = ap (λ q. q.revision) same in
      let supersedes : next.supersedes_revision ≡ some p.revision =
        ap (λ q. q.supersedes_revision) same in
      rw (id, ==_refl p.profile_id)
        (rw (revision, number_equal_refl (plus p.revision (whole 1)))
          (rw (supersedes, number_equal_refl p.revision) (rw status refl)))

  upgraded_cases :
      (p next : AssistantProfileRevision) (created_at created_by : String) (ok : Bool)
      → trim p.profile_id ≡ p.profile_id
      → upgrade_verified platform ok p created_at created_by ≡ inr next
      → ((next ≡ p) × (has customer_support_24x7_capability p.capabilities ≡ true))
        ⊎ ((verify_assistant_profile_revision platform next ≡ inr true)
            × (assert_assistant_profile_revision_append_only (some p) next ≡ inr tt))
  upgraded_cases p next at by false fixed h = absurd (cc)
  upgraded_cases p next at by true fixed h = elim (Bool-cases (is_current p.status)) [
    | inr past ↦ absurd (cc (rw past at h))
    | inl status ↦ elim (Bool-cases (has customer_support_24x7_capability p.capabilities)) [
      | inl already ↦ inl (cc (rw (status, already) at h), already)
      | inr fresh ↦
          let made : create_assistant_profile_revision platform (upgraded_input p at by)
              ≡ inr next =
            rw (status, fresh) at h in
          inr (
            create-verify_assistant_profile_revision platform (upgraded_input p at by) next made,
            upgraded-follows p next at by fixed status made,
          )
    ]
  ]

  -- When a profile that was created is upgraded, the result is either the profile itself, which had the
  -- capability, or a revision that verifies and that may be appended after it.
  pub upgrade_appends :
      (input : ProfileInput) (p next : AssistantProfileRevision) (created_at created_by : String)
      → create_assistant_profile_revision platform input ≡ inr p
      → upgrade_landing_assistant_profile_for_24x7_support platform p created_at created_by
        ≡ inr next
      → ((next ≡ p) × (has customer_support_24x7_capability p.capabilities ≡ true))
        ⊎ ((verify_assistant_profile_revision platform next ≡ inr true)
            × (assert_assistant_profile_revision_append_only (some p) next ≡ inr tt))
  unfolding upgrade_landing_assistant_profile_for_24x7_support
  upgrade_appends input p next at by made h =
      let fixed : trim p.profile_id ≡ p.profile_id =
        ap trim (create-profile_id input p made)
        ∙ trim-trim input.profile_id
        ∙ sym (create-profile_id input p made) in
      let (ok, judged, h1) = and_then-eq-inr (verify_assistant_profile_revision platform p) _ h in
      upgraded_cases p next at by ok fixed h1
