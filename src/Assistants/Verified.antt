-- ===== src/Assistants/Verified.antt =====
-- packages/core/src/assistant-control-plane.ts: created revisions are verified.
use janus_core.Base.{
  String, ◌≡◌, refl, sym, ap, ◌∙◌, ◌⊎◌, inl, inr, Bool, true, false, Option, none, some, List, [],
  Bool-cases, number_eq, string_eq, ◌==◌, ==_refl, is_empty, trim, trim-trim, codes,
  clean_list-clean_list,
}
use janus_core.Base.Once.{and_then, guards, guards-eq-inr, and_then-eq-inr, once_again}
use janus_core.Assistants.{
  current, ProfileInput, AssistantProfileRevision, AssistantModuleRef, AssistantError, module_error,
  module_marker, only_true, module_entry, normalize_module_refs, Platform, with_checksum,
  without_checksum, normalized_profile, profile_checks, seal_profile,
  create_assistant_profile_revision, verify_assistant_profile_revision, safe_id, safe_codes,
}

only_true_again : (o : Option Bool) → only_true (only_true o) ≡ only_true o
only_true_again none = refl
only_true_again (some true) = refl
only_true_again (some false) = refl

pub normalize_module_refs_again :
    (values out : List AssistantModuleRef)
    → normalize_module_refs values ≡ inr out
    → normalize_module_refs out ≡ inr out
unfolding normalize_module_refs
normalize_module_refs_again values out =
    once_again module_error module_marker module_entry (λ a. rw (trim-trim a.item_id) refl)
      (λ a. rw (trim-trim a.item_id) refl)
      (λ a. rw (trim-trim a.item_id, only_true_again a.optional) refl) values out []

pub safe_id-trim : (s : String) → safe_id (trim s) ≡ safe_id s
unfolding safe_id
safe_id-trim s = ap (λ t. safe_codes (codes t)) (trim-trim s)

normalized_again :
    (input : ProfileInput) (refs : List AssistantModuleRef)
    → normalized_profile (normalized_profile input refs) refs ≡ normalized_profile input refs
unfolding normalized_profile
normalized_again i refs =
    rw
      (
        trim-trim i.profile_id,
        trim-trim i.name,
        trim-trim i.objective,
        trim-trim i.created_by,
        clean_list-clean_list i.shared_instructions,
        clean_list-clean_list i.guardrails,
        clean_list-clean_list i.capabilities,
      )
      refl

module _ (platform : Platform) where
  checks_again :
      (i : ProfileInput) (refs : List AssistantModuleRef)
      → profile_checks platform (normalized_profile i refs) ≡ profile_checks platform i
  unfolding normalized_profile profile_checks
  checks_again i refs =
      rw
        (safe_id-trim i.profile_id, trim-trim i.name, trim-trim i.objective, trim-trim i.created_by)
        refl

  pub seal-fields :
      (p : ProfileInput) (q : AssistantProfileRevision)
      → seal_profile platform p ≡ inr q
      → without_checksum q ≡ p
  seal-fields p q h = elim (Bool-cases (is_empty p.guardrails)) [
    | inl bare ↦ absurd (cc (rw bare at h))
    | inr armed ↦
        let same : with_checksum (platform.profile_digest (record p { status = current })) p ≡ q =
          cc (rw armed at h) in
        ap without_checksum (sym same)
  ]

  remade :
      (input : ProfileInput) (refs : List AssistantModuleRef)
      → ((o : AssistantError ⊎ AssistantProfileRevision)
          → guards (profile_checks platform input) o ≡ o)
      → normalize_module_refs refs ≡ inr refs
      → create_assistant_profile_revision platform (normalized_profile input refs)
        ≡ seal_profile platform (normalized_profile input refs)
  unfolding create_assistant_profile_revision normalized_profile
  remade input refs open_ normal =
      let rest : AssistantError ⊎ AssistantProfileRevision =
        and_then (normalize_module_refs refs) (λ more.
          seal_profile platform (normalized_profile (normalized_profile input refs) more)) in
      ap (λ cs. guards cs rest) (checks_again input refs)
      ∙ open_ rest
      ∙ ap
          (λ v. and_then v (λ more.
            seal_profile platform (normalized_profile (normalized_profile input refs) more)))
          normal
      ∙ ap (seal_profile platform) (normalized_again input refs)

  pub create_again :
      (input : ProfileInput) (p : AssistantProfileRevision)
      → create_assistant_profile_revision platform input ≡ inr p
      → create_assistant_profile_revision platform (without_checksum p) ≡ inr p
  unfolding create_assistant_profile_revision
  create_again input p h =
      let (e, open_) = guards-eq-inr (profile_checks platform input) _ h in
      let (refs, normal, made) = and_then-eq-inr (normalize_module_refs input.module_refs) _ e in
      ap (create_assistant_profile_revision platform)
        (seal-fields (normalized_profile input refs) p made)
      ∙ remade input refs open_ (normalize_module_refs_again input.module_refs refs normal)
      ∙ made

  -- A revision that `createAssistantProfileRevision` returned passes
  -- `verifyAssistantProfileRevision`.
  pub create-verify_assistant_profile_revision :
      (input : ProfileInput) (p : AssistantProfileRevision)
      → create_assistant_profile_revision platform input ≡ inr p
      → verify_assistant_profile_revision platform p ≡ inr true
  unfolding verify_assistant_profile_revision
  create-verify_assistant_profile_revision input p h =
      ap (λ v. and_then v (λ recreated. inr (recreated.checksum == p.checksum)))
        (create_again input p h)
      ∙ ap (λ b. inr b) (==_refl p.checksum)
