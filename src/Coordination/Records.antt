-- ===== src/Coordination/Records.antt =====
-- packages/core/src/operator-coordination.ts: the validators of records, and the making of a handoff.
-- `digest` is the SHA-256 digest of the contents' stable JSON.
pub mod Settled
use janus_core.Base.{
  string_eq, ℕ, String, ◌⊎◌, inl, inr, Bool, true, false, not, ◌&&◌, Option, none, some, List, [],
  ◌∷◌, if◌then◌else◌, is_empty, is_nil, trim, distinct, clean_list,
}
use mathlib.Core.Option.{Option-elim}
use janus_core.Coordination.{
  CoordinationScope, CoordinationGrant, CoordinationAssignment, CoordinationHandoff, permission_eq,
  is_unset,
}

pub data RecordError : Type 0 where
  scope_id_required scope_label_required scope_owner_required : RecordError
  scope_date_invalid : RecordError
  grant_id_required grant_principal_required grant_scope_required grant_by_required : RecordError
  grant_date_invalid grant_revocation_invalid grant_permissions_required : RecordError
  assignment_id_required assignment_title_required assignment_goal_required : RecordError
  assignment_assignee_required assignment_creator_required : RecordError
  assignment_created_invalid assignment_updated_invalid : RecordError
  summary_required handoff_assignment_required handoff_sender_required : RecordError
  handoff_date_invalid : RecordError

-- A run of `if (test) throw new Error(e)`, and then the value.
abbrev pub guards : {A : Type 0} → List (Bool × RecordError) → A → RecordError ⊎ A
guards [] a = inr a
guards ((test, e) ∷ rest) a = let later = guards rest a in if test then inl e else later

-- `!value.trim()`
abbrev pub lacks : String → Bool
lacks value = is_nil (trim value)

pub record HandoffContents : Type 0 where
  pub assignment_id : String
  pub from_principal_id : String
  pub to_principal_id : Option String
  pub run_id : Option String
  pub created_at : String
  pub executive_summary : String
  pub conclusions : List String
  pub completed : List String
  pub pending : List String
  pub blockers : List String
  pub next_actions : List String
  pub decisions : List String
  pub evidence_refs : List String

-- The lists and the summary, normalised.
unfoldable pub normalized : HandoffContents → HandoffContents
normalized input = record input {
  executive_summary = trim input.executive_summary;
  conclusions = clean_list input.conclusions;
  completed = clean_list input.completed;
  pending = clean_list input.pending;
  blockers = clean_list input.blockers;
  next_actions = clean_list input.next_actions;
  decisions = clean_list input.decisions;
  evidence_refs = clean_list input.evidence_refs;
}

abbrev pub sealed : String → String → HandoffContents → CoordinationHandoff
sealed id checksum c = record {
  id = id;
  assignment_id = c.assignment_id;
  from_principal_id = c.from_principal_id;
  created_at = c.created_at;
  executive_summary = c.executive_summary;
  conclusions = c.conclusions;
  completed = c.completed;
  pending = c.pending;
  blockers = c.blockers;
  next_actions = c.next_actions;
  decisions = c.decisions;
  evidence_refs = c.evidence_refs;
  checksum = checksum;
  to_principal_id = c.to_principal_id;
  run_id = c.run_id;
}

abbrev pub contents_of : CoordinationHandoff → HandoffContents
contents_of h = record {
  assignment_id = h.assignment_id;
  from_principal_id = h.from_principal_id;
  to_principal_id = h.to_principal_id;
  run_id = h.run_id;
  created_at = h.created_at;
  executive_summary = h.executive_summary;
  conclusions = h.conclusions;
  completed = h.completed;
  pending = h.pending;
  blockers = h.blockers;
  next_actions = h.next_actions;
  decisions = h.decisions;
  evidence_refs = h.evidence_refs;
}

-- `input.id?.trim() || fresh`
abbrev pub chosen_id : String → Option String → String
chosen_id fresh none = fresh
chosen_id fresh (some id) = if is_nil (trim id) then fresh else trim id

-- A revocation date that is set but is no date.
abbrev pub is_unread : (String → Option ℕ) → Option String → Bool
is_unread parse_date none = false
is_unread parse_date (some s) = not (is_nil s) && Option-elim (parse_date s) true (λ t. false)

-- The records that the validators return.
unfoldable pub trimmed_scope : CoordinationScope → CoordinationScope
trimmed_scope scope = record scope {
  id = trim scope.id;
  label = trim scope.label;
  owner_principal_id = trim scope.owner_principal_id;
}

unfoldable pub distinct_grant : CoordinationGrant → CoordinationGrant
distinct_grant grant = record grant { permissions = distinct grant.permissions }

unfoldable pub clean_assignment : CoordinationAssignment → CoordinationAssignment
clean_assignment a = record a {
  scope_ids = distinct (clean_list a.scope_ids);
  next_actions = clean_list a.next_actions;
}

module _ (parse_date : String → Option ℕ) where
  abbrev pub is_no_date : String → Bool
  is_no_date s = Option-elim (parse_date s) true (λ t. false)

  unfoldable pub handoff_checks : HandoffContents → List (Bool × RecordError)
  handoff_checks input =
      (lacks input.executive_summary, summary_required)
      ∷ (lacks input.assignment_id, handoff_assignment_required)
      ∷ (lacks input.from_principal_id, handoff_sender_required)
      ∷ (is_no_date input.created_at, handoff_date_invalid)
      ∷ []

  unfoldable pub create_coordination_handoff :
      (HandoffContents → String)
      → String
      → Option String
      → HandoffContents
      → RecordError ⊎ CoordinationHandoff
  unfolding normalized handoff_checks
  create_coordination_handoff digest fresh id input =
      guards (handoff_checks input)
        (sealed (chosen_id fresh id) (digest (normalized input)) (normalized input))

  unfoldable pub scope_checks : CoordinationScope → List (Bool × RecordError)
  scope_checks scope =
      (lacks scope.id, scope_id_required)
      ∷ (lacks scope.label, scope_label_required)
      ∷ (lacks scope.owner_principal_id, scope_owner_required)
      ∷ (is_no_date scope.created_at, scope_date_invalid)
      ∷ []

  unfoldable pub validate_coordination_scope : CoordinationScope → RecordError ⊎ CoordinationScope
  unfolding scope_checks trimmed_scope
  validate_coordination_scope scope = guards (scope_checks scope) (trimmed_scope scope)

  unfoldable pub grant_checks : CoordinationGrant → List (Bool × RecordError)
  grant_checks grant =
      (lacks grant.id, grant_id_required)
      ∷ (lacks grant.principal_id, grant_principal_required)
      ∷ (lacks grant.scope_id, grant_scope_required)
      ∷ (lacks grant.granted_by, grant_by_required)
      ∷ (is_no_date grant.created_at, grant_date_invalid)
      ∷ (is_unread parse_date grant.revoked_at, grant_revocation_invalid)
      ∷ (is_empty (distinct grant.permissions), grant_permissions_required)
      ∷ []

  unfoldable pub validate_coordination_grant : CoordinationGrant → RecordError ⊎ CoordinationGrant
  unfolding grant_checks distinct_grant
  validate_coordination_grant grant = guards (grant_checks grant) (distinct_grant grant)

  unfoldable pub assignment_checks : CoordinationAssignment → List (Bool × RecordError)
  assignment_checks a =
      (lacks a.id, assignment_id_required)
      ∷ (lacks a.title, assignment_title_required)
      ∷ (lacks a.goal, assignment_goal_required)
      ∷ (lacks a.assignee_principal_id, assignment_assignee_required)
      ∷ (lacks a.created_by, assignment_creator_required)
      ∷ (is_no_date a.created_at, assignment_created_invalid)
      ∷ (is_no_date a.updated_at, assignment_updated_invalid)
      ∷ []

  unfoldable pub validate_coordination_assignment :
      CoordinationAssignment → RecordError ⊎ CoordinationAssignment
  unfolding assignment_checks clean_assignment
  validate_coordination_assignment a = guards (assignment_checks a) (clean_assignment a)
