-- ===== src/Coordination.antt =====
-- packages/core/src/operator-coordination.ts: scopes of work, who may see them, and what an operator
-- is shown. `parse_date` is `Date.parse`, where `none` is NaN.
pub mod Access
pub mod Records
use janus_core.Base.{
  ℕ, zero, suc, String, ◌≡◌, refl, sym, ap, ◌∙◌, Bool, true, false, ◌&&◌, ◌||◌, Option, none, some,
  List, [], ◌∷◌, ◌++◌, map, ltb, nat_eq, if◌then◌else◌, nat_eq_iff, number_eq, string_eq, ◌==◌,
  is_empty, all, any, keep, has, is_nil, get, from_entries, Eq,
}
use Prim.Native.String
use mathlib.Core.Option.{Option-elim}
use janus_core.Authority.{AuthorityPrincipal, AuthorityRole, founder_director}

pub data CoordinationPermission : Type 0 where
  read_context write_work coordinate handoff : CoordinationPermission

pub data CoordinationScopeClassification : Type 0 where
  private_ shared project system : CoordinationScopeClassification

pub data CoordinationAssignmentStatus : Type 0 where
  queued active blocked handoff_required completed cancelled : CoordinationAssignmentStatus

pub data Priority : Type 0 where
  low normal high critical : Priority

pub record CoordinationOperatorProfile : Type 0 where
  pub principal_id : String
  pub display_name : Option String
  pub active : Bool
  pub created_at : String
  pub updated_at : String
  pub notes : Option String

pub record CoordinationScope : Type 0 where
  pub id : String
  pub label : String
  pub classification : CoordinationScopeClassification
  pub owner_principal_id : String
  pub created_at : String
  pub description : Option String

pub record CoordinationGrant : Type 0 where
  pub id : String
  pub principal_id : String
  pub scope_id : String
  pub permissions : List CoordinationPermission
  pub granted_by : String
  pub created_at : String
  pub revoked_at : Option String

-- The values of `metadata` stand as their JSON texts.
pub record CoordinationAssignment : Type 0 where
  pub id : String
  pub title : String
  pub goal : String
  pub assignee_principal_id : String
  pub scope_ids : List String
  pub status : CoordinationAssignmentStatus
  pub priority : Priority
  pub created_by : String
  pub created_at : String
  pub updated_at : String
  pub next_actions : List String
  pub last_run_id : Option String
  pub metadata : Option (List (String × String))

pub record CoordinationHandoff : Type 0 where
  pub id : String
  pub assignment_id : String
  pub from_principal_id : String
  pub created_at : String
  pub executive_summary : String
  pub conclusions : List String
  pub completed : List String
  pub pending : List String
  pub blockers : List String
  pub next_actions : List String
  pub decisions : List String
  pub evidence_refs : List String
  pub checksum : String
  pub to_principal_id : Option String
  pub run_id : Option String

pub record AssignmentBrief : Type 0 where
  pub assignment : CoordinationAssignment
  pub latest_handoff : Option CoordinationHandoff

pub record CoordinationBrief : Type 0 where
  pub principal_id : String
  pub scopes : List CoordinationScope
  pub assignments : List AssignmentBrief
  pub operators : List CoordinationOperatorProfile

abbrev pub janus_system_principal_id : String
janus_system_principal_id = "janus-core"

abbrev pub permission_number : CoordinationPermission → ℕ
permission_number read_context = 0
permission_number write_work = 1
permission_number coordinate = 2
permission_number handoff = 3

abbrev pub numbered_permission : ℕ → CoordinationPermission
numbered_permission zero = read_context
numbered_permission (suc zero) = write_work
numbered_permission (suc (suc zero)) = coordinate
numbered_permission _ = handoff

pub permission_id : (p : CoordinationPermission) → numbered_permission (permission_number p) ≡ p
permission_id read_context = refl
permission_id write_work = refl
permission_id coordinate = refl
permission_id handoff = refl

instance abbrev pub permission_eq : Eq CoordinationPermission
permission_eq = record {
  same = λ p q. nat_eq (permission_number p) (permission_number q);
  same_self = λ p. (nat_eq_iff (permission_number p) (permission_number p)).1 refl;
  same_sound = λ p q h.
      sym (permission_id p)
      ∙ ap numbered_permission ((nat_eq_iff (permission_number p) (permission_number q)).0 h)
      ∙ permission_id q;
}

abbrev is_founder : AuthorityRole → Bool
is_founder founder_director = true
is_founder _ = false

-- The test that lets Janus itself and the founder pass everywhere.
abbrev pub sees_all : AuthorityPrincipal → Bool
sees_all principal = principal.id == janus_system_principal_id || is_founder principal.role

-- `!value`
abbrev pub is_unset : Option String → Bool
is_unset none = true
is_unset (some s) = is_nil s

abbrev pub grants_access :
    AuthorityPrincipal → CoordinationScope → CoordinationPermission → CoordinationGrant → Bool
grants_access principal scope permission grant =
    is_unset grant.revoked_at
    && grant.principal_id == principal.id
    && grant.scope_id == scope.id
    && has permission grant.permissions

unfoldable pub can_access_coordination_scope :
    AuthorityPrincipal
    → List CoordinationGrant
    → Option CoordinationPermission
    → CoordinationScope
    → Bool
can_access_coordination_scope principal grants permission scope =
    sees_all principal
    || scope.owner_principal_id == principal.id
    || any (grants_access principal scope (Option-elim permission read_context (λ p. p))) grants

-- The filter of the brief's assignments, by the ids of the visible scopes.
unfoldable pub shows_assignment : AuthorityPrincipal → List String → CoordinationAssignment → Bool
shows_assignment principal visible assignment =
    sees_all principal
    || (if is_empty assignment.scope_ids
        then assignment.assignee_principal_id == principal.id
        else all (λ id. has id visible) assignment.scope_ids)

-- `assertAssignmentAccess`: `false` is its error.
unfoldable pub assert_assignment_access :
    AuthorityPrincipal
    → CoordinationAssignment
    → List CoordinationScope
    → List CoordinationGrant
    → Option CoordinationPermission
    → Bool
unfolding can_access_coordination_scope
assert_assignment_access principal assignment scopes grants permission =
    let by_id = from_entries (map (λ scope. (scope.id, scope)) scopes) [] in
    sees_all principal
    || (if is_empty assignment.scope_ids
        then assignment.assignee_principal_id == principal.id
        else all
            (λ id.
              Option-elim (get id by_id) false
                (can_access_coordination_scope principal grants permission))
            assignment.scope_ids)

-- The last of the handoffs once they are sorted by their date, the sort being stable. A handoff whose
-- date is no date has no place in that order; here it stands with the earliest.
module _ (parse_date : String → Option ℕ) where
  abbrev moment : CoordinationHandoff → ℕ
  moment h = Option-elim (parse_date h.created_at) 0 (λ t. t)

  abbrev later_of : CoordinationHandoff → Option CoordinationHandoff → CoordinationHandoff
  later_of h none = h
  later_of h (some other_) = if ltb (moment other_) (moment h) then h else other_

  unfoldable pub latest : List CoordinationHandoff → Option CoordinationHandoff
  latest [] = none
  latest (h ∷ hs) = some (later_of h (latest hs))

  abbrev pub latest_handoff :
      List CoordinationHandoff → CoordinationAssignment → Option CoordinationHandoff
  latest_handoff handoffs assignment =
      latest (keep (λ h. h.assignment_id == assignment.id) handoffs)

  unfoldable pub build_coordination_brief :
      AuthorityPrincipal
      → List CoordinationOperatorProfile
      → List CoordinationScope
      → List CoordinationGrant
      → List CoordinationAssignment
      → List CoordinationHandoff
      → CoordinationBrief
  unfolding can_access_coordination_scope shows_assignment latest
  build_coordination_brief principal operators scopes grants assignments handoffs =
      let visible = keep (can_access_coordination_scope principal grants none) scopes in
      let shown = keep (shows_assignment principal (map (λ scope. scope.id) visible)) assignments in
      let operator_ids =
        map (λ a. a.assignee_principal_id) shown
        ++ (if sees_all principal
            then map (λ operator. operator.principal_id) operators
            else principal.id ∷ []) in
      record {
        principal_id = principal.id;
        scopes = visible;
        assignments =
            map (λ a. record { assignment = a; latest_handoff = latest_handoff handoffs a }) shown;
        operators = keep (λ operator. has operator.principal_id operator_ids) operators;
      }
