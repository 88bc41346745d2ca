-- ===== src/Coordination/Access.antt =====
-- packages/core/src/operator-coordination.ts: the brief shows what may be worked on.
use janus_core.Base.{
  ℕ, String, ◌≡◌, refl, sym, ap, ◌∙◌, inl, inr, Bool, false, ◌||◌, Option, none, some, List, [],
  ◌∷◌, map, arith, if◌then◌else◌, Bool-cases, number_eq, string_eq, ◌==◌, eq_of_==, is_empty, all,
  keep, has, get, set, from_entries, get-set_same, get-set_other, IsDistinct,
}
use mathlib.Core.Option.{Option-elim}
use janus_core.Authority.{AuthorityPrincipal}
use janus_core.Coordination.{
  CoordinationScope, CoordinationGrant, CoordinationAssignment, CoordinationHandoff,
  CoordinationOperatorProfile, AssignmentBrief, latest_handoff, sees_all,
  can_access_coordination_scope, shows_assignment, assert_assignment_access,
  build_coordination_brief,
}

abbrev pub ids : List CoordinationScope → List String
ids = map (λ scope. scope.id)

abbrev entries : List CoordinationScope → List (String × CoordinationScope)
entries = map (λ scope. (scope.id, scope))

abbrev find : String → List CoordinationScope → Option CoordinationScope
find id [] = none
find id (s ∷ ss) = if id == s.id then some s else find id ss

abbrev or_else : Option CoordinationScope → Option CoordinationScope → Option CoordinationScope
or_else (some s) other_ = some s
or_else none other_ = other_

or_else_right : (o : Option CoordinationScope) → or_else o none ≡ o
or_else_right none = refl
or_else_right (some s) = refl

find_absent :
    (id : String) (ss : List CoordinationScope) → has id (ids ss) ≡ false → find id ss ≡ none
find_absent id [] h = refl
find_absent id (s ∷ ss) h = ground (arith, find_absent id ss)

get-from_entries :
    (id : String) (ss : List CoordinationScope) (acc : List (String × CoordinationScope))
    → IsDistinct (ids ss)
    → get id (from_entries (entries ss) acc) ≡ or_else (find id ss) (get id acc)
get-from_entries id [] acc d = refl
get-from_entries id (s ∷ ss) acc (n, d) = elim (Bool-cases (id == s.id)) [
  | inl same ↦
      let here : id ≡ s.id = eq_of_== id s.id same in
      let gone : find id ss ≡ none = find_absent id ss (rw here n) in
      rw (get-from_entries id ss (set s.id s acc) d)
        (rw gone (rw same (rw here (get-set_same s.id s acc))))
  | inr other ↦
      rw (get-from_entries id ss (set s.id s acc) d)
        (rw other (rw (get-set_other id s.id s acc other) refl))
]

has-keep_absent :
    (id : String) (p : CoordinationScope → Bool) (ss : List CoordinationScope)
    → has id (ids ss) ≡ false
    → has id (ids (keep p ss)) ≡ false
has-keep_absent id p [] h = refl
has-keep_absent id p (s ∷ ss) h = elim (Bool-cases (p s)) [
  | inl yes_ ↦ rw yes_ (ground (arith, has-keep_absent id p ss))
  | inr no_ ↦ rw no_ (has-keep_absent id p ss (ground arith))
]

has-keep :
    (id : String) (p : CoordinationScope → Bool) (ss : List CoordinationScope)
    → IsDistinct (ids ss)
    → has id (ids (keep p ss)) ≡ Option-elim (find id ss) false p
unfolding Option-elim
has-keep id p [] d = refl
has-keep id p (s ∷ ss) (n, d) = elim (Bool-cases (id == s.id)) [
  | inl same ↦ elim (Bool-cases (p s)) [
    | inl yes_ ↦ rw yes_ (rw same (sym yes_))
    | inr no_ ↦
        let here : id ≡ s.id = eq_of_== id s.id same in
        rw no_ (rw same (has-keep_absent id p ss (rw here n) ∙ sym no_))
  ]
  | inr other ↦ elim (Bool-cases (p s)) [
    | inl yes_ ↦ rw yes_ (rw other (has-keep id p ss d))
    | inr no_ ↦ rw no_ (rw other (has-keep id p ss d))
  ]
]

module _ {A : Type 0} where
  all_ext : (p q : A → Bool) → ((a : A) → p a ≡ q a) → (xs : List A) → all p xs ≡ all q xs
  all_ext p q e [] = refl
  all_ext p q e (x ∷ xs) = rw (e x, all_ext p q e xs) refl

  keep_ext : (p q : A → Bool) → ((a : A) → p a ≡ q a) → (xs : List A) → keep p xs ≡ keep q xs
  keep_ext p q e [] = refl
  keep_ext p q e (x ∷ xs) = rw (e x, keep_ext p q e xs) refl

get-entries :
    (id : String) (ss : List CoordinationScope)
    → IsDistinct (ids ss)
    → get id (from_entries (entries ss) []) ≡ find id ss
get-entries id ss d = get-from_entries id ss [] d ∙ or_else_right (find id ss)

module _ (principal : AuthorityPrincipal) (scopes : List CoordinationScope)
    (grants : List CoordinationGrant) (d : IsDistinct (ids scopes)) where
  shows-asserts :
      (a : CoordinationAssignment)
      → shows_assignment principal
          (ids (keep (can_access_coordination_scope principal grants none) scopes))
          a
        ≡ assert_assignment_access principal a scopes grants none
  unfolding shows_assignment assert_assignment_access
  shows-asserts a =
      let can = can_access_coordination_scope principal grants none in
      ap
        (λ b.
          sees_all principal
          || (if is_empty a.scope_ids then a.assignee_principal_id == principal.id else b))
        (all_ext _ _
          (λ id.
            has-keep id can scopes d
            ∙ ap (λ o. Option-elim o false can) (sym (get-entries id scopes d)))
          a.scope_ids)

module _ (parse_date : String → Option ℕ) where
  brief-assignments :
      (handoffs : List CoordinationHandoff) (as' : List CoordinationAssignment)
      → map
          (λ b. b.assignment)
          (map {B = AssignmentBrief}
            (λ a. record { assignment = a; latest_handoff = latest_handoff parse_date handoffs a })
            as')
        ≡ as'
  brief-assignments handoffs [] = refl
  brief-assignments handoffs (a ∷ as') = rw (brief-assignments handoffs as') refl

  -- When the scopes have distinct ids, the assignments that a brief shows are, in their order, those
  -- that `assertAssignmentAccess` lets the same principal read.
  pub build_coordination_brief-assert_assignment_access :
      (principal : AuthorityPrincipal) (operators : List CoordinationOperatorProfile)
      (scopes : List CoordinationScope) (grants : List CoordinationGrant)
      (assignments : List CoordinationAssignment) (handoffs : List CoordinationHandoff)
      → IsDistinct (ids scopes)
      → map
          (λ b. b.assignment)
          (build_coordination_brief parse_date principal operators scopes grants assignments
            handoffs).assignments
        ≡ keep (λ a. assert_assignment_access principal a scopes grants none) assignments
  unfolding build_coordination_brief
  build_coordination_brief-assert_assignment_access principal operators scopes grants assignments
        handoffs d =
      brief-assignments handoffs _
      ∙ keep_ext _ _ (shows-asserts principal scopes grants d) assignments
