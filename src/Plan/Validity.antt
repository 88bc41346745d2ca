-- ===== src/Plan/Validity.antt =====
-- The guard of packages/orchestrator/src/sensitive-action-policy.ts between the validator and the
-- execution.
use janus_core.Base.{
  String, ◌≡◌, refl, not, Option, none, some, List, [], ◌∷◌, map, arith, ltb, nat_eq, string_eq,
  number_eq, length, is_empty, append-eq-nil, has, is_blank, when,
}
use mathlib.Core.Option.{Option-elim}
use janus_core.Plan.{
  PlannedToolStep, JanusPlan, PlanValidationOptions, step_errors, check_steps, validate_plan,
  step_id_required, duplicate_step, plan_version, unsupported_version, goal_required, no_steps,
  too_many_steps,
}
use janus_core.Plan.Guard.{
  sensitive_reason, enforced_step, enforce_step, enforce_sensitive_action_policy,
}

-- A step that asks for an approval has no `unsafe_approval` error, so a step with no error keeps none
-- when the guard rewrites it.
step_errors-enforced :
    (options : PlanValidationOptions) (step : PlannedToolStep) (r : Option String)
    → step_errors options step ≡ []
    → step_errors options (enforced_step step r) ≡ []
unfolding step_errors
step_errors-enforced options step none h = h
step_errors-enforced options step (some why) h = ground (arith, h)

length-enforced : (steps : List PlannedToolStep) → length (map enforce_step steps) ≡ length steps
length-enforced [] = refl
length-enforced (s ∷ ss) = omega (arith, length-enforced ss)

empty-enforced : (steps : List PlannedToolStep) → is_empty (map enforce_step steps) ≡ is_empty steps
empty-enforced [] = refl
empty-enforced (s ∷ ss) = refl

same_id : (s : PlannedToolStep) (r : Option String) → (enforced_step s r).id ≡ s.id
same_id s none = refl
same_id s (some why) = refl

check_steps-enforced :
    (options : PlanValidationOptions) (ids : List String) (steps : List PlannedToolStep)
    → check_steps options ids steps ≡ []
    → check_steps options ids (map enforce_step steps) ≡ []
unfolding check_steps
check_steps-enforced options ids [] h = h
check_steps-enforced options ids (s ∷ ss) h =
    let (a, h1) = (append-eq-nil (when (is_blank s.id) step_id_required) _).0 h in
    let (b, h2) = (append-eq-nil (when (has s.id ids) (duplicate_step s.id)) _).0 h1 in
    let (c, d) = (append-eq-nil (step_errors options s) _).0 h2 in
    let c' = step_errors-enforced options s (sensitive_reason s) c in
    let d' = check_steps-enforced options (s.id ∷ ids) ss d in
    rw (same_id s (sensitive_reason s)) (rw (a, b, c', d') refl)

-- A plan that the validator accepts is accepted after the guard too.
pub enforce-validates :
    (plan : JanusPlan) (options : PlanValidationOptions)
    → validate_plan plan options ≡ []
    → validate_plan (enforce_sensitive_action_policy plan).0 options ≡ []
unfolding enforce_sensitive_action_policy validate_plan
enforce-validates plan options h =
    let limit = Option-elim options.max_steps 50 (λ n. n) in
    let (a, h1) =
      (append-eq-nil
          (when (not (nat_eq plan.version plan_version)) (unsupported_version plan.version)) _).0
        h in
    let (b, h2) = (append-eq-nil (when (is_blank plan.goal) goal_required) _).0 h1 in
    let (c, h3) = (append-eq-nil (when (is_empty plan.steps) no_steps) _).0 h2 in
    let (d, e) =
      (append-eq-nil (when (ltb limit (length plan.steps)) (too_many_steps limit)) _).0 h3 in
    let e' = check_steps-enforced options [] plan.steps e in
    rw (length-enforced plan.steps, empty-enforced plan.steps) (rw (a, b, c, d, e') refl)
