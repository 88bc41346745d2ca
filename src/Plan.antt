-- ===== src/Plan.antt =====
-- packages/orchestrator/src/plan.ts: the plan of a planner, and its validator. A message pushed onto
-- `errors` is a constructor that carries what the message interpolates.
pub mod Compile
pub mod Guard
pub mod Policy
pub mod Validity
use janus_core.Base.{
  ℕ, String, Bool, true, false, not, ◌&&◌, ◌||◌, Option, none, some, List, [], ◌∷◌, ◌++◌, ltb,
  nat_eq, string_eq, number_eq, length, is_empty, has, delete, is_nil, is_blank, names_word, when,
}
use Prim.Native.String
use mathlib.Core.Option.{Option-elim}

pub data PlannedRisk : Type 0 where
  no_risk low medium high : PlannedRisk

pub data ResultMode : Type 0 where
  summary full : ResultMode

pub data PlanSource : Type 0 where
  deterministic model user : PlanSource

-- The values of `input`, which are only carried, stand as their JSON texts.
pub record PlannedToolStep : Type 0 where
  pub id : String
  pub label : String
  pub tool : String
  pub action : String
  pub input : List (String × String)
  pub risk : PlannedRisk
  pub reversible : Bool
  pub requires_approval : Bool
  pub idempotency_key : Option String
  pub result_mode : Option ResultMode

pub record JanusPlan : Type 0 where
  pub version : ℕ
  pub goal : String
  pub steps : List PlannedToolStep
  pub source : PlanSource
  pub created_at : String

pub record PlanValidationOptions : Type 0 where
  pub max_steps : Option ℕ
  pub allowed_tools : Option (List String)
  pub allowed_actions : Option (String → Option (List String))

pub data PlanError : Type 0 where
  unsupported_version too_many_steps : ℕ → PlanError
  goal_required no_steps step_id_required : PlanError
  duplicate_step missing_label missing_tool missing_action : String → PlanError
  tool_not_allowed no_actions_allowed : String → PlanError
  action_not_allowed : String → String → PlanError
  unsafe_approval idempotency_key_required : String → PlanError

abbrev pub plan_version : ℕ
plan_version = 1

abbrev pub write_verbs : List String
write_verbs =
    "create" ∷ "update" ∷ "delete" ∷ "send" ∷ "publish" ∷ "deploy" ∷ "pay" ∷ "purchase" ∷ "rotate"
    ∷ "disable" ∷ "transfer" ∷ "grant" ∷ "revoke" ∷ []

-- `WRITE_LIKE_ACTION.test(action)`
unfoldable pub is_write_like : String → Bool
is_write_like action = names_word write_verbs action

abbrev pub is_high : PlannedRisk → Bool
is_high high = true
is_high _ = false

-- `!key`
abbrev pub is_falsy : Option String → Bool
is_falsy none = true
is_falsy (some s) = is_nil s

abbrev check_listed : String → String → Option (List String) → List PlanError
check_listed tool action none = no_actions_allowed tool ∷ []
check_listed tool action (some actions) =
    when (not (has action actions)) (action_not_allowed tool action)

abbrev check_actions : PlannedToolStep → Option (String → Option (List String)) → List PlanError
check_actions step none = []
check_actions step (some allowed) = check_listed step.tool step.action (allowed step.tool)

-- What the loop asks of a step besides a new id.
unfoldable pub step_errors : PlanValidationOptions → PlannedToolStep → List PlanError
unfolding is_write_like
step_errors options step =
    when (is_blank step.label) (missing_label step.id)
    ++ (when (is_blank step.tool) (missing_tool step.id)
        ++ (when (is_blank step.action) (missing_action step.id)
            ++ (when (Option-elim options.allowed_tools false (λ tools. not (has step.tool tools)))
                  (tool_not_allowed step.tool)
                ++ (check_actions step options.allowed_actions
                    ++ (when
                          ((is_high step.risk || not step.reversible) && not step.requires_approval)
                          (unsafe_approval step.id)
                        ++ when (is_write_like step.action && is_falsy step.idempotency_key)
                            (idempotency_key_required step.id))))))

-- The loop over the steps, with the ids of the steps before.
unfoldable pub check_steps :
    PlanValidationOptions → List String → List PlannedToolStep → List PlanError
check_steps options ids [] = []
check_steps options ids (step ∷ steps) =
    when (is_blank step.id) step_id_required
    ++ (when (has step.id ids) (duplicate_step step.id)
        ++ (step_errors options step ++ check_steps options (step.id ∷ ids) steps))

unfoldable pub validate_plan : JanusPlan → PlanValidationOptions → List PlanError
unfolding check_steps step_errors
validate_plan plan options =
    let max_steps = Option-elim options.max_steps 50 (λ n. n) in
    when (not (nat_eq plan.version plan_version)) (unsupported_version plan.version)
    ++ (when (is_blank plan.goal) goal_required
        ++ (when (is_empty plan.steps) no_steps
            ++ (when (ltb max_steps (length plan.steps)) (too_many_steps max_steps)
                ++ check_steps options [] plan.steps)))

-- `createPlan`, at the time `now`.
abbrev pub create_plan : String → String → List PlannedToolStep → Option PlanSource → JanusPlan
create_plan now goal steps source = record {
  version = plan_version;
  goal = goal;
  steps = steps;
  source = Option-elim source deterministic (λ s. s);
  created_at = now;
}
