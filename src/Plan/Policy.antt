-- ===== src/Plan/Policy.antt =====
-- The guard of packages/orchestrator/src/sensitive-action-policy.ts.
use janus_core.Base.{
  String, ◌≡◌, refl, ◌∙◌, ◌≢◌, true, false, Option, none, some, List, [], ◌∷◌, map, All,
}
use janus_core.Plan.{high, PlannedToolStep, JanusPlan}
use janus_core.Plan.Guard.{
  sensitive_reason, enforced_step, enforce_step, enforce_sensitive_action_policy,
}

abbrev pub IsSensitive : PlannedToolStep → Type 0
IsSensitive s = sensitive_reason s ≢ none

pub record IsGuarded (s : PlannedToolStep) : Type 0 where
  pub risky : s.risk ≡ high
  pub irreversible : s.reversible ≡ false
  pub approved : s.requires_approval ≡ true

enforced_step-reason :
    (s : PlannedToolStep) (r : Option String)
    → sensitive_reason (enforced_step s r) ≡ sensitive_reason s
unfolding sensitive_reason
enforced_step-reason s none = refl
enforced_step-reason s (some why) = refl

enforced_step-IsGuarded :
    (s : PlannedToolStep) (r : Option String) → r ≢ none → IsGuarded (enforced_step s r)
enforced_step-IsGuarded s none h = absurd (h refl)
enforced_step-IsGuarded s (some why) h = record {
  risky = refl;
  irreversible = refl;
  approved = refl;
}

IsGuarded-steps :
    (steps : List PlannedToolStep) → All (λ s. IsSensitive s → IsGuarded s) (map enforce_step steps)
IsGuarded-steps [] = tt
IsGuarded-steps (s ∷ ss) = (
  λ h.
      enforced_step-IsGuarded s (sensitive_reason s)
        (λ e. h (enforced_step-reason s (sensitive_reason s) ∙ e)),
  IsGuarded-steps ss,
)

-- After the guard every step whose operation is in the table of sensitive actions is high-risk,
-- irreversible and requires approval, whatever the planner proposed.
pub enforce-IsGuarded :
    (plan : JanusPlan)
    → All (λ s. IsSensitive s → IsGuarded s) (enforce_sensitive_action_policy plan).0.steps
unfolding enforce_sensitive_action_policy
enforce-IsGuarded plan = IsGuarded-steps plan.steps
