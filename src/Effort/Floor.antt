-- ===== src/Effort/Floor.antt =====
-- packages/core/src/effort-policy.ts: the bounds of the level.
use janus_core.Base.{ℕ, String, ◌≡◌, refl, Bool, true, false, ◌&&◌, leb, if◌then◌else◌}
use janus_core.Effort.{
  EffortLevel, EffortRequest, RiskLevel, ComplexityLevel, EffortInput, eco, normal, profundo,
  maximo, auto, chosen, low, high, critical, low_complexity, medium_complexity, high_complexity,
}
use janus_core.Effort.Decide.{
  order, is_low, is_critical, Choice, choose_auto, choose_level, choose, confirm, decide_effort,
  parse_effort_request, assess_risk, assess_complexity,
}

-- The least level of a risk, where Janus chooses and where the founder does.
abbrev pub auto_floor : RiskLevel → ℕ
auto_floor low = 0
auto_floor high = 1
auto_floor critical = 2

abbrev pub chosen_floor : RiskLevel → ℕ
chosen_floor risk = if is_low risk then 0 else 1

abbrev pub fits : EffortRequest → RiskLevel → EffortLevel → Bool
fits auto risk level = leb (auto_floor risk) (order level) && leb (order level) 2
fits (chosen wanted) risk level =
    leb (chosen_floor risk) (order level) && leb (order wanted) (order level)

choose_auto-fits :
    (risk : RiskLevel) (complexity : ComplexityLevel) (cost : Bool)
    → fits auto risk (choose_auto risk complexity cost).level ≡ true
unfolding choose_auto
choose_auto-fits low low_complexity true = refl
choose_auto-fits low low_complexity false = refl
choose_auto-fits low medium_complexity true = refl
choose_auto-fits low medium_complexity false = refl
choose_auto-fits low high_complexity true = refl
choose_auto-fits low high_complexity false = refl
choose_auto-fits high low_complexity true = refl
choose_auto-fits high low_complexity false = refl
choose_auto-fits high medium_complexity true = refl
choose_auto-fits high medium_complexity false = refl
choose_auto-fits high high_complexity true = refl
choose_auto-fits high high_complexity false = refl
choose_auto-fits critical low_complexity true = refl
choose_auto-fits critical low_complexity false = refl
choose_auto-fits critical medium_complexity true = refl
choose_auto-fits critical medium_complexity false = refl
choose_auto-fits critical high_complexity true = refl
choose_auto-fits critical high_complexity false = refl

choose_level-fits :
    (risk : RiskLevel) (wanted : EffortLevel)
    → fits (chosen wanted) risk (choose_level risk wanted).level ≡ true
unfolding choose_level
choose_level-fits low eco = refl
choose_level-fits low normal = refl
choose_level-fits low profundo = refl
choose_level-fits low maximo = refl
choose_level-fits high eco = refl
choose_level-fits high normal = refl
choose_level-fits high profundo = refl
choose_level-fits high maximo = refl
choose_level-fits critical eco = refl
choose_level-fits critical normal = refl
choose_level-fits critical profundo = refl
choose_level-fits critical maximo = refl

choose-fits :
    (request : EffortRequest) (risk : RiskLevel) (complexity : ComplexityLevel) (cost : Bool)
    → fits request risk (choose request risk complexity cost).level ≡ true
choose-fits auto risk complexity cost = choose_auto-fits risk complexity cost
choose-fits (chosen wanted) risk complexity cost = choose_level-fits risk wanted

confirm-level : (risk : RiskLevel) (c : Choice) → (confirm risk c).level ≡ c.level
confirm-level low c = refl
confirm-level high c = refl
confirm-level critical c = refl

-- A decision by Janus is at least normal for a high risk, profundo for a critical one, and never
-- maximo; a level that the founder chose is never put down, and at least normal where the risk is not
-- low; and a confirmation is required exactly for a critical risk.
pub decide_effort-fits :
    (normalize : String → String) (steps : String → ℕ) (input : EffortInput)
    → let d = decide_effort normalize steps input in
      (fits d.requested d.risk d.level ≡ true) × (d.requires_confirmation ≡ is_critical d.risk)
unfolding decide_effort
decide_effort-fits normalize steps input =
    let requested = parse_effort_request normalize input.requested in
    let risk = assess_risk normalize input.text_ input.sensitive_command in
    let complexity = assess_complexity normalize steps input.text_ in
    (
      rw (confirm-level risk (choose requested risk complexity input.cost_sensitive))
          (choose-fits requested risk complexity input.cost_sensitive),
      refl,
    )
