-- ===== src/Effort/Decide.antt =====
-- packages/core/src/effort-policy.ts: the level that is decided.
use janus_core.Base.{
  ℕ, suc, ◌+◌, min, String, Bool, true, false, not, ◌&&◌, ◌||◌, Option, none, some, List, [], ◌∷◌,
  ◌++◌, starts_with, ltb, leb, nat_eq, if◌then◌else◌, string_eq, ◌==◌, is_nil, is_space,
}
use Prim.Native.Char.{code}
use Prim.Native.String
use janus_core.Effort.{
  EffortLevel, EffortRequest, RiskLevel, ComplexityLevel, EffortSource, EffortInput, EffortDecision,
  eco, normal, profundo, maximo, auto, chosen, low, high, critical, low_complexity,
  medium_complexity, high_complexity, by_founder, by_auto, budgets, critical_terms, high_terms,
  complex_terms, fresh_terms,
}

-- `haystack.includes(term)`
abbrev pub text_includes : String → String → Bool
text_includes String.[] term = is_nil term
text_includes (String.◌∷◌ c s) term = starts_with (String.◌∷◌ c s) term || text_includes s term

abbrev pub count_hits : String → List String → ℕ
count_hits haystack [] = 0
count_hits haystack (term ∷ terms) =
    let rest = count_hits haystack terms in if text_includes haystack term then suc rest else rest

-- `s.split(' ').filter(Boolean).length`; `inside` says that a word has begun.
abbrev pub count_words : String → Bool → ℕ
count_words String.[] inside = 0
count_words (String.◌∷◌ c s) inside =
    let within = count_words s true in
    let without = count_words s false in
    if nat_eq (code c) 32 then without else if inside then within else suc within

-- `s.replace(/\s+/g, '')`
abbrev pub squeeze : String → String
squeeze String.[] = String.[]
squeeze (String.◌∷◌ c s) =
    let rest = squeeze s in if is_space (code c) then rest else String.◌∷◌ c rest

abbrev pub order : EffortLevel → ℕ
order eco = 0
order normal = 1
order profundo = 2
order maximo = 3

abbrev pub is_low : RiskLevel → Bool
is_low low = true
is_low _ = false

abbrev pub is_critical : RiskLevel → Bool
is_critical critical = true
is_critical _ = false

abbrev pub risk_name : RiskLevel → String
risk_name low = "low"
risk_name high = "high"
risk_name critical = "critical"

abbrev pub complexity_name : ComplexityLevel → String
complexity_name low_complexity = "low"
complexity_name medium_complexity = "medium"
complexity_name high_complexity = "high"

-- `requested.toUpperCase()`
abbrev pub upper_name : EffortLevel → String
upper_name eco = "ECO"
upper_name normal = "NORMAL"
upper_name profundo = "PROFUNDO"
upper_name maximo = "MAXIMO"

-- The variables `level`, `raisedByRisk` and `reasons`.
pub record Choice : Type 0 where
  pub level : EffortLevel
  pub raised : Bool
  pub reasons : List String

abbrev pub say : Choice → String → Choice
say c reason = record c { reasons = c.reasons ++ (reason ∷ []) }

-- An `if` that puts the level up to `level`.
abbrev pub raise_to : Bool → EffortLevel → String → Choice → Choice
raise_to test level reason c =
    if test && ltb (order c.level) (order level)
    then record { level = level; raised = true; reasons = c.reasons ++ (reason ∷ []) }
    else c

abbrev pub level_of : ComplexityLevel → EffortLevel
level_of high_complexity = profundo
level_of medium_complexity = normal
level_of low_complexity = eco

abbrev pub save : Bool → RiskLevel → Choice → Choice
save cost risk c =
    if cost && is_low risk && ltb (order normal) (order c.level)
    then say (record c { level = normal })
        "AUTO: modo ahorro/sin conexión; se limita a NORMAL porque el riesgo es bajo."
    else c

unfoldable pub choose_auto : RiskLevel → ComplexityLevel → Bool → Choice
choose_auto risk complexity cost =
    let first : Choice = record {
      level = level_of complexity;
      raised = false;
      reasons =
          String.◌++◌ "AUTO: complejidad " (String.◌++◌ (complexity_name complexity) ".") ∷ [];
    } in
    let floor_ =
      raise_to (not (is_low risk)) normal
        (String.◌++◌ "AUTO: riesgo " (String.◌++◌ (risk_name risk) "; nunca por debajo de NORMAL."))
        first in
    let deep =
      raise_to (is_critical risk) profundo
        "AUTO: riesgo crítico; se verifica en profundidad antes de proponer nada." floor_ in
    say (save cost risk deep)
      "AUTO nunca elige MÁXIMO: es un gasto que solo se activa por decisión explícita."

unfoldable pub choose_level : RiskLevel → EffortLevel → Choice
choose_level risk level =
    raise_to (not (is_low risk)) normal
      (String.◌++◌ "Suelo de riesgo: comando de riesgo "
        (String.◌++◌ (risk_name risk) "; se ejecuta como mínimo en NORMAL."))
      (record {
        level = level;
        raised = false;
        reasons =
            String.◌++◌ "Nivel " (String.◌++◌ (upper_name level) " elegido por el Founder.") ∷ [];
      })

abbrev pub choose : EffortRequest → RiskLevel → ComplexityLevel → Bool → Choice
choose auto risk complexity cost = choose_auto risk complexity cost
choose (chosen level) risk complexity cost = choose_level risk level

abbrev pub source_of : EffortRequest → EffortSource
source_of auto = by_auto
source_of (chosen level) = by_founder

abbrev pub confirm : RiskLevel → Choice → Choice
confirm critical c =
    say c
      "Riesgo crítico: requiere confirmación humana explícita antes de cualquier acción externa."
confirm high c =
    say c "Riesgo alto: las acciones externas siguen requiriendo aprobación según autoridad."
confirm low c = c

abbrev pub request_of : String → EffortRequest
request_of norm =
    if norm == "max" || norm == "maximo" || norm == "maxima"
    then chosen maximo
    else if norm == "eco"
    then chosen eco
    else if norm == "normal"
    then chosen normal
    else if norm == "profundo"
    then chosen profundo
    else auto

-- The decision once the level is chosen; `fresh` says that the text asks for what is current.
abbrev pub decision : EffortRequest → RiskLevel → ComplexityLevel → Bool → Choice → EffortDecision
decision requested risk complexity fresh c =
    let given = budgets c.level in
    let add = fresh && not given.fresh_research && ltb 0 (order c.level) in
    record {
      policy_version = "effort-policy/1";
      requested = requested;
      level = c.level;
      source = source_of requested;
      risk = risk;
      complexity = complexity;
      raised_by_risk = c.raised;
      requires_confirmation = is_critical risk;
      budget = record given { fresh_research = given.fresh_research || add };
      reasons =
          c.reasons
          ++ (if add
              then "El comando depende de información vigente: se añade investigación fresca." ∷ []
              else []);
    }

-- `normalize` takes Unicode's tables: it is a parameter.
module _ (normalize : String → String) where
  unfoldable pub assess_risk : String → Bool → RiskLevel
  assess_risk text_ sensitive =
      let norm = normalize text_ in
      if ltb 0 (count_hits norm critical_terms)
      then critical
      else if sensitive || ltb 0 (count_hits norm high_terms)
      then high
      else low

  unfoldable pub parse_effort_request : Option String → EffortRequest
  parse_effort_request none = request_of ""
  parse_effort_request (some value) = request_of (squeeze (normalize value))

-- Also the number of matches of the expression that separates steps is a parameter.
module _ (normalize : String → String) (steps : String → ℕ) where
  unfoldable pub assess_complexity : String → ComplexityLevel
  assess_complexity text_ =
      let norm = normalize text_ in
      let words_ = count_words norm false in
      let score =
        (if leb 60 words_ then 2 else if leb 25 words_ then 1 else 0)
        + min (count_hits norm complex_terms) 3
        + (if leb 3 (steps text_) then 1 else 0) in
      if leb 3 score
      then high_complexity
      else if leb 1 score
      then medium_complexity
      else low_complexity

  unfoldable pub decide_effort : EffortInput → EffortDecision
  unfolding choose_auto choose_level assess_risk assess_complexity parse_effort_request
  decide_effort input =
      let requested = parse_effort_request normalize input.requested in
      let risk = assess_risk normalize input.text_ input.sensitive_command in
      let complexity = assess_complexity input.text_ in
      decision requested risk complexity (ltb 0 (count_hits (normalize input.text_) fresh_terms))
        (confirm risk (choose requested risk complexity input.cost_sensitive))

pub record EffortGuidance : Type 0 where
  pub level : EffortLevel
  pub source : EffortSource
  pub risk : RiskLevel
  pub max_plan_steps : ℕ
  pub verification_passes : ℕ
  pub fresh_research : Bool
  pub requires_confirmation : Bool
  pub rule : String

abbrev pub rule_of : EffortLevel → String
rule_of eco =
    "Plan the shortest safe path; skip optional research; never skip mandatory safety or approval steps."
rule_of normal = "Plan a complete path with one verification step before delivery."
rule_of _ =
    "Plan with explicit research of current primary sources when relevant, and independent verification before delivery."

unfoldable pub effort_planning_guidance : EffortDecision → EffortGuidance
effort_planning_guidance d = record {
  level = d.level;
  source = d.source;
  risk = d.risk;
  max_plan_steps = d.budget.max_plan_steps;
  verification_passes = d.budget.verification_passes;
  fresh_research = d.budget.fresh_research;
  requires_confirmation = d.requires_confirmation;
  rule = rule_of d.level;
}
