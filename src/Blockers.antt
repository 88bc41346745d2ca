-- ===== src/Blockers.antt =====
-- packages/core/src/progress-policy.ts: what to do about an operational blocker.
pub mod Disposition
use janus_core.Base.{
  String, ◌⊎◌, inl, inr, Bool, true, false, not, ◌&&◌, ◌||◌, Option, none, some, List, [], ◌∷◌,
  ◌++◌, map, ltb, if◌then◌else◌, length, keep, is_nil, trim, when,
}
use Prim.Native.String
use mathlib.Core.Option.{Option-elim}
use janus_core.Base.Once.{and_then, guards, once}

pub data OperationalBlockerKind : Type 0 where
  provider authentication capability approval dependency data_ : OperationalBlockerKind
  external_service unknown : OperationalBlockerKind

pub data OperationalDisposition : Type 0 where
  continue park_and_continue block : OperationalDisposition

pub data AlternativeRisk : Type 0 where
  low medium high : AlternativeRisk

pub record OperationalAlternative : Type 0 where
  pub id : String
  pub title : String
  pub description : String
  pub preserves_goal : Bool
  pub available_now : Bool
  pub risk : AlternativeRisk
  pub evidence : Option (List String)
  pub next_action : String

pub record OperationalBlockerResolution : Type 0 where
  pub problem : String
  pub risk : String
  pub cause : String
  pub kind : OperationalBlockerKind
  pub alternatives : List OperationalAlternative
  pub recommendation : String
  pub next_action : String
  pub disposition : OperationalDisposition
  pub parked_issue : Option String

pub record BlockerInput : Type 0 where
  pub problem : String
  pub risk : String
  pub cause : String
  pub kind : Option OperationalBlockerKind
  pub alternatives : List OperationalAlternative
  pub mandatory_stop : Bool
  pub parked_issue : Option String

pub data BlockerError : Type 0 where
  problem_required risk_required cause_required : BlockerError
  alternative_incomplete wrong_number_of_alternatives : BlockerError

-- `!value.trim()`
abbrev pub lacks : String → Bool
lacks value = is_nil (trim value)

-- The loop of `dedupeAlternatives`: its error, its marker and what it pushes.
abbrev pub alternative_error : OperationalAlternative → Option BlockerError
alternative_error a =
    if lacks a.id || lacks a.title || lacks a.description || lacks a.next_action
    then some alternative_incomplete
    else none

abbrev pub alternative_entry : OperationalAlternative → OperationalAlternative
alternative_entry a = record a {
  id = trim a.id;
  title = trim a.title;
  description = trim a.description;
  next_action = trim a.next_action;
  evidence =
      Option-elim a.evidence none (λ items. some (keep (λ s. not (is_nil s)) (map trim items)));
}

unfoldable pub dedupe_alternatives :
    List OperationalAlternative → BlockerError ⊎ List OperationalAlternative
dedupe_alternatives alternatives =
    once alternative_error (λ a. trim a.id) alternative_entry alternatives []

abbrev pub is_high : AlternativeRisk → Bool
is_high high = true
is_high _ = false

abbrev pub is_safe_now : OperationalAlternative → Bool
is_safe_now a = a.available_now && a.preserves_goal && not (is_high a.risk)

abbrev pub first_of : {A : Type 0} → List A → Option A
first_of [] = none
first_of (x ∷ xs) = some x

abbrev pub or_else : {A : Type 0} → Option A → Option A → Option A
or_else (some a) other_ = some a
or_else none other_ = other_

-- `safeNow[0] ?? alternatives.find((alternative) => alternative.availableNow)`
unfoldable pub best_of : List OperationalAlternative → Option OperationalAlternative
best_of alternatives =
    or_else (first_of (keep is_safe_now alternatives))
      (first_of (keep (λ a. a.available_now) alternatives))

-- `input.parkedIssue?.trim()`, where it is not empty
abbrev pub parked : Option String → Option String
parked none = none
parked (some s) = if lacks s then none else some (trim s)

abbrev pub parked_disposition : Option String → OperationalDisposition
parked_disposition none = continue
parked_disposition (some s) = park_and_continue

-- The three returns: the recommendation, the next action and the disposition.
unfoldable pub verdict :
    Bool
    → Option OperationalAlternative
    → Option String
    → List OperationalAlternative
    → String × String × OperationalDisposition
verdict true (some best) issue alternatives = (
  String.◌++◌ "Prepare " (String.◌++◌ best.title " but do not bypass the mandatory stop."),
  best.next_action,
  block,
)
verdict true none issue alternatives = (
  "Preserve state and wait for the mandatory dependency or approval.",
  "Record the blocker and preserve the exact resume point.", block,
)
verdict false (some best) issue alternatives = (
  String.◌++◌ "Use "
      (String.◌++◌ best.title " and keep the blocked path as a tracked pending item."),
  best.next_action,
  parked_disposition issue,
)
verdict false none issue alternatives = (
  "Do not improvise an unsafe bypass; preserve state and escalate with the listed alternatives.",
  Option-elim (first_of alternatives) "" (λ a. a.next_action),
  block,
)

abbrev pub resolution_of :
    BlockerInput
    → List OperationalAlternative
    → String × String × OperationalDisposition
    → OperationalBlockerResolution
resolution_of input alternatives (recommendation, next_action, disposition) = record {
  problem = trim input.problem;
  risk = trim input.risk;
  cause = trim input.cause;
  kind = Option-elim input.kind unknown (λ k. k);
  alternatives = alternatives;
  recommendation = recommendation;
  next_action = next_action;
  disposition = disposition;
  parked_issue = parked input.parked_issue;
}

abbrev pub resolve :
    BlockerInput → List OperationalAlternative → BlockerError ⊎ OperationalBlockerResolution
resolve input alternatives =
    if ltb (length alternatives) 2 || ltb 4 (length alternatives)
    then inl wrong_number_of_alternatives
    else inr (
        resolution_of input alternatives (
          verdict input.mandatory_stop (best_of alternatives) (parked input.parked_issue)
            alternatives))

unfoldable pub build_operational_blocker_resolution :
    BlockerInput → BlockerError ⊎ OperationalBlockerResolution
unfolding dedupe_alternatives best_of verdict
build_operational_blocker_resolution input =
    guards
      ((lacks input.problem, problem_required)
        ∷ (lacks input.risk, risk_required)
        ∷ (lacks input.cause, cause_required)
        ∷ [])
      (and_then (dedupe_alternatives input.alternatives) (resolve input))

pub record ProviderInput : Type 0 where
  pub provider_name : String
  pub task : String
  pub local_available : Bool
  pub other_model_available : Bool

-- `value.trim() || fallback`
abbrev pub trimmed_or : String → String → String
trimmed_or value fallback = if lacks value then fallback else trim value

unfoldable pub default_provider_alternatives : ProviderInput → List OperationalAlternative
default_provider_alternatives input =
    let provider_ = trimmed_or input.provider_name "configured provider" in
    let task_ = trimmed_or input.task "current task" in
    record {
      id = "use-other-model";
      title = "another registered model";
      description = String.◌++◌ "Route " (
          String.◌++◌ task_ (
            String.◌++◌ " through another registered model instead of depending on "
              (String.◌++◌ provider_ ".")));
      preserves_goal = true;
      available_now = input.other_model_available;
      risk = low;
      evidence = none;
      next_action = "Ask Model Router for the best compatible registered alternative.";
    }
    ∷ record {
      id = "use-local-path";
      title = "local/offline path";
      description = String.◌++◌ "Continue the parts of " (
          String.◌++◌ task_
            " that can be completed with local models, deterministic tools or existing project assets.");
      preserves_goal = true;
      available_now = input.local_available;
      risk = low;
      evidence = none;
      next_action = "Continue locally and leave provider-dependent work as a tracked pending item.";
    }
    ∷ record {
      id = "park-provider-step";
      title = "park only the blocked provider step";
      description =
          "Keep the unresolved provider-specific step pending while continuing independent work in the same project.";
      preserves_goal = true;
      available_now = true;
      risk = low;
      evidence = none;
      next_action =
          "Record the blocked step, continue independent tasks and revalidate the dependency later.";
    }
    ∷ record {
      id = "manual-compatible-tool";
      title = "compatible non-provider tool";
      description =
          "Use another registered tool or deterministic workflow when the task does not actually require generative reasoning.";
      preserves_goal = true;
      available_now = true;
      risk = medium;
      evidence = none;
      next_action =
          "Check the Capability Registry for a tool-based path before stopping the project.";
    }
    ∷ []
