-- ===== src/Gateways/Budget.antt =====
-- packages/gateways/src/budgeted-model-gateway.ts: the class BudgetedModelGateway. A call is two
-- steps, what runs before the provider is awaited and what runs after, so that calls interleave.
pub mod Calls
use janus_core.Base.{
  ℕ, ◌+◌, ◌-◌, String, Bool, true, false, not, ◌||◌, Option, none, some, List, [], ◌∷◌, leb,
  if◌then◌else◌, get, set,
}
use mathlib.Core.Option.{Option-elim}
use Prim.Native.String
use janus_core.Base.Number.{Number, whole, less, is_integer, floor, plus}
use janus_core.Gateways.{ModelResponse}

pub record BudgetedModelGateway : Type 0 where
  pub max_calls : ℕ
  pub calls : ℕ
  pub refused : ℕ
  pub failures : ℕ
  pub tokens : List (String × Number)

abbrev pub unused : ℕ → BudgetedModelGateway
unused max_calls = record {
  max_calls = max_calls;
  calls = 0;
  refused = 0;
  failures = 0;
  tokens = [];
}

-- The constructor: `none` is its error.
unfoldable pub create : Number → Option BudgetedModelGateway
create max_calls =
    if not (is_integer max_calls) || less max_calls (whole 0)
    then none
    else some (unused (floor max_calls))

-- `complete` up to its await: `false` is the ModelBudgetExceededError.
unfoldable pub enter : BudgetedModelGateway → Bool × BudgetedModelGateway
enter g =
    if leb g.max_calls g.calls
    then (false, record g { refused = g.refused + 1 })
    else (true, record g { calls = g.calls + 1 })

-- The loop over the response's usage.
unfoldable pub add_usage :
    List (String × Option Number) → List (String × Number) → List (String × Number)
add_usage [] tokens = tokens
add_usage ((key, none) ∷ rest) tokens = add_usage rest tokens
add_usage ((key, some value) ∷ rest) tokens =
    add_usage rest (set key (plus (Option-elim (get key tokens) (whole 0) (λ t. t)) value) tokens)

-- What the provider's promise becomes.
pub data Outcome : Type 0 where
  responded : ModelResponse → Outcome
  failed : String → Outcome

-- The rest of `complete`.
unfoldable pub leave : Outcome → BudgetedModelGateway → BudgetedModelGateway
unfolding add_usage
leave (responded response) g = record g { tokens = add_usage response.usage g.tokens }
leave (failed message) g = record g { failures = g.failures + 1 }

abbrev pub remaining : BudgetedModelGateway → ℕ
remaining g = g.max_calls - g.calls

pub record ModelBudgetUsage : Type 0 where
  pub max_calls : ℕ
  pub calls : ℕ
  pub refused : ℕ
  pub failures : ℕ
  pub tokens : List (String × Number)

abbrev pub usage : BudgetedModelGateway → ModelBudgetUsage
usage g = record {
  max_calls = g.max_calls;
  calls = g.calls;
  refused = g.refused;
  failures = g.failures;
  tokens = g.tokens;
}
