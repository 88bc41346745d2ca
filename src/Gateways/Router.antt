-- ===== src/Gateways/Router.antt =====
-- packages/gateways/src/model-router.ts: the class FallbackModelRouter. What a provider's promise
-- becomes at a request is a function; a refusal by the budget carries the budget.
pub mod Fallback
use janus_core.Base.{
  string_eq, ℕ, String, ◌⊎◌, inl, inr, Bool, true, false, Option, none, some, List, [], ◌∷◌, ◌++◌,
  map, nat_eq, if◌then◌else◌, length, is_empty, is_nil, distinct,
}
use Prim.Native.String
use janus_core.Gateways.{ModelRequest, ModelResponse}

pub data Answer : Type 0 where
  responded : ModelResponse → Answer
  budget_exceeded : ℕ → Answer
  failed : String → Answer

pub record RoutedProvider : Type 0 where
  pub id : String
  pub gateway : ModelRequest → Answer

pub record RouteAttempt : Type 0 where
  pub provider : String
  pub ok : Bool
  pub error : Option String

pub data RouterError : Type 0 where
  no_provider duplicate_ids : RouterError

unfoldable pub provider_ids : List RoutedProvider → List String
provider_ids providers = map (λ p. p.id) providers

-- The constructor's checks.
unfoldable pub create : List RoutedProvider → RouterError ⊎ List RoutedProvider
unfolding distinct provider_ids
create providers =
    if is_empty providers
    then inl no_provider
    else if nat_eq (length (distinct (provider_ids providers))) (length providers)
    then inr providers
    else inl duplicate_ids

abbrev pub success : RoutedProvider → RouteAttempt
success p = record { provider = p.id; ok = true; error = none }

abbrev pub failure : RoutedProvider → String → RouteAttempt
failure p message = record { provider = p.id; ok = false; error = some message }

abbrev pub signed : RoutedProvider → ModelResponse → ModelResponse
signed p response = record response {
  provider = if is_nil response.provider then p.id else response.provider;
}

-- How `complete` ends. The errors of all providers are joined with ` | `.
pub data Routed : Type 0 where
  returned : ModelResponse → Routed
  threw_budget : ℕ → Routed
  threw_all_failed : List String → Routed

-- The body of the loop: the answer of a provider, the attempts and errors so far, and the rest.
abbrev pub attempt :
    RoutedProvider
    → Answer
    → List RouteAttempt
    → List String
    → (List RouteAttempt → List String → Routed × List RouteAttempt)
    → Routed × List RouteAttempt
attempt p (responded response) attempts errors next =
    (returned (signed p response), attempts ++ success p ∷ [])
attempt p (budget_exceeded m) attempts errors next = (threw_budget m, attempts)
attempt p (failed message) attempts errors next =
    next (attempts ++ failure p message ∷ [])
      (errors ++ String.◌++◌ p.id (String.◌++◌ ": " message) ∷ [])

-- `others p` is what overlapping calls make of the shared field while the answer of `p` is awaited.
unfoldable pub try_all :
    (RoutedProvider → List RouteAttempt → List RouteAttempt)
    → ModelRequest
    → List RoutedProvider
    → List RouteAttempt
    → List String
    → Routed × List RouteAttempt
try_all others request [] attempts errors = (threw_all_failed errors, attempts)
try_all others request (p ∷ ps) attempts errors =
    attempt p (p.gateway request) (others p attempts) errors (try_all others request ps)

-- What `complete` does, with the field it leaves for `lastAttempts`.
unfoldable pub complete :
    (RoutedProvider → List RouteAttempt → List RouteAttempt)
    → List RoutedProvider
    → ModelRequest
    → Routed × List RouteAttempt
unfolding try_all
complete others providers request = try_all others request providers [] []
