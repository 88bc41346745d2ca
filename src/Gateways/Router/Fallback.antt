-- ===== src/Gateways/Router/Fallback.antt =====
-- packages/gateways/src/model-router.ts: which provider answers a request.
use janus_core.Base.{
  ℕ, String, ◌≡◌, refl, sym, ap, ◌∙◌, ◌⊎◌, inl, inr, List, [], ◌∷◌, ◌++◌, map, All,
}
use Prim.Native.String
use mathlib.Core.List.{append-nil, append_assoc}
use janus_core.Gateways.{ModelRequest, ModelResponse}
use janus_core.Gateways.Router.{
  Answer, responded, budget_exceeded, failed, RoutedProvider, RouteAttempt, success, failure,
  attempt, signed, Routed, returned, threw_budget, threw_all_failed, try_all, complete,
}

-- The providers that failed, with their messages.
Failed : ModelRequest → List (RoutedProvider × String) → Type 0
Failed request = All (λ (p, message). p.gateway request ≡ failed message)

abbrev failures : List (RoutedProvider × String) → List RouteAttempt
failures = map (λ (p, message). failure p message)

abbrev lines : List (RoutedProvider × String) → List String
lines = map (λ (p, message). String.◌++◌ p.id (String.◌++◌ ": " message))

abbrev providers_of : List (RoutedProvider × String) → List RoutedProvider
providers_of = map (λ (p, message). p)

-- No other call overlaps.
abbrev pub alone : RoutedProvider → List RouteAttempt → List RouteAttempt
alone p attempts = attempts

try_all_skips :
    (request : ModelRequest) (before : List (RoutedProvider × String)) (rest : List RoutedProvider)
    (attempts : List RouteAttempt) (errors : List String)
    → Failed request before
    → try_all alone request (providers_of before ++ rest) attempts errors
      ≡ try_all alone request rest (attempts ++ failures before) (errors ++ lines before)
unfolding try_all Failed
try_all_skips request [] rest attempts errors h = rw (append-nil attempts, append-nil errors) refl
try_all_skips request ((p, message) ∷ before) rest attempts errors (f, h) = rw f (
    rw
      (try_all_skips request before rest (attempts ++ failure p message ∷ [])
        (errors ++ String.◌++◌ p.id (String.◌++◌ ": " message) ∷ []) h)
      (rw
        (
          append_assoc attempts (failure p message ∷ []) (failures before),
          append_assoc errors (String.◌++◌ p.id (String.◌++◌ ": " message) ∷ []) (lines before),
        )
        refl))

-- The first provider that did not fail, and what it did.
data Stop (request : ModelRequest) (p : RoutedProvider) : Routed → List RouteAttempt → Type 0 where
  answers :
      (response : ModelResponse)
      → p.gateway request ≡ responded response
      → Stop request p (returned (signed p response)) (success p ∷ [])
  refuses : (m : ℕ) → p.gateway request ≡ budget_exceeded m → Stop request p (threw_budget m) []

pub Route : ModelRequest → List RoutedProvider → Routed × List RouteAttempt → Type 0
Route request providers (routed, attempts) =
    (before : List (RoutedProvider × String)) × Failed request before
    × ((providers ≡ providers_of before)
          × (routed ≡ threw_all_failed (lines before))
          × (attempts ≡ failures before)
        ⊎ ((p : RoutedProvider) × (after : List RoutedProvider) × (last : List RouteAttempt)
            × (providers ≡ providers_of before ++ p ∷ after)
            × Stop request p routed last
            × (attempts ≡ failures before ++ last)))

FirstStop : ModelRequest → List RoutedProvider → Type 0
FirstStop request providers =
    (before : List (RoutedProvider × String)) × Failed request before
    × ((providers ≡ providers_of before)
        ⊎ ((p : RoutedProvider) × (after : List RoutedProvider) × (routed : Routed) × (last : List
              RouteAttempt)
            × (providers ≡ providers_of before ++ p ∷ after)
            × Stop request p routed last))

stop_cons :
    (request : ModelRequest) (p : RoutedProvider) (ps : List RoutedProvider) (a : Answer)
    → p.gateway request ≡ a
    → FirstStop request ps
    → FirstStop request (p ∷ ps)
unfolding Failed FirstStop
stop_cons request p ps (responded response) e rest =
    ([], tt, inr (p, ps, returned (signed p response), success p ∷ [], refl, answers response e))
stop_cons request p ps (budget_exceeded m) e rest =
    ([], tt, inr (p, ps, threw_budget m, [], refl, refuses m e))
stop_cons request p ps (failed message) e (before, h, inl same) =
    ((p, message) ∷ before, (e, h), inl (ap (λ qs. p ∷ qs) same))
stop_cons request p ps (failed message) e (before, h, inr (q, after, routed, last, same, stop)) =
    ((p, message) ∷ before, (e, h), inr (q, after, routed, last, ap (λ qs. p ∷ qs) same, stop))

first_stop :
    (request : ModelRequest) (providers : List RoutedProvider) → FirstStop request providers
unfolding Failed FirstStop
first_stop request [] = ([], tt, inl refl)
first_stop request (p ∷ ps) =
    stop_cons request p ps (p.gateway request) refl (first_stop request ps)

Stop-complete :
    (request : ModelRequest) (before : List (RoutedProvider × String)) (p : RoutedProvider)
    (after : List RoutedProvider) (routed : Routed) (last : List RouteAttempt)
    → Failed request before
    → Stop request p routed last
    → complete alone (providers_of before ++ p ∷ after) request ≡ (routed, failures before ++ last)
unfolding complete
Stop-complete request before p after routed last h (answers response e) =
    rw (try_all_skips request before (p ∷ after) [] [] h) (rw e refl)
Stop-complete request before p after routed last h (refuses m e) =
    rw (try_all_skips request before (p ∷ after) [] [] h)
      (rw e (rw (append-nil (failures before)) refl))

Failed-complete :
    (request : ModelRequest) (before : List (RoutedProvider × String))
    → Failed request before
    → complete alone (providers_of before) request
      ≡ (threw_all_failed (lines before), failures before)
unfolding complete
Failed-complete request before h =
    ap (λ ps. complete alone ps request) (sym (append-nil (providers_of before)))
    ∙ try_all_skips request before [] [] [] h

alone-Route :
    (providers : List RoutedProvider) (request : ModelRequest)
    → Route request providers (complete alone providers request)
unfolding Route FirstStop
alone-Route providers request =
    let (before, h, stopped) = first_stop request providers in
    elim stopped [
      | inl same ↦
          let run = ap (λ ps. complete alone ps request) same ∙ Failed-complete request before h in
          (before, h, inl (same, ap (λ x. x.0) run, ap (λ x. x.1) run))
      | inr (p, after, routed, last, same, stop) ↦
          let run =
            ap (λ ps. complete alone ps request) same
            ∙ Stop-complete request before p after routed last h stop in
          (before, h, inr (p, after, last, same, rw (ap (λ x. x.0) run) stop, ap (λ x. x.1) run))
    ]

module _ (others : RoutedProvider → List RouteAttempt → List RouteAttempt)
    (request : ModelRequest) where
  attempt_same :
      (p : RoutedProvider) (answer : Answer) (a b : List RouteAttempt) (errors : List String)
      (next next' : List RouteAttempt → List String → Routed × List RouteAttempt)
      → ((c d : List RouteAttempt) (es : List String) → (next c es).0 ≡ (next' d es).0)
      → (attempt p answer a errors next).0 ≡ (attempt p answer b errors next').0
  attempt_same p (responded response) a b errors next next' h = refl
  attempt_same p (budget_exceeded m) a b errors next next' h = refl
  attempt_same p (failed message) a b errors next next' h = h _ _ _

  try_all_same :
      (providers : List RoutedProvider) (a b : List RouteAttempt) (errors : List String)
      → (try_all others request providers a errors).0 ≡ (try_all alone request providers b errors).0
  unfolding try_all
  try_all_same [] a b errors = refl
  try_all_same (p ∷ ps) a b errors =
      attempt_same p (p.gateway request) (others p a) b errors (try_all others request ps)
        (try_all alone request ps) (try_all_same ps)

-- At any request, the providers before some point failed, and there either the list is over and
-- `complete` throws their errors, or the next provider decides: its response is returned, signed, or
-- its budget refusal is thrown. That is so whatever overlapping calls do to the shared field; and
-- where none overlaps, the field is left with the failures before that point, each with its message,
-- in order, and with the success.
pub complete-Route :
    (others : RoutedProvider → List RouteAttempt → List RouteAttempt)
    (providers : List RoutedProvider) (request : ModelRequest)
    → Route request providers (complete alone providers request)
      × ((complete others providers request).0 ≡ (complete alone providers request).0)
unfolding complete
complete-Route others providers request =
    (alone-Route providers request, try_all_same others request providers [] [] [])
