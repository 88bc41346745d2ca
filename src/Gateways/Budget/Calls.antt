-- ===== src/Gateways/Budget/Calls.antt =====
-- packages/gateways/src/budgeted-model-gateway.ts: calls of `complete` that overlap.
use janus_core.Base.{
  ℕ, suc, ◌+◌, ◌≤◌, ◌<◌, ◌≡◌, refl, sym, ◌≢◌, ◌↔◌, inl, inr, true, false, not, ◌||◌, some, arith,
  leb, Bool-cases, List, [], ◌∷◌, length,
}
use janus_core.Base.Number.{Number, floor, is_integer, less, whole}
use janus_core.Gateways.Budget.{
  BudgetedModelGateway, unused, Outcome, responded, failed, create, enter, leave, unused,
}

-- The gateway after some steps, the calls that reached the provider, those that it still works on,
-- the calls that were refused, and the outcomes of those that ended, the newest first.
pub data Reachable (m : Number) : BudgetedModelGateway → ℕ → ℕ → ℕ → List Outcome → Type 0 where
  start : (g : BudgetedModelGateway) → create m ≡ some g → Reachable m g 0 0 0 []
  admits :
      (g : BudgetedModelGateway) (sent open_ turned : ℕ) (ended : List Outcome)
      → Reachable m g sent open_ turned ended
      → (enter g).0 ≡ true
      → Reachable m (enter g).1 (suc sent) (suc open_) turned ended
  turns_away :
      (g : BudgetedModelGateway) (sent open_ turned : ℕ) (ended : List Outcome)
      → Reachable m g sent open_ turned ended
      → (enter g).0 ≡ false
      → Reachable m (enter g).1 sent open_ (suc turned) ended
  settles :
      (o : Outcome) (g : BudgetedModelGateway) (sent open_ turned : ℕ) (ended : List Outcome)
      → Reachable m g sent (suc open_) turned ended
      → Reachable m (leave o g) sent open_ turned (o ∷ ended)

abbrev pub failures_of : List Outcome → ℕ
failures_of [] = 0
failures_of (responded x ∷ os) = failures_of os
failures_of (failed x ∷ os) = suc (failures_of os)

pub IsBudgeted : ℕ → BudgetedModelGateway → ℕ → ℕ → ℕ → List Outcome → Type 0
IsBudgeted budget g sent open_ turned ended =
    (g.max_calls ≡ budget)
    × (g.calls ≡ sent)
    × (g.refused ≡ turned)
    × (sent ≤ budget)
    × (g.failures ≡ failures_of ended)
    × (open_ + length ended ≡ sent)
    × (turned ≢ 0 → sent ≡ budget)

full_iff : (a b : ℕ) → (leb a b ≡ true) ↔ (a ≤ b)
full_iff a b = ground arith

admit-IsBudgeted :
    (budget : ℕ) (g : BudgetedModelGateway) (sent open_ turned : ℕ) (ended : List Outcome)
    → IsBudgeted budget g sent open_ turned ended
    → (enter g).0 ≡ true
    → IsBudgeted budget (enter g).1 (suc sent) (suc open_) turned ended
unfolding IsBudgeted enter
admit-IsBudgeted budget g sent open_ turned ended (m, c, r, b, f, n, t) e =
    elim (Bool-cases (leb g.max_calls g.calls)) [
      | inl full_ ↦ cc (rw full_ at e)
      | inr room ↦
          let free : g.calls < g.max_calls = ground arith in
          rw room (m, omega arith, r, omega arith, f, omega arith, λ k. omega (arith, t k))
    ]

turn_away-IsBudgeted :
    (budget : ℕ) (g : BudgetedModelGateway) (sent open_ turned : ℕ) (ended : List Outcome)
    → IsBudgeted budget g sent open_ turned ended
    → (enter g).0 ≡ false
    → IsBudgeted budget (enter g).1 sent open_ (suc turned) ended
unfolding IsBudgeted enter
turn_away-IsBudgeted budget g sent open_ turned ended (m, c, r, b, f, n, t) e =
    elim (Bool-cases (leb g.max_calls g.calls)) [
      | inl full_ ↦
          let closed : g.max_calls ≤ g.calls = (full_iff g.max_calls g.calls).0 full_ in
          rw full_ (m, c, omega arith, b, f, n, λ k. omega arith)
      | inr room ↦ cc (rw room at e)
    ]

leave-IsBudgeted :
    (o : Outcome) (budget : ℕ) (g : BudgetedModelGateway) (sent open_ turned : ℕ)
    (ended : List Outcome)
    → IsBudgeted budget g sent (suc open_) turned ended
    → IsBudgeted budget (leave o g) sent open_ turned (o ∷ ended)
unfolding IsBudgeted leave
leave-IsBudgeted (responded x) budget g sent open_ turned ended (m, c, r, b, f, n, t) =
    (m, c, r, b, f, omega arith, t)
leave-IsBudgeted (failed x) budget g sent open_ turned ended (m, c, r, b, f, n, t) =
    (m, c, r, b, omega arith, omega arith, t)

create-IsBudgeted :
    (m : Number) (g : BudgetedModelGateway) → create m ≡ some g → IsBudgeted (floor m) g 0 0 0 []
unfolding IsBudgeted create
create-IsBudgeted m g e = elim (Bool-cases (not (is_integer m) || less m (whole 0))) [
  | inl bad ↦ cc (rw bad at e)
  | inr good ↦
      let same : unused (floor m) ≡ g = cc (rw good at e) in
      rw (sym same) (refl, refl, refl, omega arith, refl, refl, λ n. elim (n refl) [ ])
]

-- However calls of `complete` overlap, no more of them reach the provider than the budget allows, a
-- call is turned away only when the budget is used up, and the gateway's counters are right: the
-- calls sent, each of which is still open or has ended, the calls refused, and the calls that failed.
pub Reachable-IsBudgeted :
    (m : Number) (g : BudgetedModelGateway) (sent open_ turned : ℕ) (ended : List Outcome)
    → Reachable m g sent open_ turned ended
    → IsBudgeted (floor m) g sent open_ turned ended
Reachable-IsBudgeted m g s o t l (start g' e) = create-IsBudgeted m g e
Reachable-IsBudgeted m g s o t l (admits h sent open_ turned ended before ok) =
    admit-IsBudgeted (floor m) h sent open_ turned ended
      (Reachable-IsBudgeted m h sent open_ turned ended before) ok
Reachable-IsBudgeted m g s o t l (turns_away h sent open_ turned ended before no_) =
    turn_away-IsBudgeted (floor m) h sent open_ turned ended
      (Reachable-IsBudgeted m h sent open_ turned ended before) no_
Reachable-IsBudgeted m g s o t l (settles x h sent open_ turned ended before) =
    leave-IsBudgeted x (floor m) h sent open_ turned ended
      (Reachable-IsBudgeted m h sent (suc open_) turned ended before)
