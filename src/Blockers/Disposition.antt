-- ===== src/Blockers/Disposition.antt =====
-- packages/core/src/progress-policy.ts: when a blocker stops the work.
use janus_core.Base.{
  ap, ◌∙◌, ◌&&◌, ◌≤◌, String, ◌≡◌, refl, inl, inr, Bool, true, false, not, ◌||◌, Option, none, some,
  List, [], ◌∷◌, arith, ltb, Bool-cases, length, any, keep,
}
use janus_core.Base.Once.{guards-eq-inr, and_then-eq-inr}
use janus_core.Blockers.{
  OperationalAlternative, OperationalDisposition, block, parked_disposition,
  OperationalBlockerResolution, BlockerInput, problem_required, risk_required, cause_required,
  lacks, first_of, best_of, or_else, is_safe_now, verdict, resolution_of, parked,
  dedupe_alternatives, build_operational_blocker_resolution,
}

abbrev pub is_block : OperationalDisposition → Bool
is_block block = true
is_block _ = false

parked-goes : (o : Option String) → is_block (parked_disposition o) ≡ false
parked-goes none = refl
parked-goes (some s) = refl

abbrev pub nothing_now : List OperationalAlternative → Bool
nothing_now alternatives = not (any (λ a. a.available_now) alternatives)

abbrev is_none : {A : Type 0} → Option A → Bool
is_none none = true
is_none (some a) = false

first-keep :
    (p : OperationalAlternative → Bool) (xs : List OperationalAlternative)
    → is_none (first_of (keep p xs)) ≡ not (any p xs)
first-keep p [] = refl
first-keep p (x ∷ xs) = elim (Bool-cases (p x)) [
  | inl yes_ ↦ rw yes_ refl
  | inr no_ ↦ rw no_ (first-keep p xs)
]

or_else-is_none :
    (a b : Option OperationalAlternative) → is_none (or_else a b) ≡ (is_none a && is_none b)
or_else-is_none none b = refl
or_else-is_none (some x) b = refl

safe-available :
    (xs : List OperationalAlternative)
    → any (λ a. a.available_now) xs ≡ false
    → any is_safe_now xs ≡ false
safe-available [] h = refl
safe-available (x ∷ xs) h = elim (Bool-cases x.available_now) [
  | inl yes_ ↦ absurd (cc (rw yes_ at h))
  | inr no_ ↦ rw no_ (safe-available xs (rw no_ at h))
]

best_of-is_none : (xs : List OperationalAlternative) → is_none (best_of xs) ≡ nothing_now xs
unfolding best_of
best_of-is_none xs =
    or_else-is_none (first_of (keep is_safe_now xs)) (first_of (keep (λ a. a.available_now) xs))
    ∙ rw (first-keep is_safe_now xs, first-keep (λ a. a.available_now) xs)
        (elim (Bool-cases (any (λ a. a.available_now) xs)) [
          | inl yes_ ↦ ground (arith, yes_)
          | inr no_ ↦ rw (no_, safe-available xs no_) refl
        ])

verdict-block :
    (stop : Bool) (o : Option OperationalAlternative) (issue : Option String)
    (alternatives : List OperationalAlternative)
    → is_block ((verdict stop o issue alternatives).2) ≡ (stop || is_none o)
unfolding verdict
verdict-block true (some a) issue alternatives = refl
verdict-block true none issue alternatives = refl
verdict-block false (some a) issue alternatives = parked-goes issue
verdict-block false none issue alternatives = refl

-- A resolution has two to four alternatives, and it says `block` exactly where a stop is mandatory or
-- no alternative is available now.
pub build_operational_blocker_resolution-block :
    (input : BlockerInput) (r : OperationalBlockerResolution)
    → build_operational_blocker_resolution input ≡ inr r
    → (is_block r.disposition ≡ (input.mandatory_stop || nothing_now r.alternatives))
      × (2 ≤ length r.alternatives)
      × (length r.alternatives ≤ 4)
unfolding build_operational_blocker_resolution
build_operational_blocker_resolution-block input r h =
    let (e, _) =
      guards-eq-inr
        ((lacks input.problem, problem_required)
          ∷ (lacks input.risk, risk_required)
          ∷ (lacks input.cause, cause_required)
          ∷ [])
        _ h in
    let (alternatives, run, made) = and_then-eq-inr (dedupe_alternatives input.alternatives) _ e in
    elim (Bool-cases (ltb (length alternatives) 2 || ltb 4 (length alternatives))) [
      | inl bad ↦ absurd (cc (rw bad at made))
      | inr good ↦
          let same : resolution_of input alternatives (
                verdict input.mandatory_stop (best_of alternatives) (parked input.parked_issue)
                  alternatives)
              ≡ r =
            cc (rw good at made) in
          rw (← same) (
            verdict-block input.mandatory_stop (best_of alternatives) (parked input.parked_issue)
                  alternatives
                ∙ ap (λ b. input.mandatory_stop || b) (best_of-is_none alternatives),
            ground (arith, good),
            ground (arith, good),
          )
    ]
