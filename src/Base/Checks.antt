-- ===== src/Base/Checks.antt =====
-- Validators that push messages onto `errors`: a list of errors, joined in the order of the pushes.
use mathlib.Core.Path.{◌≡◌, refl}
use mathlib.Core.Logic.{◌↔◌}
use mathlib.Core.Bool.{Bool, true, false}
use mathlib.Core.List.{List, [], ◌∷◌, ◌++◌}
use janus_core.Base.Lists.{All, append-eq-nil}

module _ {ℓ} {E : Type ℓ} where
  -- `if (test) errors.push(e)`
  abbrev pub when : Bool → E → List E
  when true e = e ∷ []
  when false e = []

  pub when-eq-nil : (b : Bool) (e : E) → (when b e ≡ []) ↔ (b ≡ false)
  when-eq-nil true e = (λ h. cc, λ h. cc)
  when-eq-nil false e = (λ h. refl, λ h. refl)

  -- Two validators in a row.
  pub append-nil_iff {μ ν} :
      {P : Type μ} {Q : Type ν} (xs ys : List E)
      → (xs ≡ []) ↔ P
      → (ys ≡ []) ↔ Q
      → (xs ++ ys ≡ []) ↔ (P × Q)
  append-nil_iff xs ys p q = (
    λ h. let (a, b) = (append-eq-nil xs ys).0 h in (p.0 a, q.0 b),
    λ h. (append-eq-nil xs ys).1 (p.1 h.0, q.1 h.1),
  )

  -- `for (const x of xs) errors.push(...f(x))`
  abbrev pub each {κ} : {A : Type κ} → (A → List E) → List A → List E
  each f [] = []
  each f (x ∷ xs) = f x ++ each f xs

  pub each-nil_iff {κ μ} :
      {A : Type κ} (P : A → Type μ) (f : A → List E)
      → ((a : A) → (f a ≡ []) ↔ P a)
      → (xs : List A) → (each f xs ≡ []) ↔ All P xs
  each-nil_iff P f h [] = (λ e. tt, λ e. refl)
  each-nil_iff P f h (x ∷ xs) = append-nil_iff (f x) (each f xs) (h x) (each-nil_iff P f h xs)
