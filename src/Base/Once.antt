-- ===== src/Base/Once.antt =====
-- Loops that check, normalise and keep one value of each marker.
use mathlib.Core.Path.{◌≡◌, refl}
use mathlib.Core.Logic.{◌⊎◌, inl, inr}
use mathlib.Core.Bool.{Bool, true, false}
use mathlib.Core.Option.{Option, none, some}
use mathlib.Core.List.{List, [], ◌∷◌}
use Prim.Native.String.{String}
use janus_core.Base.Tests.{string_eq, Bool-cases, Option-cases}
use janus_core.Base.Lists.{has}

-- A computation that may throw, and what follows it.
abbrev pub and_then : {E A B : Type 0} → E ⊎ A → (A → E ⊎ B) → E ⊎ B
and_then (inl e) k = inl e
and_then (inr a) k = k a

pub and_then-eq-inr :
    {E A B : Type 0} (v : E ⊎ A) (k : A → E ⊎ B) {b : B}
    → and_then v k ≡ inr b
    → (a : A) × (v ≡ inr a) × (k a ≡ inr b)
and_then-eq-inr (inl e) k h = absurd (cc)
and_then-eq-inr (inr a) k h = (a, refl, h)

-- `if (test) throw new Error(e)`, some times in a row.
abbrev pub guards : {E A : Type 0} → List (Bool × E) → E ⊎ A → E ⊎ A
guards [] next = next
guards ((true, e) ∷ rest) next = inl e
guards ((false, e) ∷ rest) next = guards rest next

pub guards-eq-inr :
    {E A : Type 0} (cs : List (Bool × E)) (next : E ⊎ A) {a : A}
    → guards cs next ≡ inr a
    → (next ≡ inr a) × ((other_ : E ⊎ A) → guards cs other_ ≡ other_)
guards-eq-inr [] next h = (h, λ o. refl)
guards-eq-inr ((true, e) ∷ rest) next h = absurd (cc)
guards-eq-inr ((false, e) ∷ rest) next h = guards-eq-inr rest next h

module _ {E A : Type 0} (check : A → Option E) (marker : A → String) (entry : A → A) where
  -- The body of the loop for a value; `next` is the rest of the loop.
  abbrev pub step_once : Option E → Bool → A → (List String → E ⊎ List A) → List String → E ⊎ List A
  step_once (some e) seen a next markers = inl e
  step_once none true a next markers = next markers
  step_once none false a next markers =
      and_then (next (marker a ∷ markers)) (λ rest. inr (entry a ∷ rest))

  unfoldable pub once : List A → List String → E ⊎ List A
  once [] seen = inr []
  once (a ∷ as') seen = step_once (check a) (has (marker a) seen) a (once as') seen

  module _ (check_entry : (a : A) → check (entry a) ≡ check a)
      (marker_entry : (a : A) → marker (entry a) ≡ marker a)
      (entry_entry : (a : A) → entry (entry a) ≡ entry a) where
    pushed_again :
        (a : A) (rest : List A) (seen : List String)
        → check a ≡ none
        → has (marker a) seen ≡ false
        → once rest (marker a ∷ seen) ≡ inr rest
        → once (entry a ∷ rest) seen ≡ inr (entry a ∷ rest)
    unfolding once
    pushed_again a rest seen fine new run =
        rw (check_entry a, fine, marker_entry a, new)
          (rw (marker_entry a) (rw run (rw (entry_entry a) refl)))

    -- What the loop returned, it returns again.
    pub once_again :
        (as' out : List A) (seen : List String) → once as' seen ≡ inr out → once out seen ≡ inr out
    unfolding once
    once_again [] out seen h = cc (h)
    once_again (a ∷ as') out seen h = elim (Bool-cases (has (marker a) seen)) [
      | inl old ↦ elim (Option-cases (check a)) [
        | inl fine ↦ once_again as' out seen (rw (old, fine) at h)
        | inr (e, bad) ↦ absurd (cc (rw (old, bad) at h))
      ]
      | inr new ↦ elim (Option-cases (check a)) [
        | inl fine ↦
            let (rest, run, same) =
              and_then-eq-inr (once as' (marker a ∷ seen)) _ (rw (new, fine) at h) in
            let here : entry a ∷ rest ≡ out = cc (same) in
            rw (← here)
              (pushed_again a rest seen fine new (once_again as' rest (marker a ∷ seen) run))
        | inr (e, bad) ↦ absurd (cc (rw (new, bad) at h))
      ]
    ]
