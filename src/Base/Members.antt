-- ===== src/Base/Members.antt =====
-- Membership in a list whose elements have no equality test, and counts.
use Prim.Native.Nat.{◌≤◌, ◌<◌}
use mathlib.Core.Path.{◌≡◌, sym, ap, ◌∙◌}
use mathlib.Core.Logic.{◌⊎◌, inl, inr}
use mathlib.Core.Bool.{Bool, true, false}
use mathlib.Core.List.{List, [], ◌∷◌}
use native.Mathlib.Omega.{arith}
use janus_core.Base.Tests.{Bool-cases}
use janus_core.Base.Lists.{keep, All, length}

-- Being an element.
abbrev pub IsIn : {A : Type 0} → A → List A → Type 0
IsIn a [] = ⊥
IsIn a (x ∷ xs) = (a ≡ x) ⊎ IsIn a xs

pub IsIn-keep :
    {A : Type 0} (p : A → Bool) (a : A) (xs : List A) → IsIn a xs → p a ≡ true → IsIn a (keep p xs)
IsIn-keep p a [] m h = elim m [ ]
IsIn-keep p a (x ∷ xs) (inl same) h = let e : p x ≡ true = ap p (sym same) ∙ h in rw e (inl same)
IsIn-keep p a (x ∷ xs) (inr later) h = elim (Bool-cases (p x)) [
  | inl yes_ ↦ rw yes_ (inr (IsIn-keep p a xs later h))
  | inr no_ ↦ rw no_ (IsIn-keep p a xs later h)
]

pub keep-IsIn :
    {A : Type 0} (p : A → Bool) (a : A) (xs : List A)
    → IsIn a (keep p xs)
    → IsIn a xs × (p a ≡ true)
keep-IsIn p a [] h = elim h [ ]
keep-IsIn p a (x ∷ xs) h = elim (Bool-cases (p x)) [
  | inl yes_ ↦ elim (rw yes_ at h) [
    | inl same ↦ (inl same, ap p same ∙ yes_)
    | inr later ↦ let (i, e) = keep-IsIn p a xs later in (inr i, e)
  ]
  | inr no_ ↦ let (i, e) = keep-IsIn p a xs (rw no_ at h) in (inr i, e)
]

pub IsIn-All : {A : Type 0} (P : A → Type 0) (a : A) (xs : List A) → All P xs → IsIn a xs → P a
IsIn-All P a [] h i = elim i [ ]
IsIn-All P a (x ∷ xs) (h, hs) (inl same) = rw same h
IsIn-All P a (x ∷ xs) (h, hs) (inr later) = IsIn-All P a xs hs later

module _ {A : Type 0} (p q : A → Bool) (imp : (a : A) → q a ≡ true → p a ≡ true) where
  -- A stronger test keeps no more elements, and fewer when it rejects one that the other keeps.
  pub keep-le : (xs : List A) → length (keep q xs) ≤ length (keep p xs)
  keep-le [] = omega arith
  keep-le (x ∷ xs) = elim (Bool-cases (q x)) [
    | inl yes_ ↦ rw (yes_, imp x yes_) (omega (arith, keep-le xs))
    | inr no_ ↦ elim (Bool-cases (p x)) [
      | inl more ↦ rw (no_, more) (omega (arith, keep-le xs))
      | inr less_ ↦ rw (no_, less_) (keep-le xs)
    ]
  ]

  pub keep-lt :
      (a : A) (xs : List A)
      → IsIn a xs
      → p a ≡ true
      → q a ≡ false
      → length (keep q xs) < length (keep p xs)
  keep-lt a [] i hp hq = elim i [ ]
  keep-lt a (x ∷ xs) (inl same) hp hq =
      let hp' : p x ≡ true = ap p (sym same) ∙ hp in
      let hq' : q x ≡ false = ap q (sym same) ∙ hq in rw (hp', hq') (omega (arith, keep-le xs))
  keep-lt a (x ∷ xs) (inr later) hp hq = elim (Bool-cases (q x)) [
    | inl yes_ ↦ rw (yes_, imp x yes_) (omega (arith, keep-lt a xs later hp hq))
    | inr no_ ↦ elim (Bool-cases (p x)) [
      | inl more ↦ rw (no_, more) (omega (arith, keep-lt a xs later hp hq))
      | inr less_ ↦ rw (no_, less_) (keep-lt a xs later hp hq)
    ]
  ]
