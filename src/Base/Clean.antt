-- ===== src/Base/Clean.antt =====
-- `[...new Set(values)]`, and lists of texts that are trimmed, without the empty ones and repetitions.
use mathlib.Core.Path.{◌≡◌, refl}
use mathlib.Core.Logic.{inl, inr}
use mathlib.Core.Bool.{true, false, not}
use mathlib.Core.List.{List, [], ◌∷◌, map}
use Prim.Native.String.{String}
use native.Mathlib.Omega.{arith}
use janus_core.Base.Tests.{Eq, string_eq, ◌==◌, Bool-cases}
use janus_core.Base.Lists.{keep, All, has, delete, delete_absent, keep-All, All-keep, All-map}
use janus_core.Base.Text.{trim, is_nil, trim-trim}

module _ {ℓ} {A : Type ℓ} ⦃e : Eq A⦄ where
  unfoldable pub distinct : List A → List A
  distinct [] = []
  distinct (x ∷ xs) = x ∷ delete x (distinct xs)

  abbrev pub IsDistinct : List A → Type 0
  IsDistinct [] = Unit
  IsDistinct (x ∷ xs) = (has x xs ≡ false) × IsDistinct xs

  pub All-delete {κ} : (P : A → Type κ) (a : A) (xs : List A) → All P xs → All P (delete a xs)
  All-delete P a [] h = tt
  All-delete P a (x ∷ xs) (p, h) = elim (Bool-cases (a == x)) [
    | inl same ↦ rw same (All-delete P a xs h)
    | inr other ↦ rw other (p, All-delete P a xs h)
  ]

  has-delete : (a : A) (xs : List A) → has a (delete a xs) ≡ false
  has-delete a [] = refl
  has-delete a (x ∷ xs) = elim (Bool-cases (a == x)) [
    | inl same ↦ rw same (has-delete a xs)
    | inr other ↦ rw other (rw other (has-delete a xs))
  ]

  has-delete_other : (a b : A) (xs : List A) → has b xs ≡ false → has b (delete a xs) ≡ false
  has-delete_other a b [] h = refl
  has-delete_other a b (x ∷ xs) h = elim (Bool-cases (a == x)) [
    | inl same ↦ rw same (has-delete_other a b xs (ground arith))
    | inr other ↦ rw other (ground (arith, has-delete_other a b xs))
  ]

  delete-IsDistinct : (a : A) (xs : List A) → IsDistinct xs → IsDistinct (delete a xs)
  delete-IsDistinct a [] h = tt
  delete-IsDistinct a (x ∷ xs) (n, h) = elim (Bool-cases (a == x)) [
    | inl same ↦ rw same (delete-IsDistinct a xs h)
    | inr other ↦ rw other (has-delete_other a x xs n, delete-IsDistinct a xs h)
  ]

  pub distinct-IsDistinct : (xs : List A) → IsDistinct (distinct xs)
  unfolding distinct
  distinct-IsDistinct [] = tt
  distinct-IsDistinct (x ∷ xs) =
      (has-delete x (distinct xs), delete-IsDistinct x (distinct xs) (distinct-IsDistinct xs))

  pub All-distinct {κ} : (P : A → Type κ) (xs : List A) → All P xs → All P (distinct xs)
  unfolding distinct
  All-distinct P [] h = tt
  All-distinct P (x ∷ xs) (p, h) = (p, All-delete P x (distinct xs) (All-distinct P xs h))

  pub distinct_id : (xs : List A) → IsDistinct xs → distinct xs ≡ xs
  unfolding distinct
  distinct_id [] h = refl
  distinct_id (x ∷ xs) (n, h) = rw (distinct_id xs h) (rw (delete_absent x xs n) refl)

-- `[...new Set(values.map((value) => value.trim()).filter(Boolean))]`
unfoldable pub clean_list : List String → List String
unfolding distinct
clean_list values = distinct (keep (λ s. not (is_nil s)) (map trim values))

abbrev pub IsClean : List String → Type 0
IsClean xs = IsDistinct xs × All (λ s. trim s ≡ s) xs × All (λ s. is_nil s ≡ false) xs

map-trim_fixed : (xs : List String) → All (λ s. trim s ≡ s) xs → map trim xs ≡ xs
map-trim_fixed [] h = refl
map-trim_fixed (x ∷ xs) (e, h) = rw (e, map-trim_fixed xs h) refl

map-trim_all : (xs : List String) → All (λ s. trim s ≡ s) (map trim xs)
map-trim_all [] = tt
map-trim_all (x ∷ xs) = (trim-trim x, map-trim_all xs)

keep_id : (xs : List String) → All (λ s. is_nil s ≡ false) xs → keep (λ s. not (is_nil s)) xs ≡ xs
keep_id [] h = refl
keep_id (x ∷ xs) (e, h) = rw e (rw (keep_id xs h) refl)

not_nil : (s : String) → not (is_nil s) ≡ true → is_nil s ≡ false
not_nil s h = ground arith

pub clean_list-IsClean : (xs : List String) → IsClean (clean_list xs)
unfolding clean_list
clean_list-IsClean xs = (
  distinct-IsDistinct (keep (λ s. not (is_nil s)) (map trim xs)),
  All-distinct (λ s. trim s ≡ s) (keep (λ s. not (is_nil s)) (map trim xs))
      (All-keep (λ s. trim s ≡ s) (λ s. not (is_nil s)) (map trim xs) (map-trim_all xs)),
  All-distinct (λ s. is_nil s ≡ false) (keep (λ s. not (is_nil s)) (map trim xs))
      (All-map (λ s. not (is_nil s) ≡ true) (λ s. is_nil s ≡ false) not_nil
        (keep (λ s. not (is_nil s)) (map trim xs)) (keep-All (λ s. not (is_nil s)) (map trim xs))),
)

pub clean_list_id : (xs : List String) → IsClean xs → clean_list xs ≡ xs
unfolding clean_list
clean_list_id xs (d, t, n) = rw (map-trim_fixed xs t) (rw (keep_id xs n) (distinct_id xs d))

pub clean_list-clean_list : (xs : List String) → clean_list (clean_list xs) ≡ clean_list xs
clean_list-clean_list xs = clean_list_id (clean_list xs) (clean_list-IsClean xs)

pub distinct-clean_list : (xs : List String) → distinct (clean_list xs) ≡ clean_list xs
distinct-clean_list xs = distinct_id (clean_list xs) ((clean_list-IsClean xs).0)

pub distinct-distinct {ℓ} :
    {A : Type ℓ} ⦃e : Eq A⦄ (xs : List A) → distinct (distinct xs) ≡ distinct xs
distinct-distinct xs = distinct_id (distinct xs) (distinct-IsDistinct xs)
