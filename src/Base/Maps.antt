-- ===== src/Base/Maps.antt =====
-- Records and maps from strings: association lists in the order of insertion.
use mathlib.Core.Path.{◌≡◌, refl}
use mathlib.Core.Logic.{inl, inr}
use mathlib.Core.Bool.{false}
use mathlib.Core.Option.{Option, none, some}
use mathlib.Core.List.{List, [], ◌∷◌}
use Prim.Native.String.{String}
use janus_core.Base.Tests.{if◌then◌else◌, ◌==◌, string_eq, Bool-cases, ==_refl, eq_of_==}

module _ {ℓ} {A : Type ℓ} where
  -- `map[key]`
  abbrev pub get : String → List (String × A) → Option A
  get key [] = none
  get key ((k, v) ∷ rest) = if key == k then some v else get key rest

  -- `map[key] = v`
  abbrev pub set : String → A → List (String × A) → List (String × A)
  set key v [] = (key, v) ∷ []
  set key v ((k, w) ∷ rest) =
      let later = set key v rest in if key == k then (k, v) ∷ rest else (k, w) ∷ later

  -- `Object.fromEntries`
  abbrev pub from_entries : List (String × A) → List (String × A) → List (String × A)
  from_entries [] acc = acc
  from_entries ((k, v) ∷ rest) acc = from_entries rest (set k v acc)

  pub get-set_same : (key : String) (v : A) (m : List (String × A)) → get key (set key v m) ≡ some v
  get-set_same key v [] = rw (==_refl key) refl
  get-set_same key v ((k, w) ∷ rest) = elim (Bool-cases (key == k)) [
    | inl yes_ ↦ rw (yes_, yes_) refl
    | inr no_ ↦ rw (no_, no_) (get-set_same key v rest)
  ]

  pub get-set_other :
      (key other : String) (v : A) (m : List (String × A))
      → (key == other) ≡ false
      → get key (set other v m) ≡ get key m
  get-set_other key other v [] h = rw h refl
  get-set_other key other v ((k, w) ∷ rest) h = elim (Bool-cases (other == k)) [
    | inl yes_ ↦
        let same : other ≡ k = eq_of_== other k yes_ in
        let apart : (key == k) ≡ false = rw same at h in rw yes_ (rw apart refl)
    | inr no_ ↦ elim (Bool-cases (key == k)) [
      | inl here ↦ rw no_ (rw here refl)
      | inr away ↦ rw no_ (rw away (get-set_other key other v rest h))
    ]
  ]
