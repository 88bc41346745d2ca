-- ===== src/Base/Tests.antt =====
-- Boolean tests, the conditional, and the interface of `===`.
use Prim.Native.Nat.{ℕ, compare, Ordering}
use Prim.Native.String.{String}
use mathlib.Core.Path.{◌≡◌, refl, sym, ap, ◌∙◌}
use mathlib.Core.Logic.{◌↔◌, ◌⊎◌, inl, inr}
use mathlib.Core.Bool.{Bool, true, false}
use mathlib.Core.Option.{Option, none, some}
use native.Mathlib.Omega.{arith}
use text.Mathlib.Text.{◌==◌ as text_eq}
use text.Mathlib.TextEquality.{eq_iff}

abbrev pub ltb : ℕ → ℕ → Bool
ltb a b = elim (compare a b) [ Ordering.lt ↦ true | _ ↦ false ]

abbrev pub leb : ℕ → ℕ → Bool
leb a b = elim (compare a b) [ Ordering.gt ↦ false | _ ↦ true ]

abbrev pub nat_eq : ℕ → ℕ → Bool
nat_eq a b = elim (compare a b) [ Ordering.eq ↦ true | _ ↦ false ]

infix 1 if◌then◌else◌
abbrev pub if◌then◌else◌ {ℓ} : {A : Type ℓ} → Bool → A → A → A
if true then x else y = x
if false then x else y = y

pub nat_eq_iff : (a b : ℕ) → (nat_eq a b ≡ true) ↔ (a ≡ b)
nat_eq_iff a b = ground arith

pub Bool-cases : (b : Bool) → (b ≡ true) ⊎ (b ≡ false)
Bool-cases true = inl refl
Bool-cases false = inr refl

pub Option-cases {ℓ} : {A : Type ℓ} (o : Option A) → (o ≡ none) ⊎ ((a : A) × (o ≡ some a))
Option-cases none = inl refl
Option-cases (some a) = inr (a, refl)

-- What `===` is on the values that the program compares: a test that says `true` of equals only.
pub record Eq {ℓ} (A : Type ℓ) : Type ℓ where
  pub same : A → A → Bool
  pub same_self : (a : A) → same a a ≡ true
  pub same_sound : (a b : A) → same a b ≡ true → a ≡ b

instance abbrev pub number_eq : Eq ℕ
number_eq = record {
  same = nat_eq;
  same_self = λ n. (nat_eq_iff n n).1 refl;
  same_sound = λ n m. (nat_eq_iff n m).0;
}

instance abbrev pub string_eq : Eq String
string_eq = record {
  same = text_eq;
  same_self = λ s. (eq_iff s s).1 refl;
  same_sound = λ s t. (eq_iff s t).0;
}

module _ {ℓ} {A : Type ℓ} ⦃strict : Eq A⦄ where
  infix 50 ◌==◌
  abbrev pub ◌==◌ : A → A → Bool
  a == b = strict.same a b

  pub ==_refl : (a : A) → (a == a) ≡ true
  ==_refl a = strict.same_self a

  pub eq_of_== : (a b : A) → (a == b) ≡ true → a ≡ b
  eq_of_== a b = strict.same_sound a b

  turn : (a b : A) → (a == b) ≡ true → (b == a) ≡ true
  turn a b h = ap (λ x. x == a) (sym (eq_of_== a b h)) ∙ ==_refl a

  pub ==_comm : (a b : A) → (a == b) ≡ (b == a)
  ==_comm a b = ground (arith, turn a b, turn b a)
