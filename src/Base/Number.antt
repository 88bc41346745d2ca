-- ===== src/Base/Number.antt =====
-- JavaScript's finite numbers as fractions: (above - below) / (parts + 1). NaN and the infinities,
-- and the rounding of a float, are left out.
use Prim.Native.Nat.{ℕ, suc, ◌+◌, ◌-◌, ◌*◌, ◌/◌, ◌%◌, ◌≤◌, ◌<◌}
use native.Mathlib.Nat.{mul-le-mul_right, le_of_mul-le-mul_left}
use native.Mathlib.Omega.{arith}
use mathlib.Core.Bool.{Bool, true, false}
use mathlib.Core.Path.{◌≡◌}
use mathlib.Core.Logic.{◌↔◌}
use janus_core.Base.Tests.{ltb, nat_eq}

pub record Number : Type 0 where
  pub above : ℕ
  pub below : ℕ
  pub parts : ℕ

abbrev pub whole : ℕ → Number
whole n = record { above = n; below = 0; parts = 0 }

-- `a < b`
abbrev pub less : Number → Number → Bool
less a b =
    ltb (a.above * suc b.parts + b.below * suc a.parts)
      (b.above * suc a.parts + a.below * suc b.parts)

-- `Number.isInteger(a)`
abbrev pub is_integer : Number → Bool
is_integer a = nat_eq ((a.above - a.below + (a.below - a.above)) % suc a.parts) 0

-- `Math.max(0, Math.floor(a))`
abbrev pub floor : Number → ℕ
floor a = (a.above - a.below) / suc a.parts

-- `a * n`
abbrev pub times : Number → ℕ → Number
times a n = record { above = a.above * n; below = a.below * n; parts = a.parts }

-- `a + b`
abbrev pub plus : Number → Number → Number
plus a b = record {
  above = a.above * suc b.parts + b.above * suc a.parts;
  below = a.below * suc b.parts + b.below * suc a.parts;
  parts = a.parts * b.parts + a.parts + b.parts;
}

lt_trans_cross :
    (qa qb Q ra rb R sa sb S : ℕ)
    → ra * Q + qb * R ≤ qa * R + rb * Q
    → sa * R + rb * S ≤ ra * S + sb * R
    → R * (sa * Q + qb * S) ≤ R * (qa * S + sb * Q)
lt_trans_cross qa qb Q ra rb R sa sb S h k =
    let h' : (ra * Q + qb * R) * S ≤ (qa * R + rb * Q) * S = mul-le-mul_right S h in
    let k' : (sa * R + rb * S) * Q ≤ (ra * S + sb * R) * Q = mul-le-mul_right Q k in
    omega (arith, h', k')

not_ltb : (m n : ℕ) → (ltb m n ≡ false) ↔ (n ≤ m)
not_ltb m n = ground arith

le_of_mul : (R x y : ℕ) → suc R * x ≤ suc R * y → x ≤ y
le_of_mul R x y h = le_of_mul-le-mul_left h (omega arith)

-- `a >= b` and `b >= c` make `a >= c`.
pub not_less_trans : (a b c : Number) → less a b ≡ false → less b c ≡ false → less a c ≡ false
not_less_trans a b c h k = (not_ltb _ _).1 (
    le_of_mul b.parts _ _ (
      lt_trans_cross a.above a.below (suc a.parts) b.above b.below (suc b.parts) c.above c.below
        (suc c.parts) ((not_ltb _ _).0 h) ((not_ltb _ _).0 k)))

pub less_irrefl : (a : Number) → less a a ≡ false
less_irrefl a = ground arith

pub less_asym : (a b : Number) → less a b ≡ true → less b a ≡ false
less_asym a b h = ground arith

-- A natural number below a fraction is below its numerator.
pub less-whole_above : (n : ℕ) (a : Number) → less (whole n) a ≡ true → n < a.above
less-whole_above n a h =
    let h' : n * suc a.parts + a.below < a.above = ground arith in omega (arith, h')
