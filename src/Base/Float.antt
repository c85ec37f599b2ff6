-- ===== src/Base/Float.antt =====
-- Rust's f64: a number of IEEE 754 binary64 by its 64 bits, with the comparisons of the language and the
-- exact value that the bits stand for.
use Prim.Native.Nat.{ℕ, ◌+◌, ◌-◌, ◌*◌, ◌/◌, ◌%◌, ◌^◌, ◌≤◌, ◌<◌}
use mathlib.Core.Path.{◌≡◌}
use mathlib.Core.Logic.{◌↔◌, ◌⊎◌, inl, inr}
use mathlib.Core.Bool.{Bool, true, false, not, ◌&&◌}
use native.Mathlib.Omega.{arith}
use native.Mathlib.Nat.{mul-le-mul, pow-le-pow_right}
use hoike.Base.Tests.{if◌then◌else◌, ltb, leb, ◌==◌, Bool-cases}

-- The bits without the sign, and the sign.
abbrev magnitude : ℕ → ℕ
magnitude x = x % 2 ^ 63

abbrev is_negative : ℕ → Bool
is_negative x = leb (2 ^ 63) x

abbrev infinity : ℕ
infinity = 0x7FF0_0000_0000_0000

abbrev is_nan : ℕ → Bool
is_nan x = ltb infinity (magnitude x)

-- The order of two numbers; the two zeros are equal.
abbrev less : ℕ → ℕ → Bool
less x y =
    if is_negative x
    then (if is_negative y
        then ltb (magnitude y) (magnitude x)
        else ltb 0 (magnitude x + magnitude y))
    else not (is_negative y) && ltb (magnitude x) (magnitude y)

-- `x < y` and `x <= y`, which are false of a NaN.
unfoldable pub f64_lt : ℕ → ℕ → Bool
f64_lt x y = not (is_nan x) && not (is_nan y) && less x y

unfoldable pub f64_le : ℕ → ℕ → Bool
f64_le x y = not (is_nan x) && not (is_nan y) && not (less y x)

-- 0.0 and 1.0
abbrev pub f64_zero : ℕ
f64_zero = 0

abbrev pub f64_one : ℕ
f64_one = 0x3FF0_0000_0000_0000

abbrev pub exponent_of : ℕ → ℕ
exponent_of x = x / 2 ^ 52 % 2 ^ 11

abbrev pub fraction_of : ℕ → ℕ
fraction_of x = x % 2 ^ 52

-- The value of a number without its sign, in units of 2^-1074, the smallest that there is.
unfoldable pub units_of : ℕ → ℕ
units_of x =
    if exponent_of x == 0 then fraction_of x else (2 ^ 52 + fraction_of x) * 2 ^ (exponent_of x - 1)

-- A finite number that is more than 0 and at most 1, which is 2^1074 units.
pub record IsUnitFraction (x : ℕ) : Type 0 where
  pub positive : x < 2 ^ 63
  pub finite : exponent_of x < 2047
  pub more_than_zero : 1 ≤ units_of x
  pub at_most_one : units_of x ≤ 2 ^ 1074

power_mono : (i j : ℕ) → i ≤ j → 2 ^ i ≤ 2 ^ j
power_mono i j h = pow-le-pow_right {n = 2} (omega arith) h

product_mono : (a b c d : ℕ) → a ≤ c → b ≤ d → a * b ≤ c * d
product_mono a b c d h k = mul-le-mul h k

units-positive : (e f : ℕ) → 1 ≤ (2 ^ 52 + f) * 2 ^ (e - 1)
units-positive e f =
    product_mono 1 1 (2 ^ 52 + f) (2 ^ (e - 1)) (omega arith) (power_mono 0 (e - 1) (omega arith))

units-below_one : (e f : ℕ) → e ≤ 1022 → f < 2 ^ 52 → (2 ^ 52 + f) * 2 ^ (e - 1) ≤ 2 ^ 1074
units-below_one e f h k =
    product_mono (2 ^ 52 + f) (2 ^ (e - 1)) (2 ^ 53) (2 ^ 1021) (omega (arith, k))
      (power_mono (e - 1) 1021 (omega (arith, h)))

units-above_one :
    (e f : ℕ) → 1023 ≤ e → (1024 ≤ e) ⊎ (1 ≤ f) → 2 ^ 1074 < (2 ^ 52 + f) * 2 ^ (e - 1)
units-above_one e f h (inl k) =
    let big =
      product_mono (2 ^ 52) (2 ^ 1023) (2 ^ 52 + f) (2 ^ (e - 1)) (omega arith)
        (power_mono 1023 (e - 1) (omega (arith, k))) in
    omega (arith, big)
units-above_one e f h (inr k) =
    let big =
      product_mono (2 ^ 52 + 1) (2 ^ 1022) (2 ^ 52 + f) (2 ^ (e - 1)) (omega (arith, k))
        (power_mono 1022 (e - 1) (omega (arith, h))) in
    omega (arith, big)

between : (x : ℕ) → (f64_lt f64_zero x && f64_le x f64_one) ≡ true → (1 ≤ x) × (x ≤ f64_one)
unfolding f64_lt f64_le
between x h = ground arith

at_most : (x : ℕ) → x ≤ f64_one → (2 ^ 52 + fraction_of x) * 2 ^ (exponent_of x - 1) ≤ 2 ^ 1074
at_most x k = elim (Bool-cases (x == f64_one)) [
  | inl t ↦ let one : x ≡ f64_one = ground arith in rw one (omega arith)
  | inr f ↦ units-below_one (exponent_of x) (fraction_of x) (ground arith) (omega arith)
]

between_bits : (x : ℕ) → 1 ≤ x → x ≤ f64_one → (f64_lt f64_zero x && f64_le x f64_one) ≡ true
unfolding f64_lt f64_le
between_bits x h k = ground arith

over_one :
    (x : ℕ)
    → x < 2 ^ 63
    → exponent_of x < 2047
    → f64_one < x
    → 2 ^ 1074 < (2 ^ 52 + fraction_of x) * 2 ^ (exponent_of x - 1)
over_one x h f k = elim (Bool-cases (leb 1024 (exponent_of x))) [
  | inl t ↦ units-above_one (exponent_of x) (fraction_of x) (ground arith) (inl (ground arith))
  | inr n ↦ units-above_one (exponent_of x) (fraction_of x) (ground arith) (inr (ground arith))
]

zero_units : (x : ℕ) → x ≡ 0 → 1 ≤ units_of x → ⊥
unfolding units_of
zero_units x e h = ground (arith, e)

IsUnitFraction-between : (x : ℕ) → IsUnitFraction x → (f64_lt f64_zero x && f64_le x f64_one) ≡ true
unfolding units_of
IsUnitFraction-between x i = elim (Bool-cases (leb x f64_one)) [
  | inl t ↦ elim (Bool-cases (leb 1 x)) [
    | inl p ↦ between_bits x (ground arith) (ground arith)
    | inr n ↦
        let none_left : x ≡ 0 = ground arith in absurd (zero_units x none_left i.more_than_zero)
  ]
  | inr f ↦
      let over = over_one x i.positive i.finite (ground arith) in
      let normal : (exponent_of x == 0) ≡ false = ground (arith, i.positive) in
      let at : (2 ^ 52 + fraction_of x) * 2 ^ (exponent_of x - 1) ≤ 2 ^ 1074 =
        rw normal at i.at_most_one in
      absurd (omega (arith, over, at))
]

between-IsUnitFraction : (x : ℕ) → 1 ≤ x → x ≤ f64_one → IsUnitFraction x
unfolding units_of
between-IsUnitFraction x h k = elim (Bool-cases (exponent_of x == 0)) [
  | inl t ↦ record {
    positive = omega (arith, k);
    finite = omega (arith, k);
    more_than_zero = rw t (ground (arith, t));
    at_most_one = rw t (omega arith);
  }
  | inr f ↦ record {
    positive = omega (arith, k);
    finite = omega (arith, k);
    more_than_zero = rw f (units-positive (exponent_of x) (fraction_of x));
    at_most_one = rw f (at_most x k);
  }
]

-- A number is in (0, 1] by the comparisons exactly when its value is.
pub f64_le-IsUnitFraction :
    (x : ℕ) → ((f64_lt f64_zero x && f64_le x f64_one) ≡ true) ↔ IsUnitFraction x
f64_le-IsUnitFraction x = (
  λ h. let (low, high) = between x h in between-IsUnitFraction x low high,
  λ i. IsUnitFraction-between x i,
)
