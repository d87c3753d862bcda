-- ===== src/Double/Range.antt =====
-- Doubles between 0 and a bound that is far below the greatest of them.
use real_time_system_metrics.Base.{
  ℕ, ◌≤◌, ◌<◌, ◌^◌, ◌*◌, ◌/◌, some, none, arith, Bool-cases, inl, inr,
}
use native.Mathlib.Nat.{mul-le-mul, div-le_of_le-mul}
use real_time_system_metrics.Double.{Double, IsIeee, IsNum, IsAtMost}
use real_time_system_metrics.Double.Fixed.{Fixed, fixed_double, million}

module _ {W : Type 0} ⦃d : Double W⦄ where
  -- A number from 0 to `n`.
  abbrev pub IsWithin : ℕ → W → Type 0
  IsWithin n x = IsNum x × IsAtMost (d.of_nat 0) x × IsAtMost x (d.of_nat n)

-- What IEEE 754 says of the range of the operations: rounding is monotone, and 2^128 is a double.
pub record IsRanged (W : Type 0) ⦃d : Double W⦄ : Type 0 where
  pub mul-IsWithin :
      (x y : W) → IsWithin (2 ^ 64) x → IsWithin (2 ^ 64) y → IsWithin (2 ^ 128) (d.mul x y)
  pub div-IsWithin :
      (n : ℕ) (x : W) (c : ℕ)
      → n ≤ 2 ^ 128
      → IsWithin n x
      → 0 < c
      → c < 2 ^ 64
      → IsWithin n (d.div x (d.of_nat c))
  pub sub-IsNum : (x y : W) → IsWithin (2 ^ 128) x → IsWithin (2 ^ 128) y → IsNum (d.sub x y)
  pub sub-le :
      (x y : W)
      → IsWithin (2 ^ 128) x
      → IsWithin (2 ^ 128) y
      → IsAtMost (d.sub x y) (d.of_nat (2 ^ 128))

module _ {W : Type 0} ⦃d : Double W⦄ (laws : IsIeee W) where
  pub of_nat-IsWithin : (m n : ℕ) → m ≤ n → IsWithin {W = W} n (d.of_nat m)
  of_nat-IsWithin m n h =
      (laws.of_nat-IsNum m, laws.of_nat_mono 0 m (omega arith), laws.of_nat_mono m n h)

  pub le-IsAtMost : (x : W) (m n : ℕ) → m ≤ n → IsAtMost x (d.of_nat m) → IsAtMost x (d.of_nat n)
  le-IsAtMost x m n h k = elim (Bool-cases (d.lt (d.of_nat n) x)) [
    | inr e ↦ e
    | inl e ↦ absurd (elim (Bool-cases (d.eq (d.of_nat m) (d.of_nat n))) [
      | inl same ↦ cc (k, laws.lt_of_eq_left (d.of_nat m) (d.of_nat n) x same e)
      | inr other ↦
          elim (laws.lt_total (d.of_nat m) (d.of_nat n) (laws.of_nat-IsNum m) (laws.of_nat-IsNum n)
            other) [
              | inl below ↦ cc (k, laws.lt_trans (d.of_nat m) (d.of_nat n) x below e)
              | inr above ↦ cc (above, laws.of_nat_mono m n h)
            ]
    ])
  ]

  pub le-IsWithin : {m n : ℕ} {x : W} → m ≤ n → IsWithin m x → IsWithin n x
  le-IsWithin {m} {n} {x} h (num, low, high) = (num, low, le-IsAtMost x m n h high)

mul-le :
    (a b : ℕ) → a ≤ 2 ^ 64 * million → b ≤ 2 ^ 64 * million → a * b / million ≤ 2 ^ 128 * million
mul-le a b h k =
    let bound : a * b ≤ (2 ^ 64 * million) * (2 ^ 64 * million) = mul-le-mul h k in
    div-le_of_le-mul million (omega (arith, bound))

div-le : (a n c : ℕ) → a ≤ n * million → 0 < c → a * million / (c * million) ≤ n * million
div-le a n c h k =
    let bound : million * a ≤ (c * million) * (n * million) = mul-le-mul (omega (arith, k)) h in
    div-le_of_le-mul (c * million) (omega (arith, bound))

mul_fixed-IsWithin :
    (x y : Fixed)
    → IsWithin (2 ^ 64) x
    → IsWithin (2 ^ 64) y
    → IsWithin (2 ^ 128) (fixed_double.mul x y)
mul_fixed-IsWithin (some a) (some b) h k =
    let bound = mul-le a b (ground (arith, h)) (ground (arith, k)) in
    (ground arith, ground arith, ground (arith, bound))
mul_fixed-IsWithin (some a) none h k = absurd (cc (k.0))
mul_fixed-IsWithin none y h k = absurd (cc (h.0))

div_fixed-IsWithin :
    (n : ℕ) (x : Fixed) (c : ℕ)
    → IsWithin n x
    → 0 < c
    → IsWithin n (fixed_double.div x (fixed_double.of_nat c))
div_fixed-IsWithin n (some a) c h k =
    let bound = div-le a n c (ground (arith, h)) k in ground (arith, bound)
div_fixed-IsWithin n none c h k = absurd (cc (h.0))

pub Fixed-IsRanged : IsRanged Fixed
Fixed-IsRanged = record {
  mul-IsWithin = mul_fixed-IsWithin;
  div-IsWithin = λ n x c _ h k _. div_fixed-IsWithin n x c h k;
  sub-IsNum = ground arith;
  sub-le = ground arith;
}
