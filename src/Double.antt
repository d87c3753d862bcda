-- ===== src/Double.antt =====
-- All that the agent does with a `double`: conversions from `uint64_t` (its literals are whole numbers
-- too), arithmetic, comparisons, and the text of `std::fixed << std::setprecision(2)`.
pub mod Fixed
pub mod Range
use real_time_system_metrics.Base.{
  ℕ, ◌≤◌, ◌<◌, ◌^◌, ◌≡◌, ◌⊎◌, Bool, true, false, Bytes, ltb, if◌then◌else◌,
}

-- `x > y` is `lt y x`, and `x != y` is `not (eq x y)`.
pub record Double (W : Type 0) : Type 0 where
  pub of_nat : ℕ → W
  pub sub : W → W → W
  pub mul : W → W → W
  pub div : W → W → W
  pub lt : W → W → Bool
  pub eq : W → W → Bool
  pub fixed_2 : W → Bytes

module _ {W : Type 0} ⦃d : Double W⦄ where
  -- NaN is the value that differs from itself.
  abbrev pub IsNum : W → Type 0
  IsNum x = d.eq x x ≡ true

  -- `x <= y` of numbers
  abbrev pub IsAtMost : W → W → Type 0
  IsAtMost x y = d.lt y x ≡ false

  -- 100 * a / b as the agent computes it
  abbrev pub percent : ℕ → ℕ → W
  percent a b = d.mul (d.div (d.of_nat a) (d.of_nat b)) (d.of_nat 100)

  abbrev pub max_value : W → W → W
  max_value left right = if d.lt right left then left else right

  unfoldable pub clamp_value : W → W → W → W
  clamp_value value low high =
      if d.lt value low then low else if d.lt high value then high else value

-- What IEEE 754 says of these operations.
pub record IsIeee (W : Type 0) ⦃d : Double W⦄ : Type 0 where
  pub lt_irrefl : (x : W) → d.lt x x ≡ false
  pub lt_trans : (x y z : W) → d.lt x y ≡ true → d.lt y z ≡ true → d.lt x z ≡ true
  pub lt_total :
      (x y : W) → IsNum x → IsNum y → d.eq x y ≡ false → (d.lt x y ≡ true) ⊎ (d.lt y x ≡ true)
  pub eq_symm : (x y : W) → d.eq x y ≡ true → d.eq y x ≡ true
  pub eq_trans : (x y z : W) → d.eq x y ≡ true → d.eq y z ≡ true → d.eq x z ≡ true
  pub lt_of_eq_left : (x y z : W) → d.eq x y ≡ true → d.lt y z ≡ true → d.lt x z ≡ true
  pub lt_of_eq_right : (x y z : W) → d.lt x y ≡ true → d.eq y z ≡ true → d.lt x z ≡ true
  pub of_nat-IsNum : (n : ℕ) → IsNum (d.of_nat n)
  pub of_nat_mono : (m n : ℕ) → m ≤ n → IsAtMost (d.of_nat m) (d.of_nat n)
  -- a quotient by a positive number of 64 bits is finite
  pub percent-IsNum : (a b : ℕ) → a < 2 ^ 64 → 0 < b → b < 2 ^ 64 → IsNum {W = W} (percent a b)
  pub quotient-IsNum :
      (a b : ℕ) → a < 2 ^ 64 → 0 < b → b < 2 ^ 64 → IsNum (d.div (d.of_nat a) (d.of_nat b))
  -- a quotient of numbers that are not negative is not negative
  pub quotient-IsAtMost :
      (a b : ℕ)
      → a < 2 ^ 64
      → 0 < b
      → b < 2 ^ 64
      → IsAtMost (d.of_nat 0) (d.div (d.of_nat a) (d.of_nat b))
  -- this product is exact
  pub megabyte : d.mul (d.of_nat 1024) (d.of_nat 1024) ≡ d.of_nat 1_048_576
  -- nor does a product of two numbers of 64 bits reach infinity
  pub scaled-IsNum :
      (a b c : ℕ)
      → a < 2 ^ 64
      → b < 2 ^ 64
      → 0 < c
      → c < 2 ^ 64
      → IsNum (d.div (d.mul (d.of_nat a) (d.of_nat b)) (d.of_nat c))
  -- subtraction of what is not negative does not grow, and rounding does not change that
  pub sub-IsAtMost : (x y : W) → IsNum x → IsAtMost (d.of_nat 0) y → IsAtMost (d.sub x y) x
