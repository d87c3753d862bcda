-- ===== src/Double/Fixed.antt =====
-- The laws of `Double` can be met: numbers of millionths that are not negative, and `none` for NaN.
use real_time_system_metrics.Base.{
  ℕ, ◌+◌, ◌-◌, ◌*◌, ◌/◌, ◌%◌, Bool, false, Option, none, some, Bytes, ltb, ◌==◌, ◌++◌, ◌∷◌, [],
  codes, if◌then◌else◌, arith,
}
use real_time_system_metrics.CppStd.Numbers.{to_string}
use real_time_system_metrics.Double.{Double, IsIeee}

abbrev pub Fixed : Type 0
Fixed = Option ℕ

abbrev pub on_numbers : (ℕ → ℕ → Bool) → Fixed → Fixed → Bool
on_numbers f (some a) (some b) = f a b
on_numbers f _ _ = false

abbrev pub combined : (ℕ → ℕ → Fixed) → Fixed → Fixed → Fixed
combined f (some a) (some b) = f a b
combined f _ _ = none

abbrev pub million : ℕ
million = 1_000_000

abbrev pub over : ℕ → ℕ → Fixed
over a b = if b == 0 then none else some (a * million / b)

-- two digits behind the point, rounded down
abbrev pub two_digits : Fixed → Bytes
two_digits none = codes "nan"
two_digits (some a) =
    to_string (a / million) ++ b'.' ∷ (b'0' + a / 100_000 % 10) ∷ (b'0' + a / 10_000 % 10) ∷ []

instance abbrev pub fixed_double : Double Fixed
fixed_double = record {
  of_nat = λ n. some (n * million);
  sub = combined λ a b. some (a - b);
  mul = combined λ a b. some (a * b / million);
  div = combined over;
  lt = on_numbers ltb;
  eq = on_numbers ◌==◌;
  fixed_2 = two_digits;
}

pub Fixed-IsIeee : IsIeee Fixed
Fixed-IsIeee = record {
  lt_irrefl = ground arith;
  lt_trans = ground arith;
  lt_total = ground arith;
  eq_symm = ground arith;
  eq_trans = ground arith;
  lt_of_eq_left = ground arith;
  lt_of_eq_right = ground arith;
  of_nat-IsNum = ground arith;
  of_nat_mono = ground arith;
  percent-IsNum = ground arith;
  quotient-IsNum = ground arith;
  quotient-IsAtMost = ground arith;
  megabyte = ground arith;
  scaled-IsNum = ground arith;
  sub-IsAtMost = ground arith;
}
