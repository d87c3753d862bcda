-- ===== src/HttpClient/Printed.antt =====
-- The fixed-point numbers of Double.Fixed in a payload.
use real_time_system_metrics.Base.{ℕ, ◌+◌, ◌/◌, ◌%◌, ◌≡◌, true, some, refl, All-append, arith}
use real_time_system_metrics.Double.Fixed.{Fixed, fixed_double, million}
use real_time_system_metrics.CppStd.Numbers.{to_string}
use real_time_system_metrics.CppStd.Printing.{to_string-cons}
use real_time_system_metrics.HttpClient.Lexer.{is_numeral}
use real_time_system_metrics.HttpClient.Tokens.{IsPrintable}
use real_time_system_metrics.HttpClient.Payload.{to_string-AreNumerals}

digit-IsNumeral : (n : ℕ) → is_numeral (b'0' + n % 10) ≡ true
digit-IsNumeral n = ground arith

-- Every fixed-point number is written as digits and a point.
pub fixed-IsPrintable : (a : ℕ) → IsPrintable {W = Fixed} (some a)
fixed-IsPrintable a =
    let (b, rest, q) = to_string-cons (a / million) in
    (
      λ e. absurd (cc (q, e)),
      All-append (λ c. is_numeral c ≡ true) (to_string (a / million)) _
          (to_string-AreNumerals (a / million))
          (refl, (digit-IsNumeral (a / 100_000), (digit-IsNumeral (a / 10_000), tt))),
    )
