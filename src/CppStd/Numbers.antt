-- ===== src/CppStd/Numbers.antt =====
-- `std::stoi`, `std::stoll`, `std::stoull`, `std::atoi` and `std::to_string`.
use real_time_system_metrics.Base.{
  ℕ, zero, suc, ◌+◌, ◌-◌, ◌*◌, ◌/◌, ◌%◌, ◌^◌, ◌&&◌, [], ◌∷◌, Option, none, some, Bytes, ltb, ◌==◌,
  if◌then◌else◌, ℤ, pos, negsuc, ltb_ℤ, leb_ℤ,
}
use real_time_system_metrics.CppStd.Chars.{is_space, is_digit}

unfoldable pub skip_space : Bytes → Bytes
skip_space [] = []
skip_space (c ∷ s) = if is_space c then skip_space s else c ∷ s

-- The number that the digits at the start of a text spell, behind the digits of `n`.
unfoldable pub digits_value : ℕ → Bytes → ℕ
digits_value n [] = n
digits_value n (c ∷ s) = if is_digit c then digits_value (n * 10 + (c - b'0')) s else n

unfoldable pub digits_at : Bytes → Option ℕ
unfolding digits_value
digits_at [] = none
digits_at (c ∷ s) = if is_digit c then some (digits_value 0 (c ∷ s)) else none

-- minus `n`
abbrev pub negated : ℕ → ℤ
negated zero = pos 0
negated (suc n) = negsuc n

-- Spaces, a sign and digits, in base ten: `none` is `std::invalid_argument`.
unfoldable pub signed_at : Bytes → Option ℤ
unfolding digits_at
signed_at [] = none
signed_at (c ∷ s) =
    if c == b'-'
    then elim (digits_at s) [ none ↦ none | some n ↦ some (negated n) ]
    else elim (digits_at (if c == b'+' then s else c ∷ s)) [ none ↦ none | some n ↦ some (pos n) ]

-- A value outside of `w` bits with a sign is `std::out_of_range`; both exceptions are `none`.
unfoldable pub signed_in : ℕ → Option ℤ → Option ℤ
signed_in w none = none
signed_in w (some z) =
    if leb_ℤ (negated (2 ^ (w - 1))) z && ltb_ℤ z (pos (2 ^ (w - 1))) then some z else none

unfoldable pub stoi : Bytes → Option ℤ
unfolding signed_in signed_at skip_space
stoi s = signed_in 32 (signed_at (skip_space s))

unfoldable pub stoll : Bytes → Option ℤ
unfolding signed_in signed_at skip_space
stoll s = signed_in 64 (signed_at (skip_space s))

-- `strtoull` takes a minus sign, and negates modulo 2^64.
unfoldable pub unsigned_of : Option ℤ → Option ℕ
unsigned_of none = none
unsigned_of (some (pos n)) = if ltb n (2 ^ 64) then some n else none
unsigned_of (some (negsuc n)) = if ltb (n + 1) (2 ^ 64) then some (2 ^ 64 - (n + 1)) else none

unfoldable pub stoull : Bytes → Option ℕ
unfolding unsigned_of signed_at skip_space
stoull s = unsigned_of (signed_at (skip_space s))

-- The digits of a positive number before those in `out`; `n` rounds are enough.
unfoldable pub emit_digits : ℕ → ℕ → Bytes → Bytes
emit_digits zero n out = out
emit_digits (suc fuel) n out =
    let rest = emit_digits fuel (n / 10) ((b'0' + n % 10) ∷ out) in if n == 0 then out else rest

unfoldable pub to_string : ℕ → Bytes
unfolding emit_digits
to_string n = if n == 0 then b'0' ∷ [] else emit_digits n n []

unfoldable pub int_to_string : ℤ → Bytes
unfolding to_string
int_to_string (pos n) = to_string n
int_to_string (negsuc n) = b'-' ∷ to_string (n + 1)
