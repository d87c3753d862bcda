-- ===== src/CppStd/Printing.antt =====
-- What `std::to_string` writes, and how the conversions read it back.
use real_time_system_metrics.Base.{
  ℕ, zero, suc, ◌+◌, ◌-◌, ◌/◌, ◌%◌, ◌^◌, ◌≤◌, ◌≡◌, refl, ap, ◌∙◌, inl, inr, Bool-cases, true, false,
  [], ◌∷◌, ◌==◌, some, Bytes, All, arith, ℤ, pos, negsuc, leb_ℤ, ltb_ℤ,
}
use real_time_system_metrics.CppStd.Chars.{is_digit, is_space}
use real_time_system_metrics.CppStd.Numbers.{
  digits_value, digits_at, negated, signed_at, signed_in, skip_space, stoll, stoi, emit_digits,
  to_string, int_to_string,
}

abbrev pub AreDigits : Bytes → Type 0
AreDigits = All λ c. is_digit c ≡ true

digit_of : (n : ℕ) → is_digit (b'0' + n % 10) ≡ true
digit_of n = ground arith

emit_digits-AreDigits :
    (fuel n : ℕ) (out : Bytes) → AreDigits out → AreDigits (emit_digits fuel n out)
unfolding emit_digits
emit_digits-AreDigits zero n out h = h
emit_digits-AreDigits (suc fuel) n out h =
    let rest = emit_digits-AreDigits fuel (n / 10) ((b'0' + n % 10) ∷ out) (digit_of n, h) in
    elim (Bool-cases (n == 0)) [ inl e ↦ simp e (h) | inr e ↦ simp e (rest) ]

digits_value_step :
    (n : ℕ) (out : Bytes) → digits_value (n / 10) ((b'0' + n % 10) ∷ out) ≡ digits_value n out
unfolding digits_value
digits_value_step n out = rw (digit_of n) (ap (λ k. digits_value k out) (omega arith))

digits_value-emit_digits :
    (fuel n : ℕ) (out : Bytes)
    → n ≤ fuel
    → digits_value 0 (emit_digits fuel n out) ≡ digits_value n out
unfolding emit_digits
digits_value-emit_digits zero n out h = ap (λ k. digits_value k out) (omega (arith, h))
digits_value-emit_digits (suc fuel) n out h =
    let later = digits_value-emit_digits fuel (n / 10) ((b'0' + n % 10) ∷ out) (omega (arith, h)) in
    elim (Bool-cases (n == 0)) [
      | inl e ↦ simp e (ap (λ k. digits_value k out) (ground arith))
      | inr e ↦ simp e (later ∙ digits_value_step n out)
    ]

-- A number is written as its digits, at least one, and they spell it.
pub digits_value-to_string : (n : ℕ) → digits_value 0 (to_string n) ≡ n
unfolding to_string digits_value
digits_value-to_string n = elim (Bool-cases (n == 0)) [
  | inl e ↦ simp e (ground arith)
  | inr e ↦ simp e (digits_value-emit_digits n n [] (omega arith))
]

pub to_string-AreDigits : (n : ℕ) → AreDigits (to_string n)
unfolding to_string
to_string-AreDigits n = elim (Bool-cases (n == 0)) [
  | inl e ↦ simp e (refl, tt)
  | inr e ↦ simp e (emit_digits-AreDigits n n [] tt)
]

emit_digits-cons :
    (fuel n c : ℕ) (out : Bytes)
    → (b : ℕ) × (rest : Bytes) × (emit_digits fuel n (c ∷ out) ≡ b ∷ rest)
unfolding emit_digits
emit_digits-cons zero n c out = (c, out, refl)
emit_digits-cons (suc fuel) n c out =
    let later = emit_digits-cons fuel (n / 10) (b'0' + n % 10) (c ∷ out) in
    elim (Bool-cases (n == 0)) [ inl e ↦ simp e (c, out, refl) | inr e ↦ simp e (later) ]

pub to_string-cons : (n : ℕ) → (b : ℕ) × (rest : Bytes) × (to_string n ≡ b ∷ rest)
unfolding to_string emit_digits
to_string-cons zero = (b'0', [], refl)
to_string-cons (suc n) =
    let e : (suc n == 0) ≡ false = ground arith in
    simp e (emit_digits-cons n (suc n / 10) (b'0' + suc n % 10) [])

digits_at-digits :
    (b n : ℕ) (rest : Bytes)
    → is_digit b ≡ true
    → digits_value 0 (b ∷ rest) ≡ n
    → digits_at (b ∷ rest) ≡ some n
unfolding digits_at
digits_at-digits b n rest h e = cc (h, ap some e)

signed_at-digits :
    (b n : ℕ) (rest : Bytes)
    → is_digit b ≡ true
    → digits_value 0 (b ∷ rest) ≡ n
    → signed_at (skip_space (b ∷ rest)) ≡ some (pos n)
unfolding signed_at skip_space
signed_at-digits b n rest h e =
    let space : is_space b ≡ false = ground arith in
    let minus : (b == b'-') ≡ false = ground arith in
    let plus : (b == b'+') ≡ false = ground arith in
    rw space (rw (minus, plus, digits_at-digits b n rest h e) refl)

signed_at-to_string : (n : ℕ) → signed_at (skip_space (to_string n)) ≡ some (pos n)
signed_at-to_string n =
    let (b, rest, e) = to_string-cons n in
    let h = to_string-AreDigits n in
    let v = digits_value-to_string n in rw e (signed_at-digits b n rest (rw e at h).0 (rw e at v))

negated_suc : (n : ℕ) → negated (n + 1) ≡ negsuc n
negated_suc n = let e : n + 1 ≡ suc n = omega arith in rw e refl

signed_at-negative : (n : ℕ) → signed_at (skip_space (b'-' ∷ to_string (n + 1))) ≡ some (negsuc n)
unfolding signed_at skip_space
signed_at-negative n =
    let (b, rest, e) = to_string-cons (n + 1) in
    let h = to_string-AreDigits (n + 1) in
    let v = digits_value-to_string (n + 1) in
    rw e (rw (digits_at-digits b (n + 1) rest (rw e at h).0 (rw e at v)) (ap some (negated_suc n)))

signed_at-int_to_string : (z : ℤ) → signed_at (skip_space (int_to_string z)) ≡ some z
unfolding int_to_string
signed_at-int_to_string (pos n) = signed_at-to_string n
signed_at-int_to_string (negsuc n) = signed_at-negative n

-- `w` bits with a sign
abbrev pub IsIn : ℕ → ℤ → Type 0
IsIn w z = (leb_ℤ (negated (2 ^ (w - 1))) z ≡ true) × (ltb_ℤ z (pos (2 ^ (w - 1))) ≡ true)

pub stoll-int_to_string : (z : ℤ) → IsIn 64 z → stoll (int_to_string z) ≡ some z
unfolding stoll signed_in
stoll-int_to_string z (low, high) = rw (signed_at-int_to_string z) (rw (low, high) refl)

pub stoi-int_to_string : (z : ℤ) → IsIn 32 z → stoi (int_to_string z) ≡ some z
unfolding stoi signed_in
stoi-int_to_string z (low, high) = rw (signed_at-int_to_string z) (rw (low, high) refl)
