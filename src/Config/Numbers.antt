-- ===== src/Config/Numbers.antt =====
-- Numbers that are written by `std::to_string`, as the configuration reads them.
use mathlib.Core.List.{reverse, reverse_aux}
use real_time_system_metrics.Base.{
  ℕ, zero, suc, ◌+◌, ◌-◌, ◌^◌, ◌<◌, ◌≡◌, refl, ap, ◌∙◌, true, false, [], ◌∷◌, some, Bytes, All,
  All-mono, arith, length, take, ℤ, pos, negsuc, leb,
}
use real_time_system_metrics.CppStd.Chars.{is_space, is_digit}
use real_time_system_metrics.CppStd.Numbers.{to_string, int_to_string, stoi, stoll}
use real_time_system_metrics.CppStd.Printing.{
  to_string-AreDigits, IsIn, stoi-int_to_string, stoll-int_to_string,
}
use real_time_system_metrics.Config.Text.{
  leading_spaces, trim, parse_int_text, positive_size, parse_size_text,
}

abbrev pub AreSolid : Bytes → Type 0
AreSolid = All λ c. is_space c ≡ false

leading_spaces-solid : (s : Bytes) → AreSolid s → leading_spaces s ≡ 0
unfolding leading_spaces
leading_spaces-solid [] h = refl
leading_spaces-solid (c ∷ s) (p, h) = rw p refl

reverse_aux-AreSolid : (s t : Bytes) → AreSolid s → AreSolid t → AreSolid (reverse_aux s t)
reverse_aux-AreSolid [] t h g = g
reverse_aux-AreSolid (c ∷ s) t (p, h) g = reverse_aux-AreSolid s (c ∷ t) h (p, g)

reverse-AreSolid : (s : Bytes) → AreSolid s → AreSolid (reverse s)
reverse-AreSolid s h = reverse_aux-AreSolid s [] h tt

take-length : (s : Bytes) → take (length s) s ≡ s
take-length [] = refl
take-length (c ∷ s) = ap (◌∷◌ c) (take-length s)

pub trim-solid : (s : Bytes) → AreSolid s → trim s ≡ s
unfolding trim
trim-solid [] h = refl
trim-solid (c ∷ s) h =
    rw
      (
        leading_spaces-solid (c ∷ s) h,
        leading_spaces-solid (reverse (c ∷ s)) (reverse-AreSolid (c ∷ s) h),
      )
      (let n : suc (length s) - 0 ≡ suc (length s) = omega arith in
        let e : leb (suc (length s)) 0 ≡ false = ground arith in simp (n, e) (take-length (c ∷ s)))

pub to_string-AreSolid : (n : ℕ) → AreSolid (to_string n)
to_string-AreSolid n =
    All-mono (λ c. is_digit c ≡ true) _ (to_string n) (λ c h. ground (arith, h))
      (to_string-AreDigits n)

int_to_string-AreSolid : (z : ℤ) → AreSolid (int_to_string z)
unfolding int_to_string
int_to_string-AreSolid (pos n) = to_string-AreSolid n
int_to_string-AreSolid (negsuc n) = (refl, to_string-AreSolid (n + 1))

pub parse_int_text-int_to_string : (z : ℤ) → IsIn 32 z → parse_int_text (int_to_string z) ≡ some z
unfolding parse_int_text
parse_int_text-int_to_string z h =
    ap stoi (trim-solid (int_to_string z) (int_to_string-AreSolid z)) ∙ stoi-int_to_string z h

stoll-to_string : (n : ℕ) → n < 2 ^ 63 → stoll (to_string n) ≡ some (pos n)
unfolding int_to_string
stoll-to_string n h = stoll-int_to_string (pos n) (ground (arith, h))

pub parse_size_text-to_string :
    (n : ℕ) → 0 < n → n < 2 ^ 63 → parse_size_text (to_string n) ≡ some n
unfolding parse_size_text positive_size
parse_size_text-to_string zero p h = absurd (omega (arith, p))
parse_size_text-to_string (suc n) p h = ap positive_size (
    ap stoll (trim-solid (to_string (suc n)) (to_string-AreSolid (suc n)))
    ∙ stoll-to_string (suc n) h)
