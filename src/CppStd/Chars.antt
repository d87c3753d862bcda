-- ===== src/CppStd/Chars.antt =====
-- `<cctype>` in the "C" locale, and `std::transform` by `std::tolower` over a string.
use real_time_system_metrics.Base.{
  ℕ, ◌+◌, ◌≡◌, refl, Bool, ◌&&◌, ◌||◌, [], ◌∷◌, map, Bytes, leb, ◌==◌, if◌then◌else◌, arith,
}

-- space, and \t \n \v \f \r
abbrev pub is_space : ℕ → Bool
is_space c = c == 32 || leb 9 c && leb c 13

abbrev pub is_digit : ℕ → Bool
is_digit c = leb b'0' c && leb c b'9'

unfoldable pub tolower : ℕ → ℕ
tolower c = if leb b'A' c && leb c b'Z' then c + 32 else c

unfoldable pub to_lower : Bytes → Bytes
unfolding tolower
to_lower = map tolower

pub tolower_idem : (c : ℕ) → tolower (tolower c) ≡ tolower c
unfolding tolower
tolower_idem c = ground arith

pub to_lower_idem : (s : Bytes) → to_lower (to_lower s) ≡ to_lower s
unfolding to_lower
to_lower_idem [] = refl
to_lower_idem (c ∷ s) = cc (tolower_idem c, to_lower_idem s)
