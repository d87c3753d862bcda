-- ===== src/Base/Text.antt =====
-- `std::string` as the list of its bytes, and the comparison and the order of two strings.
use Prim.Native.Nat.{ℕ}
use Prim.Native.Char.{code}
use Prim.Native.String.{String}
use mathlib.Core.Path.{◌≡◌, refl}
use mathlib.Core.Logic.{◌≢◌, ◌↔◌, inl, inr}
use mathlib.Core.Bool.{Bool, true, false, ◌&&◌}
use mathlib.Core.List.{List, [], ◌∷◌}
use native.Mathlib.Omega.{arith}
use real_time_system_metrics.Base.Tests.{Bool-cases, ltb, ◌==◌, if◌then◌else◌}
use real_time_system_metrics.Base.Lists.{All, any}

abbrev pub Bytes : Type 0
Bytes = List ℕ

-- The bytes of an ASCII literal.
abbrev pub codes : String → Bytes
codes String.[] = []
codes (String.◌∷◌ c s) = code c ∷ codes s

-- `operator==` of two strings
unfoldable pub bytes_eq : Bytes → Bytes → Bool
bytes_eq [] [] = true
bytes_eq (a ∷ s) (b ∷ t) = a == b && bytes_eq s t
bytes_eq _ _ = false

-- `operator<` of two strings: byte by byte, a prefix first
unfoldable pub bytes_lt : Bytes → Bytes → Bool
bytes_lt s [] = false
bytes_lt [] (b ∷ t) = true
bytes_lt (a ∷ s) (b ∷ t) = if ltb a b then true else if ltb b a then false else bytes_lt s t

pub bytes_eq_sound : (s t : Bytes) → bytes_eq s t ≡ true → s ≡ t
unfolding bytes_eq
bytes_eq_sound [] [] h = refl
bytes_eq_sound [] (b ∷ t) h = cc
bytes_eq_sound (a ∷ s) [] h = cc
bytes_eq_sound (a ∷ s) (b ∷ t) h = ground (arith, bytes_eq_sound s t)

pub bytes_eq_refl : (s : Bytes) → bytes_eq s s ≡ true
unfolding bytes_eq
bytes_eq_refl [] = refl
bytes_eq_refl (a ∷ s) = ground (arith, bytes_eq_refl s)

pub bytes_eq_iff : (s t : Bytes) → (bytes_eq s t ≡ true) ↔ (s ≡ t)
bytes_eq_iff s t = (bytes_eq_sound s t, λ e. rw (← e) (bytes_eq_refl s))

-- The bytes of a text that lacks a byte.
abbrev pub Lacks : ℕ → Bytes → Type 0
Lacks b = All λ c. c ≢ b

-- What holds of each of some texts holds of a text that is one of them.
pub All-of_any {κ} :
    (P : Bytes → Type κ) (s : Bytes) (ts : List Bytes) → All P ts → any (bytes_eq s) ts ≡ true → P s
All-of_any P s (t ∷ ts) (p, ps) h = elim (Bool-cases (bytes_eq s t)) [
  | inl e ↦ rw (bytes_eq_sound s t e) p
  | inr e ↦ All-of_any P s ts ps (rw e at h)
]
All-of_any P s [] _ h = cc
