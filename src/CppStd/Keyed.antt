-- ===== src/CppStd/Keyed.antt =====
-- Texts of lines `key   number unit`, as the kernel writes them, and the last number of a key.
use real_time_system_metrics.Base.{
  ◌+◌, ℕ, zero, suc, ◌^◌, ◌<◌, ◌≤◌, ◌≡◌, refl, false, List, [], ◌∷◌, ◌++◌, none, Bytes, bytes_eq,
  bytes_eq_sound, if◌then◌else◌, length, length-append, arith, Bool-cases, inl, inr,
}
use real_time_system_metrics.CppStd.Numbers.{to_string, skip_space}
use real_time_system_metrics.CppStd.Stream.{stream_of, read_word}
use real_time_system_metrics.CppStd.Reading.{IsWord, padded}

-- The key with its colon, the spaces behind it but one, and the number.
pub record KeyLine : Type 0 where
  pub key : Bytes
  pub pad : ℕ
  pub value : ℕ

abbrev pub IsKeyLine : KeyLine → Type 0
IsKeyLine l = IsWord l.key × (l.value < 2 ^ 64)

-- The lines, with `unit` behind each number, and what follows them.
abbrev pub keyed_text : Bytes → List KeyLine → Bytes → Bytes
keyed_text unit [] tail = tail
keyed_text unit (l ∷ ls) tail =
    l.key ++ b' ' ∷ padded l.pad (to_string l.value ++ (unit ++ keyed_text unit ls tail))

-- The number of the last line with the key, or `value` if there is none.
abbrev pub last_value : Bytes → List KeyLine → ℕ → ℕ
last_value key [] value = value
last_value key (l ∷ ls) value = last_value key ls (if bytes_eq l.key key then l.value else value)

abbrev pub last_values : Bytes → Bytes → List KeyLine → ℕ × ℕ → ℕ × ℕ
last_values a b ls (x, y) = (last_value a ls x, last_value b ls y)

-- The assignment to one of two variables, by the key.
abbrev pub store_two : Bytes → Bytes → Bytes → ℕ → ℕ × ℕ → ℕ × ℕ
store_two a b key value (x, y) =
    if bytes_eq key a then (value, y) else if bytes_eq key b then (x, value) else (x, y)

pub store_two-last :
    (a b : Bytes) (l : KeyLine) (ls : List KeyLine) (xy : ℕ × ℕ)
    → bytes_eq a b ≡ false
    → last_values a b ls (store_two a b l.key l.value xy) ≡ last_values a b (l ∷ ls) xy
store_two-last a b l ls (x, y) apart = elim (Bool-cases (bytes_eq l.key a)) [
  | inl e ↦
      let other : bytes_eq l.key b ≡ false = rw (bytes_eq_sound l.key a e) apart in rw (e, other)
  | inr e ↦ elim (Bool-cases (bytes_eq l.key b)) [ inl f ↦ rw (e, f) | inr f ↦ rw (e, f) ]
]

pub read_word-end : (read_word (stream_of [])).0 ≡ none
unfolding read_word skip_space
read_word-end = refl

padded-length : (k : ℕ) (s : Bytes) → length s ≤ length (padded k s)
padded-length zero s = omega arith
padded-length (suc k) s = omega (arith, padded-length k s)

-- A text has no fewer bytes than lines.
pub keyed_text-length :
    (unit : Bytes) (ls : List KeyLine) (tail : Bytes)
    → length ls + length tail ≤ length (keyed_text unit ls tail)
keyed_text-length unit [] tail = omega arith
keyed_text-length unit (l ∷ ls) tail =
    let behind : Bytes = unit ++ keyed_text unit ls tail in
    let number : Bytes = to_string l.value ++ behind in
    omega (
      arith,
      keyed_text-length unit ls tail,
      padded-length l.pad number,
      length-append {0} l.key (b' ' ∷ padded l.pad number),
      length-append {0} (to_string l.value) behind,
      length-append {0} unit (keyed_text unit ls tail),
    )
