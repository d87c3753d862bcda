-- ===== src/CppStd/Regex.antt =====
-- `std::regex_search` (ECMAScript), for the patterns that the agent builds: a sequence of bytes and of
-- repeated byte classes, one of which is captured.
use real_time_system_metrics.Base.{
  ℕ, Bool, true, false, List, [], ◌∷◌, ◌++◌, map, Option, none, some, Bytes, ◌==◌, if◌then◌else◌,
}

pub data Piece : Type 0 where
  one : (ℕ → Bool) → Piece  -- a byte of the class
  many : (ℕ → Bool) → Piece  -- the class and `*`
  captured : (ℕ → Bool) → Bool → Piece  -- a group of the class and `*`, or `+` if the flag is set

abbrev pub literal : Bytes → List Piece
literal = map λ b. one λ c. c == b

-- The first alternative that matches.
abbrev pub or_else {ℓ} : {A : Type ℓ} → Option A → Option A → Option A
or_else none b = b
or_else (some a) b = some a

-- A repetition takes as many bytes as it can, and gives them back one by one.
unfoldable pub match_many : (ℕ → Bool) → (Bytes → Option Bytes) → Bytes → Option Bytes
match_many class rest [] = rest []
match_many class rest (c ∷ s) = elim (class c) [
  | true ↦ or_else (match_many class rest s) (rest (c ∷ s))
  | false ↦ rest (c ∷ s)
]

-- The same with the bytes taken so far. What the group holds is the result.
unfoldable pub match_captured :
    (ℕ → Bool) → Bool → (Bytes → Option Bytes) → Bytes → Bytes → Option Bytes
match_captured class needed rest taken [] =
    if needed then none else elim (rest []) [ none ↦ none | some _ ↦ some taken ]
match_captured class needed rest taken (c ∷ s) =
    let stop : Option Bytes =
      if needed then none else elim (rest (c ∷ s)) [ none ↦ none | some _ ↦ some taken ] in
    elim (class c) [
      | true ↦ or_else (match_captured class false rest (taken ++ c ∷ []) s) stop
      | false ↦ stop
    ]

unfoldable pub match_here : List Piece → Bytes → Option Bytes
unfolding match_many match_captured
match_here [] s = some []
match_here (one class ∷ ps) [] = none
match_here (one class ∷ ps) (c ∷ s) = if class c then match_here ps s else none
match_here (many class ∷ ps) s = match_many class (match_here ps) s
match_here (captured class plus ∷ ps) s = match_captured class plus (match_here ps) [] s

-- The leftmost match.
unfoldable pub regex_search : List Piece → Bytes → Option Bytes
unfolding match_here
regex_search ps [] = match_here ps []
regex_search ps (c ∷ s) = or_else (match_here ps (c ∷ s)) (regex_search ps s)

-- The leftmost match of `(^|\n)` and the pieces: `^` is tried first, and holds at the start alone.
unfoldable pub regex_search_line : List Piece → Bytes → Option Bytes
unfolding match_here regex_search
regex_search_line ps s = or_else (match_here ps s) (regex_search ((one λ c. c == b'\n') ∷ ps) s)
