-- ===== src/Config/Lines.antt =====
-- How the pattern of `extract_yaml_scalar` matches one line.
use real_time_system_metrics.Base.{
  ℕ, ◌≡◌, ◌≢◌, refl, sym, ap, ◌∙◌, inl, inr, Bool-cases, Bool, true, false, not, ◌||◌, List, [],
  ◌∷◌, ◌++◌, append_assoc, append-nil, Option, none, some, Bytes, ◌==◌, All, arith,
}
use real_time_system_metrics.CppStd.Chars.{is_space}
use real_time_system_metrics.CppStd.Regex.{
  Piece, one, many, captured, literal, or_else, match_many, match_captured, match_here,
  regex_search, regex_search_line,
}

abbrev pub IsKeyByte : ℕ → Type 0
IsKeyByte c = (is_space c ≡ false) × (c ≢ b':') × (c ≢ b'"')

-- The first byte is there, and is no space.
abbrev pub starts : Bytes → Bool
starts [] = false
starts (c ∷ s) = not (is_space c)

pub search_none :
    (class : ℕ → Bool) (ps : List Piece) (s : Bytes)
    → All (λ c. class c ≡ false) s
    → regex_search (one class ∷ ps) s ≡ none
unfolding regex_search match_here
search_none class ps [] h = refl
search_none class ps (c ∷ s) (p, h) = rw (p, search_none class ps s h) refl

-- The class of the group, and the pieces behind the key.
abbrev pub in_value : ℕ → Bool
in_value c = not (c == b'\n' || c == b'#')

abbrev pub tail : List Piece
tail = many is_space ∷ (one λ c. c == b':') ∷ many is_space ∷ captured in_value true ∷ []

-- The end of a pattern.
abbrev accept : Bytes → Option Bytes
accept s = some []

match_captured-value :
    (taken v t : Bytes)
    → All (λ c. in_value c ≡ true) v
    → match_captured in_value false accept taken (v ++ b'\n' ∷ t) ≡ some (taken ++ v)
unfolding match_captured
match_captured-value taken [] t h = ap some (sym (append-nil taken))
match_captured-value taken (c ∷ v) t (p, h) =
    rw (match_captured, p)
      (rw (match_captured-value (taken ++ c ∷ []) v t h) (ap some (append_assoc taken (c ∷ []) v)))

match_captured-first :
    (c : ℕ) (v t : Bytes)
    → All (λ c. in_value c ≡ true) (c ∷ v)
    → match_captured in_value true accept [] (c ∷ (v ++ b'\n' ∷ t)) ≡ some (c ∷ v)
unfolding match_captured
match_captured-first c v t (p, h) =
    rw (match_captured, p) (rw (match_captured-value (c ∷ []) v t h) refl)

pub match_many-none :
    (rest : Bytes → Option Bytes) (c : ℕ) (s : Bytes)
    → is_space c ≡ false
    → match_many is_space rest (c ∷ s) ≡ rest (c ∷ s)
unfolding match_many
match_many-none rest c s h = rw (match_many, h) refl

match_here-value :
    (v t : Bytes)
    → starts v ≡ true
    → All (λ c. in_value c ≡ true) v
    → match_here (many is_space ∷ captured in_value true ∷ []) (b' ' ∷ (v ++ b'\n' ∷ t)) ≡ some v
unfolding match_here match_many
match_here-value [] t e h = absurd (cc e)
match_here-value (c ∷ v) t e h =
    let q : is_space c ≡ false = ground arith in
    let first =
      match_many-none (match_captured in_value true accept []) c (v ++ b'\n' ∷ t) q
      ∙ match_captured-first c v t h in
    ap (λ r. or_else r (match_captured in_value true accept [] (b' ' ∷ c ∷ (v ++ b'\n' ∷ t)))) first

pub match_here-key :
    (key v t : Bytes)
    → starts v ≡ true
    → All (λ c. in_value c ≡ true) v
    → match_here (literal key ++ tail) (key ++ (b':' ∷ b' ' ∷ (v ++ b'\n' ∷ t))) ≡ some v
unfolding match_here match_many
match_here-key [] v t e h = match_here-value v t e h
match_here-key (c ∷ key) v t e h =
    let q : (c == c) ≡ true = ground arith in rw (match_here, q) (match_here-key key v t e h)

-- Another key.
pub match_here-other :
    (key k s : Bytes)
    → key ≢ k
    → All IsKeyByte key
    → All IsKeyByte k
    → match_here (literal key ++ tail) (k ++ b':' ∷ s) ≡ none
unfolding match_here match_many
match_here-other [] [] s n h g = absurd (n refl)
match_here-other [] (c ∷ k) s n h ((p, q, _), g) =
    let e : (c == b':') ≡ false = ground arith in
    match_many-none
      (match_here ((one λ c. c == b':') ∷ many is_space ∷ captured in_value true ∷ [])) c
      (k ++ b':' ∷ s) p
    ∙ rw (match_here, e) refl
match_here-other (b ∷ key) [] s n ((p, q, _), h) g =
    let e : (b':' == b) ≡ false = ground arith in rw (match_here, e) refl
match_here-other (b ∷ key) (c ∷ k) s n (_, h) (_, g) = elim (Bool-cases (c == b)) [
  | inl e ↦
      let d : c ≡ b = ground arith in
      rw (match_here, e) (match_here-other key k s (λ q. n (cc (d, q))) h g)
  | inr e ↦ rw (match_here, e) refl
]

-- What `(^|\n)` tries: the start, and behind each line feed.
pub search_behind :
    (ps : List Piece) (s t : Bytes)
    → All (λ c. c ≢ b'\n') s
    → regex_search ((one λ c. c == b'\n') ∷ ps) (s ++ b'\n' ∷ t) ≡ regex_search_line ps t
unfolding regex_search match_here regex_search_line
search_behind ps [] t h = refl
search_behind ps (c ∷ s) t (p, h) =
    let e : (c == b'\n') ≡ false = ground arith in
    rw (regex_search, match_here, e) (search_behind ps s t h)
