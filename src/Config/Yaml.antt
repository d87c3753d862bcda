-- ===== src/Config/Yaml.antt =====
-- What `extract_value` finds in a file of lines `key: value`.
use real_time_system_metrics.Base.{
  ℕ, ◌≡◌, ◌≢◌, refl, sym, ap, ◌∙◌, inl, inr, Bool-cases, true, false, List, [], ◌∷◌, ◌++◌,
  append_assoc, Option, none, some, Bytes, bytes_eq, bytes_eq_sound, bytes_eq_refl, ◌==◌,
  if◌then◌else◌, All, All-append, All-mono, arith,
}
use mathlib.Core.Option
use real_time_system_metrics.CppStd.Chars.{is_space}
use real_time_system_metrics.CppStd.Regex.{
  Piece, one, many, literal, or_else, match_many, match_here, regex_search, regex_search_line,
}
use real_time_system_metrics.Config.Text.{trim}
use real_time_system_metrics.Config.Extract.{
  extract_json_string, extract_json_scalar, extract_yaml_scalar, extract_value,
}
use real_time_system_metrics.Config.Lines.{
  IsKeyByte, starts, in_value, tail, search_none, match_many-none, match_here-key, match_here-other,
  search_behind,
}

-- One line for each pair.
abbrev pub yaml : List (Bytes × Bytes) → Bytes
yaml [] = []
yaml ((k, v) ∷ ps) = k ++ (b':' ∷ b' ' ∷ (v ++ b'\n' ∷ yaml ps))

abbrev pub value_of : Bytes → List (Bytes × Bytes) → Option Bytes
value_of key [] = none
value_of key ((k, v) ∷ ps) = if bytes_eq k key then some v else value_of key ps

abbrev pub IsValueByte : ℕ → Type 0
IsValueByte c = (c ≢ b'\n') × (c ≢ b'#') × (c ≢ b'"')

abbrev pub IsKey : Bytes → Type 0
IsKey key = (key ≢ []) × All IsKeyByte key

-- Not empty, and without spaces around it.
abbrev pub IsValue : Bytes → Type 0
IsValue v = (starts v ≡ true) × All IsValueByte v × (trim v ≡ v)

abbrev pub AreLines : List (Bytes × Bytes) → Type 0
AreLines = All λ p. IsKey p.0 × IsValue p.1

abbrev pieces : Bytes → List Piece
pieces key = many is_space ∷ literal key ++ tail

-- The pieces at the start of a line.
line_start :
    (key k s : Bytes)
    → IsKey k
    → match_here (pieces key) (k ++ s) ≡ match_here (literal key ++ tail) (k ++ s)
unfolding match_here
line_start key [] s h = absurd (h.0 refl)
line_start key (c ∷ k) s h = match_many-none (match_here (literal key ++ tail)) c (k ++ s) h.1.0.0

in_line : (k v : Bytes) → IsKey k → IsValue v → All (λ c. c ≢ b'\n') (k ++ (b':' ∷ b' ' ∷ v))
in_line k v h g =
    All-append _ k _ (All-mono IsKeyByte _ k (λ c x. ground (arith, x)) h.1)
      (omega arith, (omega arith, All-mono IsValueByte _ v (λ c x. x.0) g.1))

behind_line :
    (ps : List Piece) (k v t : Bytes)
    → IsKey k
    → IsValue v
    → regex_search ((one λ c. c == b'\n') ∷ ps) (k ++ (b':' ∷ b' ' ∷ (v ++ b'\n' ∷ t)))
      ≡ regex_search_line ps t
behind_line ps k v t h g =
    ap (regex_search ((one λ c. c == b'\n') ∷ ps))
      (sym (append_assoc k (b':' ∷ b' ' ∷ v) (b'\n' ∷ t)))
    ∙ search_behind ps (k ++ (b':' ∷ b' ' ∷ v)) t (in_line k v h g)

search_line-nil : (key : Bytes) → IsKey key → regex_search_line (pieces key) [] ≡ none
unfolding regex_search_line regex_search match_here match_many
search_line-nil [] k = absurd (k.0 refl)
search_line-nil (c ∷ key) k = refl

search_line-yaml :
    (key : Bytes) (ps : List (Bytes × Bytes))
    → IsKey key
    → AreLines ps
    → regex_search_line (pieces key) (yaml ps) ≡ value_of key ps
unfolding regex_search_line
search_line-yaml key [] k h = search_line-nil key k
search_line-yaml key ((s, v) ∷ ps) k h =
    let g = h.0.0 in
    let values : All (λ c. in_value c ≡ true) v =
      All-mono IsValueByte _ v (λ c x. ground (arith, x)) h.0.1.1 in
    let line = yaml ((s, v) ∷ ps) in
    let later = regex_search ((one λ c. c == b'\n') ∷ pieces key) line in
    elim (Bool-cases (bytes_eq s key)) [
      | inl e ↦
          let d = bytes_eq_sound s key e in
          let hit : match_here (literal key ++ tail) line ≡ some v =
            rw d (match_here-key key v (yaml ps) h.0.1.0 values) in
          simp e (
            ap (λ r. or_else r later)
              (line_start key s (b':' ∷ b' ' ∷ (v ++ b'\n' ∷ yaml ps)) g ∙ hit))
      | inr e ↦
          let n : key ≢ s = λ d. absurd (cc (e, bytes_eq_refl s, d)) in
          simp e (
            ap (λ r. or_else r later)
              (line_start key s (b':' ∷ b' ' ∷ (v ++ b'\n' ∷ yaml ps)) g
                ∙ match_here-other key s (b' ' ∷ (v ++ b'\n' ∷ yaml ps)) n k.1 g.1)
            ∙ behind_line (pieces key) s v (yaml ps) g h.0.1
            ∙ search_line-yaml key ps k h.1)
    ]

yaml-quote : (ps : List (Bytes × Bytes)) → AreLines ps → All (λ c. (c == b'"') ≡ false) (yaml ps)
yaml-quote [] h = tt
yaml-quote ((k, v) ∷ ps) h =
    All-append _ k _ (All-mono IsKeyByte _ k (λ c x. ground (arith, x)) h.0.0.1) (
      refl,
      (
        refl,
        All-append _ v _ (All-mono IsValueByte _ v (λ c x. ground (arith, x)) h.0.1.1)
            (refl, yaml-quote ps h.1),
      ),
    )

trimmed :
    (key : Bytes) (ps : List (Bytes × Bytes))
    → AreLines ps
    → Option.map trim (value_of key ps) ≡ value_of key ps
trimmed key [] h = refl
trimmed key ((k, v) ∷ ps) h = elim (Bool-cases (bytes_eq k key)) [
  | inl e ↦ simp e (ap some h.0.1.2)
  | inr e ↦ simp e (trimmed key ps h.1)
]

-- No quote, no JSON key.
json_string-none :
    (content key : Bytes)
    → All (λ c. (c == b'"') ≡ false) content
    → extract_json_string content key ≡ none
unfolding extract_json_string
json_string-none content key q = search_none (λ c. c == b'"') _ content q

json_scalar-none :
    (content key : Bytes)
    → All (λ c. (c == b'"') ≡ false) content
    → extract_json_scalar content key ≡ none
unfolding extract_json_scalar
json_scalar-none content key q = ap (Option.map trim) (search_none (λ c. c == b'"') _ content q)

yaml_scalar-yaml :
    (key : Bytes) (ps : List (Bytes × Bytes))
    → IsKey key
    → AreLines ps
    → extract_yaml_scalar (yaml ps) key ≡ value_of key ps
unfolding extract_yaml_scalar
yaml_scalar-yaml key ps k h = ap (Option.map trim) (search_line-yaml key ps k h) ∙ trimmed key ps h

-- In a file of lines `key: value`, `extract_value` finds for each key the value of the first line with
-- this key, and nothing if there is none. This is so if the keys are not empty and without spaces, colons
-- and quotes, and the values not empty, without spaces around them, line feeds, `#` and quotes.
pub extract_value-yaml :
    (key : Bytes) (ps : List (Bytes × Bytes))
    → IsKey key
    → AreLines ps
    → extract_value (yaml ps) key ≡ value_of key ps
unfolding extract_value
extract_value-yaml key ps k h =
    let q = yaml-quote ps h in
    rw (extract_value, json_string-none (yaml ps) key q, json_scalar-none (yaml ps) key q)
      (yaml_scalar-yaml key ps k h)
