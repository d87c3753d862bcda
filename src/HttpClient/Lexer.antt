-- ===== src/HttpClient/Lexer.antt =====
-- The tokens of a JSON text whose strings hold no escapes: one pass over the bytes.
use real_time_system_metrics.Base.{
  ℕ, ◌≡◌, ◌≢◌, refl, sym, ap, ◌∙◌, Bool, true, false, ◌||◌, List, [], ◌∷◌, ◌++◌, append_assoc,
  append-nil, Option, none, some, Bytes, ◌==◌, if◌then◌else◌, ltb, All, arith,
}
use real_time_system_metrics.CppStd.Chars.{is_space, is_digit}

pub data Token : Type 0 where
  punct : ℕ → Token  -- one of `{}[]:,`
  text : Bytes → Token  -- what stands between two quotes
  number : Bytes → Token

pub data Mode : Type 0 where
  between : Mode
  in_text : Bytes → Mode
  in_number : Bytes → Mode

abbrev is_punct : ℕ → Bool
is_punct c = c == b'{' || c == b'}' || c == b'[' || c == b']' || c == b':' || c == b','

abbrev pub is_numeral : ℕ → Bool
is_numeral c = is_digit c || c == b'-' || c == b'+' || c == b'.' || c == b'e' || c == b'E'

-- a byte that JSON wants escaped, or the quote
abbrev pub is_special : ℕ → Bool
is_special c = c == b'"' || c == b'\\' || ltb c 32

abbrev lex_between : ℕ → Option (List Token × Mode)
lex_between c =
    if is_punct c
    then some (punct c ∷ [], between)
    else if c == b'"'
    then some ([], in_text [])
    else if is_numeral c
    then some ([], in_number (c ∷ []))
    else if is_space c
    then some ([], between)
    else none

abbrev flushed : Bytes → Option (List Token × Mode) → Option (List Token × Mode)
flushed x none = none
flushed x (some (out, mode)) = some (number x ∷ out, mode)

unfoldable pub lex_step : Mode → ℕ → Option (List Token × Mode)
lex_step between c = lex_between c
lex_step (in_text s) c =
    if c == b'"'
    then some (text s ∷ [], between)
    else if is_special c
    then none
    else some ([], in_text (s ++ c ∷ []))
lex_step (in_number x) c =
    if is_numeral c then some ([], in_number (x ++ c ∷ [])) else flushed x (lex_between c)

abbrev pub behind : List Token → Option (List Token × Mode) → Option (List Token × Mode)
behind out none = none
behind out (some (rest, mode)) = some (out ++ rest, mode)

abbrev pub and_then :
    Option (List Token × Mode) → (Mode → Option (List Token × Mode)) → Option (List Token × Mode)
and_then none f = none
and_then (some (out, mode)) f = behind out (f mode)

unfoldable pub lex_loop : Mode → Bytes → Option (List Token × Mode)
unfolding lex_step
lex_loop mode [] = some ([], mode)
lex_loop mode (c ∷ s) = and_then (lex_step mode c) λ next. lex_loop next s

abbrev at_end : Option (List Token × Mode) → Option (List Token)
at_end none = none
at_end (some (out, between)) = some out
at_end (some (out, in_text s)) = none
at_end (some (out, in_number x)) = some (out ++ number x ∷ [])

unfoldable pub lex : Bytes → Option (List Token)
unfolding lex_loop
lex s = at_end (lex_loop between s)

-- The tokens of a text between two modes.
pub record Lexes (mode : Mode) (s : Bytes) (out : List Token) (next : Mode) : Type 0 where
  pub run : lex_loop mode s ≡ some (out, next)

behind-behind :
    (a b : List Token) (r : Option (List Token × Mode)) → behind a (behind b r) ≡ behind (a ++ b) r
behind-behind a b none = refl
behind-behind a b (some (rest, mode)) = simp append_assoc refl

and_then-behind :
    (out : List Token) (r : Option (List Token × Mode)) (f : Mode → Option (List Token × Mode))
    → and_then (behind out r) f ≡ behind out (and_then r f)
and_then-behind out none f = refl
and_then-behind out (some (rest, mode)) f = sym (behind-behind out rest (f mode))

behind-nil : (r : Option (List Token × Mode)) → r ≡ behind [] r
behind-nil none = refl
behind-nil (some (rest, mode)) = refl

and_then-and_then :
    (r : Option (List Token × Mode)) (f g h : Mode → Option (List Token × Mode))
    → ((mode : Mode) → g mode ≡ and_then (f mode) h)
    → and_then r g ≡ and_then (and_then r f) h
and_then-and_then none f g h e = refl
and_then-and_then (some (out, mode)) f g h e =
    ap (behind out) (e mode) ∙ sym (and_then-behind out (f mode) h)

lex_loop-append :
    (mode : Mode) (s t : Bytes)
    → lex_loop mode (s ++ t) ≡ and_then (lex_loop mode s) (λ next. lex_loop next t)
unfolding lex_loop
lex_loop-append mode [] t = behind-nil (lex_loop mode t)
lex_loop-append mode (c ∷ s) t =
    and_then-and_then (lex_step mode c) _ _ _ (λ next. lex_loop-append next s t)

-- Two texts, one behind the other.
infixl 5 ◌▷◌
pub ◌▷◌ :
    {m n k : Mode} {s t : Bytes} {out rest : List Token}
    → Lexes m s out n
    → Lexes n t rest k
    → Lexes m (s ++ t) (out ++ rest) k
◌▷◌ {m} {n} {k} {s} {t} {out} {rest} a b = record {
  run =
      lex_loop-append m s t
      ∙ ap (λ r. and_then r (λ next. lex_loop next t)) a.run
      ∙ ap (behind out) b.run;
}

-- The bytes of a number, and those of a text that needs no escapes.
abbrev pub IsNumeral : Bytes → Type 0
IsNumeral x = (x ≢ []) × All (λ c. is_numeral c ≡ true) x

abbrev pub IsPlain : Bytes → Type 0
IsPlain = All λ c. is_special c ≡ false

lex_step-digit :
    (x : Bytes) (c : ℕ)
    → is_numeral c ≡ true
    → lex_step (in_number x) c ≡ some ([], in_number (x ++ c ∷ []))
unfolding lex_step
lex_step-digit x c h = ground arith

lex_step-numeral :
    (c : ℕ) → is_numeral c ≡ true → lex_step between c ≡ some ([], in_number (c ∷ []))
unfolding lex_step
lex_step-numeral c h = ground arith

lex_step-plain :
    (x : Bytes) (c : ℕ)
    → is_special c ≡ false
    → lex_step (in_text x) c ≡ some ([], in_text (x ++ c ∷ []))
unfolding lex_step
lex_step-plain x c h = ground arith

-- Bytes that each go behind what a mode holds.
grown :
    (mode : Bytes → Mode) (P : ℕ → Type 0)
    → ((x : Bytes) (c : ℕ) → P c → lex_step (mode x) c ≡ some ([], mode (x ++ c ∷ [])))
    → (x s : Bytes) → All P s
    → lex_loop (mode x) s ≡ some ([], mode (x ++ s))
unfolding lex_loop
grown mode P f x [] h = ap (λ z. some ([], mode z)) (sym (append-nil x))
grown mode P f x (c ∷ s) (p, h) =
    ap (λ r. and_then r (λ next. lex_loop next s)) (f x c p)
    ∙ ap (behind []) (grown mode P f (x ++ c ∷ []) s h)
    ∙ ap (λ z. some ([], mode z)) (append_assoc x (c ∷ []) s)

pub numeral-Lexes : (x : Bytes) → IsNumeral x → Lexes between x [] (in_number x)
unfolding lex_loop
numeral-Lexes [] h = absurd (h.0 refl)
numeral-Lexes (c ∷ s) h = record {
  run =
      ap (λ r. and_then r (λ next. lex_loop next s)) (lex_step-numeral c h.1.0)
      ∙ ap (behind []) (grown in_number _ lex_step-digit (c ∷ []) s h.1.1);
}

pub plain-Lexes : (s : Bytes) → IsPlain s → Lexes (in_text []) s [] (in_text s)
plain-Lexes s h = record { run = grown in_text _ lex_step-plain [] s h }

-- What a whole text without an open string or number is read as.
pub Lexes-lex : {s : Bytes} {out : List Token} → Lexes between s out between → lex s ≡ some out
unfolding lex
Lexes-lex l = ap at_end l.run
