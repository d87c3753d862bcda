-- ===== src/CppStd/Progress.antt =====
-- How much of a text an extraction from a stream takes.
use real_time_system_metrics.Base.{
  ℕ, ◌+◌, ◌*◌, ◌-◌, ◌≤◌, ◌<◌, ◌≡◌, refl, sym, ap, ◌∙◌, Bool, true, false, [], ◌∷◌, ◌++◌, none, some,
  Bytes, length, arith, Bool-cases, inl, inr,
}
use real_time_system_metrics.CppStd.Chars.{is_space}
use real_time_system_metrics.CppStd.Numbers.{skip_space}
use real_time_system_metrics.CppStd.Stream.{
  Stream, good, failed, stopped_at, word_loop, word_at, read_word, digits_loop, stored, unsigned_at,
  number_at, read_u64,
}

skip_space-le : (s : Bytes) → length (skip_space s) ≤ length s
unfolding skip_space
skip_space-le [] = omega arith
skip_space-le (c ∷ s) = ground (arith, skip_space-le s)

-- What is left begins with no space.
skip_space-head : (s : Bytes) {c : ℕ} {t : Bytes} → skip_space s ≡ c ∷ t → is_space c ≡ false
unfolding skip_space
skip_space-head [] e = cc
skip_space-head (x ∷ s) e = elim (Bool-cases (is_space x)) [
  | inl h ↦ let step : skip_space (x ∷ s) ≡ skip_space s = rw h in skip_space-head s (sym step ∙ e)
  | inr h ↦ ground arith
]

word_loop-le : (word s : Bytes) → length (word_loop word s).1 ≤ length s
unfolding word_loop
word_loop-le word [] = omega arith
word_loop-le word (c ∷ s) = ground (arith, word_loop-le (word ++ c ∷ []) s)

word_loop-lt :
    (c : ℕ) (s : Bytes) → is_space c ≡ false → length (word_loop [] (c ∷ s)).1 < length (c ∷ s)
unfolding word_loop
word_loop-lt c s h = ground (arith, word_loop-le ([] ++ c ∷ []) s)

stopped_at-rest : (s : Bytes) (fail : Bool) → (stopped_at s fail).rest ≡ s
stopped_at-rest [] fail = refl
stopped_at-rest (c ∷ s) fail = refl

word_at-lt :
    (s : Bytes) {word : Bytes}
    → ((c : ℕ) (t : Bytes) → s ≡ c ∷ t → is_space c ≡ false)
    → (word_at s).0 ≡ some word
    → length (word_at s).1.rest < length s
unfolding word_at
word_at-lt [] h e = absurd (cc e)
word_at-lt (c ∷ s) h e =
    rw (stopped_at-rest (word_loop [] (c ∷ s)).1 false) (word_loop-lt c s (h c s refl))

read_word_of_good : (s : Stream) → good s ≡ true → read_word s ≡ word_at (skip_space s.rest)
unfolding read_word
read_word_of_good s g = rw g

read_word_of_bad : (s : Stream) → good s ≡ false → read_word s ≡ (none, failed s)
unfolding read_word
read_word_of_bad s g = rw g

-- A word that is read takes at least one byte.
pub read_word-lt :
    (s : Stream) {word : Bytes}
    → (read_word s).0 ≡ some word
    → length (read_word s).1.rest < length s.rest
read_word-lt s e = elim (Bool-cases (good s)) [
  | inl g ↦
      let read = read_word_of_good s g in
      rw read (
        omega (
          arith,
          skip_space-le s.rest,
          word_at-lt (skip_space s.rest) (λ c t. skip_space-head s.rest)
              (sym (ap (λ r. r.0) read) ∙ e),
        ))
  | inr g ↦ absurd (cc (read_word_of_bad s g, e))
]

digits_loop-le : (n : ℕ) (s : Bytes) → length (digits_loop n s).1 ≤ length s
unfolding digits_loop
digits_loop-le n [] = omega arith
digits_loop-le n (c ∷ s) = ground (arith, digits_loop-le (n * 10 + (c - b'0')) s)

stored-le :
    (negative : Bool) (n : ℕ) (rest : Bytes) → length (stored negative n rest).1.rest ≤ length rest
stored-le negative n rest = ground (arith, stopped_at-rest rest false, stopped_at-rest rest true)

unsigned_at-le : (negative : Bool) (s : Bytes) → length (unsigned_at negative s).1.rest ≤ length s
unsigned_at-le negative [] = omega arith
unsigned_at-le negative (c ∷ s) =
    let (n, rest) = digits_loop 0 (c ∷ s) in
    ground (arith, stored-le negative n rest, digits_loop-le 0 (c ∷ s))

number_at-le : (s : Bytes) → length (number_at s).1.rest ≤ length s
unfolding number_at
number_at-le [] = omega arith
number_at-le (c ∷ s) =
    ground (arith, unsigned_at-le true s, unsigned_at-le false s, unsigned_at-le false (c ∷ s))

skipped_number_at-le :
    (x : ℕ) (s : Bytes)
    → length
        (elim s as (λ _. ℕ × Stream) [
          | [] ↦ (x, stopped_at [] true)
          | c ∷ t ↦ number_at (c ∷ t)
        ]).1.rest
      ≤ length s
skipped_number_at-le x [] = omega arith
skipped_number_at-le x (c ∷ s) = number_at-le (c ∷ s)

-- Reading a number takes no byte back.
pub read_u64-le : (x : ℕ) (s : Stream) → length (read_u64 x s).1.rest ≤ length s.rest
unfolding read_u64
read_u64-le x s = elim (Bool-cases (good s)) [
  | inl g ↦ rw g (omega (arith, skip_space-le s.rest, skipped_number_at-le x (skip_space s.rest)))
  | inr g ↦ rw g (omega arith)
]
