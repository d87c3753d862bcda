-- ===== src/CppStd/Reading.antt =====
-- Words and numbers with spaces before them, as formatted input reads them back.
use real_time_system_metrics.Base.{
  leb, ◌&&◌, ◌||◌, All-mono, Bool, none, ℕ, zero, suc, ◌+◌, ◌-◌, ◌*◌, ◌^◌, ◌<◌, ◌≡◌, refl, sym, ap,
  ◌∙◌, true, false, ◌==◌, List, [], ◌∷◌, ◌++◌, append_assoc, append-nil, some, Bytes, ltb, All,
  arith,
}
use mathlib.Core.Path.{subst}
use real_time_system_metrics.CppStd.Chars.{is_space, is_digit}
use real_time_system_metrics.CppStd.Numbers.{digits_value, skip_space, to_string}
use real_time_system_metrics.CppStd.Printing.{
  AreDigits, to_string-AreDigits, to_string-cons, digits_value-to_string,
}
use real_time_system_metrics.CppStd.Stream.{
  stream_of, stopped_at, word_loop, read_word, digits_loop, number_at, read_u64,
}

-- Some bytes that are no spaces.
abbrev pub IsWord : Bytes → Type 0
IsWord [] = ⊥
IsWord (c ∷ w) = All (λ b. is_space b ≡ false) (c ∷ w)

-- A text that does not go on with a digit.
abbrev pub EndsNumber : Bytes → Type 0
EndsNumber [] = Unit
EndsNumber (c ∷ s) = is_digit c ≡ false

-- Numbers with a space before each, and what follows them.
abbrev pub numbered : List ℕ → Bytes → Bytes
numbered [] tail = tail
numbered (n ∷ ns) tail = b' ' ∷ to_string n ++ numbered ns tail

pub numbered-EndsNumber :
    (ns : List ℕ) (tail : Bytes) → EndsNumber tail → EndsNumber (numbered ns tail)
numbered-EndsNumber [] tail h = h
numbered-EndsNumber (n ∷ ns) tail h = refl

word_loop-word :
    (word w : Bytes) (b : ℕ) (s : Bytes)
    → is_space b ≡ true
    → All (λ c. is_space c ≡ false) w
    → word_loop word (w ++ b ∷ s) ≡ (word ++ w, b ∷ s)
unfolding word_loop
word_loop-word word [] b s e h = rw (e, word_loop) (ap (λ x. (x, b ∷ s)) (sym (append-nil word)))
word_loop-word word (c ∷ w) b s e (n, h) =
    rw (n, word_loop)
      (word_loop-word (word ++ c ∷ []) w b s e h
        ∙ ap (λ x. (x, b ∷ s)) (append_assoc word (c ∷ []) w))

-- A word that a space or a line feed ends.
pub read_word-word :
    (w : Bytes) (b : ℕ) (s : Bytes)
    → is_space b ≡ true
    → IsWord w
    → read_word (stream_of (w ++ b ∷ s)) ≡ (some w, stream_of (b ∷ s))
unfolding read_word skip_space
read_word-word [] b s e h = absurd h
read_word-word (c ∷ w) b s e (n, h) = rw (n, skip_space, word_loop-word [] (c ∷ w) b s e (n, h))

-- A space or a line feed before the word
pub read_word-space :
    (b : ℕ) (s : Bytes)
    → is_space b ≡ true
    → read_word (stream_of (b ∷ s)) ≡ read_word (stream_of s)
unfolding read_word skip_space
read_word-space b s e = rw (e, skip_space)

digits_loop-digits :
    (k : ℕ) (ds tail : Bytes)
    → AreDigits ds
    → EndsNumber tail
    → digits_loop k (ds ++ tail) ≡ (digits_value k ds, tail)
unfolding digits_loop digits_value
digits_loop-digits k [] [] h e = refl
digits_loop-digits k [] (c ∷ tail) h e = rw (e, digits_loop)
digits_loop-digits k (d ∷ ds) tail (n, h) e =
    rw (n, digits_loop, digits_value) (digits_loop-digits (k * 10 + (d - b'0')) ds tail h e)

number_at-digits :
    (d n : ℕ) (ds tail : Bytes)
    → AreDigits (d ∷ ds)
    → EndsNumber tail
    → digits_value 0 (d ∷ ds) ≡ n
    → n < 2 ^ 64
    → number_at (d ∷ ds ++ tail) ≡ (n, stopped_at tail false)
unfolding number_at
number_at-digits d n ds tail (digit, h) e v less =
    let minus : (d == b'-') ≡ false = ground (arith, digit) in
    let plus : (d == b'+') ≡ false = ground (arith, digit) in
    let fits : ltb n (2 ^ 64) ≡ true = ground (arith, less) in
    rw (minus, plus, digits_loop-digits 0 (d ∷ ds) tail (digit, h) e, v, digit, fits)

-- A number behind a space.
pub read_u64-number :
    (x n : ℕ) (tail : Bytes)
    → n < 2 ^ 64
    → EndsNumber tail
    → read_u64 x (stream_of (b' ' ∷ to_string n ++ tail)) ≡ (n, stopped_at tail false)
unfolding read_u64 skip_space
read_u64-number x n tail less e =
    let (d, ds, q) = to_string-cons n in
    let (digit, digits) = subst AreDigits q (to_string-AreDigits n) in
    let solid : is_space d ≡ false = ground (arith, digit) in
    let value = ap (digits_value 0) (sym q) ∙ digits_value-to_string n in
    rw (q, solid, skip_space, number_at-digits d n ds tail (digit, digits) e value less)

-- One more space before the number
pub read_u64-space :
    (x : ℕ) (s : Bytes) → read_u64 x (stream_of (b' ' ∷ s)) ≡ read_u64 x (stream_of s)
unfolding read_u64 skip_space
read_u64-space x s = refl

pub read_u64-numbered :
    (n : ℕ) (ns : List ℕ) (tail : Bytes)
    → n < 2 ^ 64
    → EndsNumber tail
    → read_u64 0 (stream_of (numbered (n ∷ ns) tail)) ≡ (n, stopped_at (numbered ns tail) false)
read_u64-numbered n ns tail less e =
    read_u64-number 0 n (numbered ns tail) less (numbered-EndsNumber ns tail e)

-- More spaces before a text
abbrev pub padded : ℕ → Bytes → Bytes
padded zero s = s
padded (suc k) s = b' ' ∷ padded k s

pub read_u64-padded :
    (x k n : ℕ) (tail : Bytes)
    → n < 2 ^ 64
    → EndsNumber tail
    → read_u64 x (stream_of (b' ' ∷ padded k (to_string n ++ tail))) ≡ (n, stopped_at tail false)
read_u64-padded x zero n tail less e = read_u64-number x n tail less e
read_u64-padded x (suc k) n tail less e =
    read_u64-space x (b' ' ∷ padded k (to_string n ++ tail)) ∙ read_u64-padded x k n tail less e

pub to_string-IsWord : (n : ℕ) → IsWord (to_string n)
to_string-IsWord n =
    let (d, ds, q) = to_string-cons n in
    let digits = subst AreDigits q (to_string-AreDigits n) in
    let word : All (λ b. is_space b ≡ false) (d ∷ ds) =
      All-mono (λ b. is_digit b ≡ true) (λ b. is_space b ≡ false) (d ∷ ds)
        (λ b k. ground (arith, k)) digits in
    subst IsWord (sym q) word

pub read_word-padded :
    (k : ℕ) (s : Bytes) → read_word (stream_of (padded k s)) ≡ read_word (stream_of s)
read_word-padded zero s = refl
read_word-padded (suc k) s = read_word-space b' ' (padded k s) refl ∙ read_word-padded k s

-- A letter
abbrev pub is_letter : ℕ → Bool
is_letter c = leb b'A' c && leb c b'Z' || leb b'a' c && leb c b'z'

-- A number that does not come: 0 is stored, and the stream has failed.
pub read_u64-letter :
    (x b c : ℕ) (s : Bytes)
    → is_space b ≡ true
    → is_letter c ≡ true
    → read_u64 x (stream_of (b ∷ c ∷ s)) ≡ (0, stopped_at (c ∷ s) true)
unfolding read_u64 skip_space number_at
read_u64-letter x b c s e l =
    let solid : is_space c ≡ false = ground (arith, l) in
    let minus : (c == b'-') ≡ false = ground (arith, l) in
    let plus : (c == b'+') ≡ false = ground (arith, l) in
    let digit : is_digit c ≡ false = ground (arith, l) in
    rw (e, solid, skip_space, minus, plus, digit)

pub read_word-failed : (s : Bytes) → (read_word (stopped_at s true)).0 ≡ none
unfolding read_word
read_word-failed [] = refl
read_word-failed (c ∷ s) = refl
