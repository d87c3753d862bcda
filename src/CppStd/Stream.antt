-- ===== src/CppStd/Stream.antt =====
-- `std::istream >> x` for a word and for a `uint64_t`, with the stream's `eofbit` and `failbit`.
use real_time_system_metrics.Base.{
  ℕ, ◌+◌, ◌-◌, ◌*◌, ◌^◌, Bool, true, false, not, ◌&&◌, [], ◌∷◌, ◌++◌, Option, none, some, Bytes,
  ltb, ◌==◌, if◌then◌else◌,
}
use real_time_system_metrics.CppStd.Chars.{is_space, is_digit}
use real_time_system_metrics.CppStd.Numbers.{skip_space}

pub record Stream : Type 0 where
  pub rest : Bytes
  pub eof : Bool
  pub fail : Bool

abbrev pub stream_of : Bytes → Stream
stream_of text = record { rest = text; eof = false; fail = false }

abbrev pub good : Stream → Bool
good s = not s.eof && not s.fail

abbrev pub failed : Stream → Stream
failed s = record s { fail = true }

-- Behind an extraction that stopped at `rest`.
abbrev pub stopped_at : Bytes → Bool → Stream
stopped_at [] fail = record { rest = []; eof = true; fail = fail }
stopped_at (c ∷ s) fail = record { rest = c ∷ s; eof = false; fail = fail }

-- The bytes up to the next space.
unfoldable pub word_loop : Bytes → Bytes → Bytes × Bytes
word_loop word [] = (word, [])
word_loop word (c ∷ s) = elim (is_space c) [
  | true ↦ (word, c ∷ s)
  | false ↦ word_loop (word ++ c ∷ []) s
]

-- `none` leaves the variable as it was.
unfoldable pub word_at : Bytes → Option Bytes × Stream
unfolding word_loop
word_at [] = (none, stopped_at [] true)
word_at (c ∷ s) = let (word, rest) = word_loop [] (c ∷ s) in (some word, stopped_at rest false)

unfoldable pub read_word : Stream → Option Bytes × Stream
unfolding word_at skip_space
read_word s = if good s then word_at (skip_space s.rest) else (none, failed s)

-- The digits at the start of a text behind those of `n`, and the rest.
unfoldable pub digits_loop : ℕ → Bytes → ℕ × Bytes
digits_loop n [] = (n, [])
digits_loop n (c ∷ s) = elim (is_digit c) [
  | true ↦ digits_loop (n * 10 + (c - b'0')) s
  | false ↦ (n, c ∷ s)
]

-- What is stored: the number if it fits; else the largest `uint64_t`, with `failbit`. A minus sign
-- negates modulo 2^64.
abbrev pub stored : Bool → ℕ → Bytes → ℕ × Stream
stored negative n rest =
    if ltb n (2 ^ 64)
    then (if negative && ltb 0 n then 2 ^ 64 - n else n, stopped_at rest false)
    else (2 ^ 64 - 1, stopped_at rest true)

-- Behind the sign: without a digit, 0 is stored with `failbit`.
abbrev pub unsigned_at : Bool → Bytes → ℕ × Stream
unsigned_at negative [] = (0, stopped_at [] true)
unsigned_at negative (c ∷ s) =
    let (n, rest) = digits_loop 0 (c ∷ s) in
    if is_digit c then stored negative n rest else (0, stopped_at (c ∷ s) true)

unfoldable pub number_at : Bytes → ℕ × Stream
unfolding digits_loop
number_at [] = (0, stopped_at [] true)
number_at (c ∷ s) =
    if c == b'-'
    then unsigned_at true s
    else if c == b'+'
    then unsigned_at false s
    else unsigned_at false (c ∷ s)

-- `s >> x`, with the value of `x` before: no text is read unless the stream is good, and `x` is kept
-- where nothing but spaces is left.
unfoldable pub read_u64 : ℕ → Stream → ℕ × Stream
unfolding number_at skip_space
read_u64 x s =
    if good s
    then elim (skip_space s.rest) [ [] ↦ (x, stopped_at [] true) | c ∷ t ↦ number_at (c ∷ t) ]
    else (x, failed s)
