-- ===== src/CppStd/Range.antt =====
-- What is read as a `uint64_t` fits in 64 bits.
use real_time_system_metrics.Base.{
  ℕ, ◌^◌, ◌<◌, Bool, true, false, [], ◌∷◌, Bytes, arith, Bool-cases, inl, inr,
}
use real_time_system_metrics.CppStd.Numbers.{skip_space}
use real_time_system_metrics.CppStd.Stream.{
  Stream, good, stopped_at, digits_loop, stored, unsigned_at, number_at, read_u64,
}

stored-lt : (negative : Bool) (n : ℕ) (rest : Bytes) → (stored negative n rest).0 < 2 ^ 64
stored-lt negative n rest = ground arith

unsigned_at-lt : (negative : Bool) (s : Bytes) → (unsigned_at negative s).0 < 2 ^ 64
unsigned_at-lt negative [] = omega arith
unsigned_at-lt negative (c ∷ s) =
    let (n, rest) = digits_loop 0 (c ∷ s) in ground (arith, stored-lt negative n rest)

number_at-lt : (s : Bytes) → (number_at s).0 < 2 ^ 64
unfolding number_at
number_at-lt [] = omega arith
number_at-lt (c ∷ s) =
    ground (arith, unsigned_at-lt true s, unsigned_at-lt false s, unsigned_at-lt false (c ∷ s))

number_or_kept-lt :
    (x : ℕ) (s : Bytes)
    → x < 2 ^ 64
    → (elim s as (λ _. ℕ × Stream) [ [] ↦ (x, stopped_at [] true) | c ∷ t ↦ number_at (c ∷ t) ]).0
      < 2 ^ 64
number_or_kept-lt x [] h = h
number_or_kept-lt x (c ∷ s) h = number_at-lt (c ∷ s)

pub read_u64-lt : (x : ℕ) (s : Stream) → x < 2 ^ 64 → (read_u64 x s).0 < 2 ^ 64
unfolding read_u64
read_u64-lt x s h = elim (Bool-cases (good s)) [
  | inl g ↦ rw g (number_or_kept-lt x (skip_space s.rest) h)
  | inr g ↦ rw g h
]
