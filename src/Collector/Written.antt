-- ===== src/Collector/Written.antt =====
-- What `get_system_memory` makes of /proc/meminfo as the kernel writes it.
use real_time_system_metrics.Base.{
  none, ◌≢◌, true, bytes_eq_sound, bytes_eq, false, Bool-cases, inl, inr, length-append, ◌≤◌, ℕ,
  zero, suc, ◌+◌, ◌≡◌, refl, ap, ◌∙◌, List, [], ◌∷◌, ◌++◌, some, Bytes, codes, bytes_eq, length,
  All, arith,
}
use real_time_system_metrics.Double.{Double}
use real_time_system_metrics.CppStd.Numbers.{to_string}
use real_time_system_metrics.CppStd.Stream.{Stream, stream_of, read_word, read_u64}
use real_time_system_metrics.CppStd.Reading.{
  to_string-IsWord, read_word-padded, is_letter, read_u64-letter, read_word-failed, padded,
  read_word-word, read_word-space, read_u64-padded,
}
use real_time_system_metrics.CppStd.Keyed.{
  KeyLine, IsKeyLine, keyed_text, last_value, last_values, store_two-last, read_word-end,
  keyed_text-length,
}
use real_time_system_metrics.Collector.Memory.{
  MemoryKb, store_memory, meminfo_loop, memory_mb, get_system_memory,
}

-- What follows the lines with a unit: nothing, or lines without one, as those of the huge pages. There are
-- three of them at least, and the third begins with a letter.
pub data MemoryTail : Type 0 where
  no_more : MemoryTail
  huge_pages : (first second : KeyLine) (letter : ℕ) (rest : Bytes) → MemoryTail

abbrev pub tail_text : MemoryTail → Bytes
tail_text no_more = []
tail_text (huge_pages a b letter rest) =
    a.key
    ++ b' '
      ∷ padded a.pad (
          to_string a.value
          ++ b'\n' ∷ (b.key ++ b' ' ∷ padded b.pad (to_string b.value ++ b'\n' ∷ letter ∷ rest)))

-- The first line without a unit is not one of the two that are read.
abbrev pub IsMemoryTail : MemoryTail → Type 0
IsMemoryTail no_more = Unit
IsMemoryTail (huge_pages a b letter rest) =
    IsKeyLine a
    × IsKeyLine b
    × (is_letter letter ≡ true)
    × (a.key ≢ codes "MemTotal:")
    × (a.key ≢ codes "MemAvailable:")

-- /proc/meminfo
abbrev pub memory_text : List KeyLine → MemoryTail → Bytes
memory_text ls tail = keyed_text (codes " kB\n") ls (tail_text tail)

meminfo_loop-round :
    (fuel : ℕ) (s : Stream) {s₁ s₂ s₃ : Stream} {key unit : Bytes} {value : ℕ} (kb : MemoryKb)
    → read_word s ≡ (some key, s₁)
    → read_u64 0 s₁ ≡ (value, s₂)
    → read_word s₂ ≡ (some unit, s₃)
    → meminfo_loop (suc fuel) s kb ≡ meminfo_loop fuel s₃ (store_memory key value kb)
unfolding meminfo_loop
meminfo_loop-round fuel s {s₃ = s₃} {key = key} kb e f g =
    let value_at = ap (λ p. read_u64 0 p.1) e ∙ f in
    let unit_at = ap (λ p. read_word p.1) value_at ∙ g in
    rw (ap (λ p. p.0) e, ap (λ p. p.0) unit_at, meminfo_loop)
      (ap (λ p. meminfo_loop fuel p.1 (store_memory key (read_u64 0 (read_word s).1).0 kb)) unit_at
        ∙ ap (λ p. meminfo_loop fuel s₃ (store_memory key p.0 kb)) value_at)

-- What the lines leave in the two variables.
abbrev last_sizes : List KeyLine → MemoryKb → MemoryKb
last_sizes = last_values (codes "MemTotal:") (codes "MemAvailable:")

bytes_eq-other : (s t : Bytes) → s ≢ t → bytes_eq s t ≡ false
bytes_eq-other s t h = elim (Bool-cases (bytes_eq s t)) [
  | inl e ↦ absurd (h (bytes_eq_sound s t e))
  | inr e ↦ e
]

-- A round in which no unit comes ends the loop.
meminfo_loop-last :
    (fuel : ℕ) (s : Stream) {s₁ s₂ : Stream} {key : Bytes} {value : ℕ} (kb : MemoryKb)
    → read_word s ≡ (some key, s₁)
    → read_u64 0 s₁ ≡ (value, s₂)
    → (read_word s₂).0 ≡ none
    → meminfo_loop (suc fuel) s kb ≡ kb
unfolding meminfo_loop
meminfo_loop-last fuel s kb e f g =
    let value_at = ap (λ p. read_u64 0 p.1) e ∙ f in
    rw (ap (λ p. p.0) e, ap (λ p. (read_word p.1).0) value_at ∙ g, meminfo_loop)

-- How many rounds the tail takes.
abbrev rounds : MemoryTail → ℕ
rounds no_more = 1
rounds (huge_pages a b letter rest) = 2

-- The key of the second line is taken for a unit, and its number for a key, behind which no number comes.
meminfo_loop-tail :
    (fuel : ℕ) (s : Stream) (tail : MemoryTail) (kb : MemoryKb)
    → read_word s ≡ read_word (stream_of (tail_text tail))
    → rounds tail ≤ fuel
    → IsMemoryTail tail
    → meminfo_loop fuel s kb ≡ kb
unfolding meminfo_loop
meminfo_loop-tail zero s no_more kb e less h = absurd (omega (arith, less))
meminfo_loop-tail (suc fuel) s no_more kb e less h =
    rw (ap (λ p. p.0) e ∙ read_word-end, meminfo_loop)
meminfo_loop-tail zero s (huge_pages a b letter rest) kb e less h = absurd (omega (arith, less))
meminfo_loop-tail (suc zero) s (huge_pages a b letter rest) kb e less h =
    absurd (omega (arith, less))
meminfo_loop-tail (suc (suc fuel)) s (huge_pages a b letter rest) kb e less (ha, hb, hl, ht, hm) =
    let last : Bytes = b'\n' ∷ letter ∷ rest in
    let number : Bytes = to_string b.value ++ last in
    let behind : Bytes = b'\n' ∷ (b.key ++ b' ' ∷ padded b.pad number) in
    let total = bytes_eq-other a.key (codes "MemTotal:") ht in
    let available = bytes_eq-other a.key (codes "MemAvailable:") hm in
    let kept : store_memory a.key a.value kb ≡ kb = rw (total, available) in
    meminfo_loop-round (suc fuel) s kb
      (e ∙ read_word-word a.key b' ' (padded a.pad (to_string a.value ++ behind)) refl ha.0)
      (read_u64-padded 0 a.pad a.value behind ha.1 refl)
      (read_word-space b'\n' (b.key ++ b' ' ∷ padded b.pad number) refl
        ∙ read_word-word b.key b' ' (padded b.pad number) refl hb.0)
    ∙ meminfo_loop-last fuel (stream_of (b' ' ∷ padded b.pad number))
        (store_memory a.key a.value kb)
        (read_word-space b' ' (padded b.pad number) refl
          ∙ read_word-padded b.pad number
          ∙ read_word-word (to_string b.value) b'\n' (letter ∷ rest) refl
              (to_string-IsWord b.value))
        (read_u64-letter 0 b'\n' letter rest refl hl) (read_word-failed (letter ∷ rest))
    ∙ kept

meminfo_loop-text :
    (fuel : ℕ) (s : Stream) (ls : List KeyLine) (tail : MemoryTail) (kb : MemoryKb)
    → read_word s ≡ read_word (stream_of (memory_text ls tail))
    → length ls + rounds tail ≤ fuel
    → All IsKeyLine ls
    → IsMemoryTail tail
    → meminfo_loop fuel s kb ≡ last_sizes ls kb
unfolding bytes_eq
meminfo_loop-text fuel s [] tail kb e less h t =
    meminfo_loop-tail fuel s tail kb e (omega (arith, less)) t
meminfo_loop-text zero s (l ∷ ls) tail kb e less h t = absurd (omega (arith, less))
meminfo_loop-text (suc fuel) s (l ∷ ls) tail kb e less ((word, fits), hs) t =
    let rest = memory_text ls tail in
    let unit : Bytes = codes " kB\n" ++ rest in
    meminfo_loop-round fuel s kb
      (e ∙ read_word-word l.key b' ' (padded l.pad (to_string l.value ++ unit)) refl word)
      (read_u64-padded 0 l.pad l.value unit fits refl)
      (read_word-space b' ' (codes "kB\n" ++ rest) refl
        ∙ read_word-word (codes "kB") b'\n' rest refl (refl, (refl, tt)))
    ∙ meminfo_loop-text fuel (stream_of (b'\n' ∷ rest)) ls tail (store_memory l.key l.value kb)
        (read_word-space b'\n' rest refl) (omega (arith, less)) hs t
    ∙ store_two-last (codes "MemTotal:") (codes "MemAvailable:") l ls kb refl

tail_text-length : (tail : MemoryTail) → rounds tail ≤ length (tail_text tail) + 1
tail_text-length no_more = omega arith
tail_text-length (huge_pages a b letter rest) = omega (
  arith,
  length-append {0} a.key (
      b' '
      ∷ padded a.pad (
          to_string a.value
          ++ b'\n' ∷ (b.key ++ b' ' ∷ padded b.pad (to_string b.value ++ b'\n' ∷ letter ∷ rest)))),
)

module _ {W : Type 0} ⦃d : Double W⦄ where
  -- `get_system_memory` on /proc/meminfo as the kernel writes it: lines of a key, spaces, a number of 64
  -- bits and the unit, and behind them nothing, or three lines or more without a unit, as those of the huge
  -- pages, of which the third begins with a letter, and whatever follows. It computes the memory from
  -- the numbers of the last lines before these with the keys MemTotal: and MemAvailable:, or 0 where there
  -- is no such line; it does not read on behind the second line without a unit.
  pub get_system_memory-memory_text :
      (ls : List KeyLine) (tail : MemoryTail)
      → All IsKeyLine ls
      → IsMemoryTail tail
      → get_system_memory {W = W} (some (memory_text ls tail))
        ≡ memory_mb (last_value (codes "MemTotal:") ls 0, last_value (codes "MemAvailable:") ls 0)
  unfolding get_system_memory
  get_system_memory-memory_text ls tail h t =
      let text = memory_text ls tail in
      let long = keyed_text-length (codes " kB\n") ls (tail_text tail) in
      ap memory_mb (
        meminfo_loop-text (length text + 1) (stream_of text) ls tail (0, 0) refl
          (omega (arith, long, tail_text-length tail)) h t)
