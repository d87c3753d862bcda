-- ===== src/Proc/Written.antt =====
-- What `read_linux_process_io` makes of /proc/<pid>/io as the kernel writes it.
use real_time_system_metrics.Base.{
  ℕ, zero, suc, ◌+◌, ◌<◌, ◌≡◌, refl, ap, ◌∙◌, List, [], ◌∷◌, ◌++◌, some, Bytes, codes, bytes_eq,
  length, All, arith,
}
use real_time_system_metrics.Double.{Double}
use real_time_system_metrics.CppStd.Numbers.{to_string}
use real_time_system_metrics.CppStd.Stream.{Stream, stream_of, read_word, read_u64}
use real_time_system_metrics.CppStd.Reading.{
  padded, read_word-word, read_word-space, read_u64-padded,
}
use real_time_system_metrics.CppStd.Keyed.{
  KeyLine, IsKeyLine, keyed_text, last_value, last_values, store_two-last, read_word-end,
  keyed_text-length,
}
use real_time_system_metrics.Proc.Files.{
  IoBytes, store_io, io_loop, megabytes, read_linux_process_io,
}

-- /proc/<pid>/io
abbrev pub counters_text : List KeyLine → Bytes
counters_text ls = keyed_text (codes "\n") ls []

io_loop-round :
    (fuel : ℕ) (s : Stream) {s₁ : Stream} {key rest : Bytes} {value : ℕ} (bytes : IoBytes)
    → read_word s ≡ (some key, s₁)
    → read_u64 0 s₁ ≡ (value, stream_of rest)
    → io_loop (suc fuel) s bytes ≡ io_loop fuel (stream_of rest) (store_io key value bytes)
unfolding io_loop
io_loop-round fuel s {key = key} bytes e f =
    let value_at = ap (λ p. read_u64 0 p.1) e ∙ f in
    rw (ap (λ p. p.0) e, ap (λ p. p.1.fail) value_at, io_loop)
      (ap (λ p. io_loop fuel p.1 (store_io key p.0 bytes)) value_at)

io_loop-text :
    (fuel : ℕ) (s : Stream) (ls : List KeyLine) (bytes : IoBytes)
    → read_word s ≡ read_word (stream_of (counters_text ls))
    → length ls < fuel
    → All IsKeyLine ls
    → io_loop fuel s bytes ≡ last_values (codes "read_bytes:") (codes "write_bytes:") ls bytes
unfolding io_loop bytes_eq
io_loop-text zero s ls bytes e less h = absurd (omega (arith, less))
io_loop-text (suc fuel) s [] bytes e less h = rw (ap (λ p. p.0) e ∙ read_word-end, io_loop)
io_loop-text (suc fuel) s (l ∷ ls) bytes e less ((word, fits), hs) =
    let rest : Bytes = b'\n' ∷ counters_text ls in
    io_loop-round fuel s bytes
      (e ∙ read_word-word l.key b' ' (padded l.pad (to_string l.value ++ rest)) refl word)
      (read_u64-padded 0 l.pad l.value rest fits refl)
    ∙ io_loop-text fuel (stream_of rest) ls (store_io l.key l.value bytes)
        (read_word-space b'\n' (counters_text ls) refl) (omega (arith, less)) hs
    ∙ store_two-last (codes "read_bytes:") (codes "write_bytes:") l ls bytes refl

module _ {W : Type 0} ⦃d : Double W⦄ where
  -- `read_linux_process_io` on /proc/<pid>/io as the kernel writes it: from lines of a key, spaces and a
  -- number of 64 bits, it gets the numbers of the last lines with the keys read_bytes: and
  -- write_bytes: in megabytes, or 0 where there is no such line.
  pub read_linux_process_io-counters_text :
      (ls : List KeyLine)
      → All IsKeyLine ls
      → read_linux_process_io {W = W} (some (counters_text ls)) ≡ (
        megabytes (last_value (codes "read_bytes:") ls 0),
        megabytes (last_value (codes "write_bytes:") ls 0),
      )
  unfolding read_linux_process_io
  read_linux_process_io-counters_text ls h =
      ap (λ (b : IoBytes). (megabytes b.0, megabytes b.1))
        (io_loop-text (length (counters_text ls) + 1) (stream_of (counters_text ls)) ls (0, 0) refl
          (omega (arith, keyed_text-length (codes "\n") ls [])) h)
