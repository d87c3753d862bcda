-- ===== src/Proc/Loops.antt =====
-- The loop of `read_linux_process_io`, as it runs in C++: with no fuel.
use real_time_system_metrics.Base.{
  ℕ, zero, suc, ◌+◌, ◌<◌, ◌≡◌, true, false, none, some, Bytes, length, arith, Bool-cases,
  Option-cases, inl, inr,
}
use real_time_system_metrics.CppStd.Stream.{Stream, stream_of, read_word, read_u64}
use real_time_system_metrics.CppStd.Progress.{read_word-lt, read_u64-le}
use real_time_system_metrics.Proc.Files.{IoBytes, store_io, io_loop}

-- `while (io_file >> key >> value)` from a stream and the variables ends with these variables. A run is
-- a finite number of rounds.
pub data IoRun : Stream → IoBytes → IoBytes → Type 0 where
  no_key : (s : Stream) (bytes : IoBytes) → (read_word s).0 ≡ none → IoRun s bytes bytes
  no_value :
      (s : Stream) (bytes : IoBytes) {key : Bytes}
      → (read_word s).0 ≡ some key
      → (read_u64 0 (read_word s).1).1.fail ≡ true
      → IoRun s bytes bytes
  round :
      (s : Stream) (bytes : IoBytes) {key : Bytes} {bytes' : IoBytes}
      → (read_word s).0 ≡ some key
      → (read_u64 0 (read_word s).1).1.fail ≡ false
      → IoRun
          (read_u64 0 (read_word s).1).1
          (store_io key (read_u64 0 (read_word s).1).0 bytes)
          bytes'
      → IoRun s bytes bytes'

-- With more fuel than text, the model's loop runs to the end of the loop of the code.
io_loop_of_fuel :
    (fuel : ℕ) (s : Stream) (bytes : IoBytes)
    → length s.rest < fuel
    → IoRun s bytes (io_loop fuel s bytes)
unfolding io_loop
io_loop_of_fuel zero s bytes h = absurd (omega arith)
io_loop_of_fuel (suc fuel) s bytes h = elim (Option-cases (read_word s).0) [
  | inl e ↦ rw (e, io_loop) (no_key s bytes e)
  | inr (key, e) ↦
      let v = read_u64 0 (read_word s).1 in
      rw (e, io_loop)
        (elim (Bool-cases v.1.fail) [
          | inl f ↦ rw f (no_value s bytes e f)
          | inr f ↦ rw f (
              round s bytes e f (
                io_loop_of_fuel fuel v.1 (store_io key v.0 bytes)
                  (omega (arith, read_word-lt s e, read_u64-le 0 (read_word s).1))))
        ])
]

-- The loop over /proc/<pid>/io ends on every text, and the model's fuel is enough to reach its end: what
-- the model returns is what the rounds of the loop leave in `read_bytes` and `write_bytes`.
pub io_loop-IoRun :
    (text : Bytes)
    → IoRun (stream_of text) (0, 0) (io_loop (length text + 1) (stream_of text) (0, 0))
io_loop-IoRun text = io_loop_of_fuel (length text + 1) (stream_of text) (0, 0) (omega arith)
