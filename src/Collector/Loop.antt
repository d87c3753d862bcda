-- ===== src/Collector/Loop.antt =====
-- The loop of `get_system_memory`, as it runs in C++: with no fuel.
use real_time_system_metrics.Base.{
  ℕ, zero, suc, ◌+◌, ◌<◌, ◌≡◌, none, some, Bytes, length, arith, Option-cases, inl, inr,
}
use real_time_system_metrics.CppStd.Stream.{Stream, stream_of, read_word, read_u64}
use real_time_system_metrics.CppStd.Progress.{read_word-lt, read_u64-le}
use real_time_system_metrics.Collector.Memory.{MemoryKb, store_memory, meminfo_loop}

-- `while (meminfo_file >> key >> value >> unit)` from a stream and the variables ends with these
-- variables. A run is
-- a finite number of rounds.
pub data MeminfoRun : Stream → MemoryKb → MemoryKb → Type 0 where
  no_key : (s : Stream) (kb : MemoryKb) → (read_word s).0 ≡ none → MeminfoRun s kb kb
  no_unit :
      (s : Stream) (kb : MemoryKb) {key : Bytes}
      → (read_word s).0 ≡ some key
      → (read_word (read_u64 0 (read_word s).1).1).0 ≡ none
      → MeminfoRun s kb kb
  round :
      (s : Stream) (kb : MemoryKb) {key unit : Bytes} {kb' : MemoryKb}
      → (read_word s).0 ≡ some key
      → (read_word (read_u64 0 (read_word s).1).1).0 ≡ some unit
      → MeminfoRun
          (read_word (read_u64 0 (read_word s).1).1).1
          (store_memory key (read_u64 0 (read_word s).1).0 kb)
          kb'
      → MeminfoRun s kb kb'

-- With more fuel than text, the model's loop runs to the end of the loop of the code.
meminfo_loop_of_fuel :
    (fuel : ℕ) (s : Stream) (kb : MemoryKb)
    → length s.rest < fuel
    → MeminfoRun s kb (meminfo_loop fuel s kb)
unfolding meminfo_loop
meminfo_loop_of_fuel zero s kb h = absurd (omega arith)
meminfo_loop_of_fuel (suc fuel) s kb h = elim (Option-cases (read_word s).0) [
  | inl e ↦ rw (e, meminfo_loop) (no_key s kb e)
  | inr (key, e) ↦
      let v = read_u64 0 (read_word s).1 in
      rw (e, meminfo_loop)
        (elim (Option-cases (read_word v.1).0) [
          | inl f ↦ rw f (no_unit s kb e f)
          | inr (unit, f) ↦ rw f (
              round s kb e f (
                meminfo_loop_of_fuel fuel (read_word v.1).1 (store_memory key v.0 kb) (
                  omega
                    (arith, read_word-lt s e, read_u64-le 0 (read_word s).1, read_word-lt v.1 f))))
        ])
]

-- The loop over /proc/meminfo ends on every text, and the model's fuel is enough to reach its end: what
-- the model returns is what the rounds of the loop leave in `mem_total_kb` and `mem_available_kb`.
pub meminfo_loop-MeminfoRun :
    (text : Bytes)
    → MeminfoRun (stream_of text) (0, 0) (meminfo_loop (length text + 1) (stream_of text) (0, 0))
meminfo_loop-MeminfoRun text =
    meminfo_loop_of_fuel (length text + 1) (stream_of text) (0, 0) (omega arith)
