-- ===== src/Collector/Bounds.antt =====
-- The memory that is used lies between 0 and the total, whatever /proc/meminfo holds.
use real_time_system_metrics.Base.{
  ℕ, zero, suc, ◌+◌, ◌^◌, ◌<◌, Option, none, some, Bytes, length, arith, Option-cases, inl, inr,
}
use real_time_system_metrics.Double.{Double, IsIeee, IsNum, IsAtMost, max_value}
use real_time_system_metrics.CppStd.Stream.{Stream, stream_of, read_word, read_u64}
use real_time_system_metrics.CppStd.Range.{read_u64-lt}
use real_time_system_metrics.Collector.Memory.{
  MemoryKb, store_memory, meminfo_loop, memory_mb, get_system_memory,
}

-- Two sizes of 64 bits.
abbrev pub AreWords : MemoryKb → Type 0
AreWords kb = (kb.0 < 2 ^ 64) × (kb.1 < 2 ^ 64)

store_memory-AreWords :
    (key : Bytes) (value : ℕ) (kb : MemoryKb)
    → value < 2 ^ 64
    → AreWords kb
    → AreWords (store_memory key value kb)
store_memory-AreWords key value kb h k = ground arith

pub meminfo_loop-AreWords :
    (fuel : ℕ) (s : Stream) (kb : MemoryKb) → AreWords kb → AreWords (meminfo_loop fuel s kb)
unfolding meminfo_loop
meminfo_loop-AreWords zero s kb h = h
meminfo_loop-AreWords (suc fuel) s kb h = elim (Option-cases (read_word s).0) [
  | inl e ↦ rw (e, meminfo_loop) h
  | inr (key, e) ↦
      let v = read_u64 0 (read_word s).1 in
      rw (e, meminfo_loop)
        (elim (Option-cases (read_word v.1).0) [
          | inl f ↦ rw f h
          | inr (unit, f) ↦ rw f (
              meminfo_loop-AreWords fuel (read_word v.1).1 (store_memory key v.0 kb)
                (store_memory-AreWords key v.0 kb (read_u64-lt 0 (read_word s).1 (omega arith)) h))
        ])
]

module _ {W : Type 0} ⦃d : Double W⦄ where
  -- The total and the used memory, each not negative and the second not above the first.
  abbrev pub IsPart : W × W → Type 0
  IsPart (total, used) = IsAtMost (d.of_nat 0) used × IsAtMost used total

  module _ (laws : IsIeee W) where
    open laws use {lt_irrefl, quotient-IsNum, quotient-IsAtMost, sub-IsAtMost}

    pub zero-IsPart : IsPart (d.of_nat 0, d.of_nat 0)
    zero-IsPart = (lt_irrefl (d.of_nat 0), lt_irrefl (d.of_nat 0))

    pub max_value-IsPart :
        (total available : W)
        → IsNum total
        → IsAtMost (d.of_nat 0) total
        → IsAtMost (d.of_nat 0) available
        → IsPart (total, max_value (d.of_nat 0) (d.sub total available))
    max_value-IsPart total available h k l =
        ground (arith, lt_irrefl (d.of_nat 0), sub-IsAtMost total available h l)

    memory_mb-IsPart : (kb : MemoryKb) → AreWords kb → IsPart (memory_mb kb)
    unfolding memory_mb
    memory_mb-IsPart (total, available) (h, k) =
        max_value-IsPart _ _ (quotient-IsNum total 1024 h (omega arith) (omega arith))
          (quotient-IsAtMost total 1024 h (omega arith) (omega arith))
          (quotient-IsAtMost available 1024 k (omega arith) (omega arith))

    pub get_system_memory-IsPart : (file : Option Bytes) → IsPart (get_system_memory file)
    unfolding get_system_memory
    get_system_memory-IsPart none = zero-IsPart
    get_system_memory-IsPart (some text) =
        memory_mb-IsPart _
          (meminfo_loop-AreWords (length text + 1) (stream_of text) (0, 0) (omega arith))
