-- ===== src/Proc/Finite.antt =====
-- The numbers in a snapshot of the processes are finite.
use mathlib.Core.Path.{subst}
use real_time_system_metrics.Base.{
  ℕ, zero, suc, ◌+◌, ◌^◌, ◌<◌, ◌≡◌, List, Option, none, some, Bytes, arith, Bool-cases,
  Option-cases, inl, inr, ℤ, pos, negsuc, ◌<ℤ◌, length,
}
use real_time_system_metrics.Double.{Double, IsIeee}
use real_time_system_metrics.Double.Range.{IsWithin, IsRanged, of_nat-IsWithin, le-IsWithin}
use real_time_system_metrics.CppStd.Stream.{Stream, stream_of, read_word, read_u64}
use real_time_system_metrics.CppStd.Range.{read_u64-lt}
use real_time_system_metrics.Processes.{ProcessSnapshot}
use real_time_system_metrics.Proc.Stat.{stat_fields, read_linux_process_stat}
use real_time_system_metrics.Proc.Files.{
  IoBytes, store_io, io_loop, megabytes, read_linux_process_io,
}
use real_time_system_metrics.Proc.{
  ProcessFiles, memory_of, snapshot_of, collect_linux_process_snapshot,
}
use real_time_system_metrics.Proc.Snapshot.{
  AreWords, read_linux_process_stat-AreWords, IsEach, collect_linux_process_snapshot-IsEach,
}

-- Two counters of 64 bits.
abbrev AreCounters : IoBytes → Type 0
AreCounters b = (b.0 < 2 ^ 64) × (b.1 < 2 ^ 64)

store_io-AreCounters :
    (key : Bytes) (value : ℕ) (b : IoBytes)
    → value < 2 ^ 64
    → AreCounters b
    → AreCounters (store_io key value b)
store_io-AreCounters key value b h k = ground arith

io_loop-AreCounters :
    (fuel : ℕ) (s : Stream) (b : IoBytes) → AreCounters b → AreCounters (io_loop fuel s b)
unfolding io_loop
io_loop-AreCounters zero s b h = h
io_loop-AreCounters (suc fuel) s b h = elim (Option-cases (read_word s).0) [
  | inl e ↦ rw (e, io_loop) h
  | inr (key, e) ↦
      let v = read_u64 0 (read_word s).1 in
      rw (e, io_loop)
        (elim (Bool-cases v.1.fail) [
          | inl f ↦ rw f h
          | inr f ↦ rw f (
              io_loop-AreCounters fuel v.1 (store_io key v.0 b)
                (store_io-AreCounters key v.0 b (read_u64-lt 0 (read_word s).1 (omega arith)) h))
        ])
]

module _ {W : Type 0} ⦃d : Double W⦄ where
  -- A number from 0 to 2^128.
  abbrev pub IsFinite : W → Type 0
  IsFinite = IsWithin (2 ^ 128)

  -- A process whose numbers are finite and whose name satisfies `P`.
  pub record IsFiniteEntry (P : Bytes → Type 0) (e : ℕ × ProcessSnapshot W) : Type 0 where
    pub name : P e.1.name
    pub word : e.1.cpu_time < 2 ^ 64
    pub memory_mb : IsFinite e.1.memory_mb
    pub io_read_mb : IsFinite e.1.io_read_mb
    pub io_write_mb : IsFinite e.1.io_write_mb

  module _ (laws : IsIeee W) (ranged : IsRanged W) where
    pub zero-IsFinite : IsFinite (d.of_nat 0)
    zero-IsFinite = of_nat-IsWithin laws 0 (2 ^ 128) (omega arith)

    -- A quotient of two numbers of 64 bits
    pub quotient-IsFinite :
        (a b : ℕ)
        → a < 2 ^ 64
        → 0 < b
        → b < 2 ^ 64
        → IsWithin (2 ^ 64) (d.div (d.of_nat a) (d.of_nat b))
    quotient-IsFinite a b h k l =
        ranged.div-IsWithin (2 ^ 64) (d.of_nat a) b (omega arith)
          (of_nat-IsWithin laws a (2 ^ 64) (omega (arith, h))) k l

    megabytes-IsFinite : (n : ℕ) → n < 2 ^ 64 → IsFinite (megabytes n)
    megabytes-IsFinite n h =
        rw (laws.megabyte, megabytes)
          (le-IsWithin laws (omega arith)
            (quotient-IsFinite n 1_048_576 h (omega arith) (omega arith)))

    memory_of-IsFinite :
        (page_size : ℤ) (rss : ℕ)
        → page_size <ℤ pos (2 ^ 64)
        → rss < 2 ^ 64
        → IsFinite (memory_of page_size rss)
    memory_of-IsFinite (pos zero) rss k h = zero-IsFinite
    memory_of-IsFinite (negsuc n) rss k h = zero-IsFinite
    memory_of-IsFinite (pos (suc n)) rss k h =
        rw (laws.megabyte, memory_of)
          (ranged.div-IsWithin (2 ^ 128) _ 1_048_576 (omega arith)
            (ranged.mul-IsWithin (d.of_nat rss) (d.of_nat (suc n))
              (of_nat-IsWithin laws rss (2 ^ 64) (omega (arith, h)))
              (of_nat-IsWithin laws (suc n) (2 ^ 64) (omega (arith, k))))
            (omega arith) (omega arith))

    read_linux_process_io-IsFinite :
        (file : Option Bytes)
        → let io = read_linux_process_io {W = W} file in IsFinite io.0 × IsFinite io.1
    unfolding read_linux_process_io
    read_linux_process_io-IsFinite none = (zero-IsFinite, zero-IsFinite)
    read_linux_process_io-IsFinite (some text) =
        let words =
          io_loop-AreCounters (length text + 1) (stream_of text) (0, 0)
            (omega arith, omega arith) in
        (megabytes-IsFinite _ words.0, megabytes-IsFinite _ words.1)

    module _ (P : Bytes → Type 0) (page_size : ℤ) (fits : page_size <ℤ pos (2 ^ 64))
        (files : ℕ → ProcessFiles)
        (named : (pid : ℕ) (name : Bytes) (cpu_time rss : ℕ)
          → read_linux_process_stat (files pid).stat ≡ stat_fields name cpu_time rss
          → P name) where
      entry-IsFiniteEntry :
          (pid : ℕ) (name : Bytes) (cpu_time rss : ℕ)
          → read_linux_process_stat (files pid).stat ≡ stat_fields name cpu_time rss
          → IsFiniteEntry P (pid, snapshot_of page_size pid (files pid) name cpu_time rss)
      unfolding snapshot_of
      entry-IsFiniteEntry pid name cpu_time rss e =
          let words = subst AreWords e (read_linux_process_stat-AreWords (files pid).stat) in
          let io = read_linux_process_io-IsFinite (files pid).io in
          record {
            name = named pid name cpu_time rss e;
            word = words.0;
            memory_mb = memory_of-IsFinite page_size rss fits words.1;
            io_read_mb = io.0;
            io_write_mb = io.1;
          }

      pub collect_linux_process_snapshot-AreFinite :
          (entries : List Bytes)
          → IsEach (IsFiniteEntry P) (collect_linux_process_snapshot page_size files entries)
      collect_linux_process_snapshot-AreFinite entries =
          collect_linux_process_snapshot-IsEach page_size files (IsFiniteEntry P)
            entry-IsFiniteEntry entries
