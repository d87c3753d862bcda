-- ===== src/Collector/Finite.antt =====
-- The numbers of a snapshot that `collect` returns are finite.
use mathlib.Core.Path.{subst}
use real_time_system_metrics.Base.{
  ℕ, ◌+◌, IfAny, ◌^◌, ◌<◌, ◌≡◌, Option, none, some, Bytes, length, All, All-mono, arith, Bool-cases,
  Option-cases, inl, inr, pos, ◌<ℤ◌,
}
use real_time_system_metrics.Double.{Double, IsIeee, max_value}
use real_time_system_metrics.Double.Range.{IsRanged, le-IsWithin}
use real_time_system_metrics.CppStd.Stream.{stream_of}
use real_time_system_metrics.Selection.{MetricsSelection}
use real_time_system_metrics.Cpu.Laws.{IsPercentage, read_linux_cpu_times-IsWord}
use real_time_system_metrics.Processes.{Snapshots}
use real_time_system_metrics.Proc.{collected}
use real_time_system_metrics.Proc.Stat.{stat_fields, read_linux_process_stat}
use real_time_system_metrics.Proc.Snapshot.{IsEach}
use real_time_system_metrics.Proc.Finite.{
  IsFinite, IsFiniteEntry, zero-IsFinite, quotient-IsFinite,
  collect_linux_process_snapshot-AreFinite,
}
use real_time_system_metrics.Processes.Finite.{IsFiniteMetric, top_between-AreFinite}
use real_time_system_metrics.Metrics.{SystemMetrics}
use real_time_system_metrics.Collector.{
  ProcFs, Readings, Statics, snapshot_at, memory_part, process_part, collect,
}
use real_time_system_metrics.Collector.Memory.{MemoryKb, memory_mb, get_system_memory}
use real_time_system_metrics.Collector.Bounds.{AreWords, meminfo_loop-AreWords}
use real_time_system_metrics.Collector.Cases.{process_part-IfAny}
use real_time_system_metrics.Collector.Laws.{collect-IsSane}

-- The names that `stat` gives of the processes all satisfy `P`.
abbrev pub AreNamed : (Bytes → Type 0) → ProcFs → Type 0
AreNamed P fs =
    (pid : ℕ) (name : Bytes) (cpu_time rss : ℕ)
    → read_linux_process_stat (fs.files pid).stat ≡ stat_fields name cpu_time rss
    → P name

module _ {W : Type 0} ⦃d : Double W⦄ where
  -- The total and the used memory are finite.
  abbrev AreFinite : W × W → Type 0
  AreFinite (total, used) = IsFinite total × IsFinite used

  -- All numbers of a snapshot are finite, and the names of its processes satisfy `P`.
  pub record IsFiniteSnapshot (P : Bytes → Type 0) (m : SystemMetrics W) : Type 0 where
    pub total : IsFinite m.total_cpu_percent
    pub cores : All IsFinite m.per_core_cpu_percent
    pub memory_total : IsFinite m.system_memory_total_mb
    pub memory_used : IsFinite m.system_memory_used_mb
    pub processes : All (IsFiniteMetric P) m.top_processes

  module _ (laws : IsIeee W) (ranged : IsRanged W) where
    percentage-IsFinite : (x : W) → IsPercentage x → IsFinite x
    percentage-IsFinite x h = le-IsWithin laws (omega arith) h

    max_value-IsFinite :
        (x y : W) → IsFinite x → IsFinite y → IsFinite (max_value (d.of_nat 0) (d.sub x y))
    max_value-IsFinite x y h k = elim (Bool-cases (d.lt (d.sub x y) (d.of_nat 0))) [
      | inl e ↦ rw e (zero-IsFinite laws ranged)
      | inr e ↦ rw e (ranged.sub-IsNum x y h k, e, ranged.sub-le x y h k)
    ]

    size-IsFinite : (n : ℕ) → n < 2 ^ 64 → IsFinite (d.div (d.of_nat n) (d.of_nat 1024))
    size-IsFinite n h =
        le-IsWithin laws (omega arith)
          (quotient-IsFinite laws ranged n 1024 h (omega arith) (omega arith))

    memory_mb-AreFinite : (kb : MemoryKb) → AreWords kb → AreFinite (memory_mb kb)
    unfolding memory_mb
    memory_mb-AreFinite (total, available) (h, k) =
        let whole = size-IsFinite total h in
        (whole, max_value-IsFinite _ _ whole (size-IsFinite available k))

    get_system_memory-AreFinite : (file : Option Bytes) → AreFinite (get_system_memory file)
    unfolding get_system_memory
    get_system_memory-AreFinite none = (zero-IsFinite laws ranged, zero-IsFinite laws ranged)
    get_system_memory-AreFinite (some text) =
        memory_mb-AreFinite _
          (meminfo_loop-AreWords (length text + 1) (stream_of text) (0, 0) (omega arith))

    memory_part-AreFinite :
        (selection : MetricsSelection) (r : Readings) → AreFinite (memory_part selection r)
    memory_part-AreFinite selection r = elim (Bool-cases selection.system_memory) [
      | inl e ↦ rw e (get_system_memory-AreFinite r.meminfo)
      | inr e ↦ rw e (zero-IsFinite laws ranged, zero-IsFinite laws ranged)
    ]

    snapshot_at-AreFinite :
        (P : Bytes → Type 0) (fs : ProcFs) {es : Snapshots W}
        → fs.page_size <ℤ pos (2 ^ 64)
        → AreNamed P fs
        → snapshot_at fs ≡ collected es
        → All (IsFiniteEntry P) es
    unfolding snapshot_at
    snapshot_at-AreFinite P fs fits named e =
        (subst (IsEach (IsFiniteEntry P)) e (
          collect_linux_process_snapshot-AreFinite laws ranged P fs.page_size fits fs.files named
            fs.entries)).1

    process_part-AreFinite :
        (P : Bytes → Type 0) (selection : MetricsSelection) (r : Readings)
        → r.end_fs.page_size <ℤ pos (2 ^ 64)
        → AreNamed P r.end_fs
        → IfAny (All (IsFiniteMetric {W = W} P)) (process_part selection r)
    process_part-AreFinite P selection r fits named =
        process_part-IfAny (All (IsFiniteMetric P)) selection r tt (λ a b ss es read e.
          top_between-AreFinite laws ranged P selection a b ss es
            (read_linux_cpu_times-IsWord r.stat_end read)
            (snapshot_at-AreFinite P r.end_fs fits named e))

    collect-IfAny :
        (P : Bytes → Type 0) (selection : MetricsSelection) (r : Readings) (s : Statics)
        → r.end_fs.page_size <ℤ pos (2 ^ 64)
        → AreNamed P r.end_fs
        → IfAny
            (λ m.
              All (IsFiniteMetric {W = W} P) m.top_processes
              × AreFinite (m.system_memory_total_mb, m.system_memory_used_mb))
            (collect selection r s).0
    unfolding collect
    collect-IfAny P selection r s fits named =
        let processes = process_part-AreFinite P selection r fits named in
        elim (Option-cases (process_part {W = W} selection r)) [
          | inl e ↦ rw (e, collect) tt
          | inr (ps, e) ↦
              rw (e, collect)
                (
                  subst (IfAny (All (IsFiniteMetric P))) e processes,
                  memory_part-AreFinite selection r,
                )
        ]

    -- With doubles as in IEEE 754 and a page size below 2^64, all numbers of a snapshot that `collect`
    -- returns are finite, and its names are those that the last reading of /proc gives.
    pub collect-IsFiniteSnapshot :
        (P : Bytes → Type 0) (selection : MetricsSelection) (r : Readings) (s : Statics)
        {m : SystemMetrics W}
        → r.end_fs.page_size <ℤ pos (2 ^ 64)
        → AreNamed P r.end_fs
        → (collect selection r s).0 ≡ some m
        → IsFiniteSnapshot P m
    collect-IsFiniteSnapshot P selection r s {m} fits named e =
        let sane = collect-IsSane laws selection r s e in
        let (processes, memory) = subst (IfAny _) e (collect-IfAny P selection r s fits named) in
        record {
          total = percentage-IsFinite _ sane.total;
          cores = All-mono _ _ m.per_core_cpu_percent percentage-IsFinite sane.cores;
          memory_total = memory.0;
          memory_used = memory.1;
          processes = processes;
        }
