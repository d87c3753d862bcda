-- ===== src/Windows/Sane.antt =====
-- What every snapshot satisfies that `collect` returns on Windows.
use real_time_system_metrics.Base.{
  ℕ, zero, suc, ◌^◌, ◌≤◌, ◌<◌, ◌≡◌, refl, Option, none, some, ltb, length, arith, All, Bool-cases,
  Option-cases, inl, inr,
}
use real_time_system_metrics.Double.{Double, IsIeee}
use real_time_system_metrics.Selection.{MetricsSelection}
use real_time_system_metrics.Cpu.{CpuTimes}
use real_time_system_metrics.Cpu.Usage.{TotalStatics}
use real_time_system_metrics.Cpu.Laws.{IsPercentage, zero-IsPercentage, total_cpu_of-IsPercentage}
use real_time_system_metrics.Processes.{top_count}
use real_time_system_metrics.Proc.Files.{megabytes}
use real_time_system_metrics.Collector.Bounds.{IsPart, zero-IsPart, max_value-IsPart}
use real_time_system_metrics.Collector.Laws.{IsSane}
use real_time_system_metrics.Windows.Times.{
  SystemTimes, get_total_system_cpu_time, get_system_times,
}
use real_time_system_metrics.Windows.Processes.{ProcessReadings, get_top_processes_win32}
use real_time_system_metrics.Windows.Collect.{
  MemoryStatus, WindowsReadings, get_total_cpu_win32, zeros, get_per_core_cpu_win32,
  get_system_memory_win32, total_part_win32, core_part_win32, memory_part_win32, process_part_win32,
  collect_win32,
}
use real_time_system_metrics.Windows.Bounds.{megabytes-IsNum, megabytes-IsAtMost}
use real_time_system_metrics.Windows.Ranking.{top_behind_listing-le}
use real_time_system_metrics.Collector.Bounds.{IsPart, zero-IsPart, max_value-IsPart}

-- Two sizes of 64 bits.
abbrev pub AreSizes : Option MemoryStatus → Type 0
AreSizes none = Unit
AreSizes (some m) = (m.total_phys < 2 ^ 64) × (m.avail_phys < 2 ^ 64)

system_times-lt :
    (times : Option SystemTimes) (c : CpuTimes)
    → get_system_times times ≡ some c
    → c.total_time < 2 ^ 64
unfolding get_system_times
system_times-lt none c e = cc
system_times-lt (some times) c e = ground arith

module _ {W : Type 0} ⦃d : Double W⦄ where
  zeros-IsPercentage : IsIeee W → (n : ℕ) → All (IsPercentage {W = W}) (zeros n)
  unfolding zeros
  zeros-IsPercentage laws zero = tt
  zeros-IsPercentage laws (suc n) = (zero-IsPercentage laws, zeros-IsPercentage laws n)

  module _ (laws : IsIeee W) where
    total_part-IsPercentage :
        (selection : MetricsSelection) (r : WindowsReadings) (s : TotalStatics)
        → IsPercentage {W = W} (total_part_win32 selection r s).0
    unfolding get_total_cpu_win32
    total_part-IsPercentage selection r s = elim (Bool-cases selection.total_cpu) [
      | inl e ↦ rw e (elim (Option-cases (get_system_times r.times)) [
        | inl n ↦ rw (n, get_total_cpu_win32) (zero-IsPercentage laws)
        | inr (c, n) ↦
            rw (n, get_total_cpu_win32)
              (total_cpu_of-IsPercentage laws c s (system_times-lt r.times c n))
      ])
      | inr e ↦ rw e (zero-IsPercentage laws)
    ]

    core_part-IsPercentage :
        (selection : MetricsSelection) (r : WindowsReadings)
        → All (IsPercentage {W = W}) (core_part_win32 selection r)
    unfolding get_per_core_cpu_win32
    core_part-IsPercentage selection r = elim (Bool-cases selection.per_core_cpu) [
      | inl e ↦ rw e (elim (Bool-cases (ltb 0 r.number_of_processors)) [
        | inl n ↦ rw (n, get_per_core_cpu_win32) (zeros-IsPercentage laws r.number_of_processors)
        | inr n ↦ rw (n, get_per_core_cpu_win32) tt
      ])
      | inr e ↦ rw e tt
    ]

    get_system_memory_win32-IsPart :
        (m : Option MemoryStatus) → AreSizes m → IsPart {W = W} (get_system_memory_win32 m)
    unfolding get_system_memory_win32
    get_system_memory_win32-IsPart none h = zero-IsPart laws
    get_system_memory_win32-IsPart (some m) (h, k) =
        max_value-IsPart laws (megabytes m.total_phys) (megabytes m.avail_phys)
          (megabytes-IsNum laws m.total_phys h) (megabytes-IsAtMost laws m.total_phys h)
          (megabytes-IsAtMost laws m.avail_phys k)

    memory_part_win32-IsPart :
        (selection : MetricsSelection) (r : WindowsReadings)
        → AreSizes r.memory
        → IsPart {W = W} (memory_part_win32 selection r)
    memory_part_win32-IsPart selection r h = elim (Bool-cases selection.system_memory) [
      | inl e ↦ rw e (get_system_memory_win32-IsPart r.memory h)
      | inr e ↦ rw e (zero-IsPart laws)
    ]

module _ (W : Type 0) ⦃d : Double W⦄ where
  get_top_processes-le :
      (selection : MetricsSelection) (r : ProcessReadings) (t : ℕ)
      → get_total_system_cpu_time r.system_end ≡ some t
      → length (get_top_processes_win32 {W = W} selection r).processes ≤ top_count
  unfolding get_top_processes_win32
  get_top_processes-le selection r t e =
      elim (Option-cases (get_total_system_cpu_time r.system_start)) [
        | inl n ↦ rw (n, get_top_processes_win32) (omega arith)
        | inr (a, n) ↦
            rw (n, get_top_processes_win32)
              (elim (Option-cases r.snapshot) [
                | inl k ↦ rw k (omega arith)
                | inr ((snapshot, listed), k) ↦
                    rw k (top_behind_listing-le {W = W} selection a r snapshot _ t e)
              ])
      ]

  process_part-le :
      (selection : MetricsSelection) (r : WindowsReadings) (t : ℕ)
      → get_total_system_cpu_time r.top.system_end ≡ some t
      → length (process_part_win32 {W = W} selection r) ≤ top_count
  process_part-le selection r t e = elim (Bool-cases selection.top_processes) [
    | inl b ↦ simp b (get_top_processes-le selection r.top t e)
    | inr b ↦ simp b (omega arith)
  ]

module _ {W : Type 0} ⦃d : Double W⦄ (laws : IsIeee W) where
  -- On Windows, with doubles as in IEEE 754 and sizes of 64 bits, and if the CPU time of the system can
  -- be read behind the snapshot of the processes, every snapshot of `collect` is sane: the total
  -- usage and the usage of each core are numbers from 0 to 100, the used memory lies between 0 and the
  -- total, there are at most twelve processes, and each group that is not selected is 0 or empty.
  pub collect_win32-IsSane :
      (selection : MetricsSelection) (r : WindowsReadings) (s : TotalStatics) (t : ℕ)
      → AreSizes r.memory
      → get_total_system_cpu_time r.top.system_end ≡ some t
      → IsSane {W = W} selection (collect_win32 selection r s).0
  unfolding collect_win32
  collect_win32-IsSane selection r s t h e = record {
    total = total_part-IsPercentage laws selection r s;
    cores = core_part-IsPercentage laws selection r;
    memory = memory_part_win32-IsPart laws selection r h;
    count = process_part-le W selection r t e;
    no_total = λ off. rw off;
    no_cores = λ off. rw off;
    no_memory = λ off. rw off (refl, refl);
    no_processes = λ off. rw off;
  }
