-- ===== src/Windows/Collect.antt =====
-- agent/src/metrics_collector.cpp, under `_WIN32`: `get_total_cpu`, `get_per_core_cpu`,
-- `get_system_memory`, and `collect` over them.
use real_time_system_metrics.Base.{
  ℕ, zero, suc, List, [], ◌∷◌, Option, none, some, ltb, if◌then◌else◌, ℤ,
}
use real_time_system_metrics.Double.{Double, max_value}
use real_time_system_metrics.Selection.{MetricsSelection}
use real_time_system_metrics.Cpu.Usage.{TotalStatics, total_cpu_of}
use real_time_system_metrics.Processes.{ProcessMetrics}
use real_time_system_metrics.Proc.Files.{megabytes}
use real_time_system_metrics.Metrics.{SystemMetrics}
use real_time_system_metrics.Windows.Times.{SystemTimes, get_system_times}
use real_time_system_metrics.Windows.Processes.{ProcessReadings, get_top_processes_win32}

-- What `GlobalMemoryStatusEx` stores.
pub record MemoryStatus : Type 0 where
  pub total_phys : ℕ
  pub avail_phys : ℕ

-- All that one call of `collect` gets from the system.
pub record WindowsReadings : Type 0 where
  pub now : ℤ
  pub times : Option SystemTimes
  pub number_of_processors : ℕ
  pub memory : Option MemoryStatus
  pub top : ProcessReadings

module _ {W : Type 0} ⦃d : Double W⦄ where
  unfoldable pub get_total_cpu_win32 : Option SystemTimes → TotalStatics → W × TotalStatics
  unfolding total_cpu_of
  get_total_cpu_win32 times s = elim (get_system_times times) [
    | none ↦ (d.of_nat 0, s)
    | some current ↦ total_cpu_of current s
  ]

  -- `assign(n, 0.0)`
  unfoldable pub zeros : ℕ → List W
  zeros zero = []
  zeros (suc n) = d.of_nat 0 ∷ zeros n

  unfoldable pub get_per_core_cpu_win32 : ℕ → List W
  unfolding zeros
  get_per_core_cpu_win32 number_of_processors =
      if ltb 0 number_of_processors then zeros number_of_processors else []

  -- The total and the used memory.
  unfoldable pub get_system_memory_win32 : Option MemoryStatus → W × W
  get_system_memory_win32 none = (d.of_nat 0, d.of_nat 0)
  get_system_memory_win32 (some m) =
      let total_mb : W = megabytes m.total_phys in
      let available_mb : W = megabytes m.avail_phys in
      (total_mb, max_value (d.of_nat 0) (d.sub total_mb available_mb))

  abbrev pub total_part_win32 : MetricsSelection → WindowsReadings → TotalStatics → W × TotalStatics
  total_part_win32 selection r s =
      if selection.total_cpu then get_total_cpu_win32 r.times s else (d.of_nat 0, s)

  abbrev pub core_part_win32 : MetricsSelection → WindowsReadings → List W
  core_part_win32 selection r =
      if selection.per_core_cpu then get_per_core_cpu_win32 r.number_of_processors else []

  abbrev pub memory_part_win32 : MetricsSelection → WindowsReadings → W × W
  memory_part_win32 selection r =
      if selection.system_memory then get_system_memory_win32 r.memory else (d.of_nat 0, d.of_nat 0)

  abbrev pub process_part_win32 : MetricsSelection → WindowsReadings → List (ProcessMetrics W)
  process_part_win32 selection r =
      if selection.top_processes then (get_top_processes_win32 selection r.top).processes else []

  unfoldable pub collect_win32 :
      MetricsSelection → WindowsReadings → TotalStatics → SystemMetrics W × TotalStatics
  collect_win32 selection r s =
      let (total_cpu_percent, s') = total_part_win32 selection r s in
      let (memory_total_mb, memory_used_mb) = memory_part_win32 selection r in
      (
        record {
          timestamp = r.now;
          total_cpu_percent = total_cpu_percent;
          per_core_cpu_percent = core_part_win32 selection r;
          system_memory_total_mb = memory_total_mb;
          system_memory_used_mb = memory_used_mb;
          top_processes = process_part_win32 selection r;
        },
        s',
      )
