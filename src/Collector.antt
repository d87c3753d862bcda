-- ===== src/Collector.antt =====
-- agent/src/metrics_collector.cpp: `MetricsCollector::collect` and `get_system_memory` on Linux.
pub mod Memory
pub mod Loop
pub mod Bounds
pub mod Cases
pub mod Finite
pub mod Written
pub mod Laws
pub mod Top
pub mod Tests
use real_time_system_metrics.Base.{
  ℕ, Bool, true, false, List, [], ◌∷◌, Option, none, some, Bytes, ◌==◌, if◌then◌else◌, ℤ,
}
use real_time_system_metrics.Double.{Double}
use real_time_system_metrics.Selection.{MetricsSelection}
use real_time_system_metrics.Cpu.{CpuTimes, read_linux_cpu_times}
use real_time_system_metrics.Cpu.Usage.{
  TotalStatics, CoreStatics, get_total_cpu, get_per_core_cpu, delta,
}
use real_time_system_metrics.Processes.{ProcessMetrics, Snapshots, top_between}
use real_time_system_metrics.Proc.{
  ProcessFiles, Collected, collected, thrown, collect_linux_process_snapshot,
}
use real_time_system_metrics.Metrics.{SystemMetrics}
use Memory.{get_system_memory}

-- What a snapshot of the processes sees of the system.
pub record ProcFs : Type 0 where
  pub page_size : ℤ
  pub files : ℕ → ProcessFiles
  pub entries : List Bytes

-- All that one call of `collect` reads, in the order of its reads.
pub record Readings : Type 0 where
  pub now : ℤ
  pub total_stat : Option Bytes
  pub core_stat : Option Bytes
  pub meminfo : Option Bytes
  pub stat_start : Option Bytes
  pub start_fs : ProcFs
  pub stat_end : Option Bytes
  pub end_fs : ProcFs

-- The static variables of the collector's functions.
pub record Statics : Type 0 where
  pub total : TotalStatics
  pub core : CoreStatics

module _ {W : Type 0} ⦃d : Double W⦄ where
  unfoldable pub snapshot_at : ProcFs → Collected W
  snapshot_at fs = collect_linux_process_snapshot fs.page_size fs.files fs.entries

  -- `get_top_processes` behind its second reading; `none` is an exception of a snapshot.
  unfoldable pub top_at_end :
      MetricsSelection
      → CpuTimes
      → CpuTimes
      → Snapshots W
      → ProcFs
      → Option (List (ProcessMetrics W))
  top_at_end selection system_start system_end start_snapshot end_fs =
      if delta system_end.total_time system_start.total_time == 0
      then some []
      else elim (snapshot_at end_fs) [
        | thrown ↦ none
        | collected end_snapshot ↦
            some (top_between selection system_start system_end start_snapshot end_snapshot)
      ]

  -- The whole of `get_top_processes`.
  unfoldable pub top_processes_at : MetricsSelection → Readings → Option (List (ProcessMetrics W))
  unfolding top_at_end
  top_processes_at selection r = elim (read_linux_cpu_times r.stat_start) [
    | none ↦ some []
    | some system_start ↦ elim (snapshot_at r.start_fs) [
      | thrown ↦ none
      | collected start_snapshot ↦ elim (read_linux_cpu_times r.stat_end) [
        | none ↦ some []
        | some system_end ↦ top_at_end selection system_start system_end start_snapshot r.end_fs
      ]
    ]
  ]

  -- Each group of metrics, if it is selected.
  abbrev pub total_part : MetricsSelection → Readings → TotalStatics → W × TotalStatics
  total_part selection r s =
      if selection.total_cpu then get_total_cpu r.total_stat s else (d.of_nat 0, s)

  abbrev pub core_part : MetricsSelection → Readings → CoreStatics → List W × CoreStatics
  core_part selection r s =
      if selection.per_core_cpu then get_per_core_cpu r.core_stat s else ([], s)

  abbrev pub memory_part : MetricsSelection → Readings → W × W
  memory_part selection r =
      if selection.system_memory then get_system_memory r.meminfo else (d.of_nat 0, d.of_nat 0)

  abbrev pub process_part : MetricsSelection → Readings → Option (List (ProcessMetrics W))
  process_part selection r =
      if selection.top_processes then top_processes_at selection r else some []

  -- `none` is an exception. The statics keep what was read before it.
  unfoldable pub collect :
      MetricsSelection → Readings → Statics → Option (SystemMetrics W) × Statics
  collect selection r s =
      let (total_cpu_percent, total) = total_part selection r s.total in
      let (per_core_cpu_percent, core) = core_part selection r s.core in
      let (memory_total_mb, memory_used_mb) = memory_part selection r in
      (
        elim (process_part selection r) [
          | none ↦ none
          | some top_processes ↦ some (record {
            timestamp = r.now;
            total_cpu_percent = total_cpu_percent;
            per_core_cpu_percent = per_core_cpu_percent;
            system_memory_total_mb = memory_total_mb;
            system_memory_used_mb = memory_used_mb;
            top_processes = top_processes;
          })
        ],
        record { total = total; core = core },
      )
