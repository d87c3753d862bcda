-- ===== src/Processes.antt =====
-- agent/src/metrics_collector.cpp: `get_top_processes` on Linux, from two snapshots of the processes.
pub mod Sort
pub mod Order
pub mod Top
pub mod Finite
pub mod Tests
use real_time_system_metrics.Base.{
  ℕ, zero, suc, ◌-◌, ◌==◌, ◌<◌, Bool, true, false, not, List, [], ◌∷◌, ◌++◌, Option, none, some,
  Bytes, ltb, leb, if◌then◌else◌, ℤ, pos, take,
}
use real_time_system_metrics.Double.{Double, percent}
use real_time_system_metrics.Selection.{MetricsSelection}
use real_time_system_metrics.Cpu.{CpuTimes, read_linux_cpu_times}
use real_time_system_metrics.Cpu.Usage.{delta}
use real_time_system_metrics.CppStd.Map.{find}
use Sort.{sort}

-- `LinuxProcessSnapshot`
pub record ProcessSnapshot (W : Type 0) : Type 0 where
  pub pid : ℕ
  pub name : Bytes
  pub cpu_time : ℕ
  pub memory_mb : W
  pub thread_count : ℤ
  pub io_read_mb : W
  pub io_write_mb : W
  pub handle_count : ℤ

pub record ProcessMetrics (W : Type 0) : Type 0 where
  pub pid : ℤ
  pub name : Bytes
  pub cpu_percent : W
  pub memory_mb : W
  pub thread_count : ℤ
  pub io_read_mb : W
  pub io_write_mb : W
  pub handle_count : ℤ

-- `std::unordered_map<int, LinuxProcessSnapshot>`: the pairs in the order of its iteration.
abbrev pub Snapshots : Type 0 → Type 0
Snapshots W = List (ℕ × ProcessSnapshot W)

abbrev pub top_count : ℕ
top_count = 12

module _ {W : Type 0} ⦃d : Double W⦄ where
  -- The metrics of a process of the second snapshot, by its CPU time in the first.
  unfoldable pub metrics_of : MetricsSelection → ℕ → ℕ → ℕ → ProcessSnapshot W → ProcessMetrics W
  metrics_of selection system_total_delta start_cpu pid end_process = record {
    pid = pos pid;
    name = end_process.name;
    cpu_percent = percent (end_process.cpu_time - start_cpu) system_total_delta;
    memory_mb = end_process.memory_mb;
    thread_count = if selection.process_threads then end_process.thread_count else pos 0;
    io_read_mb = if selection.process_io then end_process.io_read_mb else d.of_nat 0;
    io_write_mb = if selection.process_io then end_process.io_write_mb else d.of_nat 0;
    handle_count = if selection.process_handles then end_process.handle_count else pos 0;
  }

  -- One round of the loop over the second snapshot; `none` is `continue`.
  unfoldable pub candidate :
      MetricsSelection
      → ℕ
      → ℕ
      → ProcessSnapshot W
      → Option (ProcessSnapshot W)
      → Option (ProcessMetrics W)
  unfolding metrics_of
  candidate selection system_total_delta pid end_process none = none
  candidate selection system_total_delta pid end_process (some start) =
      if ltb end_process.cpu_time start.cpu_time
      then none
      else some (metrics_of selection system_total_delta start.cpu_time pid end_process)

  abbrev push_some : List (ProcessMetrics W) → Option (ProcessMetrics W) → List (ProcessMetrics W)
  push_some processes none = processes
  push_some processes (some p) = processes ++ p ∷ []

  unfoldable pub candidates_loop :
      MetricsSelection
      → ℕ
      → Snapshots W
      → Snapshots W
      → List (ProcessMetrics W)
      → List (ProcessMetrics W)
  unfolding candidate
  candidates_loop selection system_total_delta start_snapshot [] processes = processes
  candidates_loop selection system_total_delta start_snapshot ((pid, p) ∷ rest) processes =
      candidates_loop selection system_total_delta start_snapshot rest (
        push_some processes
          (candidate selection system_total_delta pid p (find ◌==◌ pid start_snapshot)))

  -- The comparison that `std::sort` is given.
  unfoldable pub ranks_before : ProcessMetrics W → ProcessMetrics W → Bool
  ranks_before left right =
      if not (d.eq left.cpu_percent right.cpu_percent)
      then d.lt right.cpu_percent left.cpu_percent
      else d.lt right.memory_mb left.memory_mb

  -- `std::sort`, and `resize(12)` if there are more; it may leave processes that tie in another order.
  unfoldable pub ranked : List (ProcessMetrics W) → List (ProcessMetrics W)
  unfolding sort
  ranked processes = take top_count (sort ranks_before processes)

  -- Behind the two readings of the CPU times.
  unfoldable pub top_between :
      MetricsSelection → CpuTimes → CpuTimes → Snapshots W → Snapshots W → List (ProcessMetrics W)
  unfolding ranked candidates_loop
  top_between selection system_start system_end start_snapshot end_snapshot =
      let system_total_delta = delta system_end.total_time system_start.total_time in
      if system_total_delta == 0
      then []
      else ranked (candidates_loop selection system_total_delta start_snapshot end_snapshot [])

  -- By the two texts of /proc/stat and the two snapshots, 200 ms apart.
  unfoldable pub get_top_processes :
      MetricsSelection
      → Option Bytes
      → Option Bytes
      → Snapshots W
      → Snapshots W
      → List (ProcessMetrics W)
  unfolding top_between
  get_top_processes selection stat_start stat_end start_snapshot end_snapshot =
      elim (read_linux_cpu_times stat_start) [
        | none ↦ []
        | some system_start ↦ elim (read_linux_cpu_times stat_end) [
          | none ↦ []
          | some system_end ↦
              top_between selection system_start system_end start_snapshot end_snapshot
        ]
      ]
