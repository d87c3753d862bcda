-- ===== src/Proc.antt =====
-- agent/src/metrics_collector.cpp: the files of /proc, and the snapshot of all processes.
-- The file system is outside: a reader gets the text of its file, or `none` where it cannot be opened.
pub mod Stat
pub mod Files
pub mod Loops
pub mod Lines
pub mod Written
pub mod Snapshot
pub mod Listing
pub mod Finite
pub mod Tests
use real_time_system_metrics.Base.{
  ℕ, zero, suc, ◌<◌, ◌==◌, Bool, true, false, not, ◌||◌, List, [], ◌∷◌, ◌++◌, Option, none, some,
  Bytes, codes, if◌then◌else◌, ltb, ℤ, pos, negsuc, ltb_ℤ,
}
use real_time_system_metrics.Double.{Double}
use real_time_system_metrics.CppStd.Chars.{is_digit}
use real_time_system_metrics.CppStd.Numbers.{digits_value}
use real_time_system_metrics.Processes.{ProcessSnapshot, Snapshots}
use real_time_system_metrics.CppStd.Map.{assign}
use Stat.{StatResult, stat_fields, stat_refused, stat_thrown, read_linux_process_stat}
use Files.{read_linux_process_status_fields, read_linux_process_io}

unfoldable pub is_numeric_loop : Bytes → Bool
is_numeric_loop [] = true
is_numeric_loop (c ∷ text) = if not (is_digit c) then false else is_numeric_loop text

unfoldable pub is_numeric_text : Bytes → Bool
unfolding is_numeric_loop
is_numeric_text [] = false
is_numeric_text (c ∷ text) = is_numeric_loop (c ∷ text)

-- The files of one process: `stat`, `status` and `io`, and the number of entries of `fd`.
pub record ProcessFiles : Type 0 where
  pub stat : Option Bytes
  pub status : Option Bytes
  pub fd_count : Option ℕ
  pub io : Option Bytes

-- The snapshots, or the exception that a reader threw.
pub data Collected (W : Type 0) : Type 0 where
  collected : Snapshots W → Collected W
  thrown : Collected W

module _ {W : Type 0} ⦃d : Double W⦄ where
  abbrev pub memory_of : ℤ → ℕ → W
  memory_of (pos (suc n)) rss_pages =
      d.div (d.mul (d.of_nat rss_pages) (d.of_nat (suc n))) (d.mul (d.of_nat 1024) (d.of_nat 1024))
  memory_of page_size rss_pages = d.of_nat 0

  -- The snapshot of a process whose `stat` has been read.
  unfoldable pub snapshot_of : ℤ → ℕ → ProcessFiles → Bytes → ℕ → ℕ → ProcessSnapshot W
  snapshot_of page_size pid files name cpu_time rss_pages =
      let (thread_count, handle_count) =
        read_linux_process_status_fields files.status files.fd_count in
      let (io_read_mb, io_write_mb) = read_linux_process_io files.io in
      record {
        pid = pid;
        name = name;
        cpu_time = cpu_time;
        memory_mb = memory_of page_size rss_pages;
        thread_count = thread_count;
        io_read_mb = io_read_mb;
        io_write_mb = io_write_mb;
        handle_count = handle_count;
      }

  -- What the loop does with a process whose `stat` gave this result.
  unfoldable pub add_process : ℤ → ℕ → ProcessFiles → StatResult → Snapshots W → Collected W
  unfolding snapshot_of
  add_process page_size pid files (stat_fields name cpu_time rss_pages) snapshots =
      collected
        (assign ◌==◌ pid (snapshot_of page_size pid files name cpu_time rss_pages) snapshots)
  add_process page_size pid files stat_refused snapshots = collected snapshots
  add_process page_size pid files stat_thrown snapshots = thrown

  -- One round of the loop over the names in /proc, by the files of each process.
  unfoldable pub collect_round : ℤ → (ℕ → ProcessFiles) → Bytes → Snapshots W → Collected W
  unfolding add_process
  collect_round page_size files pid_text snapshots =
      let pid = digits_value 0 pid_text in
      if not (is_numeric_text pid_text)
      then collected snapshots
      else if pid == 0
      then collected snapshots
      else add_process page_size pid (files pid) (read_linux_process_stat (files pid).stat)
          snapshots

  abbrev pub then_collect : Collected W → (Snapshots W → Collected W) → Collected W
  then_collect (collected snapshots) f = f snapshots
  then_collect thrown f = thrown

  unfoldable pub collect_loop : ℤ → (ℕ → ProcessFiles) → List Bytes → Snapshots W → Collected W
  unfolding collect_round
  collect_loop page_size files [] snapshots = collected snapshots
  collect_loop page_size files (pid_text ∷ entries) snapshots =
      then_collect (collect_round page_size files pid_text snapshots)
        (collect_loop page_size files entries)

  unfoldable pub collect_linux_process_snapshot : ℤ → (ℕ → ProcessFiles) → List Bytes → Collected W
  unfolding collect_loop
  collect_linux_process_snapshot page_size files entries = collect_loop page_size files entries []
