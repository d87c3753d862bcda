-- ===== src/Collector/Tests.antt =====
-- One snapshot of a small system, and the theorems on it.
use real_time_system_metrics.Base.{
  ℕ, ◌++◌, List, arith, ◌+◌, ◌≡◌, refl, false, [], ◌∷◌, none, some, Bytes, codes, bytes_eq, length,
  pos,
}
use real_time_system_metrics.Double.Fixed.{Fixed, fixed_double, Fixed-IsIeee}
use real_time_system_metrics.CppStd.Stream.{stream_of, read_word, read_u64}
use real_time_system_metrics.Selection.{MetricsSelection, default_selection}
use real_time_system_metrics.Cpu.{
  accept_cpu_line, read_cpu_line, read_linux_cpu_times, read_linux_per_core_cpu_times,
}
use real_time_system_metrics.Cpu.Usage.{
  total_statics, core_statics, get_total_cpu, get_per_core_cpu,
}
use real_time_system_metrics.Metrics.{SystemMetrics}
use real_time_system_metrics.CppStd.Map.{assign, find}
use real_time_system_metrics.CppStd.Getline.{getlines}
use real_time_system_metrics.CppStd.Numbers.{digits_value, stoull}
use real_time_system_metrics.Processes.{Snapshots, top_between}
use real_time_system_metrics.Proc.{
  collect_linux_process_snapshot, collect_loop, collect_round, add_process, snapshot_of,
  is_numeric_text,
}
use real_time_system_metrics.Proc.Stat.{
  stat_fields, read_linux_process_stat, stat_between, stat_tail, stat_values, words_loop, find_byte,
  rfind_byte,
}
use real_time_system_metrics.Proc.Files.{read_linux_process_status_fields, read_linux_process_io}
use real_time_system_metrics.Collector.{
  snapshot_at, top_processes_at, ProcFs, Readings, Statics, collect,
}
use real_time_system_metrics.Collector.Memory.{meminfo_loop, get_system_memory, memory_mb}
use real_time_system_metrics.CppStd.Keyed.{KeyLine}
use real_time_system_metrics.Collector.Written.{
  MemoryTail, huge_pages, memory_text, get_system_memory-memory_text,
}
use real_time_system_metrics.Collector.Loop.{MeminfoRun, meminfo_loop-MeminfoRun}
use real_time_system_metrics.Collector.Laws.{IsSane, collect-IsSane}

abbrev meminfo_text : Bytes
meminfo_text = codes "MemTotal:  4096 kB\nMemFree: 9 kB\nMemAvailable: 1024 kB\n"

three_of_four_mb :
    get_system_memory {W = Fixed} (some meminfo_text) ≡ (some 4_000_000, some 3_000_000)
unfolding get_system_memory meminfo_loop memory_mb read_word read_u64 bytes_eq
three_of_four_mb = refl

meminfo_loop-MeminfoRun_example :
    MeminfoRun
      (stream_of meminfo_text)
      (0, 0)
      (meminfo_loop (length meminfo_text + 1) (stream_of meminfo_text) (0, 0))
meminfo_loop-MeminfoRun_example = meminfo_loop-MeminfoRun meminfo_text

abbrev fs : ProcFs
fs = record {
  page_size = pos 4096;
  files = λ pid. record { stat = none; status = none; fd_count = none; io = none };
  entries = codes "self" ∷ codes "7" ∷ [];
}

abbrev readings : Readings
readings = record {
  now = pos 1_700_000_000;
  total_stat = none;
  core_stat = none;
  meminfo = some meminfo_text;
  stat_start = none;
  start_fs = fs;
  stat_end = none;
  end_fs = fs;
}

abbrev pub statics : Statics
statics = record { total = total_statics; core = core_statics }

-- Everything but the processes.
abbrev without_processes : MetricsSelection
without_processes = record default_selection { top_processes = false }

abbrev taken : SystemMetrics Fixed
taken = record {
  timestamp = pos 1_700_000_000;
  total_cpu_percent = some 0;
  per_core_cpu_percent = [];
  system_memory_total_mb = some 4_000_000;
  system_memory_used_mb = some 3_000_000;
  top_processes = [];
}

sane_snapshot : (collect without_processes readings statics).0 ≡ some taken
unfolding collect get_system_memory meminfo_loop memory_mb read_word read_u64 bytes_eq get_total_cpu
    get_per_core_cpu read_linux_cpu_times read_linux_per_core_cpu_times
sane_snapshot = refl

collect-IsSane_example : IsSane without_processes taken
collect-IsSane_example =
    collect-IsSane Fixed-IsIeee without_processes readings statics sane_snapshot

-- One process, that has worked for 40 of 80 ticks between the two snapshots.
abbrev pub stat_of : Bytes → Bytes
stat_of user =
    codes "7 (a) S 1 2 3 4 5 6 7 8 9 10 " ++ user ++ codes " 0 13 14 15 16 17 18 19 20 256\n"

abbrev one_process : Bytes → ProcFs
one_process user = record {
  page_size = pos 4096;
  files = λ pid. record { stat = some (stat_of user); status = none; fd_count = none; io = none };
  entries = codes "self" ∷ codes "7" ∷ [];
}

abbrev snapshot_with : ℕ → Snapshots Fixed
snapshot_with cpu_time =
    (
      7,
      record {
        pid = 7;
        name = codes "a";
        cpu_time = cpu_time;
        memory_mb = some 1_000_000;
        thread_count = pos 0;
        io_read_mb = some 0;
        io_write_mb = some 0;
        handle_count = pos 0;
      },
    )
    ∷ []

abbrev pub busy_readings : Readings
busy_readings = record readings {
  stat_start = some (codes "cpu  10 0 10 70 10 0 0 0 0 0\n");
  start_fs = one_process (codes "10");
  stat_end = some (codes "cpu  50 0 30 80 20 0 0 0 0 0\n");
  end_fs = one_process (codes "50");
}

abbrev pub busy_snapshot : SystemMetrics Fixed
busy_snapshot = record taken {
  top_processes =
      record {
        pid = pos 7;
        name = codes "a";
        cpu_percent = some 50_000_000;
        memory_mb = some 1_000_000;
        thread_count = pos 0;
        io_read_mb = some 0;
        io_write_mb = some 0;
        handle_count = pos 0;
      }
      ∷ [];
}

pub busy_collected : (collect default_selection busy_readings statics).0 ≡ some busy_snapshot
unfolding collect get_system_memory meminfo_loop memory_mb read_word read_u64 bytes_eq get_total_cpu
    get_per_core_cpu read_linux_cpu_times read_linux_per_core_cpu_times top_processes_at snapshot_at
    collect_linux_process_snapshot collect_loop collect_round add_process snapshot_of
    is_numeric_text digits_value read_linux_process_stat stat_between stat_tail stat_values
    words_loop find_byte rfind_byte getlines stoull read_linux_process_status_fields
    read_linux_process_io assign accept_cpu_line read_cpu_line top_between find
busy_collected = refl

pub busy_stat :
    read_linux_process_stat (some (stat_of (codes "50"))) ≡ stat_fields (codes "a") 50 256
unfolding read_linux_process_stat stat_between stat_tail stat_values words_loop find_byte rfind_byte
    getlines stoull
busy_stat = refl

abbrev memory_lines : List KeyLine
memory_lines =
    record { key = codes "MemTotal:"; pad = 7; value = 4096 }
    ∷ record { key = codes "MemFree:"; pad = 0; value = 9 }
    ∷ record { key = codes "MemAvailable:"; pad = 1; value = 1024 }
    ∷ []

-- Four lines without a unit, and two with one.
abbrev huge : MemoryTail
huge =
    huge_pages (record { key = codes "HugePages_Total:"; pad = 7; value = 0 })
      (record { key = codes "HugePages_Free:"; pad = 8; value = 0 }) b'H'
      (codes "ugePages_Rsvd: 0\nHugePages_Surp: 0\nHugepagesize: 2048 kB\nMemTotal: 1 kB\n")

get_system_memory-memory_text_example :
    get_system_memory {W = Fixed} (some (memory_text memory_lines huge)) ≡ memory_mb (4096, 1024)
unfolding bytes_eq
get_system_memory-memory_text_example =
    get_system_memory-memory_text memory_lines huge (ground arith) (ground arith)
