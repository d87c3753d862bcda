-- ===== src/Processes/Tests.antt =====
-- The theorem on the top processes at a concrete input.
use real_time_system_metrics.Base.{ℤ, ℕ, ◌≡◌, refl, List, [], ◌∷◌, Option, some, Bytes, codes, pos}
use real_time_system_metrics.CppStd.Map.{find}
use real_time_system_metrics.Double.Fixed.{Fixed, fixed_double}
use real_time_system_metrics.Selection.{default_selection}
use real_time_system_metrics.Processes.{
  ProcessSnapshot, ProcessMetrics, Snapshots, top_between, ranks_before,
}

abbrev process : ℕ → Bytes → ℕ → ℕ → ProcessSnapshot Fixed
process pid name cpu_time memory = record {
  pid = pid;
  name = name;
  cpu_time = cpu_time;
  memory_mb = some memory;
  thread_count = pos 1;
  io_read_mb = some 0;
  io_write_mb = some 0;
  handle_count = pos 3;
}

abbrev first : Snapshots Fixed
first =
    (1, process 1 (codes "init") 5 8)
    ∷ (2, process 2 (codes "sh") 10 4)
    ∷ (3, process 3 (codes "cc") 0 6)
    ∷ []

-- Process 3 has started anew, and process 4 was not there before.
abbrev second : Snapshots Fixed
second =
    (1, process 1 (codes "init") 5 8)
    ∷ (2, process 2 (codes "sh") 30 4)
    ∷ (4, process 4 (codes "new") 9 9)
    ∷ []

abbrev stat_start : Option Bytes
stat_start = some (codes "cpu  10 0 10 70 10 0 0 0 0 0\n")

abbrev stat_end : Option Bytes
stat_end = some (codes "cpu  50 0 30 80 20 0 0 0 0 0\n")

abbrev pids : List (ProcessMetrics Fixed) → List ℤ
pids [] = []
pids (p ∷ ps) = p.pid ∷ pids ps

busiest_first :
    pids (
      top_between default_selection
        (record { idle_time = 80; total_time = 100 })
        (record { idle_time = 100; total_time = 180 })
        first
        second)
    ≡ pos 2 ∷ pos 1 ∷ []
unfolding top_between ranks_before find
busiest_first = refl
