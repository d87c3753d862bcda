-- ===== src/Windows/Tests.antt =====
-- A small system under Windows, and the theorems on it.
use real_time_system_metrics.Base.{
  ℕ, ◌+◌, ◌≡◌, ◌==◌, refl, [], ◌∷◌, ◌++◌, Option, none, some, List, codes, map, Bool-cases, inl,
  inr, length, arith, ℤ, pos, negsuc, if◌then◌else◌,
}
use real_time_system_metrics.Double.Fixed.{Fixed, fixed_double, Fixed-IsIeee}
use real_time_system_metrics.Selection.{default_selection}
use real_time_system_metrics.CppStd.Map.{find, assign}
use real_time_system_metrics.Cpu.Usage.{total_statics, delta}
use real_time_system_metrics.Processes.{ProcessMetrics, ranked, ranks_before}
use real_time_system_metrics.Processes.Sort.{sort}
use real_time_system_metrics.Processes.Top.{IsTop}
use real_time_system_metrics.Collector.Laws.{IsSane}
use real_time_system_metrics.Windows.Times.{
  FileTime, SystemTimes, ProcessTimes, filetime_to_uint64, get_total_system_cpu_time,
  get_process_cpu_time, int_of_dword,
}
use real_time_system_metrics.Windows.Names.{Converter, process_name_to_utf8}
use real_time_system_metrics.Windows.Processes.{
  Listed, Visit, ProcessReadings, listed_process, list_one, listing_loop, visits_loop, visited,
  usage_since, top_behind_listing, get_top_processes_win32,
}
use real_time_system_metrics.Windows.Collect.{WindowsReadings, collect_win32}
use real_time_system_metrics.Windows.Handles.{held_after, get_top_processes_win32-held}
use real_time_system_metrics.Windows.Laws.{
  process_name_to_utf8-Converts, get_top_processes_win32-unranked,
}
use real_time_system_metrics.Windows.Bounds.{IsSized}
use real_time_system_metrics.Windows.Ranking.{measured, unlisted, get_top_processes_win32-IsTop}
use real_time_system_metrics.Windows.Sane.{collect_win32-IsSane}

abbrev ticks : ℕ → FileTime
ticks n = record { low_date_time = n; high_date_time = 0 }

abbrev system_at : ℕ → SystemTimes
system_at n = record { idle = ticks 0; kernel = ticks n; user = ticks 50 }

abbrev process_at : ℕ → ProcessTimes
process_at n = record { creation = ticks 0; exit = ticks 0; kernel = ticks n; user = ticks 0 }

abbrev listed_two : List Listed
listed_two =
    record {
      process_id = 4;
      threads = 3;
      exe_name = codes "a";
      process = some (7, some (process_at 10));
    }
    ∷ record {
      process_id = 8;
      threads = 1;
      exe_name = codes "b";
      process = some (9, some (process_at 10));
    }
    ∷ []

-- The second process alone can be opened again, and has worked for 25 of 100 ticks.
abbrev visit_b : ℕ → Option Visit
visit_b i =
    if i == 1
    then some (record {
      handle = 11;
      times = some (process_at 35);
      working_set_size = some 1_048_576;
      transfers = none;
      handle_count = some 4_294_967_295;
    })
    else none

abbrev readings_until : Option SystemTimes → ProcessReadings
readings_until system_end = record {
  system_start = some (system_at 100);
  snapshot = some (5, listed_two);
  system_end = system_end;
  visits = visit_b;
}

abbrev top_readings : ProcessReadings
top_readings = readings_until (some (system_at 200))

-- The pid, the usage and the handles of each.
abbrev shown : List (ProcessMetrics Fixed) → List (ℤ × Fixed × ℤ)
shown [] = []
shown (p ∷ ps) = (p.pid, p.cpu_percent, p.handle_count) ∷ shown ps

busy_first :
    shown (get_top_processes_win32 default_selection top_readings).processes
    ≡ (pos 8, some 25_000_000, negsuc 0) ∷ (pos 4, some 0, pos 0) ∷ []
unfolding get_top_processes_win32 top_behind_listing listing_loop list_one listed_process
    visits_loop visited usage_since get_total_system_cpu_time get_process_cpu_time
    filetime_to_uint64 int_of_dword ranked ranks_before sort find assign
busy_first = refl

get_top_processes_win32-held_example :
    held_after (get_top_processes_win32 {W = Fixed} default_selection top_readings).calls []
    ≡ some []
get_top_processes_win32-held_example =
    get_top_processes_win32-held Fixed default_selection top_readings

get_top_processes_win32-unranked_example :
    (get_top_processes_win32 {W = Fixed} default_selection (readings_until none)).processes
    ≡ map (listed_process default_selection) listed_two
get_top_processes_win32-unranked_example =
    get_top_processes_win32-unranked default_selection (readings_until none) (system_at 100) 5
      listed_two refl refl refl

first_total : get_total_system_cpu_time (some (system_at 100)) ≡ some 150
unfolding get_total_system_cpu_time filetime_to_uint64
first_total = refl

second_total : get_total_system_cpu_time (some (system_at 200)) ≡ some 250
unfolding get_total_system_cpu_time filetime_to_uint64
second_total = refl

small_process : (j : ℕ) → IsSized (visit_b j)
small_process j = elim (Bool-cases (j == 1)) [
  | inl e ↦ rw e (λ n h. ground arith)
  | inr e ↦ rw e tt
]

get_top_processes_win32-IsTop_example :
    let starts =
      (listing_loop {W = Fixed} default_selection listed_two (unlisted 5)).process_time_start in
    (left_out : List (ProcessMetrics Fixed)) × IsTop
      (measured default_selection
        (delta 250 150)
        starts
        visit_b
        0
        (map (listed_process default_selection) listed_two))
      (get_top_processes_win32 default_selection top_readings).processes
      left_out
get_top_processes_win32-IsTop_example =
    get_top_processes_win32-IsTop Fixed-IsIeee default_selection top_readings 5 listed_two 150 250
      first_total refl second_total small_process

abbrev windows_readings : WindowsReadings
windows_readings = record {
  now = pos 1_700_000_000;
  times = none;
  number_of_processors = 2;
  memory = some (record { total_phys = 4_194_304; avail_phys = 1_048_576 });
  top = top_readings;
}

collect_win32-IsSane_example :
    IsSane {W = Fixed} default_selection
      (collect_win32 default_selection windows_readings total_statics).0
collect_win32-IsSane_example =
    collect_win32-IsSane Fixed-IsIeee default_selection windows_readings total_statics 250
      (omega arith) second_total

-- A converter for texts in ASCII.
abbrev ascii : Converter
ascii name size = (length name + 1, name ++ 0 ∷ [])

ascii_name : process_name_to_utf8 ascii (some (codes "cmd")) ≡ codes "cmd"
ascii_name =
    process_name_to_utf8-Converts ascii b'c' (codes "md") (codes "cmd") (cc)
      (record { required = refl; written = refl })
