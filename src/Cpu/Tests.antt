-- ===== src/Cpu/Tests.antt =====
-- Readings of /proc/stat, and the theorems on the usage at concrete inputs.
use real_time_system_metrics.Base.{
  ◌≡◌, refl, true, [], ◌∷◌, Option, none, some, Bytes, codes, bytes_eq, All, List, arith,
}
use real_time_system_metrics.Double.Fixed.{Fixed, fixed_double, Fixed-IsIeee}
use real_time_system_metrics.CppStd.Getline.{getlines}
use real_time_system_metrics.CppStd.Stream.{read_word, read_u64}
use real_time_system_metrics.Cpu.{
  read_linux_cpu_times, read_linux_per_core_cpu_times, read_cpu_line, accept_cpu_line,
  core_times_step, times_of, is_core_line, if_any,
}
use real_time_system_metrics.Cpu.Written.{
  Counters, counted, total_text, read_linux_cpu_times-total_text,
}
use real_time_system_metrics.Cpu.Cores.{
  StatLine, core, total, other, IsStatLine, stat_text, read_linux_per_core_cpu_times-stat_text,
}
use real_time_system_metrics.Cpu.Usage.{TotalStatics, total_statics, core_statics, get_total_cpu}
use real_time_system_metrics.Cpu.History.{
  total_calls, core_calls, total_history, core_history, total_calls-history, core_calls-history,
}

-- /proc/stat at two times; between them 60 of 80 ticks are busy.
abbrev before : Option Bytes
before = some (codes "cpu  10 0 10 70 10 0 0 0 0 0\ncpu0 10 0 10 70 10 0 0 0 0 0\nintr 5\n")

abbrev after : Option Bytes
after = some (codes "cpu  50 0 30 80 20 0 0 0 0 0\ncpu0 50 0 30 80 20 0 0 0 0 0\nintr 6\n")

abbrev remembered : TotalStatics
remembered = record { has_previous = true; previous_idle = 80; previous_total = 100 }

read_before : read_linux_cpu_times before ≡ some (record { idle_time = 80; total_time = 100 })
unfolding read_linux_cpu_times accept_cpu_line read_cpu_line read_word read_u64 bytes_eq
read_before = refl

-- A line that ends early is accepted as a core, and refused as the total.
short_line :
    (read_linux_per_core_cpu_times (some (codes "cpu0 1 2 3 4"))
      ≡ some (record { idle_time = 4; total_time = 10 } ∷ []))
    × (read_linux_cpu_times (some (codes "cpu 1 2 3 4")) ≡ none)
unfolding read_linux_per_core_cpu_times core_times_step is_core_line times_of getlines
    read_linux_cpu_times accept_cpu_line read_cpu_line read_word read_u64 bytes_eq
short_line = (refl, refl)

three_quarters :
    total_calls {W = Fixed} (before ∷ none ∷ after ∷ []) total_statics
    ≡ some 0 ∷ some 0 ∷ some 75_000_000 ∷ []
unfolding total_calls get_total_cpu read_linux_cpu_times accept_cpu_line read_cpu_line read_word
    read_u64 bytes_eq
three_quarters = refl

total_calls-history_example :
    total_calls {W = Fixed} (before ∷ none ∷ after ∷ []) total_statics
    ≡ total_history none (before ∷ none ∷ after ∷ [])
total_calls-history_example = total_calls-history Fixed-IsIeee (before ∷ none ∷ after ∷ [])

core_calls-history_example :
    core_calls {W = Fixed} (before ∷ none ∷ after ∷ []) core_statics
    ≡ core_history none (before ∷ none ∷ after ∷ [])
core_calls-history_example = core_calls-history {W = Fixed} (before ∷ none ∷ after ∷ [])

-- The counters of a line, as eight numbers that the kernel writes.
abbrev sample : Counters
sample = record {
  user = 50;
  nice = 0;
  system = 30;
  idle = 80;
  iowait = 20;
  irq = 0;
  softirq = 0;
  steal = 7;
}

read_linux_cpu_times-total_text_example :
    read_linux_cpu_times (some (total_text sample (codes " 0 0\ncpu0 1")))
    ≡ some (record { idle_time = 100; total_time = 187 })
read_linux_cpu_times-total_text_example =
    read_linux_cpu_times-total_text sample (codes " 0 0\ncpu0 1") (omega arith) refl

abbrev stat_lines : List StatLine
stat_lines =
    total (codes " 50 0")
    ∷ core 0 sample (0 ∷ 0 ∷ [])
    ∷ core 11 sample []
    ∷ other (codes "intr 5")
    ∷ []

stat_lines-AreStatLines : All IsStatLine stat_lines
unfolding is_core_line bytes_eq
stat_lines-AreStatLines = ground arith

read_linux_per_core_cpu_times-stat_text_example :
    read_linux_per_core_cpu_times (some (stat_text stat_lines))
    ≡ some (counted sample ∷ counted sample ∷ [])
unfolding if_any
read_linux_per_core_cpu_times-stat_text_example =
    read_linux_per_core_cpu_times-stat_text stat_lines stat_lines-AreStatLines
