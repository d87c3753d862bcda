-- ===== src/Cpu.antt =====
-- agent/src/metrics_collector.cpp: the CPU times of /proc/stat, and the usage between two readings.
-- A reading gets the text of /proc/stat, or `none` where the file cannot be opened.
pub mod Usage
pub mod Laws
pub mod History
pub mod Written
pub mod Cores
pub mod Tests
use real_time_system_metrics.Base.{
  ℕ, ◌+◌, ◌%◌, ◌^◌, Bool, true, false, not, ◌&&◌, ◌||◌, List, [], ◌∷◌, ◌++◌, Option, none, some,
  Bytes, codes, bytes_eq, ltb, ◌==◌, if◌then◌else◌,
}
use real_time_system_metrics.CppStd.Chars.{is_digit}
use real_time_system_metrics.CppStd.Getline.{getlines}
use real_time_system_metrics.CppStd.Stream.{Stream, stream_of, good, read_word, read_u64}

-- `LinuxCpuTimes`
pub record CpuTimes : Type 0 where
  pub idle_time : ℕ
  pub total_time : ℕ

-- a sum in `uint64_t`
abbrev pub u64 : ℕ → ℕ
u64 n = n % 2 ^ 64

-- One line of /proc/stat: the label, the eight numbers, and the stream behind them.
pub record CpuLine : Type 0 where
  pub label : Bytes
  pub user : ℕ
  pub nice : ℕ
  pub system : ℕ
  pub idle : ℕ
  pub iowait : ℕ
  pub irq : ℕ
  pub softirq : ℕ
  pub steal : ℕ
  pub stream : Stream

abbrev pub label_or_empty : Option Bytes → Bytes
label_or_empty none = []
label_or_empty (some word) = word

-- `stream >> label >> user >> … >> steal`, with all the variables empty before.
unfoldable pub read_cpu_line : Stream → CpuLine
unfolding read_word read_u64
read_cpu_line s =
    let (word, s₀) = read_word s in
    let (user, s₁) = read_u64 0 s₀ in
    let (nice, s₂) = read_u64 0 s₁ in
    let (system, s₃) = read_u64 0 s₂ in
    let (idle, s₄) = read_u64 0 s₃ in
    let (iowait, s₅) = read_u64 0 s₄ in
    let (irq, s₆) = read_u64 0 s₅ in
    let (softirq, s₇) = read_u64 0 s₆ in
    let (steal, s₈) = read_u64 0 s₇ in
    record {
      label = label_or_empty word;
      user = user;
      nice = nice;
      system = system;
      idle = idle;
      iowait = iowait;
      irq = irq;
      softirq = softirq;
      steal = steal;
      stream = s₈;
    }

unfoldable pub times_of : CpuLine → CpuTimes
times_of l = record {
  idle_time = u64 (l.idle + l.iowait);
  total_time = u64 (l.user + l.nice + l.system + l.idle + l.iowait + l.irq + l.softirq + l.steal);
}

unfoldable pub accept_cpu_line : CpuLine → Option CpuTimes
unfolding times_of
accept_cpu_line l =
    if not (good l.stream) || not (bytes_eq l.label (codes "cpu")) then none else some (times_of l)

-- `none` is `false`.
unfoldable pub read_linux_cpu_times : Option Bytes → Option CpuTimes
read_linux_cpu_times none = none
read_linux_cpu_times (some text) = accept_cpu_line (read_cpu_line (stream_of text))

-- The line starts with "cpu" and has a digit, or nothing, behind it.
unfoldable pub is_core_line : Bytes → Bool
is_core_line (a ∷ b ∷ c ∷ []) = bytes_eq (a ∷ b ∷ c ∷ []) (codes "cpu")
is_core_line (a ∷ b ∷ c ∷ d ∷ line) = bytes_eq (a ∷ b ∷ c ∷ []) (codes "cpu") && is_digit d
is_core_line _ = false

-- One round of the loop over the lines, with the times so far. A line that ends before its last number
-- is accepted, and counts its missing numbers as 0.
unfoldable pub core_times_step : Bytes → List CpuTimes → List CpuTimes
core_times_step line core_times =
    let l = read_cpu_line (stream_of line) in
    if not (is_core_line line)
    then core_times
    else if not (good l.stream) && not l.stream.eof
    then core_times
    else core_times ++ times_of l ∷ []

unfoldable pub core_times_loop : List Bytes → List CpuTimes → List CpuTimes
core_times_loop [] core_times = core_times
core_times_loop (line ∷ lines) core_times = core_times_loop lines (core_times_step line core_times)

-- `!core_times.empty()`
unfoldable pub if_any : List CpuTimes → Option (List CpuTimes)
if_any [] = none
if_any (t ∷ core_times) = some (t ∷ core_times)

-- `none` is `false`: the file cannot be opened, or no core is found.
unfoldable pub read_linux_per_core_cpu_times : Option Bytes → Option (List CpuTimes)
unfolding core_times_loop if_any
read_linux_per_core_cpu_times none = none
read_linux_per_core_cpu_times (some text) = if_any (core_times_loop (getlines b'\n' text) [])
