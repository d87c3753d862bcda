-- ===== src/Windows/Times.antt =====
-- agent/src/metrics_collector.cpp, under `_WIN32`: FILETIME, and the CPU times of the system and of a process.
use real_time_system_metrics.Base.{
  ℕ, ◌+◌, ◌*◌, ◌^◌, Option, none, some, ltb, if◌then◌else◌, ℤ, pos, negsuc, ◌-◌,
}
use real_time_system_metrics.Cpu.{CpuTimes, u64}

-- `FILETIME`: the two halves of a 64-bit number, each a DWORD.
pub record FileTime : Type 0 where
  pub low_date_time : ℕ
  pub high_date_time : ℕ

unfoldable pub filetime_to_uint64 : FileTime → ℕ
filetime_to_uint64 t = t.high_date_time * 2 ^ 32 + t.low_date_time

-- What `GetSystemTimes` stores.
pub record SystemTimes : Type 0 where
  pub idle : FileTime
  pub kernel : FileTime
  pub user : FileTime

-- What `GetProcessTimes` stores.
pub record ProcessTimes : Type 0 where
  pub creation : FileTime
  pub exit : FileTime
  pub kernel : FileTime
  pub user : FileTime

-- `none` is `false`, here and below.
unfoldable pub get_total_system_cpu_time : Option SystemTimes → Option ℕ
unfolding filetime_to_uint64
get_total_system_cpu_time none = none
get_total_system_cpu_time (some t) =
    some (u64 (filetime_to_uint64 t.kernel + filetime_to_uint64 t.user))

unfoldable pub get_system_times : Option SystemTimes → Option CpuTimes
unfolding filetime_to_uint64
get_system_times none = none
get_system_times (some t) = some (record {
  idle_time = filetime_to_uint64 t.idle;
  total_time = u64 (filetime_to_uint64 t.kernel + filetime_to_uint64 t.user);
})

unfoldable pub get_process_cpu_time : Option ProcessTimes → Option ℕ
unfolding filetime_to_uint64
get_process_cpu_time none = none
get_process_cpu_time (some t) = some (u64 (filetime_to_uint64 t.kernel + filetime_to_uint64 t.user))

-- `static_cast<int>` of a DWORD
unfoldable pub int_of_dword : ℕ → ℤ
int_of_dword n = if ltb n (2 ^ 31) then pos n else negsuc (2 ^ 32 - n - 1)
