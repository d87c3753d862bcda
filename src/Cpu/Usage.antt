-- ===== src/Cpu/Usage.antt =====
-- agent/src/metrics_collector.cpp: `get_total_cpu` and `get_per_core_cpu`, with their static variables
-- as an argument and a result.
use real_time_system_metrics.Base.{
  ℕ, ◌-◌, Bool, true, false, List, [], ◌∷◌, map, Option, none, some, Bytes, ltb, ◌==◌,
  if◌then◌else◌,
}
use real_time_system_metrics.Double.{Double, percent, clamp_value}
use real_time_system_metrics.Cpu.{CpuTimes, read_linux_cpu_times, read_linux_per_core_cpu_times}

-- `min_value` at `uint64_t` and `size_t`
abbrev pub min_value : ℕ → ℕ → ℕ
min_value left right = if ltb left right then left else right

-- How much a counter has grown; 0 if it has not.
abbrev pub delta : ℕ → ℕ → ℕ
delta current previous = if ltb previous current then current - previous else 0

-- The statics of `get_total_cpu`.
pub record TotalStatics : Type 0 where
  pub has_previous : Bool
  pub previous_idle : ℕ
  pub previous_total : ℕ

abbrev pub total_statics : TotalStatics
total_statics = record { has_previous = false; previous_idle = 0; previous_total = 0 }

-- The statics of `get_per_core_cpu`.
pub record CoreStatics : Type 0 where
  pub has_previous : Bool
  pub previous_core_times : List CpuTimes

abbrev pub core_statics : CoreStatics
core_statics = record { has_previous = false; previous_core_times = [] }

module _ {W : Type 0} ⦃d : Double W⦄ where
  -- The busy share of a positive `total_delta`, before the clamp.
  abbrev pub busy_percent : ℕ → ℕ → W
  busy_percent total_delta idle_delta =
      percent (total_delta - min_value total_delta idle_delta) total_delta

  -- A call behind a reading that succeeded.
  unfoldable pub total_cpu_of : CpuTimes → TotalStatics → W × TotalStatics
  unfolding clamp_value
  total_cpu_of current s =
      let s' : TotalStatics = record {
        has_previous = true;
        previous_idle = current.idle_time;
        previous_total = current.total_time;
      } in
      let total_delta = delta current.total_time s.previous_total in
      let idle_delta = delta current.idle_time s.previous_idle in
      if s.has_previous
      then if total_delta == 0
        then (d.of_nat 0, s')
        else (clamp_value (busy_percent total_delta idle_delta) (d.of_nat 0) (d.of_nat 100), s')
      else (d.of_nat 0, s')

  unfoldable pub get_total_cpu : Option Bytes → TotalStatics → W × TotalStatics
  unfolding total_cpu_of
  get_total_cpu stat_file s = elim (read_linux_cpu_times stat_file) [
    | none ↦ (d.of_nat 0, s)
    | some current ↦ total_cpu_of current s
  ]

  -- One round of the loop over the cores.
  unfoldable pub core_usage : CpuTimes → CpuTimes → W
  unfolding clamp_value
  core_usage previous current =
      let total_delta = delta current.total_time previous.total_time in
      let idle_delta = delta current.idle_time previous.idle_time in
      let usage = if ltb 0 total_delta then busy_percent total_delta idle_delta else d.of_nat 0 in
      clamp_value usage (d.of_nat 0) (d.of_nat 100)

  -- The loop runs up to the shorter of the two lists.
  unfoldable pub core_usages : List CpuTimes → List CpuTimes → List W
  unfolding core_usage
  core_usages (p ∷ previous) (c ∷ current) = core_usage p c ∷ core_usages previous current
  core_usages _ _ = []

  unfoldable pub get_per_core_cpu : Option Bytes → CoreStatics → List W × CoreStatics
  unfolding core_usages
  get_per_core_cpu stat_file s = elim (read_linux_per_core_cpu_times stat_file) [
    | none ↦ ([], s)
    | some current ↦
        let s' : CoreStatics = record { has_previous = true; previous_core_times = current } in
        if s.has_previous
        then (core_usages s.previous_core_times current, s')
        else (map (λ c. d.of_nat 0) current, s')
  ]
