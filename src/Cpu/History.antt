-- ===== src/Cpu/History.antt =====
-- The statics across calls: each usage is taken between the last two readings that succeeded.
use real_time_system_metrics.Base.{
  ◌≡◌, refl, ap, ◌∙◌, true, false, ℕ, ltb, Bool-cases, ◌-◌, ◌==◌, if◌then◌else◌, List, [], ◌∷◌, map,
  Option, none, some, Bytes, arith, inl, inr, Option-cases,
}
use real_time_system_metrics.Double.{Double, IsIeee, percent, clamp_value}
use real_time_system_metrics.Cpu.{CpuTimes, read_linux_cpu_times, read_linux_per_core_cpu_times}
use real_time_system_metrics.Cpu.Usage.{
  TotalStatics, total_statics, CoreStatics, core_statics, delta, min_value, busy_percent,
  total_cpu_of, get_total_cpu, core_usage, core_usages, get_per_core_cpu,
}

-- The later of two readings.
abbrev pub latest {ℓ} : {A : Type ℓ} → Option A → Option A → Option A
latest last none = last
latest last (some t) = some t

-- The statics that remember a reading.
abbrev pub remember : Option CpuTimes → TotalStatics
remember none = total_statics
remember (some t) = record {
  has_previous = true;
  previous_idle = t.idle_time;
  previous_total = t.total_time;
}

abbrev pub remember_cores : Option (List CpuTimes) → CoreStatics
remember_cores none = core_statics
remember_cores (some ts) = record { has_previous = true; previous_core_times = ts }

delta-sub : (a b : ℕ) → delta a b ≡ a - b
delta-sub a b = ground arith

min_value-sub : (t i : ℕ) → t - min_value t i ≡ t - i
min_value-sub t i = ground arith

module _ {W : Type 0} ⦃d : Double W⦄ where
  -- The results of a sequence of calls, by what /proc/stat holds at each.
  unfoldable pub total_calls : List (Option Bytes) → TotalStatics → List W
  total_calls [] s = []
  total_calls (file ∷ files) s =
      let (usage, s') = get_total_cpu file s in usage ∷ total_calls files s'

  unfoldable pub core_calls : List (Option Bytes) → CoreStatics → List (List W)
  core_calls [] s = []
  core_calls (file ∷ files) s =
      let (usages, s') = get_per_core_cpu file s in usages ∷ core_calls files s'

  -- A usage takes two readings: without both of them it is 0.
  abbrev pub usage_between : Option CpuTimes → Option CpuTimes → W
  usage_between last none = d.of_nat 0
  usage_between none (some c) = d.of_nat 0
  usage_between (some p) (some c) = core_usage p c

  -- The share of the time between two readings that was not idle, in percent and clamped; 0 if the time has
  -- not grown, and all of it if the idle time has not.
  abbrev pub busy_share : CpuTimes → CpuTimes → W
  busy_share p c =
      let time = c.total_time - p.total_time in
      let idle = c.idle_time - p.idle_time in
      let share = if time == 0 then d.of_nat 0 else percent (time - idle) time in
      if d.lt share (d.of_nat 0)
      then d.of_nat 0
      else if d.lt (d.of_nat 100) share
      then d.of_nat 100
      else share

  -- Core by core, up to the shorter of the two lists.
  abbrev pub busy_shares : List CpuTimes → List CpuTimes → List W
  busy_shares [] cs = []
  busy_shares (p ∷ ps) [] = []
  busy_shares (p ∷ ps) (c ∷ cs) = busy_share p c ∷ busy_shares ps cs

  share_lem :
      (t i : ℕ)
      → (if ltb 0 t then busy_percent t i else d.of_nat 0)
        ≡ (if t == 0 then d.of_nat 0 else percent (t - i) t)
  share_lem t i = elim (Bool-cases (t == 0)) [
    | inl e ↦ let none_left : ltb 0 t ≡ false = ground arith in rw (e, none_left)
    | inr e ↦
        let some_left : ltb 0 t ≡ true = ground arith in
        rw (e, some_left) (ap (λ (n : ℕ). percent {W = W} n t) (min_value-sub t i))
  ]

  core_usage-busy_share : (p c : CpuTimes) → core_usage p c ≡ busy_share p c
  unfolding core_usage clamp_value
  core_usage-busy_share p c =
      let time = delta-sub c.total_time p.total_time in
      let idle = delta-sub c.idle_time p.idle_time in
      ap (λ (u : W). clamp_value u (d.of_nat 0) (d.of_nat 100))
        (ap (λ t. if ltb 0 t then busy_percent t (delta c.idle_time p.idle_time) else d.of_nat 0)
            time
          ∙ ap
              (λ i.
                if ltb 0 (c.total_time - p.total_time)
                then busy_percent (c.total_time - p.total_time) i
                else d.of_nat 0)
              idle
          ∙ share_lem (c.total_time - p.total_time) (c.idle_time - p.idle_time))

  core_usages-busy_shares : (ps cs : List CpuTimes) → core_usages ps cs ≡ busy_shares ps cs
  unfolding core_usages
  core_usages-busy_shares [] cs = refl
  core_usages-busy_shares (p ∷ ps) [] = refl
  core_usages-busy_shares (p ∷ ps) (c ∷ cs) =
      cc (core_usage-busy_share p c, core_usages-busy_shares ps cs)

  abbrev pub usages_between : Option (List CpuTimes) → Option (List CpuTimes) → List W
  usages_between last none = []
  usages_between none (some cs) = map (λ c. d.of_nat 0) cs
  usages_between (some ps) (some cs) = busy_shares ps cs

  -- The same results without statics: by the last reading before each call.
  unfoldable pub total_history : Option CpuTimes → List (Option Bytes) → List W
  total_history last [] = []
  total_history last (file ∷ files) =
      let current = read_linux_cpu_times file in
      usage_between last current ∷ total_history (latest last current) files

  unfoldable pub core_history : Option (List CpuTimes) → List (Option Bytes) → List (List W)
  core_history last [] = []
  core_history last (file ∷ files) =
      let current = read_linux_per_core_cpu_times file in
      usages_between last current ∷ core_history (latest last current) files

  get_per_core_cpu-usages :
      (file : Option Bytes) (last : Option (List CpuTimes))
      → let current = read_linux_per_core_cpu_times file in
        get_per_core_cpu file (remember_cores last)
        ≡ (usages_between last current, remember_cores (latest last current))
  unfolding get_per_core_cpu
  get_per_core_cpu-usages file none = elim (Option-cases (read_linux_per_core_cpu_times file)) [
    | inl e ↦ rw (e, get_per_core_cpu)
    | inr (ts, e) ↦ rw (e, get_per_core_cpu)
  ]
  get_per_core_cpu-usages file (some ps) =
      elim (Option-cases (read_linux_per_core_cpu_times file)) [
        | inl e ↦ rw (e, get_per_core_cpu)
        | inr (ts, e) ↦ rw (e, get_per_core_cpu, core_usages-busy_shares ps ts)
      ]

  core_calls-history_of :
      (files : List (Option Bytes)) (last : Option (List CpuTimes))
      → core_calls files (remember_cores last) ≡ core_history last files
  unfolding core_calls core_history
  core_calls-history_of [] last = refl
  core_calls-history_of (file ∷ files) last =
      rw (get_per_core_cpu-usages file last)
        (rw (core_calls-history_of files (latest last (read_linux_per_core_cpu_times file))))

  -- From the start of the process on, each call of `get_per_core_cpu` returns, core by core, the clamped
  -- busy share since the last call whose reading succeeded: no core at all if its own reading fails,
  -- and 0 for each core at the first reading.
  pub core_calls-history :
      (files : List (Option Bytes)) → core_calls files core_statics ≡ core_history none files
  core_calls-history files = core_calls-history_of files none

  module _ (laws : IsIeee W) where
    open laws use {lt_irrefl, of_nat_mono}

    total_cpu_of-usage :
        (c : CpuTimes) (last : Option CpuTimes)
        → total_cpu_of c (remember last) ≡ (usage_between last (some c), remember (some c))
    unfolding total_cpu_of core_usage clamp_value
    total_cpu_of-usage c none = refl
    total_cpu_of-usage c (some p) =
        ground (arith, lt_irrefl (d.of_nat 0), of_nat_mono 0 100 (omega arith))

    get_total_cpu-usage :
        (file : Option Bytes) (last : Option CpuTimes)
        → let current = read_linux_cpu_times file in
          get_total_cpu file (remember last)
          ≡ (usage_between last current, remember (latest last current))
    unfolding get_total_cpu
    get_total_cpu-usage file last = elim (Option-cases (read_linux_cpu_times file)) [
      | inl e ↦ rw (e, get_total_cpu)
      | inr (t, e) ↦ rw (e, get_total_cpu) (total_cpu_of-usage t last)
    ]

    total_calls-history_of :
        (files : List (Option Bytes)) (last : Option CpuTimes)
        → total_calls files (remember last) ≡ total_history last files
    unfolding total_calls total_history
    total_calls-history_of [] last = refl
    total_calls-history_of (file ∷ files) last =
        rw (get_total_cpu-usage file last)
          (rw (total_calls-history_of files (latest last (read_linux_cpu_times file))))

    -- With doubles as in IEEE 754: from the start of the process on, each call of `get_total_cpu` returns
    -- the clamped busy share of the time since the last call whose reading succeeded, and 0 if its own reading fails or if
    -- there was none before: just what the history of the readings says, with no statics.
    pub total_calls-history :
        (files : List (Option Bytes)) → total_calls files total_statics ≡ total_history none files
    total_calls-history files = total_calls-history_of files none
