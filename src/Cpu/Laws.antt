-- ===== src/Cpu/Laws.antt =====
-- The usage between two readings lies from 0 to 100, and is taken between the last two readings.
use real_time_system_metrics.Base.{
  ℕ, ◌-◌, ◌^◌, ◌<◌, ◌≡◌, not, ◌&&◌, List, [], ◌∷◌, map, Option, none, some, Bytes, ltb, ◌==◌, arith,
  All, All-append, Bool-cases, inl, inr, Option-cases,
}
use real_time_system_metrics.Double.{Double, IsIeee, IsNum, IsAtMost, clamp_value}
use mathlib.Core.Path.{subst}
use real_time_system_metrics.CppStd.Getline.{getlines}
use real_time_system_metrics.CppStd.Stream.{stream_of, good}
use real_time_system_metrics.Cpu.{
  CpuTimes, CpuLine, times_of, accept_cpu_line, read_linux_cpu_times, read_linux_per_core_cpu_times,
  core_times_loop, core_times_step, is_core_line, if_any, read_cpu_line,
}
use real_time_system_metrics.Cpu.Usage.{
  min_value, delta, TotalStatics, CoreStatics, busy_percent, total_cpu_of, get_total_cpu,
  core_usage, core_usages, get_per_core_cpu,
}

-- A sum of 64 bits.
abbrev pub IsWord : CpuTimes → Type 0
IsWord t = t.total_time < 2 ^ 64

times_of-IsWord : (l : CpuLine) → IsWord (times_of l)
unfolding times_of
times_of-IsWord l = omega arith

accept_cpu_line-IsWord : (l : CpuLine) {t : CpuTimes} → accept_cpu_line l ≡ some t → IsWord t
unfolding accept_cpu_line
accept_cpu_line-IsWord l e = ground arith

pub read_linux_cpu_times-IsWord :
    (file : Option Bytes) {t : CpuTimes} → read_linux_cpu_times file ≡ some t → IsWord t
unfolding read_linux_cpu_times
read_linux_cpu_times-IsWord none e = cc
read_linux_cpu_times-IsWord (some text) e =
    accept_cpu_line-IsWord (read_cpu_line (stream_of text)) e

core_times_step-IsWord :
    (line : Bytes) (ts : List CpuTimes) → All IsWord ts → All IsWord (core_times_step line ts)
unfolding core_times_step
core_times_step-IsWord line ts h =
    let l = read_cpu_line (stream_of line) in
    elim (Bool-cases (not (is_core_line line))) [
      | inl e ↦ rw e h
      | inr e ↦ rw e (elim (Bool-cases (not (good l.stream) && not l.stream.eof)) [
        | inl f ↦ rw f h
        | inr f ↦ rw f (All-append IsWord ts (times_of l ∷ []) h (times_of-IsWord l, tt))
      ])
    ]

core_times_loop-IsWord :
    (lines : List Bytes) (ts : List CpuTimes)
    → All IsWord ts
    → All IsWord (core_times_loop lines ts)
unfolding core_times_loop
core_times_loop-IsWord [] ts h = h
core_times_loop-IsWord (line ∷ lines) ts h =
    core_times_loop-IsWord lines (core_times_step line ts) (core_times_step-IsWord line ts h)

if_any-some : (xs : List CpuTimes) {ts : List CpuTimes} → if_any xs ≡ some ts → xs ≡ ts
unfolding if_any
if_any-some [] e = cc
if_any-some (x ∷ xs) e = cc

read_linux_per_core_cpu_times-IsWord :
    (file : Option Bytes) {ts : List CpuTimes}
    → read_linux_per_core_cpu_times file ≡ some ts
    → All IsWord ts
unfolding read_linux_per_core_cpu_times
read_linux_per_core_cpu_times-IsWord none e = absurd (cc e)
read_linux_per_core_cpu_times-IsWord (some text) e =
    let read = core_times_loop (getlines b'\n' text) [] in
    subst (All IsWord) (if_any-some read e) (core_times_loop-IsWord (getlines b'\n' text) [] tt)

module _ {W : Type 0} ⦃d : Double W⦄ where
  -- A number from 0 to 100.
  abbrev pub IsPercentage : W → Type 0
  IsPercentage x = IsNum x × IsAtMost (d.of_nat 0) x × IsAtMost x (d.of_nat 100)

  module _ (laws : IsIeee W) where
    open laws use {lt_irrefl, of_nat-IsNum, of_nat_mono, percent-IsNum}

    clamp_value-IsPercentage :
        (x : W) → IsNum x → IsPercentage (clamp_value x (d.of_nat 0) (d.of_nat 100))
    unfolding clamp_value
    clamp_value-IsPercentage x h = ground (
      arith,
      lt_irrefl (d.of_nat 0),
      lt_irrefl (d.of_nat 100),
      of_nat-IsNum 0,
      of_nat-IsNum 100,
      of_nat_mono 0 100 (omega arith),
    )

    pub zero-IsPercentage : IsPercentage (d.of_nat 0)
    zero-IsPercentage = (of_nat-IsNum 0, lt_irrefl (d.of_nat 0), of_nat_mono 0 100 (omega arith))

    busy_percent-IsNum :
        (total idle : ℕ) → 0 < total → total < 2 ^ 64 → IsNum {W = W} (busy_percent total idle)
    busy_percent-IsNum total idle h k =
        percent-IsNum (total - min_value total idle) total (omega arith) h k

    pub total_cpu_of-IsPercentage :
        (c : CpuTimes) (s : TotalStatics)
        → c.total_time < 2 ^ 64
        → IsPercentage (total_cpu_of c s).0
    unfolding total_cpu_of
    total_cpu_of-IsPercentage c s h =
        let total = delta c.total_time s.previous_total in
        let idle = delta c.idle_time s.previous_idle in
        elim (Bool-cases s.has_previous) [
          | inl e ↦ rw e (elim (Bool-cases (total == 0)) [
            | inl z ↦ rw z zero-IsPercentage
            | inr p ↦ rw p (
                clamp_value-IsPercentage _
                  (busy_percent-IsNum total idle (ground arith) (ground arith)))
          ])
          | inr e ↦ rw e zero-IsPercentage
        ]

    core_usage-IsPercentage :
        (p c : CpuTimes) → c.total_time < 2 ^ 64 → IsPercentage (core_usage p c)
    unfolding core_usage
    core_usage-IsPercentage p c h =
        let total = delta c.total_time p.total_time in
        let idle = delta c.idle_time p.idle_time in
        clamp_value-IsPercentage _ (elim (Bool-cases (ltb 0 total)) [
          | inl e ↦ rw e (busy_percent-IsNum total idle (ground arith) (ground arith))
          | inr e ↦ rw e (of_nat-IsNum 0)
        ])

    -- With doubles as in IEEE 754, whatever /proc/stat holds and whatever was read before, the total CPU
    -- usage is a number from 0 to 100.
    pub get_total_cpu-IsPercentage :
        (file : Option Bytes) (s : TotalStatics) → IsPercentage (get_total_cpu file s).0
    unfolding get_total_cpu
    get_total_cpu-IsPercentage file s = elim (Option-cases (read_linux_cpu_times file)) [
      | inl e ↦ rw (e, get_total_cpu) zero-IsPercentage
      | inr (t, e) ↦
          rw (e, get_total_cpu) (total_cpu_of-IsPercentage t s (read_linux_cpu_times-IsWord file e))
    ]

    core_usages-IsPercentage :
        (ps cs : List CpuTimes) → All IsWord cs → All IsPercentage (core_usages ps cs)
    unfolding core_usages
    core_usages-IsPercentage [] cs h = tt
    core_usages-IsPercentage (p ∷ ps) [] h = tt
    core_usages-IsPercentage (p ∷ ps) (c ∷ cs) (h, hs) =
        (core_usage-IsPercentage p c h, core_usages-IsPercentage ps cs hs)

    zeros-IsPercentage : (cs : List CpuTimes) → All IsPercentage (map (λ c. d.of_nat 0) cs)
    zeros-IsPercentage [] = tt
    zeros-IsPercentage (c ∷ cs) = (zero-IsPercentage, zeros-IsPercentage cs)

    -- With doubles as in IEEE 754, whatever /proc/stat holds and whatever was read before, the usage of
    -- each core is a number from 0 to 100.
    pub get_per_core_cpu-IsPercentage :
        (file : Option Bytes) (s : CoreStatics) → All IsPercentage (get_per_core_cpu file s).0
    unfolding get_per_core_cpu
    get_per_core_cpu-IsPercentage file s =
        elim (Option-cases (read_linux_per_core_cpu_times file)) [
          | inl e ↦ rw (e, get_per_core_cpu) tt
          | inr (ts, e) ↦
              rw (e, get_per_core_cpu)
                (elim (Bool-cases s.has_previous) [
                  | inl b ↦ rw b (
                      core_usages-IsPercentage s.previous_core_times ts
                        (read_linux_per_core_cpu_times-IsWord file e))
                  | inr b ↦ rw b (zeros-IsPercentage ts)
                ])
        ]
