-- ===== src/Collector/Laws.antt =====
-- What every snapshot satisfies that `collect` returns.
use mathlib.Core.Path.{subst}
use real_time_system_metrics.Base.{
  ◌≤◌, ◌≡◌, refl, ◌==◌, false, List, [], some, length, length-take, arith, Bool-cases, Option-cases,
  inl, inr, All, IfAny,
}
use real_time_system_metrics.Double.{Double, IsIeee}
use real_time_system_metrics.Selection.{MetricsSelection}
use real_time_system_metrics.Cpu.{CpuTimes}
use real_time_system_metrics.Cpu.Usage.{TotalStatics, CoreStatics, delta}
use real_time_system_metrics.Cpu.Laws.{
  IsPercentage, zero-IsPercentage, get_total_cpu-IsPercentage, get_per_core_cpu-IsPercentage,
}
use real_time_system_metrics.Processes.{
  ProcessMetrics, Snapshots, top_count, ranks_before, ranked, top_between, candidates_loop,
}
use real_time_system_metrics.Processes.Sort.{sort}
use real_time_system_metrics.Metrics.{SystemMetrics}
use real_time_system_metrics.Collector.{
  Readings, Statics, total_part, core_part, memory_part, process_part, collect,
}
use real_time_system_metrics.Collector.Cases.{process_part-IfAny}
use real_time_system_metrics.Collector.Bounds.{IsPart, zero-IsPart, get_system_memory-IsPart}

module _ {W : Type 0} ⦃d : Double W⦄ where
  -- The bounds of a snapshot, and its values where a group is not selected.
  pub record IsSane (selection : MetricsSelection) (m : SystemMetrics W) : Type 0 where
    pub total : IsPercentage m.total_cpu_percent
    pub cores : All IsPercentage m.per_core_cpu_percent
    pub memory : IsPart (m.system_memory_total_mb, m.system_memory_used_mb)
    pub count : length m.top_processes ≤ top_count
    pub no_total : selection.total_cpu ≡ false → m.total_cpu_percent ≡ d.of_nat 0
    pub no_cores : selection.per_core_cpu ≡ false → m.per_core_cpu_percent ≡ []
    pub no_memory :
        selection.system_memory ≡ false
        → (m.system_memory_total_mb ≡ d.of_nat 0) × (m.system_memory_used_mb ≡ d.of_nat 0)
    pub no_processes : selection.top_processes ≡ false → m.top_processes ≡ []

  pub ranked-le : (ps : List (ProcessMetrics W)) → length (ranked ps) ≤ top_count
  unfolding ranked
  ranked-le ps = omega (arith, length-take top_count (sort ranks_before ps))

  top_between-le :
      (selection : MetricsSelection) (a b : CpuTimes) (s e : Snapshots W)
      → length (top_between selection a b s e) ≤ top_count
  unfolding top_between
  top_between-le selection a b s e = elim (Bool-cases (delta b.total_time a.total_time == 0)) [
    | inl z ↦ rw z (omega arith)
    | inr z ↦ rw z (ranked-le (candidates_loop selection (delta b.total_time a.total_time) s e []))
  ]

module _ (W : Type 0) ⦃d : Double W⦄ where
  process_part-le :
      (selection : MetricsSelection) (r : Readings)
      → IfAny {A = List (ProcessMetrics W)}
          (λ ps. length ps ≤ top_count)
          (process_part {W = W} selection r)
  process_part-le selection r =
      process_part-IfAny (λ ps. length ps ≤ top_count) selection r (omega arith)
        (λ a b ss es _ _. top_between-le selection a b ss es)

module _ {W : Type 0} ⦃d : Double W⦄ where
  module _ (laws : IsIeee W) where
    total_part-IsPercentage :
        (selection : MetricsSelection) (r : Readings) (s : TotalStatics)
        → IsPercentage {W = W} (total_part selection r s).0
    total_part-IsPercentage selection r s = elim (Bool-cases selection.total_cpu) [
      | inl e ↦ rw e (get_total_cpu-IsPercentage laws r.total_stat s)
      | inr e ↦ rw e (zero-IsPercentage laws)
    ]

    core_part-IsPercentage :
        (selection : MetricsSelection) (r : Readings) (s : CoreStatics)
        → All (IsPercentage {W = W}) (core_part selection r s).0
    core_part-IsPercentage selection r s = elim (Bool-cases selection.per_core_cpu) [
      | inl e ↦ rw e (get_per_core_cpu-IsPercentage laws r.core_stat s)
      | inr e ↦ rw e tt
    ]

    memory_part-IsPart :
        (selection : MetricsSelection) (r : Readings) → IsPart {W = W} (memory_part selection r)
    memory_part-IsPart selection r = elim (Bool-cases selection.system_memory) [
      | inl e ↦ rw e (get_system_memory-IsPart laws r.meminfo)
      | inr e ↦ rw e (zero-IsPart laws)
    ]

    collect-IfAny :
        (selection : MetricsSelection) (r : Readings) (s : Statics)
        → IfAny (IsSane selection) (collect {W = W} selection r s).0
    unfolding collect
    collect-IfAny selection r s = elim (Option-cases (process_part {W = W} selection r)) [
      | inl e ↦ rw (e, collect) tt
      | inr (ps, e) ↦
          rw (e, collect)
            (record {
              total = total_part-IsPercentage selection r s.total;
              cores = core_part-IsPercentage selection r s.core;
              memory = memory_part-IsPart selection r;
              count = subst (IfAny (λ qs. length qs ≤ top_count)) e (process_part-le W selection r);
              no_total = λ off. rw off;
              no_cores = λ off. rw off;
              no_memory = λ off. rw off (refl, refl);
              no_processes = λ off. cc (off, e);
            })
    ]

    -- With doubles as in IEEE 754, every snapshot that `collect` returns is sane, whatever the files of
    -- /proc hold and whatever was read before: the total usage and the usage of each core are numbers
    -- from 0 to 100, the used memory lies between 0 and the total, there are at most twelve processes, and
    -- each group that is not selected is 0 or empty.
    pub collect-IsSane :
        (selection : MetricsSelection) (r : Readings) (s : Statics) {m : SystemMetrics W}
        → (collect selection r s).0 ≡ some m
        → IsSane selection m
    collect-IsSane selection r s e =
        subst (IfAny (IsSane selection)) e (collect-IfAny selection r s)
