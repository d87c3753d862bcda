-- ===== src/Collector/Cases.antt =====
-- The ways in which `get_top_processes` comes to its list, for what holds of every list it returns.
use real_time_system_metrics.Base.{
  ◌≡◌, ◌⊎◌, refl, ◌==◌, Bool, true, false, List, [], Option, some, if◌then◌else◌, Bool-cases,
  Option-cases, inl, inr, IfAny,
}
use real_time_system_metrics.Double.{Double}
use real_time_system_metrics.Selection.{MetricsSelection}
use real_time_system_metrics.Cpu.{CpuTimes, read_linux_cpu_times}
use real_time_system_metrics.Cpu.Usage.{delta}
use real_time_system_metrics.Processes.{ProcessMetrics, Snapshots, top_between}
use real_time_system_metrics.Proc.{Collected, collected, thrown}
use real_time_system_metrics.Collector.{
  Readings, snapshot_at, top_at_end, top_processes_at, process_part,
}

module _ {W : Type 0} ⦃d : Double W⦄ where
  Collected-cases :
      (r : Collected W) → (r ≡ thrown) ⊎ ((snapshots : Snapshots W) × (r ≡ collected snapshots))
  Collected-cases thrown = inl refl
  Collected-cases (collected snapshots) = inr (snapshots, refl)

  module _ (P : List (ProcessMetrics W) → Type 0) (selection : MetricsSelection) (r : Readings)
      (nil : P [])
      (between : (a b : CpuTimes) (ss es : Snapshots W)
        → read_linux_cpu_times r.stat_end ≡ some b
        → snapshot_at r.end_fs ≡ collected es
        → P (top_between selection a b ss es)) where
    top_at_end-IfAny :
        (a b : CpuTimes) (s : Snapshots W)
        → read_linux_cpu_times r.stat_end ≡ some b
        → IfAny P (top_at_end selection a b s r.end_fs)
    unfolding top_at_end
    top_at_end-IfAny a b s read = elim (Bool-cases (delta b.total_time a.total_time == 0)) [
      | inl z ↦ rw z nil
      | inr z ↦ rw z (elim (Collected-cases (snapshot_at r.end_fs)) [
        | inl t ↦ rw t tt
        | inr (e, t) ↦ rw t (between a b s e read t)
      ])
    ]

    top_processes_at-IfAny : IfAny P (top_processes_at selection r)
    unfolding top_processes_at
    top_processes_at-IfAny = elim (Option-cases (read_linux_cpu_times r.stat_start)) [
      | inl p ↦ rw (p, top_processes_at) nil
      | inr (a, p) ↦
          rw (p, top_processes_at)
            (elim (Collected-cases (snapshot_at {W = W} r.start_fs)) [
              | inl q ↦ rw q tt
              | inr (s, q) ↦ rw q (elim (Option-cases (read_linux_cpu_times r.stat_end)) [
                | inl t ↦ rw t nil
                | inr (b, t) ↦ rw t (top_at_end-IfAny a b s t)
              ])
            ])
    ]

    IfAny-if_some :
        (b : Bool) (ps : Option (List (ProcessMetrics W)))
        → IfAny P ps
        → IfAny P (if b then ps else some [])
    IfAny-if_some true ps h = h
    IfAny-if_some false ps h = nil

    -- What holds of the empty list, and of the list between any two snapshots, holds of every list that
    -- is returned.
    pub process_part-IfAny : IfAny P (process_part selection r)
    process_part-IfAny =
        IfAny-if_some selection.top_processes (top_processes_at selection r) top_processes_at-IfAny
