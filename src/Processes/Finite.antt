-- ===== src/Processes/Finite.antt =====
-- The numbers of the processes that `get_top_processes` returns are finite.
use mathlib.Core.Path.{subst}
use real_time_system_metrics.Base.{
  ℕ, ◌-◌, ◌^◌, ◌<◌, ◌==◌, Bool, true, false, [], ◌∷◌, Option, none, some, Bytes, if◌then◌else◌, ltb,
  All, All-mono, arith, Bool-cases, inl, inr, IfAny,
}
use real_time_system_metrics.Double.{Double, IsIeee, percent}
use real_time_system_metrics.Double.Range.{IsRanged, of_nat-IsWithin}
use real_time_system_metrics.CppStd.Map.{find}
use real_time_system_metrics.Selection.{MetricsSelection}
use real_time_system_metrics.Cpu.{CpuTimes}
use real_time_system_metrics.Cpu.Usage.{delta}
use real_time_system_metrics.Processes.{
  ProcessSnapshot, ProcessMetrics, Snapshots, metrics_of, candidate, ranked, top_between,
  candidates_loop,
}
use real_time_system_metrics.Processes.Top.{IsMeasured, ranked-All}
use real_time_system_metrics.Proc.Finite.{IsFinite, IsFiniteEntry, zero-IsFinite, quotient-IsFinite}

module _ {W : Type 0} ⦃d : Double W⦄ where
  pub record IsFiniteMetric (P : Bytes → Type 0) (p : ProcessMetrics W) : Type 0 where
    pub name : P p.name
    pub cpu_percent : IsFinite p.cpu_percent
    pub memory_mb : IsFinite p.memory_mb
    pub io_read_mb : IsFinite p.io_read_mb
    pub io_write_mb : IsFinite p.io_write_mb

  module _ (laws : IsIeee W) (ranged : IsRanged W) where
    percent-IsFinite : (a b : ℕ) → a < 2 ^ 64 → 0 < b → b < 2 ^ 64 → IsFinite {W = W} (percent a b)
    percent-IsFinite a b h k l =
        ranged.mul-IsWithin _ _ (quotient-IsFinite laws ranged a b h k l)
          (of_nat-IsWithin laws 100 (2 ^ 64) (omega arith))

    if-IsFinite : (b : Bool) (x : W) → IsFinite x → IsFinite (if b then x else d.of_nat 0)
    if-IsFinite true x h = h
    if-IsFinite false x h = zero-IsFinite laws ranged

    metrics_of-IsFiniteMetric :
        (P : Bytes → Type 0) (selection : MetricsSelection) (total start pid : ℕ)
        (e : ProcessSnapshot W)
        → 0 < total
        → total < 2 ^ 64
        → IsFiniteEntry P (pid, e)
        → IsFiniteMetric P (metrics_of selection total start pid e)
    unfolding metrics_of
    metrics_of-IsFiniteMetric P selection total start pid e h k f = record {
      name = f.name;
      cpu_percent = percent-IsFinite (e.cpu_time - start) total (omega (arith, f.word)) h k;
      memory_mb = f.memory_mb;
      io_read_mb = if-IsFinite selection.process_io _ f.io_read_mb;
      io_write_mb = if-IsFinite selection.process_io _ f.io_write_mb;
    }

    candidate-IfAny :
        (P : Bytes → Type 0) (selection : MetricsSelection) (total pid : ℕ) (e : ProcessSnapshot W)
        (start : Option (ProcessSnapshot W))
        → 0 < total
        → total < 2 ^ 64
        → IsFiniteEntry P (pid, e)
        → IfAny (IsFiniteMetric P) (candidate selection total pid e start)
    unfolding candidate
    candidate-IfAny P selection total pid e none h k f = tt
    candidate-IfAny P selection total pid e (some b) h k f =
        elim (Bool-cases (ltb e.cpu_time b.cpu_time)) [
          | inl c ↦ rw c tt
          | inr c ↦ rw c (metrics_of-IsFiniteMetric P selection total b.cpu_time pid e h k f)
        ]

    measured-IsFiniteMetric :
        (P : Bytes → Type 0) (selection : MetricsSelection) (total : ℕ) (ss es : Snapshots W)
        (p : ProcessMetrics W)
        → 0 < total
        → total < 2 ^ 64
        → All (IsFiniteEntry P) es
        → IsMeasured selection total ss es p
        → IsFiniteMetric P p
    measured-IsFiniteMetric P selection total ss [] p h k fs m = absurd m
    measured-IsFiniteMetric P selection total ss ((pid, e) ∷ es) p h k (f, fs) (inl q) =
        subst (IfAny (IsFiniteMetric P)) q
          (candidate-IfAny P selection total pid e (find ◌==◌ pid ss) h k f)
    measured-IsFiniteMetric P selection total ss ((pid, e) ∷ es) p h k (f, fs) (inr m) =
        measured-IsFiniteMetric P selection total ss es p h k fs m

    pub top_between-AreFinite :
        (P : Bytes → Type 0) (selection : MetricsSelection) (a b : CpuTimes) (ss es : Snapshots W)
        → b.total_time < 2 ^ 64
        → All (IsFiniteEntry P) es
        → All (IsFiniteMetric P) (top_between selection a b ss es)
    unfolding top_between
    top_between-AreFinite P selection a b ss es word fs =
        let total = delta b.total_time a.total_time in
        elim (Bool-cases (total == 0)) [
          | inl e ↦ rw e tt
          | inr e ↦ rw e (
              All-mono _ _ (ranked (candidates_loop selection total ss es []))
                (λ p m.
                  measured-IsFiniteMetric P selection total ss es p (ground arith) (ground arith) fs
                    m)
                (ranked-All selection total ss es))
        ]
