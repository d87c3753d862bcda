-- ===== src/Windows/Bounds.antt =====
-- No process that is measured on Windows has a NaN.
use real_time_system_metrics.Base.{
  ℕ, suc, ◌-◌, ◌^◌, ◌<◌, ◌≡◌, refl, [], ◌∷◌, Option, none, some, List, arith, All, All-append,
  Option-cases, inl, inr,
}
use real_time_system_metrics.Double.{Double, IsIeee, IsNum, IsAtMost}
use real_time_system_metrics.CppStd.Map.{find}
use real_time_system_metrics.Selection.{MetricsSelection}
use real_time_system_metrics.Cpu.Usage.{delta}
use real_time_system_metrics.Processes.{ProcessMetrics}
use real_time_system_metrics.Processes.Order.{IsComparable}
use real_time_system_metrics.Proc.Files.{megabytes}
use real_time_system_metrics.Windows.Times.{get_process_cpu_time}
use real_time_system_metrics.Windows.Processes.{
  Listed, Listing, Visit, TopRun, TimeMap, eq_ℤ, listed_process, list_one, listing_loop,
  usage_since, memory_since, visited, visit_one, visits_loop,
}

-- A SIZE_T of 64 bits.
abbrev pub IsSized : Option Visit → Type 0
IsSized none = Unit
IsSized (some v) = (n : ℕ) → v.working_set_size ≡ some n → n < 2 ^ 64

module _ {W : Type 0} ⦃d : Double W⦄ (laws : IsIeee W) where
  open laws use {of_nat-IsNum, percent-IsNum, quotient-IsNum, quotient-IsAtMost, megabyte}

  pub megabytes-IsNum : (n : ℕ) → n < 2 ^ 64 → IsNum {W = W} (megabytes n)
  megabytes-IsNum n h =
      rw (megabyte, megabytes) (quotient-IsNum n 1_048_576 h (omega arith) (omega arith))

  pub megabytes-IsAtMost : (n : ℕ) → n < 2 ^ 64 → IsAtMost {W = W} (d.of_nat 0) (megabytes n)
  megabytes-IsAtMost n h =
      rw (megabyte, megabytes) (quotient-IsAtMost n 1_048_576 h (omega arith) (omega arith))

  usage_since-IsNum :
      (delta : ℕ) (start finish : Option ℕ) (old : W)
      → delta < 2 ^ 64
      → ((t : ℕ) → finish ≡ some t → t < 2 ^ 64)
      → IsNum old
      → IsNum (usage_since delta start finish old)
  unfolding usage_since
  usage_since-IsNum delta (some a) (some b) old h k n =
      ground (arith, n, k b refl, percent-IsNum (b - a) delta)
  usage_since-IsNum delta none finish old h k n = n
  usage_since-IsNum delta (some a) none old h k n = n

  get_process_cpu_time-lt : (times : _) (t : ℕ) → get_process_cpu_time times ≡ some t → t < 2 ^ 64
  unfolding get_process_cpu_time
  get_process_cpu_time-lt none t e = cc
  get_process_cpu_time-lt (some times) t e = ground arith

  memory_since-IsNum :
      (ws : Option ℕ) (old : W)
      → ((n : ℕ) → ws ≡ some n → n < 2 ^ 64)
      → IsNum old
      → IsNum (memory_since ws old)
  memory_since-IsNum none old h n = n
  memory_since-IsNum (some ws) old h n = megabytes-IsNum ws (h ws refl)

  listed_process-IsComparable :
      (selection : MetricsSelection) (l : Listed)
      → IsComparable {W = W} (listed_process selection l)
  unfolding listed_process
  listed_process-IsComparable selection l = record { cpu = of_nat-IsNum 0; memory = of_nat-IsNum 0 }

  list_one-IsComparable :
      (selection : MetricsSelection) (l : Listed) (s : Listing W)
      → All IsComparable s.run.processes
      → All IsComparable (list_one selection l s).run.processes
  unfolding list_one
  list_one-IsComparable selection l s h =
      let whole =
        All-append IsComparable s.run.processes (listed_process selection l ∷ []) h
          (listed_process-IsComparable selection l, tt) in
      elim (Option-cases l.process) [ inl e ↦ rw e whole | inr ((k, t), e) ↦ rw e whole ]

  pub listing_loop-IsComparable :
      (selection : MetricsSelection) (listed : List Listed) (s : Listing W)
      → All IsComparable s.run.processes
      → All IsComparable (listing_loop selection listed s).run.processes
  unfolding listing_loop
  listing_loop-IsComparable selection [] s h = h
  listing_loop-IsComparable selection (l ∷ listed) s h =
      listing_loop-IsComparable selection listed (list_one selection l s)
        (list_one-IsComparable selection l s h)

  visit_one-IsComparable :
      (selection : MetricsSelection) (delta : ℕ) (times : TimeMap) (v : Option Visit)
      (p : ProcessMetrics W) (run : TopRun W)
      → delta < 2 ^ 64
      → IsSized v
      → IsComparable p
      → All IsComparable run.processes
      → All IsComparable (visit_one selection delta times v p run).processes
  unfolding visited
  visit_one-IsComparable selection delta times none p run h k c cs =
      All-append IsComparable run.processes (p ∷ []) cs (c, tt)
  visit_one-IsComparable selection delta times (some v) p run h k c cs =
      All-append IsComparable run.processes (visited selection delta times v p ∷ []) cs (
        record {
          cpu =
              usage_since-IsNum delta (find eq_ℤ p.pid times) (get_process_cpu_time v.times)
                p.cpu_percent h (get_process_cpu_time-lt v.times) c.cpu;
          memory = memory_since-IsNum v.working_set_size p.memory_mb k c.memory;
        },
        tt,
      )

  pub visits_loop-IsComparable :
      (selection : MetricsSelection) (delta : ℕ) (times : TimeMap) (visits : ℕ → Option Visit)
      (i : ℕ) (ps : List (ProcessMetrics W)) (run : TopRun W)
      → delta < 2 ^ 64
      → ((j : ℕ) → IsSized (visits j))
      → All IsComparable ps
      → All IsComparable run.processes
      → All IsComparable (visits_loop selection delta times visits i ps run).processes
  unfolding visits_loop
  visits_loop-IsComparable selection delta times visits i [] run h k c cs = cs
  visits_loop-IsComparable selection delta times visits i (p ∷ ps) run h k (c, c') cs =
      visits_loop-IsComparable selection delta times visits (suc i) ps
        (visit_one selection delta times (visits i) p run) h k c'
        (visit_one-IsComparable selection delta times (visits i) p run h (k i) c cs)
