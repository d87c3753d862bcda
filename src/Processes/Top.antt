-- ===== src/Processes/Top.antt =====
-- What `get_top_processes` returns.
use mathlib.Core.Path.{subst}
use mathlib.Core.List.{Perm}
use Prim.Native.Nat.{min}
use real_time_system_metrics.Base.{
  ℕ, ◌+◌, ◌^◌, ◌<◌, ◌==◌, ◌≡◌, ◌⊎◌, inl, inr, sym, ap, length-append, List, [], ◌∷◌, ◌++◌, Option,
  none, some, take, drop, length, length-take, take-append-drop, All, All-append, All-take,
  All-mono, arith, Option-cases,
}
use real_time_system_metrics.Double.{Double, IsIeee, IsNum}
use real_time_system_metrics.Selection.{MetricsSelection}
use real_time_system_metrics.Cpu.{CpuTimes}
use real_time_system_metrics.Cpu.Usage.{delta}
use real_time_system_metrics.Processes.{
  ProcessSnapshot, ProcessMetrics, Snapshots, top_count, candidate, candidates_loop, ranks_before,
  ranked,
}
use real_time_system_metrics.CppStd.Map.{find}
use real_time_system_metrics.Processes.Sort.{
  sort, sort-perm, sort-All, sort-IsRanked, IsRanked-take, All-ahead,
}
use real_time_system_metrics.Processes.Order.{
  IsComparable, Outranks, IsDescending, not-Outranks, IsRanked-IsDescending,
  ranks_before-IsWeakOrder,
}

module _ {W : Type 0} ⦃d : Double W⦄ where
  -- The processes kept and the processes left out: together they are the given ones, the kept ones are
  -- in order, there are at most twelve and fewer only if none is left out, and none that is left out
  -- outranks one that is kept.
  pub record IsTop (processes kept left_out : List (ProcessMetrics W)) : Type 0 where
    pub all_there : Perm (kept ++ left_out) processes
    pub in_order : IsDescending kept
    pub count : length kept ≡ min top_count (length kept + length left_out)
    pub best : All (λ q. All (λ p. ¬ Outranks q p) kept) left_out

  -- A metric that the loop computes from one pair of snapshots of a process.
  abbrev pub IsMeasured :
      MetricsSelection → ℕ → Snapshots W → Snapshots W → ProcessMetrics W → Type 0
  IsMeasured selection total start_snapshot [] p = ⊥
  IsMeasured selection total start_snapshot ((pid, e) ∷ rest) p =
      (candidate selection total pid e (find ◌==◌ pid start_snapshot) ≡ some p)
      ⊎ IsMeasured selection total start_snapshot rest p

  -- A snapshot with a CPU time of 64 bits and a memory that is a number.
  abbrev pub IsSound : ℕ × ProcessSnapshot W → Type 0
  IsSound (pid, e) = (e.cpu_time < 2 ^ 64) × IsNum e.memory_mb

  module _ (laws : IsIeee W) where
    pub ranked-IsTop :
        (processes : List (ProcessMetrics W))
        → All IsComparable processes
        → (left_out : List (ProcessMetrics W)) × IsTop processes (ranked processes) left_out
    unfolding ranked
    ranked-IsTop processes h =
        let sorted = sort ranks_before processes in
        let r = sort-IsRanked ranks_before (ranks_before-IsWeakOrder laws) processes h in
        (
          drop top_count sorted,
          record {
            all_there =
                subst (λ x. Perm x processes) (sym (take-append-drop top_count sorted))
                  (sort-perm ranks_before processes);
            in_order =
                IsRanked-IsDescending laws (take top_count sorted)
                  (IsRanked-take ranks_before top_count sorted r);
            count = omega (
              arith,
              length-take {0} top_count sorted,
              ap (length {0}) (take-append-drop top_count sorted),
              length-append {0} (take top_count sorted) (drop top_count sorted),
            );
            best =
                All-mono _ _ (drop top_count sorted)
                  (λ q. All-mono _ _ (take top_count sorted) (λ p. not-Outranks laws q p))
                  (All-ahead ranks_before top_count sorted r);
          },
        )

  candidates_loop-IsMeasured :
      (selection : MetricsSelection) (total : ℕ) (start_snapshot end_snapshot : Snapshots W)
      (processes : List (ProcessMetrics W)) (P : ProcessMetrics W → Type 0)
      → ((p : ProcessMetrics W) → IsMeasured selection total start_snapshot end_snapshot p → P p)
      → All P processes
      → All P (candidates_loop selection total start_snapshot end_snapshot processes)
  unfolding candidates_loop
  candidates_loop-IsMeasured selection total ss [] ps P f c = c
  candidates_loop-IsMeasured selection total ss ((pid, e) ∷ rest) ps P f c =
      elim (Option-cases (candidate selection total pid e (find ◌==◌ pid ss))) [
        | inl n ↦
            rw n (candidates_loop-IsMeasured selection total ss rest ps P (λ p m. f p (inr m)) c)
        | inr (p, q) ↦ rw q (
            candidates_loop-IsMeasured selection total ss rest (ps ++ p ∷ []) P (λ p m. f p (inr m))
              (All-append P ps (p ∷ []) c (f p (inl q), tt)))
      ]

  pub ranked-All :
      (selection : MetricsSelection) (total : ℕ) (ss es : Snapshots W)
      → All (IsMeasured selection total ss es) (ranked (candidates_loop selection total ss es []))
  unfolding ranked
  ranked-All selection total ss es =
      All-take _ top_count (sort ranks_before (candidates_loop selection total ss es [])) (
        sort-All ranks_before _ (candidates_loop selection total ss es []) (
          candidates_loop-IsMeasured selection total ss es [] (IsMeasured selection total ss es)
            (λ p m. m) tt))

  -- What is returned, by the two readings of the CPU times.
  abbrev pub TopResult :
      MetricsSelection
      → Option CpuTimes
      → Option CpuTimes
      → Snapshots W
      → Snapshots W
      → List (ProcessMetrics W)
      → Type 0
  TopResult selection none system_end ss es result = result ≡ []
  TopResult selection (some a) none ss es result = result ≡ []
  TopResult selection (some a) (some b) ss es result =
      let total = delta b.total_time a.total_time in
      (total ≡ 0 → result ≡ [])
      × (0 < total
          → ((left_out : List (ProcessMetrics W)) × IsTop (candidates_loop selection total ss es [])
                result left_out)
            × All (IsMeasured selection total ss es) result)
