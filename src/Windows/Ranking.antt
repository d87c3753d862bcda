-- ===== src/Windows/Ranking.antt =====
-- Which processes `get_top_processes` returns on Windows, and in which order.
use mathlib.Core.Path.{subst}
use real_time_system_metrics.Base.{
  append-nil, append_assoc, map, ℕ, suc, ◌^◌, ◌≤◌, ◌<◌, ◌≡◌, sym, ◌∙◌, [], ◌∷◌, ◌++◌, Option, none,
  some, List, length, arith, All, Option-cases, inl, inr,
}
use real_time_system_metrics.Double.{Double, IsIeee}
use real_time_system_metrics.Selection.{MetricsSelection}
use real_time_system_metrics.Cpu.Usage.{delta}
use real_time_system_metrics.Processes.{ProcessMetrics, top_count, ranked}
use real_time_system_metrics.Processes.Order.{IsComparable}
use real_time_system_metrics.Processes.Top.{IsTop, ranked-IsTop}
use real_time_system_metrics.Collector.Laws.{ranked-le}
use real_time_system_metrics.Windows.Times.{SystemTimes, get_total_system_cpu_time}
use real_time_system_metrics.Windows.Processes.{
  Handle, Listed, Listing, Visit, TopRun, TimeMap, ProcessReadings, opened, closed, listed_process,
  listing_loop, visited, visits_loop, top_behind_listing, get_top_processes_win32,
}
use real_time_system_metrics.Windows.Laws.{listing_loop-processes}
use real_time_system_metrics.Windows.Bounds.{
  IsSized, listing_loop-IsComparable, visits_loop-IsComparable,
}

total_time-lt :
    (times : Option SystemTimes) (t : ℕ) → get_total_system_cpu_time times ≡ some t → t < 2 ^ 64
unfolding get_total_system_cpu_time
total_time-lt none t e = cc
total_time-lt (some times) t e = ground arith

module _ {W : Type 0} ⦃d : Double W⦄ where
  -- The processes as they are behind their visits, round by round.
  unfoldable pub measured :
      MetricsSelection
      → ℕ
      → TimeMap
      → (ℕ → Option Visit)
      → ℕ
      → List (ProcessMetrics W)
      → List (ProcessMetrics W)
  measured selection delta times visits i [] = []
  measured selection delta times visits i (p ∷ ps) =
      elim (visits i) [ none ↦ p | some v ↦ visited selection delta times v p ]
      ∷ measured selection delta times visits (suc i) ps

  visits_loop-measured :
      (selection : MetricsSelection) (delta : ℕ) (times : TimeMap) (visits : ℕ → Option Visit)
      (i : ℕ) (ps : List (ProcessMetrics W)) (run : TopRun W)
      → (visits_loop selection delta times visits i ps run).processes
        ≡ run.processes ++ measured selection delta times visits i ps
  unfolding visits_loop measured
  visits_loop-measured selection delta times visits i [] run = sym (append-nil run.processes)
  visits_loop-measured selection delta times visits i (p ∷ ps) run =
      elim (Option-cases (visits i)) [
        | inl e ↦
            rw (e, visits_loop)
              (visits_loop-measured selection delta times visits (suc i) ps _
                ∙ append_assoc run.processes (p ∷ []) _)
        | inr (v, e) ↦
            rw (e, visits_loop)
              (visits_loop-measured selection delta times visits (suc i) ps _
                ∙ append_assoc run.processes (visited selection delta times v p ∷ []) _)
      ]

  -- Before the first round of the first loop, with the snapshot's handle.
  abbrev pub unlisted : Handle → Listing W
  unlisted snapshot = record {
    process_time_start = [];
    run = record { calls = opened snapshot ∷ []; processes = [] };
  }

  pub top_behind_listing-le :
      (selection : MetricsSelection) (start : ℕ) (r : ProcessReadings) (snapshot : Handle)
      (s : Listing W) (t : ℕ)
      → get_total_system_cpu_time r.system_end ≡ some t
      → length (top_behind_listing selection start r snapshot s).processes ≤ top_count
  unfolding top_behind_listing
  top_behind_listing-le selection start r snapshot s t e =
      rw (e, top_behind_listing)
        (ranked-le
          (visits_loop selection (delta t start) s.process_time_start r.visits 0 s.run.processes
            (record { calls = s.run.calls ++ closed snapshot ∷ []; processes = [] })).processes)

  module _ (laws : IsIeee W) where
    top_behind_listing-IsTop :
        (selection : MetricsSelection) (start : ℕ) (r : ProcessReadings) (snapshot : Handle)
        (s : Listing W) (t : ℕ)
        → get_total_system_cpu_time r.system_end ≡ some t
        → ((j : ℕ) → IsSized (r.visits j))
        → All IsComparable s.run.processes
        → (left_out : List (ProcessMetrics W)) × IsTop
            (measured selection (delta t start) s.process_time_start r.visits 0 s.run.processes)
            (top_behind_listing selection start r snapshot s).processes
            left_out
    unfolding top_behind_listing
    top_behind_listing-IsTop selection start r snapshot s t e k c =
        let run =
          visits_loop selection (delta t start) s.process_time_start r.visits 0 s.run.processes
            (record { calls = s.run.calls ++ closed snapshot ∷ []; processes = [] }) in
        let same =
          visits_loop-measured selection (delta t start) s.process_time_start r.visits 0
            s.run.processes
            (record { calls = s.run.calls ++ closed snapshot ∷ []; processes = [] }) in
        let w = total_time-lt r.system_end t e in
        let top = ranked-IsTop laws run.processes (
          visits_loop-IsComparable laws selection (delta t start) s.process_time_start r.visits 0
            s.run.processes _ (ground arith) k c tt) in
        rw (e, top_behind_listing)
          (subst
            (λ ps. (left_out : List (ProcessMetrics W)) × IsTop ps (ranked run.processes) left_out)
            same top)

    -- On Windows, with doubles as in IEEE 754 and sizes of 64 bits, if the CPU time of the system can be
    -- read twice and the snapshot of the processes can be made: the processes of the snapshot, each
    -- measured by its visit if it can be opened, are ranked by CPU usage and then by memory, and the best
    -- twelve are returned in that order, or all if there are fewer.
    pub get_top_processes_win32-IsTop :
        (selection : MetricsSelection) (r : ProcessReadings) (snapshot : Handle)
        (listed : List Listed) (a b : ℕ)
        → get_total_system_cpu_time r.system_start ≡ some a
        → r.snapshot ≡ some (snapshot, listed)
        → get_total_system_cpu_time r.system_end ≡ some b
        → ((j : ℕ) → IsSized (r.visits j))
        → let starts =
            (listing_loop {W = W} selection listed (unlisted snapshot)).process_time_start in
          (left_out : List (ProcessMetrics W)) × IsTop
            (measured selection
              (delta b a)
              starts
              r.visits
              0
              (map (listed_process selection) listed))
            (get_top_processes_win32 selection r).processes
            left_out
    unfolding get_top_processes_win32
    get_top_processes_win32-IsTop selection r snapshot listed a b e f g k =
        let s : Listing W = listing_loop selection listed (unlisted snapshot) in
        let all = listing_loop-processes selection listed (unlisted snapshot) in
        let top =
          top_behind_listing-IsTop selection a r snapshot s b g k
            (listing_loop-IsComparable laws selection listed (unlisted snapshot) tt) in
        rw (e, f, get_top_processes_win32)
          (subst
            (λ ps.
              (left_out : List (ProcessMetrics W)) × IsTop
                (measured selection (delta b a) s.process_time_start r.visits 0 ps)
                (top_behind_listing selection a r snapshot s).processes left_out)
            all top)
