-- ===== src/Windows/Handles.antt =====
-- Every handle that `get_top_processes` acquires on Windows is released, on every path.
use real_time_system_metrics.Base.{
  ℕ, suc, ◌≡◌, refl, ◌∙◌, List, [], ◌∷◌, ◌++◌, Option, none, some, ◌==◌, if◌then◌else◌, arith,
  Option-cases, inl, inr,
}
use real_time_system_metrics.Double.{Double}
use real_time_system_metrics.Selection.{MetricsSelection}
use real_time_system_metrics.Processes.{ProcessMetrics}
use real_time_system_metrics.Windows.Times.{get_total_system_cpu_time}
use real_time_system_metrics.Windows.Processes.{
  Handle, HandleCall, opened, closed, Listed, Visit, Listing, TopRun, TimeMap, ProcessReadings,
  list_one, listing_loop, visits_loop, top_behind_listing, get_top_processes_win32,
}

-- A call on the handles that are open, the last one first: only the last one may be closed.
unfoldable pub held_behind : HandleCall → List Handle → Option (List Handle)
held_behind (opened h) held = some (h ∷ held)
held_behind (closed h) [] = none
held_behind (closed h) (k ∷ held) = if k == h then some held else none

-- The handles open behind a sequence of calls.
unfoldable pub held_after : List HandleCall → List Handle → Option (List Handle)
unfolding held_behind
held_after [] held = some held
held_after (c ∷ calls) held = elim (held_behind c held) [
  | none ↦ none
  | some held' ↦ held_after calls held'
]

held_after-append :
    (calls more : List HandleCall) (held : List Handle) {held' : List Handle}
    → held_after calls held ≡ some held'
    → held_after (calls ++ more) held ≡ held_after more held'
unfolding held_after
held_after-append [] more held e = ground (arith, e)
held_after-append (c ∷ calls) more held e = elim (Option-cases (held_behind c held)) [
  | inl n ↦ absurd (cc (rw (n, held_after) at e))
  | inr (mid, n) ↦ rw (n, held_after) (held_after-append calls more mid (rw (n, held_after) at e))
]

held_after_pair :
    (h : Handle) (held : List Handle) → held_after (opened h ∷ closed h ∷ []) held ≡ some held
unfolding held_after
held_after_pair h held = ground arith

held_after_close : (h : Handle) → held_after (closed h ∷ []) (h ∷ []) ≡ some []
unfolding held_after
held_after_close h = ground arith

module _ {W : Type 0} ⦃d : Double W⦄ where
  listing_loop-held :
      (selection : MetricsSelection) (listed : List Listed) (s : Listing W) {held : List Handle}
      → held_after s.run.calls [] ≡ some held
      → held_after (listing_loop selection listed s).run.calls [] ≡ some held
  unfolding listing_loop list_one
  listing_loop-held selection [] s e = e
  listing_loop-held selection (l ∷ listed) s e = elim (Option-cases l.process) [
    | inl n ↦ listing_loop-held selection listed (list_one selection l s) (rw n e)
    | inr ((h, t), n) ↦
        listing_loop-held selection listed (list_one selection l s) (
          rw n
            (held_after-append s.run.calls (opened h ∷ closed h ∷ []) [] e ∙ held_after_pair h _))
  ]

  visits_loop-held :
      (selection : MetricsSelection) (delta : ℕ) (times : TimeMap) (visits : ℕ → Option Visit)
      (i : ℕ) (ps : List (ProcessMetrics W)) (run : TopRun W) {held : List Handle}
      → held_after run.calls [] ≡ some held
      → held_after (visits_loop selection delta times visits i ps run).calls [] ≡ some held
  unfolding visits_loop
  visits_loop-held selection delta times visits i [] run e = e
  visits_loop-held selection delta times visits i (p ∷ ps) run e = elim (Option-cases (visits i)) [
    | inl n ↦ rw (n, visits_loop) (visits_loop-held selection delta times visits (suc i) ps _ e)
    | inr (v, n) ↦
        rw (n, visits_loop)
          (visits_loop-held selection delta times visits (suc i) ps _ (
            held_after-append run.calls (opened v.handle ∷ closed v.handle ∷ []) [] e
            ∙ held_after_pair v.handle _))
  ]

  top_behind_listing-held :
      (selection : MetricsSelection) (start : ℕ) (r : ProcessReadings) (snapshot : Handle)
      (s : Listing W)
      → held_after s.run.calls [] ≡ some (snapshot ∷ [])
      → held_after (top_behind_listing selection start r snapshot s).calls [] ≡ some []
  unfolding top_behind_listing
  top_behind_listing-held selection start r snapshot s e =
      let all_closed =
        held_after-append s.run.calls (closed snapshot ∷ []) [] e ∙ held_after_close snapshot in
      elim (Option-cases (get_total_system_cpu_time r.system_end)) [
        | inl n ↦ rw (n, top_behind_listing) all_closed
        | inr (end_time, n) ↦
            rw (n, top_behind_listing)
              (visits_loop-held selection _ _ r.visits 0 s.run.processes _ all_closed)
      ]

module _ (W : Type 0) ⦃d : Double W⦄ where
  -- On Windows, whatever the calls of the API return and on every path, each handle that
  -- `get_top_processes` gets is closed once and before any handle got earlier, and none is left open.
  pub get_top_processes_win32-held :
      (selection : MetricsSelection) (r : ProcessReadings)
      → held_after (get_top_processes_win32 {W = W} selection r).calls [] ≡ some []
  unfolding get_top_processes_win32 held_after
  get_top_processes_win32-held selection r =
      elim (Option-cases (get_total_system_cpu_time r.system_start)) [
        | inl n ↦ rw (n, get_top_processes_win32) refl
        | inr (start, n) ↦
            rw (n, get_top_processes_win32)
              (elim (Option-cases r.snapshot) [
                | inl t ↦ rw t refl
                | inr ((snapshot, listed), t) ↦ rw t (
                    top_behind_listing-held {W = W} selection start r snapshot _
                      (listing_loop-held selection listed _ refl))
              ])
      ]
