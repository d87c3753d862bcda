-- ===== src/Windows/Laws.antt =====
-- FILETIME as a number, the name of a process, and the processes that are listed.
use real_time_system_metrics.Base.{
  ℕ, ◌+◌, ◌/◌, ◌%◌, ◌^◌, ◌<◌, ◌≡◌, ◌≢◌, refl, sym, ap, ◌∙◌, [], ◌∷◌, ◌++◌, map, append_assoc,
  append-nil, none, some, Bytes, List, length, arith, Option-cases, inl, inr,
}
use real_time_system_metrics.Double.{Double}
use real_time_system_metrics.Selection.{MetricsSelection}
use real_time_system_metrics.Windows.Times.{
  FileTime, filetime_to_uint64, SystemTimes, get_total_system_cpu_time,
}
use real_time_system_metrics.Windows.Names.{resize, Converter, process_name_to_utf8}
use real_time_system_metrics.Windows.Processes.{
  Handle, Listed, Listing, ProcessReadings, listed_process, list_one, listing_loop,
  top_behind_listing, get_top_processes_win32,
}

abbrev pub halves : ℕ → FileTime
halves n = record { low_date_time = n % 2 ^ 32; high_date_time = n / 2 ^ 32 }

-- A number of 64 bits comes back from its two halves, and two DWORDs make a number of 64 bits whose halves
-- they are.
pub filetime_to_uint64-halves :
    ((n : ℕ) → filetime_to_uint64 (halves n) ≡ n)
    × ((t : FileTime)
        → t.low_date_time < 2 ^ 32
        → t.high_date_time < 2 ^ 32
        → (filetime_to_uint64 t < 2 ^ 64) × (halves (filetime_to_uint64 t) ≡ t))
unfolding filetime_to_uint64
filetime_to_uint64-halves = (λ n. omega arith, λ t h k. ground arith)

resize_lem : (s more : Bytes) → resize (length s) (s ++ more) ≡ s
unfolding resize
resize_lem [] more = refl
resize_lem (c ∷ s) more = ap (◌∷◌ c) (resize_lem s more)

-- What the API documents of `WideCharToMultiByte` for a text that has a form in UTF-8: without a buffer it
-- returns the number of its bytes and of the zero behind them; with one of that size it fills it.
pub record Converts (convert : Converter) (name : List ℕ) (utf8 : Bytes) : Type 0 where
  pub required : (convert name 0).0 ≡ length utf8 + 1
  pub written : convert name (length utf8 + 1) ≡ (length utf8 + 1, utf8 ++ 0 ∷ [])

-- The name of a process is its form in UTF-8, without the zero at its end, if the conversion works as
-- documented and the form is not empty.
pub process_name_to_utf8-Converts :
    (convert : Converter) (c : ℕ) (name : List ℕ) (utf8 : Bytes)
    → utf8 ≢ []
    → Converts convert (c ∷ name) utf8
    → process_name_to_utf8 convert (some (c ∷ name)) ≡ utf8
unfolding process_name_to_utf8
process_name_to_utf8-Converts convert c name [] n h = absurd (n refl)
process_name_to_utf8-Converts convert c name (b ∷ utf8) n h =
    rw (h.required, h.written) (ground (arith, resize_lem (b ∷ utf8) (0 ∷ [])))

module _ {W : Type 0} ⦃d : Double W⦄ where
  list_one-processes :
      (selection : MetricsSelection) (l : Listed) (s : Listing W)
      → (list_one selection l s).run.processes ≡ s.run.processes ++ listed_process selection l ∷ []
  unfolding list_one
  list_one-processes selection l s = elim (Option-cases l.process) [
    | inl e ↦ rw e
    | inr ((h, t), e) ↦ rw e
  ]

  pub listing_loop-processes :
      (selection : MetricsSelection) (listed : List Listed) (s : Listing W)
      → (listing_loop selection listed s).run.processes
        ≡ s.run.processes ++ map (listed_process selection) listed
  unfolding listing_loop
  listing_loop-processes selection [] s = sym (append-nil s.run.processes)
  listing_loop-processes selection (l ∷ listed) s =
      listing_loop-processes selection listed (list_one selection l s)
      ∙ rw (list_one-processes selection l s)
          (append_assoc s.run.processes (listed_process selection l ∷ []) _)

  -- On Windows, if the CPU time of the system can be read before the snapshot of the processes and not
  -- behind it, every process of the snapshot is returned, in the snapshot's order and unmeasured:
  -- neither ranked nor cut to twelve.
  pub get_top_processes_win32-unranked :
      (selection : MetricsSelection) (r : ProcessReadings) (start : SystemTimes) (snapshot : Handle)
      (listed : List Listed)
      → r.system_start ≡ some start
      → r.snapshot ≡ some (snapshot, listed)
      → r.system_end ≡ none
      → (get_top_processes_win32 {W = W} selection r).processes
        ≡ map (listed_process selection) listed
  unfolding get_top_processes_win32 top_behind_listing get_total_system_cpu_time
  get_top_processes_win32-unranked selection r start snapshot listed e f g =
      rw (e, f, g) (listing_loop-processes selection listed _)
