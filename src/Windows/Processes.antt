-- ===== src/Windows/Processes.antt =====
-- agent/src/metrics_collector.cpp, under `_WIN32`: `get_top_processes`.
use real_time_system_metrics.Base.{
  ℕ, suc, ◌-◌, ◌&&◌, Bool, true, List, [], ◌∷◌, ◌++◌, Option, none, some, Bytes, ltb, leb,
  if◌then◌else◌, ℤ, pos, leb_ℤ,
}
use real_time_system_metrics.Double.{Double, percent}
use real_time_system_metrics.CppStd.Map.{find, assign}
use real_time_system_metrics.Selection.{MetricsSelection}
use real_time_system_metrics.Cpu.Usage.{delta}
use real_time_system_metrics.Processes.{ProcessMetrics, ranked}
use real_time_system_metrics.Proc.Files.{megabytes}
use real_time_system_metrics.Windows.Times.{
  SystemTimes, ProcessTimes, get_total_system_cpu_time, get_process_cpu_time, int_of_dword,
}

abbrev pub Handle : Type 0
Handle = ℕ

-- The calls that acquire and release handles, in their order.
pub data HandleCall : Type 0 where
  opened : Handle → HandleCall
  closed : Handle → HandleCall

-- One round over the snapshot: the PROCESSENTRY32, its name, and the process if it could be opened.
pub record Listed : Type 0 where
  pub process_id : ℕ
  pub threads : ℕ
  pub exe_name : Bytes
  pub process : Option (Handle × Option ProcessTimes)

-- One round over the processes, with an open process: what the calls with its handle returned.
pub record Visit : Type 0 where
  pub handle : Handle
  pub times : Option ProcessTimes
  pub working_set_size : Option ℕ
  pub transfers : Option (ℕ × ℕ)
  pub handle_count : Option ℕ

abbrev pub eq_ℤ : ℤ → ℤ → Bool
eq_ℤ a b = leb_ℤ a b && leb_ℤ b a

-- `std::unordered_map<int, uint64_t>`
abbrev pub TimeMap : Type 0
TimeMap = List (ℤ × ℕ)

-- The handles that a call acquires and releases, and the processes so far.
pub record TopRun (W : Type 0) : Type 0 where
  pub calls : List HandleCall
  pub processes : List (ProcessMetrics W)

-- The locals of the first loop.
pub record Listing (W : Type 0) : Type 0 where
  pub process_time_start : TimeMap
  pub run : TopRun W

-- `handle_count` of a process, if it is selected and could be read.
abbrev pub handles_since : Bool → Option ℕ → ℤ → ℤ
handles_since true (some handle_count) old = int_of_dword handle_count
handles_since selected count old = old

-- `process_time_start` behind the round of a process, by its time if it can be read.
unfoldable pub start_time : ℤ → Option ℕ → TimeMap → TimeMap
unfolding assign
start_time pid none process_time_start = process_time_start
start_time pid (some process_time) process_time_start =
    assign eq_ℤ pid process_time process_time_start

module _ {W : Type 0} ⦃d : Double W⦄ where
  unfoldable pub listed_process : MetricsSelection → Listed → ProcessMetrics W
  listed_process selection l = record {
    pid = int_of_dword l.process_id;
    name = l.exe_name;
    cpu_percent = d.of_nat 0;
    memory_mb = d.of_nat 0;
    thread_count = if selection.process_threads then int_of_dword l.threads else pos 0;
    io_read_mb = d.of_nat 0;
    io_write_mb = d.of_nat 0;
    handle_count = pos 0;
  }

  -- `OpenProcess` and what follows it in the first loop.
  abbrev pub with_start_time : ℤ → Option (Handle × Option ProcessTimes) → Listing W → Listing W
  with_start_time pid none s = s
  with_start_time pid (some (handle, times)) s = record {
    process_time_start = start_time pid (get_process_cpu_time times) s.process_time_start;
    run = record {
      calls = s.run.calls ++ opened handle ∷ closed handle ∷ [];
      processes = s.run.processes;
    };
  }

  -- One round of the first loop.
  unfoldable pub list_one : MetricsSelection → Listed → Listing W → Listing W
  unfolding listed_process start_time
  list_one selection l s =
      let proc = listed_process selection l in
      let s' = with_start_time proc.pid l.process s in
      record {
        process_time_start = s'.process_time_start;
        run = record { calls = s'.run.calls; processes = s'.run.processes ++ proc ∷ [] };
      }

  unfoldable pub listing_loop : MetricsSelection → List Listed → Listing W → Listing W
  unfolding list_one
  listing_loop selection [] s = s
  listing_loop selection (l ∷ listed) s = listing_loop selection listed (list_one selection l s)

  -- The usage of a process between its two times; `old` where one of them is missing.
  unfoldable pub usage_since : ℕ → Option ℕ → Option ℕ → W → W
  usage_since system_time_delta (some start) (some end_time) old =
      if ltb 0 system_time_delta && leb start end_time
      then percent (end_time - start) system_time_delta
      else old
  usage_since system_time_delta _ _ old = old

  abbrev pub memory_since : Option ℕ → W → W
  memory_since none old = old
  memory_since (some working_set_size) old = megabytes working_set_size

  abbrev pub transfers_since : Bool → Option (ℕ × ℕ) → W × W → W × W
  transfers_since true (some (read_count, write_count)) old =
      (megabytes read_count, megabytes write_count)
  transfers_since selected transfers old = old

  -- One round of the second loop, with an open process.
  unfoldable pub visited :
      MetricsSelection → ℕ → TimeMap → Visit → ProcessMetrics W → ProcessMetrics W
  unfolding usage_since find
  visited selection system_time_delta process_time_start v proc =
      let (io_read_mb, io_write_mb) =
        transfers_since selection.process_io v.transfers (proc.io_read_mb, proc.io_write_mb) in
      record proc {
        cpu_percent =
            usage_since system_time_delta (find eq_ℤ proc.pid process_time_start)
              (get_process_cpu_time v.times) proc.cpu_percent;
        memory_mb = memory_since v.working_set_size proc.memory_mb;
        io_read_mb = io_read_mb;
        io_write_mb = io_write_mb;
        handle_count = handles_since selection.process_handles v.handle_count proc.handle_count;
      }

  -- One round of the second loop, behind the rounds before it; `none` is a process that cannot be opened.
  abbrev pub visit_one :
      MetricsSelection → ℕ → TimeMap → Option Visit → ProcessMetrics W → TopRun W → TopRun W
  visit_one selection system_time_delta process_time_start none proc run = record {
    calls = run.calls;
    processes = run.processes ++ proc ∷ [];
  }
  visit_one selection system_time_delta process_time_start (some v) proc run = record {
    calls = run.calls ++ opened v.handle ∷ closed v.handle ∷ [];
    processes = run.processes ++ visited selection system_time_delta process_time_start v proc ∷ [];
  }

  -- The second loop over the processes; `visits` is by the number of the round.
  unfoldable pub visits_loop :
      MetricsSelection
      → ℕ
      → TimeMap
      → (ℕ → Option Visit)
      → ℕ
      → List (ProcessMetrics W)
      → TopRun W
      → TopRun W
  unfolding visited
  visits_loop selection system_time_delta process_time_start visits i [] run = run
  visits_loop selection system_time_delta process_time_start visits i (proc ∷ processes) run =
      visits_loop selection system_time_delta process_time_start visits (suc i) processes
        (visit_one selection system_time_delta process_time_start (visits i) proc run)

-- All that one call of `get_top_processes` gets from the API, in the order of its calls.
pub record ProcessReadings : Type 0 where
  pub system_start : Option SystemTimes
  pub snapshot : Option (Handle × List Listed)
  pub system_end : Option SystemTimes
  pub visits : ℕ → Option Visit

module _ {W : Type 0} ⦃d : Double W⦄ where
  -- Behind the first loop, with the snapshot's handle.
  unfoldable pub top_behind_listing :
      MetricsSelection → ℕ → ProcessReadings → Handle → Listing W → TopRun W
  unfolding visits_loop
  top_behind_listing selection system_time_start r snapshot s =
      let calls = s.run.calls ++ closed snapshot ∷ [] in
      elim (get_total_system_cpu_time r.system_end) [
        | none ↦ record { calls = calls; processes = s.run.processes }
        | some system_time_end ↦
            let run =
              visits_loop selection (delta system_time_end system_time_start) s.process_time_start
                r.visits 0 s.run.processes (record { calls = calls; processes = [] }) in
            record { calls = run.calls; processes = ranked run.processes }
      ]

  unfoldable pub get_top_processes_win32 : MetricsSelection → ProcessReadings → TopRun W
  unfolding top_behind_listing listing_loop get_total_system_cpu_time
  get_top_processes_win32 selection r = elim (get_total_system_cpu_time r.system_start) [
    | none ↦ record { calls = []; processes = [] }
    | some system_time_start ↦ elim r.snapshot [
      | none ↦ record { calls = []; processes = [] }
      | some (snapshot, listed) ↦ top_behind_listing selection system_time_start r snapshot (
          listing_loop selection listed (record {
            process_time_start = [];
            run = record { calls = opened snapshot ∷ []; processes = [] };
          }))
    ]
  ]
