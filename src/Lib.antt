-- ===== src/Lib.antt =====
-- The metrics agent of the Real-Time System Metrics Platform: the C++ program under agent/.
--
-- The agent reads its configuration (environment, command line, file), starts a thread that collects
-- snapshots of the system from /proc into a bounded queue and a thread that takes them from the
-- queue and posts them as JSON to the backend, and ends on SIGINT or SIGTERM. All it has to say is logged,
-- one JSON object on a line.
--
-- Which file models what:
--   Logger: agent/src/structured_logger.cpp (`escape_json_string`, `log_event`); Logger.Fields is the
--     `std::map` of the fields, Logger.Clock has `now_utc_iso8601`, Logger.RoundTrip and Logger.Lines are
--     proofs.
--   Selection: `MetricsSelection` of agent/include/metrics_collector.h.
--   Override: `split_csv` and `apply_metrics_override` of agent/src/main.cpp. The loop carries its local
--     `updated`, and the caller's `selection` and `error` as they are.
--   Config: agent/src/agent_config.cpp and agent/include/agent_config.h. Config.Text has `trim` and the
--     readers of scalars, Config.Extract the three searches for a key, Config the `apply_…` functions
--     and `load_agent_config_file`. References that a function changes are results (`Loaded`).
--     Config.Lines, Yaml, Numbers, Written and RoundTrip are about files of lines `key: value`.
--   Startup: `main` of agent/src/main.cpp up to its threads; Startup.Args has its two loops over `argv`.
--     A run is the list of its calls of `log_event` and how it ends: with its configuration, by
--     `return 1`, or by an exception that nothing catches.
--   Pipeline: the rest of `main`: the signal handler, the two threads and the joins, as one step relation
--     over all their interleavings. A step is one critical section of `queue_mutex`, one access to
--     `should_exit`, one notification, or one call of `collect` or `send_metrics`. What the threads do
--     to the queue is computed by `push` and `sender_round` of Pipeline.Queue. The state also records the
--     history: what was collected, what left the queue and how, and what was handed to `send_metrics`.
--     Pipeline.Sending has what the two threads log, and the sender's round behind its critical section.
--     The proofs are in Pipeline.History, Shutdown, Progress, Exit and Liveness.
--   Agent: the threads again, with all that they call. A step is one of the pipeline's, with the call of
--     `collect` or `send_metrics` that it makes, or one call of `log_event`; the state has the statics of
--     the collector, the client, what each thread has still to log, the history of
--     requests and logs, and what libcurl did with each snapshot.
--     Agent.Refines, Served, Told, Turns, Logs, Whole and Payload are proofs.
--   Cpu: the readers of /proc/stat of agent/src/metrics_collector.cpp; Cpu.Usage has `get_total_cpu` and
--     `get_per_core_cpu`, whose static variables are an argument and a result. Cpu.Written and Cpu.Cores
--     are about the texts that the kernel writes.
--   Proc: `is_numeric_text`, `read_linux_process_stat` (Proc.Stat), `read_linux_process_status_fields` and
--     `read_linux_process_io` (Proc.Files), and `collect_linux_process_snapshot`. The
--     proofs are in Proc.Lines, Written, Loops, Listing, Snapshot and Finite.
--   Processes: `get_top_processes` from two snapshots of the processes; Processes.Sort stands for
--     `std::sort`, and Processes.Order says which order the results have.
--   Collector: `MetricsCollector::collect`, `get_system_memory` (Collector.Memory); Metrics has its result.
--     The proofs are in Collector.Loop, Bounds, Cases, Laws, Top, Finite and Written.
--   Windows: the branches of the same file under `_WIN32`, whose API is outside: Windows.Times and
--     Windows.Names have the helpers, Windows.Processes has `get_top_processes` with the handles that it
--     opens and closes, Windows.Collect the rest; names end in `_win32` where Linux has a branch too.
--   HttpClient: agent/src/http_client.cpp, `metrics_to_json`, and `send_metrics` (HttpClient.Send) with the
--     client's error and status as state. HttpClient.Curl has the calls of libcurl that a client makes from its
--     constructor to its destructor, HttpClient.Usage the rules for them. HttpClient.Lexer, Reader and
--     RoundTrip are a reader of payloads.
--   Base: lists, texts and integers. CppStd: what is used of the C++ library: characters, `getline`, the
--     conversions of numbers, formatted input, and a matcher for the three regular expressions; CppStd.Keyed is about
--     texts of lines `key   number unit`.
--   Tests: each component has its examples in a module of that name.
--
-- Texts are lists of bytes, in the "C" locale. `uint64_t` is a natural number with `% 2 ^ 64` on each sum;
-- the conversions of text refuse or saturate out of range, as the C++ library does. `double` is a
-- parameter: the record `Double` has the operations that the code uses, and `IsIeee` the laws that the
-- proofs need of them; Double.Range has laws on the range of the
-- operations; Double.Fixed is an instance in exact fixed-point arithmetic that has these laws and
-- serves the tests. The operating system is outside: a reader of a file gets its text, or `none` where it
-- cannot be opened, a function for Windows gets what each call of the API returned, and `send_metrics`
-- gets what libcurl does with a request.
--
-- Fuel: `io_loop` and `meminfo_loop` get one more than the length of the text, and each round takes at
-- least one byte (CppStd.Progress); the printing of a number gets the number itself, and each round
-- divides it by ten (CppStd.Printing); the reader of an array in a payload gets the number of tokens. All
-- other loops are by recursion on their list or text.
--
-- Not modelled: what the clock, `gmtime_r` and `put_time` do, which are arguments; the lengths of
-- the sleeps; exceptions of `log_event` in the threads; what becomes of lines that two threads log at
-- once; an error in the middle of a directory's iteration; the overflow of `atoi` on names in /proc and of
-- `int` on the number of open files; the order of equal processes, which `std::sort` leaves open
-- and the model keeps; the order of an `unordered_map`, which is any list here; a failing
-- allocation. The backend, the dashboard and the deployment are other programs.
pub mod Base
pub mod CppStd
pub mod Double
pub mod Logger
pub mod Selection
pub mod Override
pub mod Config
pub mod Startup
pub mod Pipeline
pub mod Cpu
pub mod Processes
pub mod Proc
pub mod Metrics
pub mod Collector
pub mod HttpClient
pub mod Windows
pub mod Agent
