-- ===== src/Startup/Valid.antt =====
-- What holds when `main` reaches its threads, and when it does not.
use real_time_system_metrics.Base.{
  ◌≡◌, ◌∙◌, ap, ◌<◌, inl, inr, Option-cases, Bool-cases, refl, false, List, [], ◌∷◌, Option, none,
  some, Bytes, pos, ltb_ℤ, if◌then◌else◌, arith,
}
use real_time_system_metrics.CppStd.Numbers.{stoi}
use real_time_system_metrics.Override.{apply_metrics_override}
use real_time_system_metrics.Config.{AgentConfig, Loaded, apply_all}
use real_time_system_metrics.Config.Valid.{IsValid, LoadResult, load_agent_config_file-LoadResult}
use real_time_system_metrics.Startup.{
  LogCall, log_loaded, Started, running, returned_1, terminated, finish_args, finish_load, start_at,
  start_main, initial_config, initial_path,
}
use real_time_system_metrics.Startup.Args.{
  scan_config, ArgsResult, parsed, invalid_metrics, thrown, apply_args,
}

finish_args-running :
    (logs : List LogCall) (r : ArgsResult) {c : AgentConfig}
    → (finish_args logs r).1 ≡ running c
    → IsValid c
unfolding finish_args
finish_args-running logs (parsed config) e = ground arith
finish_args-running logs (invalid_metrics error) e = cc
finish_args-running logs thrown e = cc

-- No option changes the capacity of the queue.
apply_args-capacity :
    (args : List Bytes) (config : AgentConfig) {c : AgentConfig}
    → apply_args args config ≡ parsed c
    → c.queue_capacity ≡ config.queue_capacity
unfolding apply_args
apply_args-capacity [] config e = ground arith
apply_args-capacity (arg ∷ []) config e = ground arith
apply_args-capacity (arg ∷ value ∷ rest) config {c} e =
    let o = apply_metrics_override value config.selection [] in
    let url = apply_args-capacity rest (record config { backend_url = value }) {c = c} in
    let disabled =
      apply_args-capacity (value ∷ rest) (record config { backend_enabled = false }) {c = c} in
    let metrics = apply_args-capacity rest (record config { selection = o.selection }) {c = c} in
    let skipped = apply_args-capacity rest config {c = c} in
    let other = apply_args-capacity (value ∷ rest) config {c = c} in
    elim (Option-cases (stoi value)) [
      | inl n ↦ ground arith
      | inr (z, n) ↦
          let interval =
            apply_args-capacity rest (record config { interval_seconds = z }) {c = c} in
          ground arith
    ]

-- The configuration before the command line is read: from the file, if there is a path.
abbrev pub loaded_config : (Bytes → Option Bytes) → AgentConfig → Bytes → Option AgentConfig
loaded_config read_file config [] = some config
loaded_config read_file config (p ∷ path) = elim (read_file (p ∷ path)) [
  | none ↦ none
  | some [] ↦ none
  | some (b ∷ text) ↦ some (apply_all (b ∷ text) config)
]

-- How the start ends, by what the command line makes of that configuration.
abbrev pub ending : ArgsResult → Started
ending (parsed c) = if ltb_ℤ (pos 0) c.interval_seconds then running c else returned_1
ending (invalid_metrics error) = returned_1
ending thrown = terminated

abbrev pub ending_of_load : List Bytes → Option AgentConfig → Started
ending_of_load args none = returned_1
ending_of_load args (some c) = ending (apply_args args c)

finish_args-ending :
    (logs : List LogCall) (r : ArgsResult)
    → ((c : AgentConfig) → r ≡ parsed c → 0 < c.queue_capacity)
    → (finish_args logs r).1 ≡ ending r
unfolding finish_args
finish_args-ending logs (parsed c) h = ground (arith, h c refl)
finish_args-ending logs (invalid_metrics error) h = refl
finish_args-ending logs thrown h = refl

ending_of_valid :
    (logs : List LogCall) (args : List Bytes) (config : AgentConfig)
    → IsValid config
    → (finish_args logs (apply_args args config)).1 ≡ ending (apply_args args config)
ending_of_valid logs args config v =
    finish_args-ending logs (apply_args args config)
      λ c e. omega (arith, v.capacity, apply_args-capacity args config e)

initial_config-IsValid : (backend_env : Option Bytes) → IsValid (initial_config backend_env)
initial_config-IsValid none = omega arith
initial_config-IsValid (some url) = omega arith

-- A load from a valid configuration, and what follows it.
finish_load-ending :
    (args : List Bytes) (path : Bytes) (file : Option Bytes) (config : AgentConfig) (r : Loaded)
    → LoadResult path config [] file r
    → (finish_load args path r).1
      ≡ ending_of_load args (elim file [
        | none ↦ none
        | some [] ↦ none
        | some (b ∷ text) ↦ some (apply_all (b ∷ text) config)
      ])
unfolding finish_load
finish_load-ending args path none config r h = rw h.0
finish_load-ending args path (some []) config r h = rw h.0
finish_load-ending args path (some (b ∷ text)) config r (ok, same, _, valid) = rw ok (
    ending_of_valid (log_loaded path ∷ []) args r.config valid
    ∙ ap (λ c. ending (apply_args args c)) same)

start_at-ending :
    (args : List Bytes) (read_file : Bytes → Option Bytes) (config : AgentConfig) (path : Bytes)
    → IsValid config
    → (start_at args read_file config path).1
      ≡ ending_of_load args (loaded_config read_file config path)
unfolding start_at
start_at-ending args read_file config [] v = ending_of_valid [] args config v
start_at-ending args read_file config (p ∷ path) v =
    finish_load-ending args (p ∷ path) (read_file (p ∷ path)) config _
      (load_agent_config_file-LoadResult (read_file (p ∷ path)) (p ∷ path) config [] v)

-- How `main` comes to its threads, by the configuration that the file leaves: it returns 1 if the file
-- is missing or empty or if an option `--metrics` is refused, it ends by an uncaught exception exactly
-- when the command line makes `std::stoi` throw first, and otherwise it runs if the interval is
-- positive and returns 1 if not. The test of the capacity never fails.
pub start_main-ending :
    (backend_env config_env : Option Bytes) (args : List Bytes) (read_file : Bytes → Option Bytes)
    → let path = scan_config args (initial_path config_env) in
      (start_main backend_env config_env args read_file).1
      ≡ ending_of_load args (loaded_config read_file (initial_config backend_env) path)
unfolding start_main
start_main-ending backend_env config_env args read_file =
    start_at-ending args read_file _ (scan_config args (initial_path config_env))
      (initial_config-IsValid backend_env)

finish_load-running :
    (args : List Bytes) (path : Bytes) (r : Loaded) {c : AgentConfig}
    → (finish_load args path r).1 ≡ running c
    → IsValid c
unfolding finish_load
finish_load-running args path r e = elim (Bool-cases r.success) [
  | inl ok ↦ finish_args-running (log_loaded path ∷ []) (apply_args args r.config) (rw ok at e)
  | inr failed ↦ absurd (cc (rw failed at e))
]

start_at-running :
    (args : List Bytes) (read_file : Bytes → Option Bytes) (config : AgentConfig) (path : Bytes)
    {c : AgentConfig}
    → (start_at args read_file config path).1 ≡ running c
    → IsValid c
unfolding start_at
start_at-running args read_file config [] e = finish_args-running [] (apply_args args config) e
start_at-running args read_file config (p ∷ path) e = finish_load-running args (p ∷ path) _ e

-- When `main` starts its threads, the interval is positive and the queue has room, whatever the
-- environment, the command line and the file hold.
pub start_main-IsValid :
    (backend_env config_env : Option Bytes) (args : List Bytes) (read_file : Bytes → Option Bytes)
    {c : AgentConfig}
    → (start_main backend_env config_env args read_file).1 ≡ running c
    → IsValid c
unfolding start_main
start_main-IsValid backend_env config_env args read_file e =
    start_at-running args read_file _ (scan_config args (initial_path config_env)) e
