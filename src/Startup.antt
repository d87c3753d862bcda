-- ===== src/Startup.antt =====
-- agent/src/main.cpp, from the start of `main` to the start of the threads: the environment, the
-- command line, the configuration file and the checks.
-- The environment, the arguments behind the program's name and the file system are arguments here.
pub mod Args
pub mod Options
pub mod Valid
pub mod Tests
use real_time_system_metrics.Base.{
  ℕ, Bool, true, false, List, [], ◌∷◌, ◌++◌, Option, none, some, Bytes, codes, ◌==◌, if◌then◌else◌,
  pos, leb_ℤ,
}
use real_time_system_metrics.CppStd.Numbers.{to_string, int_to_string}
use real_time_system_metrics.Logger.Fields.{map_of}
use real_time_system_metrics.Config.{AgentConfig, defaults, Loaded, load_agent_config_file}
use Args.{scan_config, ArgsResult, parsed, invalid_metrics, thrown, apply_args}

-- A call of `log_event`.
pub record LogCall : Type 0 where
  pub level : Bytes
  pub event : Bytes
  pub message : Bytes
  pub fields : List (Bytes × Bytes)

-- How `main` comes to the threads: with its configuration, by `return 1`, or by an exception that
-- nothing catches.
pub data Started : Type 0 where
  running : AgentConfig → Started
  returned_1 : Started
  terminated : Started

abbrev pub startup_fields : AgentConfig → List (Bytes × Bytes)
startup_fields config =
    map_of
      ((codes "backend_enabled", if config.backend_enabled then codes "true" else codes "false")
        ∷ (codes "backend_url", config.backend_url)
        ∷ (codes "interval_seconds", int_to_string config.interval_seconds)
        ∷ (codes "queue_capacity", to_string config.queue_capacity)
        ∷ [])
      []

abbrev pub log_error : Bytes → Bytes → LogCall
log_error event message = record {
  level = codes "ERROR";
  event = event;
  message = message;
  fields = [];
}

abbrev pub log_loaded : Bytes → LogCall
log_loaded path = record {
  level = codes "INFO";
  event = codes "config.loaded";
  message = codes "Loaded runtime configuration";
  fields = (codes "path", path) ∷ [];
}

-- The two checks behind the command line, and the start.
unfoldable pub check_start : List LogCall → AgentConfig → List LogCall × Started
check_start logs config =
    if leb_ℤ config.interval_seconds (pos 0)
    then (
      logs ++ log_error (codes "config.invalid_interval") (codes "interval must be > 0") ∷ [],
      returned_1,
    )
    else if config.queue_capacity == 0
    then (
      logs
          ++ log_error (codes "config.invalid_queue_capacity") (codes "queue_capacity must be > 0")
            ∷ [],
      returned_1,
    )
    else (
      logs
          ++ record {
            level = codes "INFO";
            event = codes "agent.start";
            message = codes "Metrics agent started";
            fields = startup_fields config;
          }
            ∷ [],
      running config,
    )

-- The second loop over the arguments, and what follows it.
unfoldable pub finish_args : List LogCall → ArgsResult → List LogCall × Started
unfolding check_start
finish_args logs (parsed config) = check_start logs config
finish_args logs (invalid_metrics error) =
    (logs ++ log_error (codes "config.invalid_metrics") error ∷ [], returned_1)
finish_args logs thrown = (logs, terminated)

-- What follows the load of the file at `path`.
unfoldable pub finish_load : List Bytes → Bytes → Loaded → List LogCall × Started
unfolding finish_args
finish_load args path loaded =
    if loaded.success then finish_args (log_loaded path ∷ []) (apply_args args loaded.config) else (
      record {
        level = codes "ERROR";
        event = codes "config.load_failed";
        message = loaded.error_message;
        fields = (codes "path", path) ∷ [];
      }
          ∷ [],
      returned_1,
    )

-- The configuration before the file, from the variable BACKEND_URL.
abbrev pub initial_config : Option Bytes → AgentConfig
initial_config none = defaults
initial_config (some backend_env) = record defaults { backend_url = backend_env }

-- The path of the file before the command line, from the variable AGENT_CONFIG.
abbrev pub initial_path : Option Bytes → Bytes
initial_path none = []
initial_path (some config_env) = config_env

unfoldable pub start_at :
    List Bytes → (Bytes → Option Bytes) → AgentConfig → Bytes → List LogCall × Started
unfolding finish_load
start_at args read_file config [] = finish_args [] (apply_args args config)
start_at args read_file config (c ∷ path) =
    finish_load args (c ∷ path) (load_agent_config_file (read_file (c ∷ path)) (c ∷ path) config [])

-- `main` up to its threads: the calls of `log_event`, and how it ends.
unfoldable pub start_main :
    Option Bytes → Option Bytes → List Bytes → (Bytes → Option Bytes) → List LogCall × Started
unfolding start_at
start_main backend_env config_env args read_file =
    start_at args read_file (initial_config backend_env)
      (scan_config args (initial_path config_env))
