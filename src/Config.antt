-- ===== src/Config.antt =====
-- agent/src/agent_config.cpp and agent/include/agent_config.h: the configuration and its file.
-- The file system is outside: a load gets the text of the file, or `none` where it cannot be opened.
pub mod Text
pub mod Extract
pub mod Lines
pub mod Yaml
pub mod Numbers
pub mod Written
pub mod RoundTrip
pub mod Valid
pub mod Tests
use real_time_system_metrics.Base.{
  ℕ, Bool, true, false, List, [], ◌∷◌, ◌++◌, Option, none, some, Bytes, codes, ◌==◌, if◌then◌else◌,
  ℤ, pos, leb_ℤ, ltb_ℤ,
}
use real_time_system_metrics.Selection.{MetricsSelection, default_selection}
use Text.{trim, parse_bool_text, parse_int_text, parse_size_text}
use Extract.{extract_value}

pub record AgentConfig : Type 0 where
  pub backend_url : Bytes
  pub interval_seconds : ℤ
  pub backend_enabled : Bool
  pub queue_capacity : ℕ
  pub selection : MetricsSelection

-- `AgentConfig::defaults()`
abbrev pub defaults : AgentConfig
defaults = record {
  backend_url = codes "http://localhost:8000";
  interval_seconds = pos 2;
  backend_enabled = true;
  queue_capacity = 32;
  selection = default_selection;
}

unfoldable pub apply_bool : Bytes → Bytes → Bool → Bool
apply_bool content key target = elim (extract_value content key) [
  | none ↦ target
  | some raw ↦ elim (parse_bool_text raw) [ none ↦ target | some parsed ↦ parsed ]
]

unfoldable pub apply_int : Bytes → Bytes → ℤ → ℤ
apply_int content key target = elim (extract_value content key) [
  | none ↦ target
  | some raw ↦ elim (parse_int_text raw) [
    | none ↦ target
    | some parsed ↦ if ltb_ℤ (pos 0) parsed then parsed else target
  ]
]

unfoldable pub apply_size : Bytes → Bytes → ℕ → ℕ
apply_size content key target = elim (extract_value content key) [
  | none ↦ target
  | some raw ↦ elim (parse_size_text raw) [ none ↦ target | some parsed ↦ parsed ]
]

unfoldable pub apply_string : Bytes → Bytes → Bytes → Bytes
apply_string content key target = elim (extract_value content key) [
  | none ↦ target
  | some raw ↦ elim (trim raw) [ [] ↦ target | c ∷ value ↦ c ∷ value ]
]

-- What a load leaves behind: its result, `config` and `error_message`.
pub record Loaded : Type 0 where
  pub success : Bool
  pub config : AgentConfig
  pub error_message : Bytes

-- The calls of `apply_…` in `load_agent_config_file`.
unfoldable pub apply_all : Bytes → AgentConfig → AgentConfig
apply_all content config = record {
  backend_url = apply_string content (codes "backend_url") config.backend_url;
  backend_enabled = apply_bool content (codes "backend_enabled") config.backend_enabled;
  interval_seconds = apply_int content (codes "interval_seconds") config.interval_seconds;
  queue_capacity = apply_size content (codes "queue_capacity") config.queue_capacity;
  selection =
      let s = config.selection in
      record {
        total_cpu = apply_bool content (codes "total_cpu") s.total_cpu;
        per_core_cpu = apply_bool content (codes "per_core_cpu") s.per_core_cpu;
        system_memory = apply_bool content (codes "system_memory") s.system_memory;
        top_processes = apply_bool content (codes "top_processes") s.top_processes;
        process_threads = apply_bool content (codes "process_threads") s.process_threads;
        process_io = apply_bool content (codes "process_io") s.process_io;
        process_handles = apply_bool content (codes "process_handles") s.process_handles;
      };
}

-- The two tests at the end.
unfoldable pub check_config : AgentConfig → Bytes → Loaded
check_config config error_message =
    if leb_ℤ config.interval_seconds (pos 0)
    then record {
      success = false;
      config = config;
      error_message = codes "interval_seconds must be greater than 0";
    }
    else if config.queue_capacity == 0
    then record {
      success = false;
      config = config;
      error_message = codes "queue_capacity must be greater than 0";
    }
    else record { success = true; config = config; error_message = error_message }

unfoldable pub load_agent_config_file : Option Bytes → Bytes → AgentConfig → Bytes → Loaded
unfolding check_config
load_agent_config_file none path config error_message = record {
  success = false;
  config = config;
  error_message = codes "Unable to open config file: " ++ path;
}
load_agent_config_file (some []) path config error_message = record {
  success = false;
  config = config;
  error_message = codes "Config file is empty: " ++ path;
}
load_agent_config_file (some (c ∷ content)) path config error_message =
    check_config (apply_all (c ∷ content) config) error_message
