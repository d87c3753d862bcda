-- ===== src/Selection.antt =====
-- agent/include/metrics_collector.h: which metrics are collected.
use real_time_system_metrics.Base.{Bool, true}

pub record MetricsSelection : Type 0 where
  pub total_cpu : Bool
  pub per_core_cpu : Bool
  pub system_memory : Bool
  pub top_processes : Bool
  pub process_threads : Bool
  pub process_io : Bool
  pub process_handles : Bool

-- `MetricsSelection{}`
abbrev pub default_selection : MetricsSelection
default_selection = record {
  total_cpu = true;
  per_core_cpu = true;
  system_memory = true;
  top_processes = true;
  process_threads = true;
  process_io = true;
  process_handles = true;
}
