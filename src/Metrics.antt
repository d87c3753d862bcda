-- ===== src/Metrics.antt =====
-- agent/include/metrics_collector.h: one snapshot of the system.
use real_time_system_metrics.Base.{List, ℤ}
use real_time_system_metrics.Processes.{ProcessMetrics}

pub record SystemMetrics (W : Type 0) : Type 0 where
  pub timestamp : ℤ
  pub total_cpu_percent : W
  pub per_core_cpu_percent : List W
  pub system_memory_total_mb : W
  pub system_memory_used_mb : W
  pub top_processes : List (ProcessMetrics W)
