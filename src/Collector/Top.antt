-- ===== src/Collector/Top.antt =====
-- The processes of a snapshot, from the files of /proc to their order.
use real_time_system_metrics.Double.{Double}
