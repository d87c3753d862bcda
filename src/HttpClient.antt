-- ===== src/HttpClient.antt =====
-- agent/src/http_client.cpp: the JSON of a snapshot, and its POST to the backend.
-- libcurl is outside: a send gets what libcurl did, as a `Transfer`.
pub mod Send
pub mod Curl
pub mod Usage
pub mod Lexer
pub mod Tokens
pub mod Payload
pub mod Printed
pub mod Reader
pub mod RoundTrip
pub mod Tests
use real_time_system_metrics.Base.{ℕ, List, [], ◌∷◌, ◌++◌, Bytes, codes, ◌==◌, if◌then◌else◌}
use real_time_system_metrics.Double.{Double}
use real_time_system_metrics.CppStd.Numbers.{to_string, int_to_string}
use real_time_system_metrics.Processes.{ProcessMetrics}
use real_time_system_metrics.Metrics.{SystemMetrics}

module _ {W : Type 0} ⦃d : Double W⦄ where
  -- The loop over the cores: a comma behind each value but the last.
  unfoldable pub write_cores : List W → Bytes → Bytes
  write_cores [] json = json
  write_cores (x ∷ []) json = json ++ d.fixed_2 x
  write_cores (x ∷ y ∷ rest) json = write_cores (y ∷ rest) (json ++ d.fixed_2 x ++ codes ",")

  -- The body of the loop over the processes, up to its closing brace. The name is written as it is.
  unfoldable pub process_to_json : ProcessMetrics W → Bytes
  process_to_json proc =
      codes "{"
      ++ (codes "\"pid\":" ++ int_to_string proc.pid ++ codes ",")
      ++ (codes "\"name\":\"" ++ proc.name ++ codes "\",")
      ++ (codes "\"cpu_percent\":" ++ d.fixed_2 proc.cpu_percent ++ codes ",")
      ++ (codes "\"memory_mb\":" ++ d.fixed_2 proc.memory_mb ++ codes ",")
      ++ (codes "\"thread_count\":" ++ int_to_string proc.thread_count ++ codes ",")
      ++ (codes "\"io_read_mb\":" ++ d.fixed_2 proc.io_read_mb ++ codes ",")
      ++ (codes "\"io_write_mb\":" ++ d.fixed_2 proc.io_write_mb ++ codes ",")
      ++ (codes "\"handle_count\":" ++ int_to_string proc.handle_count)
      ++ codes "}"

  unfoldable pub write_processes : List (ProcessMetrics W) → Bytes → Bytes
  unfolding process_to_json
  write_processes [] json = json
  write_processes (p ∷ []) json = json ++ process_to_json p
  write_processes (p ∷ q ∷ rest) json =
      write_processes (q ∷ rest) (json ++ process_to_json p ++ codes ",")

  unfoldable pub metrics_to_json : SystemMetrics W → Bytes
  unfolding write_cores write_processes
  metrics_to_json metrics =
      let cores = write_cores metrics.per_core_cpu_percent (
        codes "{"
        ++ (codes "\"timestamp\":" ++ int_to_string metrics.timestamp ++ codes ",")
        ++ (codes "\"total_cpu_percent\":" ++ d.fixed_2 metrics.total_cpu_percent ++ codes ",")
        ++ codes "\"per_core_cpu_percent\":[") in
      let processes = write_processes metrics.top_processes (
        cores
        ++ codes "],"
        ++ (codes "\"system_memory_total_mb\":"
            ++ d.fixed_2 metrics.system_memory_total_mb
            ++ codes ",")
        ++ (codes "\"system_memory_used_mb\":"
            ++ d.fixed_2 metrics.system_memory_used_mb
            ++ codes ",")
        ++ codes "\"top_processes\":[") in
      processes ++ codes "]" ++ codes "}"
