-- ===== src/HttpClient/Tests.antt =====
-- The client's theorem at a concrete input, and the payloads of the unit tests.
use real_time_system_metrics.Base.{◌≡◌, refl, [], ◌∷◌, Option, none, some, Bytes, codes, pos}
use real_time_system_metrics.Double.Fixed.{Fixed, fixed_double}
use real_time_system_metrics.Processes.{ProcessMetrics}
use real_time_system_metrics.Metrics.{SystemMetrics}
use real_time_system_metrics.CppStd.Numbers.{int_to_string}
use real_time_system_metrics.HttpClient.{metrics_to_json}
use real_time_system_metrics.HttpClient.Curl.{Sends, client_calls}
use real_time_system_metrics.HttpClient.Usage.{down, use_calls, requests_at, client_calls-IsSound}
use real_time_system_metrics.HttpClient.Printed.{fixed-IsPrintable}
use real_time_system_metrics.HttpClient.Tokens.{IsWritable}
use real_time_system_metrics.HttpClient.RoundTrip.{
  read_payload, texts, read_payload-metrics_to_json,
}
use real_time_system_metrics.HttpClient.Send.{
  Client, new_client, Transfer, url_of, send_metrics, IsReported, send_metrics-IsReported,
}

abbrev proc1 : ProcessMetrics Fixed
proc1 = record {
  pid = pos 123;
  name = codes "proc1";
  cpu_percent = some 1_200_000;
  memory_mb = some 10_000_000;
  thread_count = pos 6;
  io_read_mb = some 120_000_000;
  io_write_mb = some 80_000_000;
  handle_count = pos 90;
}

abbrev pub snapshot : SystemMetrics Fixed
snapshot = record {
  timestamp = pos 1_700_000_000;
  total_cpu_percent = some 12_350_000;
  per_core_cpu_percent = some 10_000_000 ∷ some 15_500_000 ∷ [];
  system_memory_total_mb = some 16_000_000_000;
  system_memory_used_mb = some 8_000_250_000;
  top_processes = proc1 ∷ [];
}

payload :
    metrics_to_json snapshot
    ≡ codes
        "{\"timestamp\":1700000000,\"total_cpu_percent\":12.35,\"per_core_cpu_percent\":[10.00,15.50],\"system_memory_total_mb\":16000.00,\"system_memory_used_mb\":8000.25,\"top_processes\":[{\"pid\":123,\"name\":\"proc1\",\"cpu_percent\":1.20,\"memory_mb\":10.00,\"thread_count\":6,\"io_read_mb\":120.00,\"io_write_mb\":80.00,\"handle_count\":90}]}"
unfolding metrics_to_json int_to_string
payload = refl

-- A backend that answers 503 in two chunks.
abbrev pub busy : Bytes → Bytes → Option Transfer
busy url body = some (record {
  result = none;
  response_code = pos 503;
  curl_error = [];
  chunks = codes "try " ∷ codes "later" ∷ [];
})

abbrev pub client : Client
client = new_client (codes "http://b:1")

busy_message :
    (send_metrics busy snapshot client).1.last_error_message
    ≡ codes "Backend returned HTTP 503 with response: try later"
unfolding send_metrics int_to_string
busy_message = refl

send_metrics-IsReported_example :
    let r = send_metrics busy snapshot client in
    IsReported client (busy (url_of client) (metrics_to_json snapshot)) r.0 r.1
send_metrics-IsReported_example = send_metrics-IsReported busy snapshot client

snapshot-IsWritable : IsWritable snapshot
snapshot-IsWritable = record {
  total_cpu_percent = fixed-IsPrintable 12_350_000;
  per_core_cpu_percent = (fixed-IsPrintable 10_000_000, (fixed-IsPrintable 15_500_000, tt));
  system_memory_total_mb = fixed-IsPrintable 16_000_000_000;
  system_memory_used_mb = fixed-IsPrintable 8_000_250_000;
  top_processes = (
    (
      (refl, (refl, (refl, (refl, (refl, tt))))),
      fixed-IsPrintable 1_200_000,
      fixed-IsPrintable 10_000_000,
      fixed-IsPrintable 120_000_000,
      fixed-IsPrintable 80_000_000,
    ),
    tt,
  );
}

read_payload-metrics_to_json_example :
    read_payload (metrics_to_json snapshot) ≡ some (texts snapshot)
read_payload-metrics_to_json_example =
    read_payload-metrics_to_json snapshot snapshot-IsWritable (refl, refl)
      (((refl, refl), (refl, refl), (refl, refl)), tt)

-- A send without a handle, and one that the backend answers with 503.
abbrev two_sends : Sends Fixed
two_sends = ((λ url body. none), snapshot) ∷ (busy, snapshot) ∷ []

client_calls-IsSound_example :
    use_calls (client_calls two_sends (codes "http://b:1")) (down [])
    ≡ some (down (requests_at (codes "http://b:1/ingest/metrics") two_sends))
client_calls-IsSound_example = client_calls-IsSound two_sends (codes "http://b:1")
